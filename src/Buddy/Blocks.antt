-- ===== src/Buddy/Blocks.antt =====
-- The abstract view of the buddy tree: the list of its allocated blocks in address order, and the
-- well-formedness of a tree over a range of the pool.
use flax.Base.{ℕ, ◌+◌, ◌/◌, ◌≤◌, ◌<◌, max, ◌≡◌, refl, true, false, ◌&&◌, List, [], ◌∷◌, ◌++◌, arith}
use flax.Buddy.{free, alloc, Node, leaf, split, is_free}

pub record Block : Type 0 where
  pub idx : ℕ
  pub size : ℕ
  pub act : ℕ

-- The allocated blocks, from low to high indices.
abbrev pub blocks : Node → List Block
blocks (leaf free idx size act) = []
blocks (leaf alloc idx size act) = record { idx = idx; size = size; act = act } ∷ []
blocks (split idx size act l r) = blocks l ++ blocks r

-- The size of the largest free node.
abbrev pub largest : Node → ℕ
largest (leaf free idx size act) = size
largest (leaf alloc idx size act) = 0
largest (split idx size act l r) = max (largest l) (largest r)

-- The tree covers the `n` bytes from `i` on: each half of a split node is half as long, a block is
-- never twice as long as what was asked for, and two free buddies are always merged.
abbrev pub Covers : ℕ → ℕ → Node → Type 0
Covers i n (leaf free idx size act) = (idx ≡ i) × (size ≡ n)
Covers i n (leaf alloc idx size act) = (idx ≡ i) × (size ≡ n) × (act ≤ size) × (size / 2 < act)
Covers i n (split idx size act l r) =
    (idx ≡ i)
    × (size ≡ n)
    × Covers i (n / 2) l
    × Covers (i + n / 2) (n / 2) r
    × (is_free l && is_free r ≡ false)

-- The blocks lie in `[lo, hi)`, in order, and no two of them overlap.
abbrev pub Packed : ℕ → List Block → ℕ → Type 0
Packed lo [] hi = lo ≤ hi
Packed lo (b ∷ bs) hi =
    (lo ≤ b.idx) × (b.act ≤ b.size) × (0 < b.act) × Packed (b.idx + b.size) bs hi

pub Packed-le : (lo hi : ℕ) (bs : List Block) → Packed lo bs hi → lo ≤ hi
Packed-le lo hi [] h = h
Packed-le lo hi (b ∷ bs) h = omega (arith, Packed-le (b.idx + b.size) hi bs h.3)

pub Packed-append :
    (lo mid hi : ℕ) (xs ys : List Block)
    → Packed lo xs mid
    → Packed mid ys hi
    → Packed lo (xs ++ ys) hi
Packed-append lo mid hi [] [] h k = omega arith
Packed-append lo mid hi [] (b ∷ ys) h k = (omega arith, k.1, k.2, k.3)
Packed-append lo mid hi (b ∷ xs) ys h k =
    (h.0, h.1, h.2, Packed-append (b.idx + b.size) mid hi xs ys h.3 k)

Packed-weaken : (lo hi hi' : ℕ) (xs : List Block) → Packed lo xs hi → hi ≤ hi' → Packed lo xs hi'
Packed-weaken lo hi hi' [] h k = omega arith
Packed-weaken lo hi hi' (b ∷ xs) h k =
    (h.0, h.1, h.2, Packed-weaken (b.idx + b.size) hi hi' xs h.3 k)

-- The allocated blocks of a well-formed tree lie inside its range, in order, and never overlap;
-- each is at least as long as what was asked for.
pub Covers-Packed : (t : Node) (i n : ℕ) → Covers i n t → Packed i (blocks t) (i + n)
Covers-Packed (leaf free idx size act) i n h = omega arith
Covers-Packed (leaf alloc idx size act) i n h = omega arith
Covers-Packed (split idx size act l r) i n h =
    Packed-append i (i + n / 2) (i + n) (blocks l) (blocks r) (Covers-Packed l i (n / 2) h.2) (
      Packed-weaken (i + n / 2) (i + n / 2 + n / 2) (i + n) (blocks r)
        (Covers-Packed r (i + n / 2) (n / 2) h.3) (omega arith))

pub blocks_of_free : (t : Node) → is_free t ≡ true → blocks t ≡ []
blocks_of_free (leaf free idx size act) h = refl
blocks_of_free (leaf alloc idx size act) h = ground arith
blocks_of_free (split idx size act l r) h = ground arith
