-- ===== src/Buddy/Free.antt =====
-- `_buddy_free`: it removes the block that starts at the index and merges free buddies.
use flax.Base.{
  ℕ, ◌+◌, ◌/◌, ◌≡◌, refl, Bool, false, ◌&&◌, ◌||◌, List, [], ◌∷◌, ◌++◌, arith, ◌==◌, if◌then◌else◌,
  sym, ◌∙◌, ap₂, inl, inr, Bool-cases,
}
use flax.Buddy.{free, alloc, Node, leaf, split, is_free, is_done, buddy_free, Code, free_split}
use flax.Buddy.Blocks.{Block, blocks, Covers, blocks_of_free}

-- The blocks that do not start at `i`.
abbrev pub without : ℕ → List Block → List Block
without i [] = []
without i (b ∷ bs) = if b.idx == i then without i bs else b ∷ without i bs

-- Whether a block starts at `i`.
abbrev pub starts : ℕ → List Block → Bool
starts i [] = false
starts i (b ∷ bs) = b.idx == i || starts i bs

without-append : (i : ℕ) (xs ys : List Block) → without i (xs ++ ys) ≡ without i xs ++ without i ys
without-append i [] ys = refl
without-append i (b ∷ xs) ys = ground (arith, without-append i xs ys)

starts-append : (i : ℕ) (xs ys : List Block) → starts i (xs ++ ys) ≡ (starts i xs || starts i ys)
starts-append i [] ys = refl
starts-append i (b ∷ xs) ys = ground (arith, starts-append i xs ys)

-- `_buddy_free` takes away every block that starts at the index, and no other.
pub blocks-buddy_free : (t : Node) (i : ℕ) → blocks (buddy_free t i).0 ≡ without i (blocks t)
unfolding buddy_free
blocks-buddy_free (leaf free idx size act) i = refl
blocks-buddy_free (leaf alloc idx size act) i = ground arith
blocks-buddy_free (split idx size act l r) i =
    merged
    ∙ (ap₂ ◌++◌ (blocks-buddy_free l i) (blocks-buddy_free r i)
        ∙ sym (without-append i (blocks l) (blocks r)))
  where
    merged :
        blocks (buddy_free (split idx size act l r) i).0
        ≡ blocks (buddy_free l i).0 ++ blocks (buddy_free r i).0
    merged = ground (arith, blocks_of_free (buddy_free l i).0, blocks_of_free (buddy_free r i).0)

-- `_buddy_free` reports success exactly when a block starts at the index.
pub buddy_free-code : (t : Node) (i : ℕ) → is_done (buddy_free t i).1 ≡ starts i (blocks t)
unfolding buddy_free
buddy_free-code (leaf free idx size act) i = refl
buddy_free-code (leaf alloc idx size act) i = ground arith
buddy_free-code (split idx size act l r) i =
    ground (arith, buddy_free-code l i, buddy_free-code r i, starts-append i (blocks l) (blocks r))

-- Joining two well-formed halves.
free_split-Covers :
    (i n idx size act : ℕ) (l r : Node) (cl cr : Code)
    → idx ≡ i
    → size ≡ n
    → Covers i (n / 2) l
    → Covers (i + n / 2) (n / 2) r
    → Covers i n (free_split idx size act (l, cl) (r, cr)).0
free_split-Covers i n idx size act l r cl cr e f a b = elim (Bool-cases (is_free l && is_free r)) [
  | inl both ↦ rw both (e, f)
  | inr some_used ↦ rw some_used (e, f, a, b, some_used)
]

-- `_buddy_free` keeps the tree well-formed: no two free buddies are left side by side.
pub buddy_free-Covers : (t : Node) (i n j : ℕ) → Covers i n t → Covers i n (buddy_free t j).0
unfolding buddy_free
buddy_free-Covers (leaf free idx size act) i n j c = c
buddy_free-Covers (leaf alloc idx size act) i n j c = ground arith
buddy_free-Covers (split idx size act l r) i n j c =
    free_split-Covers i n idx size act (buddy_free l j).0 (buddy_free r j).0 (buddy_free l j).1
      (buddy_free r j).1 c.0 c.1 (buddy_free-Covers l i (n / 2) j c.2)
      (buddy_free-Covers r (i + n / 2) (n / 2) j c.3)
