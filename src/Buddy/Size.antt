-- ===== src/Buddy/Size.antt =====
-- `_buddy_size` against the list of blocks, and what `_buddy_act_size` returns.
use flax.Base.{
  ℕ, ◌+◌, ◌-◌, ◌/◌, ◌≤◌, ◌<◌, ◌≡◌, refl, ◌&&◌, List, [], ◌∷◌, ◌++◌, arith, ◌==◌, leb, ltb,
  if◌then◌else◌, sym, inl, inr, Bool-cases, ltb→lt,
}
use flax.Buddy.{free, alloc, Node, leaf, split, failed, buddy_size, buddy_act_size}
use flax.Buddy.Blocks.{Block, blocks, Covers, Packed, Packed-le, Covers-Packed}

-- The bytes from `i` to the end of the block that `i` lies in.
abbrev pub rest_of : ℕ → List Block → ℕ
rest_of i [] = failed
rest_of i (b ∷ bs) =
    if leb b.idx i && ltb i (b.idx + b.size) then b.idx + b.size - i else rest_of i bs

rest_of_below : (i lo hi : ℕ) (bs : List Block) → Packed lo bs hi → i < lo → rest_of i bs ≡ failed
rest_of_below i lo hi [] p h = refl
rest_of_below i lo hi (b ∷ bs) p h = ground (arith, rest_of_below i (b.idx + b.size) hi bs p.3)

rest_of_above :
    (i lo hi : ℕ) (xs ys : List Block)
    → Packed lo xs hi
    → hi ≤ i
    → rest_of i (xs ++ ys) ≡ rest_of i ys
rest_of_above i lo hi [] ys p h = refl
rest_of_above i lo hi (b ∷ bs) ys p h =
    ground
      (arith, rest_of_above i (b.idx + b.size) hi bs ys p.3, Packed-le (b.idx + b.size) hi bs p.3)

rest_of_append :
    (i : ℕ) (xs ys : List Block) → rest_of i ys ≡ failed → rest_of i (xs ++ ys) ≡ rest_of i xs
rest_of_append i [] ys e = e
rest_of_append i (b ∷ xs) ys e = ground (arith, rest_of_append i xs ys e)

rest_of_outside : (i lo hi : ℕ) (bs : List Block) → Packed lo bs hi → hi ≤ i → rest_of i bs ≡ failed
rest_of_outside i lo hi [] p h = refl
rest_of_outside i lo hi (b ∷ bs) p h =
    ground
      (arith, rest_of_outside i (b.idx + b.size) hi bs p.3, Packed-le (b.idx + b.size) hi bs p.3)

either_way : (a : ℕ) → (if a == failed then failed else a) ≡ a
either_way a = ground arith

-- `_buddy_size` returns the bytes from the index to the end of the block that holds it, or -1
-- where the index lies in no block.
pub buddy_size-eq-rest_of :
    (t : Node) (i n j : ℕ) → Covers i n t → i + n < failed → buddy_size t j ≡ rest_of j (blocks t)
unfolding buddy_size
buddy_size-eq-rest_of (leaf free idx size act) i n j c b = refl
buddy_size-eq-rest_of (leaf alloc idx size act) i n j c b = ground arith
buddy_size-eq-rest_of (split idx size act l r) i n j c b = elim (Bool-cases (ltb j (i + n / 2))) [
  | inl low ↦
      rw
        (
          buddy_size-eq-rest_of r (i + n / 2) (n / 2) j c.3 (omega arith),
          rest_of_below j (i + n / 2) (i + n / 2 + n / 2) (blocks r) right (ltb→lt _ _ low),
          buddy_size-eq-rest_of l i (n / 2) j c.2 (omega arith),
        )
        (sym (
          rest_of_append j (blocks l) (blocks r)
            (rest_of_below j (i + n / 2) (i + n / 2 + n / 2) (blocks r) right (ltb→lt _ _ low))))
  | inr high ↦
      rw
        (
          buddy_size-eq-rest_of r (i + n / 2) (n / 2) j c.3 (omega arith),
          rest_of_above j i (i + n / 2) (blocks l) (blocks r) left (ground arith),
          buddy_size-eq-rest_of l i (n / 2) j c.2 (omega arith),
          rest_of_outside j i (i + n / 2) (blocks l) left (ground arith),
        )
        (either_way (rest_of j (blocks r)))
]
  where
    left : Packed i (blocks l) (i + n / 2)
    left = Covers-Packed l i (n / 2) c.2

    right : Packed (i + n / 2) (blocks r) (i + n / 2 + n / 2)
    right = Covers-Packed r (i + n / 2) (n / 2) c.3

-- Below a split root `_buddy_act_size` is `_buddy_size`: it returns the rest of the block, not of
-- the bytes that were asked for, for every index.
buddy_act_size_split :
    (idx size act i n j : ℕ) (l r : Node)
    → Covers i n (split idx size act l r)
    → i + n < failed
    → buddy_act_size (split idx size act l r) j ≡ rest_of j (blocks (split idx size act l r))
unfolding buddy_act_size buddy_size
buddy_act_size_split idx size act i n j l r c b =
    buddy_size-eq-rest_of (split idx size act l r) i n j c b
