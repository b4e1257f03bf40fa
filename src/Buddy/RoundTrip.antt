-- ===== src/Buddy/RoundTrip.antt =====
-- Freeing what was just allocated gives back the same allocated blocks; and a request of no bytes.
use flax.Base.{
  ℕ, zero, suc, ◌+◌, ◌≤◌, ◌<◌, ◌≡◌, refl, true, List, [], ◌∷◌, ◌++◌, arith, sym, ◌∙◌, ap, none,
  some, ◌≢◌, ◌/◌,
}
use flax.Buddy.{Node, failed, alloc_free, buddy_alloc, buddy_free, is_done}
use flax.Buddy.Blocks.{Block, blocks, Covers, Packed, Covers-Packed}
use flax.Buddy.Alloc.{Outcome, refused, placed, Allocated, buddy_alloc-Allocated}
use mathlib.Core.Path.{subst}
use flax.Buddy.Free.{without, starts, blocks-buddy_free, buddy_free-code}

without_below : (i lo hi : ℕ) (bs : List Block) → Packed lo bs hi → i < lo → without i bs ≡ bs
without_below i lo hi [] p h = refl
without_below i lo hi (b ∷ bs) p h = ground (arith, without_below i (b.idx + b.size) hi bs p.3)

Packed-middle-le :
    (lo hi : ℕ) (xs ys : List Block) (b : Block) → Packed lo (xs ++ (b ∷ ys)) hi → lo ≤ b.idx
Packed-middle-le lo hi [] ys b p = p.0
Packed-middle-le lo hi (x ∷ xs) ys b p =
    omega (arith, Packed-middle-le (x.idx + x.size) hi xs ys b p.3)

-- In a packed list no other block starts where `b` does.
without_middle :
    (lo hi : ℕ) (xs ys : List Block) (b : Block)
    → Packed lo (xs ++ (b ∷ ys)) hi
    → without b.idx (xs ++ (b ∷ ys)) ≡ xs ++ ys
without_middle lo hi [] ys b p = ground (arith, without_below b.idx (b.idx + b.size) hi ys p.3)
without_middle lo hi (x ∷ xs) ys b p = ground (
  arith,
  without_middle (x.idx + x.size) hi xs ys b p.3,
  Packed-middle-le (x.idx + x.size) hi xs ys b p.3,
)

starts_middle : (xs ys : List Block) (b : Block) → starts b.idx (xs ++ (b ∷ ys)) ≡ true
starts_middle [] ys b = ground arith
starts_middle (x ∷ xs) ys b = ground (arith, starts_middle xs ys b)

-- Freeing the index that an allocation returned succeeds, and leaves the blocks of before.
pub buddy_free-buddy_alloc :
    (t : Node) (i n req : ℕ) {t' : Node} {rt : ℕ}
    → Covers i n t
    → i + n < failed
    → 0 < req
    → buddy_alloc t req ≡ some (t', rt)
    → rt ≢ failed
    → (blocks (buddy_free t' rt).0 ≡ blocks t) × (is_done (buddy_free t' rt).1 ≡ true)
buddy_free-buddy_alloc t i n req {t'} {rt} c b p e ne =
    go a.outcome (ground (arith, a.returns, e)) (ground (arith, a.returns, e))
  where
    a : Allocated i n t req (buddy_alloc t req)
    a = buddy_alloc-Allocated t i n req c b p

    go :
        Outcome t req a.tree a.rt
        → a.tree ≡ t'
        → a.rt ≡ rt
        → (blocks (buddy_free t' rt).0 ≡ blocks t) × (is_done (buddy_free t' rt).1 ≡ true)
    go (refused s f m) et er = absurd (ne (sym er ∙ f))
    go (placed q) et er =
        let new : Block = record { idx = a.rt; size = q.size; act = req } in
        let packed : Packed i (q.below ++ (new ∷ q.above)) (i + n) =
          subst (λ bs. Packed i bs (i + n)) q.after (Covers-Packed a.tree i n a.covers) in
        rw (← et, ← er)
          (
            blocks-buddy_free a.tree a.rt
                ∙ (ap (without a.rt) q.after
                    ∙ (without_middle i (i + n) q.below q.above new packed ∙ sym q.before)),
            buddy_free-code a.tree a.rt
                ∙ (ap (starts a.rt) q.after ∙ starts_middle q.below q.above new),
          )

-- A request of no bytes never ends: with any fuel at all the descent from a free node runs out,
-- since a half of 0 or more bytes always holds 0 bytes.
pub alloc_free_zero : (fuel i n act : ℕ) → alloc_free fuel i n act 0 ≡ none
unfolding alloc_free
alloc_free_zero zero i n act = refl
alloc_free_zero (suc fuel) i n act = ground (arith, alloc_free_zero fuel i (n / 2) 0)
