-- ===== src/Slm/Frontier/Tests.antt =====
-- Runs of the frontier, and its theorems at concrete completions.
use flax.Base.{ℕ, ◌<◌, ◌≡◌, refl, true, false, some, List, [], ◌∷◌, arith}
use flax.Slm.Region.{Interval, Info}
use flax.Slm.Memory.{alloc_slm_lba_info}
use flax.Slm.Frontier.{
  coalesce, stash, put_second, to_front, take_first, absorb, settle, ht_advance_head,
}
use flax.Slm.Frontier.Pending.{covered}
use flax.Slm.Frontier.View.{Settled}
use flax.Slm.Frontier.Order.{advance_all, IsFresh, frontier_exact, frontier_order}

abbrev span : ℕ → ℕ → Interval
span a b = record { start = a; end = b }

abbrev fresh : Info
fresh = record (alloc_slm_lba_info 0 0 65536 7 []) { use_head_tail = true }

abbrev at : ℕ → List Interval → Info
at head ps = record fresh { ht_head = head; ht_pending = ps }

-- Two ranges wait beyond the frontier, and the range that closes the gap takes both with it.
advance_closes : ht_advance_head (at 0 (span 8 12 ∷ span 12 20 ∷ [])) 0 8 ≡ some (at 20 [])
unfolding ht_advance_head settle absorb take_first to_front put_second
advance_closes = refl

advance_stashes : ht_advance_head (at 0 (span 8 12 ∷ [])) 4 9 ≡ some (at 0 (span 4 12 ∷ []))
unfolding ht_advance_head settle stash coalesce absorb take_first to_front put_second
advance_stashes = refl

waiting-Settled : Settled (at 0 (span 8 12 ∷ span 12 20 ∷ []))
waiting-Settled = (omega arith, (omega arith, tt))

fresh-IsFresh : IsFresh fresh
fresh-IsFresh = record { head_zero = refl; none_pending = refl }

forwards : advance_all fresh (span 0 8 ∷ span 8 20 ∷ []) ≡ some (at 20 [])
unfolding advance_all ht_advance_head settle absorb take_first to_front put_second
forwards = refl

backwards : advance_all fresh (span 8 20 ∷ span 0 8 ∷ []) ≡ some (at 20 [])
unfolding advance_all ht_advance_head settle stash coalesce absorb take_first to_front put_second
backwards = refl

frontier_exact_example :
    ((b : ℕ) → b < 20 → covered (span 8 20 ∷ span 0 8 ∷ []) b ≡ true)
    × (covered (span 8 20 ∷ span 0 8 ∷ []) 20 ≡ false)
frontier_exact_example = frontier_exact fresh (span 8 20 ∷ span 0 8 ∷ []) fresh-IsFresh backwards

same_bytes : (b : ℕ) → covered (span 0 8 ∷ span 8 20 ∷ []) b ≡ covered (span 8 20 ∷ span 0 8 ∷ []) b
same_bytes b = ground arith

frontier_order_example : (at 20 []).ht_head ≡ (at 20 []).ht_head
frontier_order_example =
    frontier_order fresh (span 0 8 ∷ span 8 20 ∷ []) (span 8 20 ∷ span 0 8 ∷ []) fresh-IsFresh
      same_bytes forwards backwards
