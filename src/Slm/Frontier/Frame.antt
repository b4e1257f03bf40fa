-- ===== src/Slm/Frontier/Frame.antt =====
-- What a call of `ht_advance_head` leaves alone, and how far it moves the frontier at least.
use flax.Base.{ℕ, ◌≤◌, ◌≡◌, refl, some, List, ltb, if◌then◌else◌, arith}
use flax.Slm.Region.{Interval, Info}
use flax.Slm.Frontier.{settle, ht_advance_head}
use flax.Slm.Frontier.View.{
  Advanced, skipped, extended, stashed, ht_advance_head-Advanced, settle-Absorbed,
}

settle_frame :
    (info : Info) (head : ℕ) (ps : List Interval)
    → let info' = settle info head ps in
      info' ≡ record info { ht_head = info'.ht_head; ht_pending = info'.ht_pending }
unfolding settle
settle_frame info head ps = refl

-- `ht_advance_head` changes `ht_head` and the stashed ranges, and nothing else.
pub ht_advance_head_frame :
    (info : Info) (start end : ℕ) {info' : Info}
    → ht_advance_head info start end ≡ some info'
    → info' ≡ record info { ht_head = info'.ht_head; ht_pending = info'.ht_pending }
ht_advance_head_frame info start end {info'} e = go (ht_advance_head-Advanced info start end e)
  where
    go :
        Advanced info start end info'
        → info' ≡ record info { ht_head = info'.ht_head; ht_pending = info'.ht_pending }
    go (skipped le same) = rw same refl
    go (extended le same) = rw same (settle_frame info _ info.ht_pending)
    go (stashed qs lt found same) = rw same (settle_frame info info.ht_head qs)

-- A range that starts at or below the frontier is produced by the call that reports it.
pub ht_advance_head_reaches :
    (info : Info) (start end : ℕ) {info' : Info}
    → start ≤ info.ht_head
    → ht_advance_head info start end ≡ some info'
    → end ≤ info'.ht_head
ht_advance_head_reaches info start end {info'} near e =
    go (ht_advance_head-Advanced info start end e)
  where
    go : Advanced info start end info' → end ≤ info'.ht_head
    go (skipped le same) = rw same (omega arith)
    go (extended le same) =
        let a =
          settle-Absorbed info (if ltb info.ht_head end then end else info.ht_head)
            info.ht_pending in
        rw same (ground (arith, a.onward))
    go (stashed qs lt found same) = absurd (omega arith)
