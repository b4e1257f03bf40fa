-- ===== src/Zns/Manage/Balance.antt =====
-- Each command pays for what it does: the change of a resource's count is the change of the zone's
-- share in it.
use flax.Base.{ℕ, ◌+◌, ◌≤◌, ◌<◌, ◌≡◌, Bool, true, false, not, arith, Bool-cases, inl, inr, ◌==◌}
use flax.Zns.Zone.{State, empty, opened_impl, opened_expl, closed, Resource, Zone, Local, Params}
use flax.Zns.Manage.{
  zmgmt_send_close_zone, zmgmt_send_finish_zone, zmgmt_send_open_zone, zmgmt_send_reset_zone,
  zmgmt_send_offline_zone, zmgmt_send_flush_explicit_zrwa, zmgmt_send,
}

-- What a zone holds of each resource.
abbrev pub open_share : State → ℕ
open_share opened_impl = 1
open_share opened_expl = 1
open_share _ = 0

abbrev pub active_share : State → ℕ
active_share opened_impl = 1
active_share opened_expl = 1
active_share closed = 1
active_share _ = 0

abbrev pub zrwa_share : Zone → ℕ
zrwa_share z = elim z.zrwav [ true ↦ active_share z.state | false ↦ 0 ]

-- A resource that holds the share, and whose counter cannot wrap.
pub record IsBacked (share : ℕ) (r : Resource) : Type 0 where
  pub held : share ≤ r.acquired_cnt
  pub within : r.acquired_cnt ≤ r.total_cnt
  pub fits : r.total_cnt < 4294967296

-- The zone's shares are counted, and an empty zone has no random write area and is not written.
pub record IsLocal (l : Local) : Type 0 where
  pub opened : IsBacked (open_share l.zone.state) l.opened
  pub active : IsBacked (active_share l.zone.state) l.active
  pub zrwa : IsBacked (zrwa_share l.zone) l.zrwa
  pub unwritten : l.zone.state ≡ empty → (l.zone.zrwav ≡ false) × (l.zone.wp ≡ l.zone.zslba)

-- From one resource and share to another.
pub record Paid (r : Resource) (share : ℕ) (r' : Resource) (share' : ℕ) : Type 0 where
  pub paid : r'.acquired_cnt + share ≡ r.acquired_cnt + share'
  pub total : r'.total_cnt ≡ r.total_cnt
  pub within : r'.acquired_cnt ≤ r'.total_cnt

pub record Balanced (l l' : Local) : Type 0 where
  pub opened : Paid l.opened (open_share l.zone.state) l'.opened (open_share l'.zone.state)
  pub active : Paid l.active (active_share l.zone.state) l'.active (active_share l'.zone.state)
  pub zrwa : Paid l.zrwa (zrwa_share l.zone) l'.zrwa (zrwa_share l'.zone)
  pub unwritten : l'.zone.state ≡ empty → (l'.zone.zrwav ≡ false) × (l'.zone.wp ≡ l'.zone.zslba)

close-Balanced : (l : Local) → IsLocal l → Balanced l (zmgmt_send_close_zone l).0
unfolding zmgmt_send_close_zone
close-Balanced l h = ground arith

finish-Balanced : (l : Local) → IsLocal l → Balanced l (zmgmt_send_finish_zone l).0
unfolding zmgmt_send_finish_zone
finish-Balanced l h = ground arith

open-Balanced : (l : Local) (zrwa : Bool) → IsLocal l → Balanced l (zmgmt_send_open_zone l zrwa).0
unfolding zmgmt_send_open_zone
open-Balanced l zrwa h = ground arith

reset-Balanced : (l : Local) → IsLocal l → Balanced l (zmgmt_send_reset_zone l).0
unfolding zmgmt_send_reset_zone
reset-Balanced l h = ground arith

offline-Balanced : (l : Local) → IsLocal l → Balanced l (zmgmt_send_offline_zone l).0
unfolding zmgmt_send_offline_zone
offline-Balanced l h = ground arith

flush-Balanced :
    (zp : Params) (zid : ℕ) (l : Local) (slba : ℕ)
    → IsLocal l
    → Balanced l (zmgmt_send_flush_explicit_zrwa zp zid l slba).0
unfolding zmgmt_send_flush_explicit_zrwa
flush-Balanced zp zid l slba h = ground arith

-- Every zone management command keeps the zone's books.
pub zmgmt_send-Balanced :
    (zp : Params) (zid : ℕ) (l : Local) (slba action option : ℕ)
    → IsLocal l
    → Balanced l (zmgmt_send zp zid l slba action option).0
unfolding zmgmt_send
zmgmt_send-Balanced zp zid l slba action option h = elim (Bool-cases (action == 1)) [
  | inl a ↦ rw a (close-Balanced l h)
  | inr a ↦ rw a (elim (Bool-cases (action == 2)) [
    | inl b ↦ rw b (finish-Balanced l h)
    | inr b ↦ rw b (elim (Bool-cases (action == 3)) [
      | inl c ↦ rw c (open-Balanced l (not (option == 0)) h)
      | inr c ↦ rw c (elim (Bool-cases (action == 4)) [
        | inl d ↦ rw d (reset-Balanced l h)
        | inr d ↦ rw d (elim (Bool-cases (action == 5)) [
          | inl e ↦ rw e (offline-Balanced l h)
          | inr e ↦ rw e (elim (Bool-cases (action == 17)) [
            | inl f ↦ rw f (flush-Balanced zp zid l slba h)
            | inr f ↦ rw f (unchanged l h)
          ])
        ])
      ])
    ])
  ])
]
  where
    unchanged : (l : Local) → IsLocal l → Balanced l l
    unchanged l h = ground arith
