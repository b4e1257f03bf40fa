-- ===== src/Zns/Write/Append.antt =====
-- What a write promises: it appends at the write pointer or changes nothing, and keeps the zone's
-- books.
use flax.Base.{
  sub_size, ℕ, ◌≤◌, ◌<◌, ◌≡◌, ◌≢◌, ◌⊎◌, refl, Bool, true, false, arith, inl, inr, ◌==◌, add_size,
  if◌then◌else◌,
}
use flax.Zns.Zone.{
  State, empty, opened_impl, opened_expl, closed, read_only, full, offline, Local, Params, success,
  zone_to_slba,
}
use flax.Zns.Manage.Balance.{IsLocal, Balanced, Paid, open_share, active_share, zrwa_share}
use flax.Zns.Write.{
  done, stopped, zns_write_plain, zns_write_zrwa, flush_implicit, zrwa_closed, zrwa_state,
  nr_lbas_flush,
}

abbrev pub is_open : State → Bool
is_open opened_impl = true
is_open opened_expl = true
is_open _ = false

-- A write by `__zns_write`, to a zone without a random write area, that succeeds starts at the write
-- pointer and moves it by its length; the zone is then full if that is its end, and else open.
pub zns_write_plain-appends :
    (zp : Params) (zid : ℕ) (l : Local) (slba nr_lba : ℕ) {l' : Local}
    → zns_write_plain zp zid l slba nr_lba ≡ (l', done success)
    → (slba ≡ l.zone.wp)
      × (l'.zone.wp ≡ add_size l.zone.wp nr_lba)
      × (if l'.zone.wp == add_size (zone_to_slba zp zid) l.zone.zone_capacity
          then l'.zone.state ≡ full
          else is_open l'.zone.state ≡ true)
unfolding zns_write_plain
zns_write_plain-appends zp zid l slba nr_lba e = ground arith

-- A write that does not succeed changes nothing, where the zone's shares are counted.
zns_write_plain-failed :
    (zp : Params) (zid : ℕ) (l : Local) (slba nr_lba : ℕ)
    → IsLocal l
    → (zns_write_plain zp zid l slba nr_lba).1 ≢ done success
    → (zns_write_plain zp zid l slba nr_lba).0 ≡ l
unfolding zns_write_plain
zns_write_plain-failed zp zid l slba nr_lba h e = ground arith

-- A write to a zone without a random write area keeps the zone's books.
pub zns_write_plain-Balanced :
    (zp : Params) (zid : ℕ) (l : Local) (slba nr_lba : ℕ)
    → IsLocal l
    → l.zone.zrwav ≡ false
    → 0 < nr_lba
    → Balanced l (zns_write_plain zp zid l slba nr_lba).0
unfolding zns_write_plain
zns_write_plain-Balanced zp zid l slba nr_lba h z p = ground arith

-- What a write to a random write area does to the books: it keeps those of open and active
-- zones, and never gives the random write area back, not even when the zone becomes full.
pub record ZrwaWrite (l l' : Local) : Type 0 where
  pub opened : Paid l.opened (open_share l.zone.state) l'.opened (open_share l'.zone.state)
  pub active : Paid l.active (active_share l.zone.state) l'.active (active_share l'.zone.state)
  pub area_kept : l'.zrwa ≡ l.zrwa
  pub flag_kept : l'.zone.zrwav ≡ l.zone.zrwav
  pub share_falls : zrwa_share l'.zone ≤ zrwa_share l.zone
  pub unwritten : l'.zone.state ≡ empty → (l'.zone.zrwav ≡ false) × (l'.zone.wp ≡ l'.zone.zslba)

flush_implicit-ZrwaWrite :
    (zp : Params) (zid : ℕ) (l : Local) (flush : ℕ)
    → IsLocal l
    → is_open l.zone.state ≡ true
    → ZrwaWrite l (flush_implicit zp zid l flush).0
unfolding flush_implicit
flush_implicit-ZrwaWrite zp zid l flush h o = ground arith

zrwa_closed-ZrwaWrite :
    (zp : Params) (zid : ℕ) (l : Local) (flush : ℕ)
    → IsLocal l
    → l.zone.state ≡ closed
    → (zrwa_closed zp zid l flush).1 ≢ stopped
    → ZrwaWrite l (zrwa_closed zp zid l flush).0
unfolding zrwa_closed flush_implicit
zrwa_closed-ZrwaWrite zp zid l flush h o n = ground arith

not_empty : (l : Local) → IsLocal l → l.zone.zrwav ≡ true → l.zone.state ≢ empty
not_empty l h z e = ground arith

same-ZrwaWrite : (l : Local) → IsLocal l → ZrwaWrite l l
same-ZrwaWrite l h = ground arith

-- The switch, by the zone's state.
zrwa_state_open :
    (zp : Params) (zid : ℕ) (l : Local) (flush : ℕ)
    → is_open l.zone.state ≡ true
    → zrwa_state zp zid l flush ≡ flush_implicit zp zid l flush
unfolding zrwa_state
zrwa_state_open zp zid l flush o = ground arith

zrwa_state_closed :
    (zp : Params) (zid : ℕ) (l : Local) (flush : ℕ)
    → l.zone.state ≡ closed
    → zrwa_state zp zid l flush ≡ zrwa_closed zp zid l flush
unfolding zrwa_state
zrwa_state_closed zp zid l flush o = ground arith

zrwa_state_other :
    (zp : Params) (zid : ℕ) (l : Local) (flush : ℕ)
    → is_open l.zone.state ≡ false
    → l.zone.state ≢ closed
    → l.zone.state ≢ empty
    → (zrwa_state zp zid l flush).0 ≡ l
unfolding zrwa_state
zrwa_state_other zp zid l flush o c e = ground arith

state_cases :
    (s : State) → (is_open s ≡ true) ⊎ ((s ≡ closed) ⊎ ((is_open s ≡ false) × (s ≢ closed)))
state_cases opened_impl = inl refl
state_cases opened_expl = inl refl
state_cases closed = inr (inl refl)
state_cases empty = inr (inr (refl, λ e. ground arith))
state_cases full = inr (inr (refl, λ e. ground arith))
state_cases read_only = inr (inr (refl, λ e. ground arith))
state_cases offline = inr (inr (refl, λ e. ground arith))

zrwa_state-ZrwaWrite :
    (zp : Params) (zid : ℕ) (l : Local) (flush : ℕ)
    → IsLocal l
    → l.zone.zrwav ≡ true
    → (zrwa_state zp zid l flush).1 ≢ stopped
    → ZrwaWrite l (zrwa_state zp zid l flush).0
zrwa_state-ZrwaWrite zp zid l flush h z n = elim (state_cases l.zone.state) [
  | inl o ↦ rw (zrwa_state_open zp zid l flush o) (flush_implicit-ZrwaWrite zp zid l flush h o)
  | inr (inl c) ↦
      rw (zrwa_state_closed zp zid l flush c)
        (zrwa_closed-ZrwaWrite zp zid l flush h c (rw (← zrwa_state_closed zp zid l flush c) n))
  | inr (inr (o, c)) ↦
      rw (zrwa_state_other zp zid l flush o c (not_empty l h z)) (same-ZrwaWrite l h)
]

-- The guards of the write: it comes to the switch, or changes nothing.
zns_write_zrwa-cases :
    (zp : Params) (zid : ℕ) (l : Local) (slba nr_lba : ℕ)
    → ((zns_write_zrwa zp zid l slba nr_lba).0 ≡ l)
      ⊎ (zns_write_zrwa zp zid l slba nr_lba
          ≡ zrwa_state zp zid l
              (nr_lbas_flush zp zid l.zone.wp (sub_size (add_size slba nr_lba) 1)))
unfolding zns_write_zrwa
zns_write_zrwa-cases zp zid l slba nr_lba = ground arith

-- A write to a random write area leaves the area with the zone, whatever becomes of the zone, and
-- keeps the books of open and active zones, unless it runs into the failed assertion.
pub zns_write_zrwa-ZrwaWrite :
    (zp : Params) (zid : ℕ) (l : Local) (slba nr_lba : ℕ)
    → IsLocal l
    → l.zone.zrwav ≡ true
    → (zns_write_zrwa zp zid l slba nr_lba).1 ≢ stopped
    → ZrwaWrite l (zns_write_zrwa zp zid l slba nr_lba).0
zns_write_zrwa-ZrwaWrite zp zid l slba nr_lba h z n =
    elim (zns_write_zrwa-cases zp zid l slba nr_lba) [
      | inl e ↦ rw e (same-ZrwaWrite l h)
      | inr e ↦ rw e (zrwa_state-ZrwaWrite zp zid l _ h z (rw (← e) n))
    ]
