-- ===== src/Zns/Device/Writes.antt =====
-- The books of the namespace across writes.
use flax.Base.{
  ◌-◌, ℕ, ◌+◌, ◌/◌, ◌≤◌, ◌<◌, ◌≡◌, ◌≢◌, refl, true, false, none, some, get_elem?, arith,
  Option-cases, Bool-cases, inl, inr, ap, sym, ◌∙◌, u32, mul_size, ltb,
}
use mathlib.Core.Path.{subst}
use flax.Zns.Zone.{full, Zone, Local, Buffer, buffer_allocate, lba_to_zone}
use flax.Zns.Manage.Balance.{active_share, zrwa_share}
use flax.Zns.Write.{Outcome, retry, stopped, zns_write_plain, zns_write_zrwa}
use flax.Zns.Write.Append.{ZrwaWrite, zns_write_plain-Balanced, zns_write_zrwa-ZrwaWrite}
use flax.Zns.Device.{Zns, local_of, put_local, on_zone, write_kind, write_zone, zns_write}
use flax.Zns.Device.Counts.{
  IsCounted, IsCounted-IsLocal, Balanced-IsCounted, ZrwaWrite-IsCounted, some_inj, none-some,
  share_le_one,
}

-- Random write areas can only be lost, one by a write.
abbrev pub AtMostOneLost : ℕ → Zns → Type 0
AtMostOneLost lost d = (lost' : ℕ) × (lost ≤ lost') × (lost' ≤ lost + 1) × IsCounted lost' d

lost_some :
    (lost : ℕ) (d : Zns) (zid : ℕ) (z : Zone) (l' : Local)
    → IsCounted lost d
    → get_elem? d.zones zid ≡ some z
    → ZrwaWrite (local_of d z) l'
    → AtMostOneLost lost (put_local d zid l')
lost_some lost d zid z l' c e b = (
  lost + (zrwa_share z - zrwa_share l'.zone),
  omega arith,
  omega (arith, share_le_one z),
  ZrwaWrite-IsCounted lost d zid z l' c e b,
)

write_kind-IsCounted :
    (lost : ℕ) (d : Zns) (zid : ℕ) (z : Zone) (slba nr_lba : ℕ)
    → IsCounted lost d
    → get_elem? d.zones zid ≡ some z
    → 0 < nr_lba
    → (write_kind d.zp zid z.zrwav slba nr_lba (local_of d z)).1 ≢ stopped
    → AtMostOneLost lost
        (put_local d zid (write_kind d.zp zid z.zrwav slba nr_lba (local_of d z)).0)
write_kind-IsCounted lost d zid z slba nr_lba c found p n = elim (Bool-cases z.zrwav) [
  | inl area ↦
      subst
        (λ b.
          AtMostOneLost lost (put_local d zid (write_kind d.zp zid b slba nr_lba (local_of d z)).0))
        (sym area)
        (lost_some lost d zid z (zns_write_zrwa d.zp zid (local_of d z) slba nr_lba).0 c found (
          zns_write_zrwa-ZrwaWrite d.zp zid (local_of d z) slba nr_lba
            (IsCounted-IsLocal lost d zid z c found) area
            (subst (λ b. (write_kind d.zp zid b slba nr_lba (local_of d z)).1 ≢ stopped) area n)))
  | inr plain ↦
      subst
        (λ b.
          AtMostOneLost lost (put_local d zid (write_kind d.zp zid b slba nr_lba (local_of d z)).0))
        (sym plain)
        (
          lost,
          omega arith,
          omega arith,
          Balanced-IsCounted lost d zid z (zns_write_plain d.zp zid (local_of d z) slba nr_lba).0 c
              found
              (zns_write_plain-Balanced d.zp zid (local_of d z) slba nr_lba
                (IsCounted-IsLocal lost d zid z c found) plain p),
        )
]

write_zone_found :
    (d : Zns) (slba nr_lba : ℕ) (z : Zone)
    → u32 (slba / d.secs_per_pg / d.zone_pages) ≡ lba_to_zone d.zp slba
    → get_elem? d.zones (lba_to_zone d.zp slba) ≡ some z
    → write_zone d slba nr_lba
      ≡ some (
        put_local d
            (lba_to_zone d.zp slba)
            (write_kind d.zp (lba_to_zone d.zp slba) z.zrwav slba nr_lba (local_of d z)).0,
        (write_kind d.zp (lba_to_zone d.zp slba) z.zrwav slba nr_lba (local_of d z)).1,
      )
unfolding write_zone
write_zone_found d slba nr_lba z agree found = rw (write_zone, agree, found, on_zone, found) refl

write_zone_out :
    (d : Zns) (slba nr_lba : ℕ)
    → u32 (slba / d.secs_per_pg / d.zone_pages) ≡ lba_to_zone d.zp slba
    → get_elem? d.zones (lba_to_zone d.zp slba) ≡ none
    → write_zone d slba nr_lba ≡ none
unfolding write_zone
write_zone_out d slba nr_lba agree found = rw (write_zone, agree, found) refl

write_zone-IsCounted :
    (lost : ℕ) (d : Zns) (slba nr_lba : ℕ) {d' : Zns} {out : Outcome}
    → IsCounted lost d
    → u32 (slba / d.secs_per_pg / d.zone_pages) ≡ lba_to_zone d.zp slba
    → 0 < nr_lba
    → write_zone d slba nr_lba ≡ some (d', out)
    → out ≢ stopped
    → AtMostOneLost lost d'
write_zone-IsCounted lost d slba nr_lba {d'} {out} c agree p e n =
    elim (Option-cases (get_elem? d.zones (lba_to_zone d.zp slba))) [
      | inl x ↦ absurd (none-some (write_zone_out d slba nr_lba agree x) e)
      | inr (z, found) ↦
          let zid : ℕ = lba_to_zone d.zp slba in
          let same = some_inj (sym (write_zone_found d slba nr_lba z agree found) ∙ e) in
          subst (λ t. AtMostOneLost lost t) (ap (λ p. p.0) same)
            (write_kind-IsCounted lost d zid z slba nr_lba c found p
              (subst (λ o. o ≢ stopped) (sym (ap (λ p. p.1) same)) n))
    ]

with_buffer :
    (lost : ℕ) (d : Zns) (b : Buffer)
    → IsCounted lost d
    → IsCounted lost (record d { write_buffer = b })
with_buffer lost d b c = record {
  opened = c.opened;
  active = c.active;
  zrwa = c.zrwa;
  unwritten = c.unwritten;
}

zns_write_retry :
    (d : Zns) (slba length : ℕ)
    → ltb
        (buffer_allocate d.write_buffer (u32 (mul_size (u32 (length + 1)) 512))).1
        (mul_size (u32 (length + 1)) 512)
      ≡ true
    → zns_write d slba length
      ≡ some (
        record d {
          write_buffer = (buffer_allocate d.write_buffer (u32 (mul_size (u32 (length + 1)) 512))).0;
        },
        retry,
      )
unfolding zns_write
zns_write_retry d slba length h = rw (zns_write, h) refl

zns_write_taken :
    (d : Zns) (slba length : ℕ)
    → ltb
        (buffer_allocate d.write_buffer (u32 (mul_size (u32 (length + 1)) 512))).1
        (mul_size (u32 (length + 1)) 512)
      ≡ false
    → zns_write d slba length
      ≡ write_zone
          (record d {
            write_buffer =
                (buffer_allocate d.write_buffer (u32 (mul_size (u32 (length + 1)) 512))).0;
          })
          slba
          (u32 (length + 1))
unfolding zns_write
zns_write_taken d slba length h = rw (zns_write, h) refl

-- A write keeps the books of open and active zones exact; and it can only lose random write
-- areas, one at most. The zone of the command's first page must be that of its first block, and
-- the write must not run into the failed assertion.
pub zns_write-IsCounted :
    (lost : ℕ) (d : Zns) (slba length : ℕ) {d' : Zns} {out : Outcome}
    → IsCounted lost d
    → u32 (slba / d.secs_per_pg / d.zone_pages) ≡ lba_to_zone d.zp slba
    → length < 65536
    → zns_write d slba length ≡ some (d', out)
    → out ≢ stopped
    → AtMostOneLost lost d'
zns_write-IsCounted lost d slba length {d'} {out} c agree small e n =
    let taken : Buffer × ℕ =
      buffer_allocate d.write_buffer (u32 (mul_size (u32 (length + 1)) 512)) in
    elim (Bool-cases (ltb taken.1 (mul_size (u32 (length + 1)) 512))) [
      | inl h ↦
          subst (λ t. AtMostOneLost lost t)
            (ap (λ p. p.0) (some_inj (sym (zns_write_retry d slba length h) ∙ e)))
            (lost, omega arith, omega arith, with_buffer lost d taken.0 c)
      | inr h ↦
          write_zone-IsCounted lost (record d { write_buffer = taken.0 }) slba (u32 (length + 1))
            {out = out} (with_buffer lost d taken.0 c) agree (omega arith)
            (sym (zns_write_taken d slba length h) ∙ e) n
    ]

full_share : (z : Zone) → z.state ≡ full → zrwa_share z ≡ 0
full_share z e = ground arith

area_share : (z : Zone) → z.zrwav ≡ true → active_share z.state ≡ 1 → zrwa_share z ≡ 1
area_share z a e = ground arith

-- A write that makes an active zone with a random write area full loses the area: from then on one
-- more is acquired than the zones hold. The books were right before, but for `lost` areas.
pub zns_write_zrwa-loses :
    (lost : ℕ) (d : Zns) (zid : ℕ) (z : Zone) (slba nr_lba : ℕ)
    → IsCounted lost d
    → get_elem? d.zones zid ≡ some z
    → z.zrwav ≡ true
    → active_share z.state ≡ 1
    → (zns_write_zrwa d.zp zid (local_of d z) slba nr_lba).0.zone.state ≡ full
    → (zns_write_zrwa d.zp zid (local_of d z) slba nr_lba).1 ≢ stopped
    → IsCounted (lost + 1) (put_local d zid (zns_write_zrwa d.zp zid (local_of d z) slba nr_lba).0)
zns_write_zrwa-loses lost d zid z slba nr_lba c found has active filled n =
    let l' : Local = (zns_write_zrwa d.zp zid (local_of d z) slba nr_lba).0 in
    subst (λ k. IsCounted k (put_local d zid l'))
      (omega (arith, area_share z has active, full_share l'.zone filled))
      (ZrwaWrite-IsCounted lost d zid z l' c found (
        zns_write_zrwa-ZrwaWrite d.zp zid (local_of d z) slba nr_lba
          (IsCounted-IsLocal lost d zid z c found) has n))
