-- ===== src/Zns/Device/Sends.antt =====
-- The books of the namespace at the start, and across the management commands.
use flax.Base.{
  ℕ, zero, suc, ◌+◌, ◌<◌, ◌≡◌, refl, Bool, true, false, Option, none, some, arith, Option-cases,
  inl, inr, ap, sym, ◌∙◌, add_size,
}
use flax.Zns.Zone.{Status, success, Params, Buffer, lba_to_zone, zone_to_slba}
use mathlib.Core.Path.{subst}
use flax.Zns.Manage.{zmgmt_send}
use flax.Zns.Manage.Balance.{zrwa_share, zmgmt_send-Balanced}
use flax.Zns.Device.{
  Zns, init_descriptor, zns_init_ftl, local_of, send_one, send_all, zns_zmgmt_send,
}
use flax.Zns.Device.Counts.{
  open_of, active_of, total, AllUnwritten, IsCounted, IsCounted-IsLocal, Balanced-IsCounted,
  some_inj, none-some, on_zone-some,
}

send_one-IsCounted :
    (lost : ℕ) (d : Zns) (slba action option : ℕ) {d' : Zns} {status : Option Status}
    → IsCounted lost d
    → send_one d slba action option ≡ some (d', status)
    → IsCounted lost d'
unfolding send_one
send_one-IsCounted lost d slba action option {d'} {status} c e =
    let zid : ℕ = lba_to_zone d.zp slba in
    let (z, found, same, _) =
      on_zone-some d zid (λ l. zmgmt_send d.zp zid l slba action option) e in
    subst (λ t. IsCounted lost t) same
      (Balanced-IsCounted lost d zid z (zmgmt_send d.zp zid (local_of d z) slba action option).0 c
        found
        (zmgmt_send-Balanced d.zp zid (local_of d z) slba action option
          (IsCounted-IsLocal lost d zid z c found)))

send_all_step :
    (n : ℕ) (d mid : Zns) (zid action option : ℕ) {status : Option Status}
    → send_one d (zone_to_slba d.zp zid) action option ≡ some (mid, status)
    → send_all (suc n) d zid action option ≡ send_all n mid (zid + 1) action option
unfolding send_all
send_all_step n d mid zid action option e = rw (e, send_all) refl

send_all_out :
    (n : ℕ) (d : Zns) (zid action option : ℕ)
    → send_one d (zone_to_slba d.zp zid) action option ≡ none
    → send_all (suc n) d zid action option ≡ none
unfolding send_all
send_all_out n d zid action option e = rw (e, send_all) refl

send_all_nil : (d : Zns) (zid action option : ℕ) → send_all 0 d zid action option ≡ some d
unfolding send_all
send_all_nil d zid action option = refl

send_all-IsCounted :
    (lost n : ℕ) (d : Zns) (zid action option : ℕ) {d' : Zns}
    → IsCounted lost d
    → send_all n d zid action option ≡ some d'
    → IsCounted lost d'
send_all-IsCounted lost zero d zid action option c e =
    subst (λ t. IsCounted lost t) (some_inj (sym (send_all_nil d zid action option) ∙ e)) c
send_all-IsCounted lost (suc n) d zid action option c e =
    elim (Option-cases (send_one d (zone_to_slba d.zp zid) action option)) [
      | inl x ↦ absurd (none-some (send_all_out n d zid action option x) e)
      | inr ((mid, status), sent) ↦
          send_all-IsCounted lost n mid (zid + 1) action option
            (send_one-IsCounted lost d (zone_to_slba d.zp zid) action option {d' = mid}
              {status = status} c sent)
            (sym (send_all_step n d mid zid action option sent) ∙ e)
    ]

sent_all : Option Zns → Option (Zns × Option Status)
sent_all none = none
sent_all (some out) = some (out, some success)

all_sent :
    (o : Option Zns) {d' : Zns} {status : Option Status}
    → sent_all o ≡ some (d', status)
    → o ≡ some d'
unfolding sent_all
all_sent none e = absurd (none-some refl e)
all_sent (some out) e = ap some (ap (λ p. p.0) (some_inj e))

send_every :
    (d : Zns) (slba action option : ℕ)
    → zns_zmgmt_send d slba action option true ≡ sent_all (send_all d.zp.nr_zones d 0 action option)
unfolding zns_zmgmt_send sent_all
send_every d slba action option = elim (Option-cases (send_all d.zp.nr_zones d 0 action option)) [
  | inl n ↦ rw (n, zns_zmgmt_send) refl
  | inr (out, sent) ↦ rw (sent, zns_zmgmt_send) refl
]

-- Every zone management command that stays within the zones, to one zone or to all, keeps the books
-- of the namespace: the counts of open and active zones are what the zones hold, and that of
-- random write areas is what they hold and what was lost before.
pub zns_zmgmt_send-IsCounted :
    (lost : ℕ) (d : Zns) (slba action option : ℕ) (select_all : Bool) {d' : Zns}
    {status : Option Status}
    → IsCounted lost d
    → zns_zmgmt_send d slba action option select_all ≡ some (d', status)
    → IsCounted lost d'
unfolding zns_zmgmt_send
zns_zmgmt_send-IsCounted lost d slba action option false {d'} {status} c e =
    send_one-IsCounted lost d slba action option {d' = d'} {status = status} c e
zns_zmgmt_send-IsCounted lost d slba action option true {d'} {status} c e =
    send_all-IsCounted lost d.zp.nr_zones d 0 action option {d' = d'} c (
      all_sent (send_all d.zp.nr_zones d 0 action option) {status = status}
        (sym (send_every d slba action option) ∙ e))

init_counts :
    (zp : Params) (n zslba : ℕ)
    → (total open_of (init_descriptor zp n zslba) ≡ 0)
      × (total active_of (init_descriptor zp n zslba) ≡ 0)
      × (total zrwa_share (init_descriptor zp n zslba) ≡ 0)
      × AllUnwritten (init_descriptor zp n zslba)
unfolding init_descriptor
init_counts zp zero zslba = (refl, refl, refl, tt)
init_counts zp (suc n) zslba =
    let ih = init_counts zp n (add_size zslba zp.zone_lbas) in
    (omega (arith, ih.0), omega (arith, ih.1), omega (arith, ih.2), ((λ e. (refl, refl)), ih.3))

-- After initialisation with fewer than 2 ^ 32 zones the books are right, and nothing is lost.
zns_init_ftl-IsCounted :
    (zp : Params) (secs_per_pg zone_pages : ℕ) (write_buffer : Buffer)
    → zp.nr_zones < 4294967296
    → IsCounted 0 (zns_init_ftl zp secs_per_pg zone_pages write_buffer)
unfolding zns_init_ftl
zns_init_ftl-IsCounted zp secs_per_pg zone_pages write_buffer h =
    let (o, a, z, u) = init_counts zp zp.nr_zones 0 in
    record {
      opened = record { exact = sym o; within = omega arith; fits = h };
      active = record { exact = sym a; within = omega arith; fits = h };
      zrwa = record { exact = omega (arith, z); within = omega arith; fits = h };
      unwritten = u;
    }
