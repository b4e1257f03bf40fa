-- ===== src/Zns/Device.antt =====
-- The namespace as a whole: initialisation (zns_ftl.c), and the commands on its zones.
pub mod Counts
pub mod Sends
pub mod Writes
mod Tests
use flax.Base.{
  ℕ, zero, suc, ◌+◌, ◌*◌, ◌/◌, Bool, true, false, Option, none, some, List, [], ◌∷◌, get_elem?, set,
  ltb, if◌then◌else◌, add_size, u32, mul_size,
}
use flax.Zns.Zone.{
  State, empty, Status, success, Zone, Local, Resource, Buffer, buffer_allocate, Params,
  lba_to_zone, zone_to_slba,
}
use flax.Zns.Manage.{zmgmt_send}
use flax.Zns.Write.{Outcome, retry, zns_write_plain, zns_write_zrwa}

-- `struct zns_ftl`, with the write buffer of its SSD, and the pages of a zone.
pub record Zns : Type 0 where
  pub zp : Params
  pub secs_per_pg : ℕ
  pub zone_pages : ℕ
  pub active : Resource
  pub opened : Resource
  pub zrwa : Resource
  pub zones : List Zone
  pub write_buffer : Buffer

-- `__init_descriptor`, from the zone that starts at `zslba`.
pub init_descriptor : Params → ℕ → ℕ → List Zone
init_descriptor zp zero zslba = []
init_descriptor zp (suc n) zslba =
    record {
      state = empty;
      zrwav = false;
      zone_capacity = zp.zone_lbas;
      zslba = zslba;
      wp = zslba;
      buffer = record { initial = zp.zrwa_buffer_size; remaining = zp.zrwa_buffer_size };
    }
    ∷ init_descriptor zp n (add_size zslba zp.zone_lbas)

-- `zns_init_ftl`, and in it `__init_resource`: each kind of resource is there once for each zone.
unfoldable pub zns_init_ftl : Params → ℕ → ℕ → Buffer → Zns
unfolding init_descriptor
zns_init_ftl zp secs_per_pg zone_pages write_buffer =
    let all : Resource = record { acquired_cnt = 0; total_cnt = zp.nr_zones } in
    record {
      zp = zp;
      secs_per_pg = secs_per_pg;
      zone_pages = zone_pages;
      active = all;
      opened = all;
      zrwa = all;
      zones = init_descriptor zp zp.nr_zones 0;
      write_buffer = write_buffer;
    }

abbrev pub local_of : Zns → Zone → Local
local_of d z = record { active = d.active; opened = d.opened; zrwa = d.zrwa; zone = z }

abbrev pub put_local : Zns → ℕ → Local → Zns
put_local d zid l = record d {
  active = l.active;
  opened = l.opened;
  zrwa = l.zrwa;
  zones = set d.zones zid l.zone;
}

-- An operation on `zone_descs[zid]`; `none` is an access beyond the array, which the code does not
-- test for.
abbrev pub on_zone {ℓ} : {A : Type ℓ} → Zns → ℕ → (Local → Local × A) → Option (Zns × A)
on_zone d zid f = elim (get_elem? d.zones zid) [
  | none ↦ none
  | some z ↦ some (put_local d zid (f (local_of d z)).0, (f (local_of d z)).1)
]

-- `__zmgmt_send`
unfoldable pub send_one : Zns → ℕ → ℕ → ℕ → Option (Zns × Option Status)
send_one d slba action option =
    on_zone d (lba_to_zone d.zp slba)
      λ l. zmgmt_send d.zp (lba_to_zone d.zp slba) l slba action option

-- The loop of `zns_zmgmt_send` over all zones, from zone `zid` on.
unfoldable pub send_all : ℕ → Zns → ℕ → ℕ → ℕ → Option Zns
unfolding send_one
send_all zero d zid action option = some d
send_all (suc n) d zid action option = elim (send_one d (zone_to_slba d.zp zid) action option) [
  | none ↦ none
  | some (d', _) ↦ send_all n d' (zid + 1) action option
]

-- `zns_zmgmt_send`
unfoldable pub zns_zmgmt_send : Zns → ℕ → ℕ → ℕ → Bool → Option (Zns × Option Status)
unfolding send_one send_all
zns_zmgmt_send d slba action option select_all =
    if select_all
    then elim (send_all d.zp.nr_zones d 0 action option) [
      | none ↦ none
      | some d' ↦ some (d', some success)
    ]
    else send_one d slba action option

-- The choice at the end of `zns_write`.
abbrev pub write_kind : Params → ℕ → Bool → ℕ → ℕ → Local → Local × Outcome
write_kind zp zid zrwav slba nr_lba l =
    if zrwav then zns_write_zrwa zp zid l slba nr_lba else zns_write_plain zp zid l slba nr_lba

-- The kind of the zone is read at the zone of the command's first page.
unfoldable pub write_zone : Zns → ℕ → ℕ → Option (Zns × Outcome)
write_zone d slba nr_lba = elim (get_elem? d.zones (u32 (slba / d.secs_per_pg / d.zone_pages))) [
  | none ↦ none
  | some z ↦
      on_zone d (lba_to_zone d.zp slba)
        (write_kind d.zp (lba_to_zone d.zp slba) z.zrwav slba nr_lba)
]

-- `zns_write`, where `length` is one less than the number of blocks.
unfoldable pub zns_write : Zns → ℕ → ℕ → Option (Zns × Outcome)
unfolding write_zone
zns_write d slba length =
    let nr_lba = u32 (length + 1) in
    let (buffer, got) = buffer_allocate d.write_buffer (u32 (mul_size nr_lba 512)) in
    let d' = record d { write_buffer = buffer } in
    if ltb got (mul_size nr_lba 512) then some (d', retry) else write_zone d' slba nr_lba
