-- ===== src/Zns/Write.antt =====
-- zns_read_write.c: what a write does to its zone. The delays of the flash are not part of this.
pub mod Append
use flax.Base.{
  ℕ, ◌+◌, ◌-◌, ◌*◌, ◌/◌, ◌%◌, Bool, true, false, ◌&&◌, ◌||◌, not, ltb, leb, ◌==◌, if◌then◌else◌,
  add_size, sub_size, mul_size, u32,
}
use flax.Zns.Zone.{
  State, empty, opened_impl, opened_expl, closed, read_only, full, offline, active_zone, open_zone,
  zrwa_zone, Status, success, err_boundary, err_full, err_read_only, err_offline, invalid_write,
  no_active_zone, no_open_zone, Zone, Local, is_zone_resource_full, acquire_zone_resource,
  release_zone_resource, change_zone_state, Buffer, buffer_allocate, Params, lba_to_zone,
  zone_to_slba, zone_to_elba,
}

-- What a write comes to: a status, a request to try again (the handler returns false), or the
-- failed NVMEV_ASSERT.
pub data Outcome : Type 0 where
  done : Status → Outcome
  retry : Outcome
  stopped : Outcome

-- `__check_boundary_error`, which is true where there is none.
abbrev pub check_boundary_error : Params → ℕ → ℕ → Bool
check_boundary_error zp slba nr_lba =
    lba_to_zone zp slba == lba_to_zone zp (sub_size (add_size slba nr_lba) 1)

-- `__increase_write_ptr`; beyond the end of the zone it only logs an error, and its ASSERT is
-- empty.
abbrev pub increase_write_ptr : Params → ℕ → Local → ℕ → Local
increase_write_ptr zp zid l nr_lba =
    let wp = add_size l.zone.wp nr_lba in
    let moved = record l { zone = record l.zone { wp = wp } } in
    if wp == add_size (zone_to_slba zp zid) l.zone.zone_capacity
    then change_zone_state
        (release_zone_resource (release_zone_resource moved open_zone) active_zone) full
    else moved

-- From `case ZONE_STATE_CLOSED` of the switch of `__zns_write` on.
abbrev pub write_closed : Params → ℕ → Local → ℕ → Local × Outcome
write_closed zp zid l nr_lba =
    let (l', got) = acquire_zone_resource l open_zone in
    if got
    then (increase_write_ptr zp zid (change_zone_state l' opened_impl) nr_lba, done success)
    else (l', done no_open_zone)

-- The switch of `__zns_write`: the last three cases fall through to the last status.
abbrev pub write_state : Params → ℕ → Local → ℕ → ℕ → Local × Outcome
write_state zp zid l slba nr_lba = elim l.zone.state [
  | empty ↦
      if not (slba == l.zone.zslba)
      then (l, done invalid_write)
      else if is_zone_resource_full l active_zone
      then (l, done no_active_zone)
      else if is_zone_resource_full l open_zone
      then (l, done no_open_zone)
      else write_closed zp zid (acquire_zone_resource l active_zone).0 nr_lba
  | closed ↦ write_closed zp zid l nr_lba
  | opened_impl ↦ (increase_write_ptr zp zid l nr_lba, done success)
  | opened_expl ↦ (increase_write_ptr zp zid l nr_lba, done success)
  | _ ↦ (l, done err_offline)
]

-- `__zns_write`
unfoldable pub zns_write_plain : Params → ℕ → Local → ℕ → ℕ → Local × Outcome
zns_write_plain zp zid l slba nr_lba =
    if not (mul_size nr_lba 512 % zp.write_unit_size == 0)
    then (l, done invalid_write)
    else if not (check_boundary_error zp slba nr_lba)
    then (l, done err_boundary)
    else if not (slba == l.zone.wp)
    then (l, done invalid_write)
    else write_state zp zid l slba nr_lba

-- The blocks that `__zns_write_zrwa` flushes: whole flush groups beyond the implicit start, or up
-- to the end of the zone.
abbrev pub nr_lbas_flush : Params → ℕ → ℕ → ℕ → ℕ
nr_lbas_flush zp zid wp elba =
    let zrwa_impl_start = add_size wp zp.lbas_per_zrwa in
    if leb zrwa_impl_start elba
    then mul_size
        (sub_size (add_size (add_size (sub_size elba zrwa_impl_start) 1) zp.lbas_per_zrwafg) 1
          / zp.lbas_per_zrwafg)
        zp.lbas_per_zrwafg
    else if elba == zone_to_elba zp zid
    then add_size (sub_size elba wp) 1
    else 0

-- The end of `__zns_write_zrwa`, less the delays: the write pointer moves by what is flushed,
-- cut to the 32 bits that `__increase_write_ptr` takes.
unfoldable pub flush_implicit : Params → ℕ → Local → ℕ → Local × Outcome
flush_implicit zp zid l flush =
    let (buffer, got) = buffer_allocate l.zone.buffer (u32 (mul_size flush 512)) in
    if flush == 0 then (l, done success) else if got == 0 then (l, retry) else (
      increase_write_ptr zp zid (record l { zone = record l.zone { buffer = buffer } }) (u32 flush),
      done success,
    )

-- The case of `__zns_write_zrwa` for a zone that is not open.
unfoldable pub zrwa_closed : Params → ℕ → Local → ℕ → Local × Outcome
unfolding flush_implicit
zrwa_closed zp zid l flush =
    let (l', got) = acquire_zone_resource l open_zone in
    let (buffer, room) = buffer_allocate l'.zone.buffer zp.zrwa_size in
    let filled = record l' { zone = record l'.zone { buffer = buffer } } in
    if not got
    then (l', done no_open_zone)
    else if room == 0
    then (filled, stopped)
    else flush_implicit zp zid (change_zone_state filled opened_impl) flush

-- The switch of `__zns_write_zrwa` and what follows it.
unfoldable pub zrwa_state : Params → ℕ → Local → ℕ → Local × Outcome
unfolding zrwa_closed flush_implicit
zrwa_state zp zid l flush = elim l.zone.state [
  | closed ↦ zrwa_closed zp zid l flush
  | empty ↦ zrwa_closed zp zid l flush
  | opened_impl ↦ flush_implicit zp zid l flush
  | opened_expl ↦ flush_implicit zp zid l flush
  | full ↦ (l, done err_full)
  | read_only ↦ (l, done err_read_only)
  | offline ↦ (l, done err_offline)
]

-- `__zns_write_zrwa`
unfoldable pub zns_write_zrwa : Params → ℕ → Local → ℕ → ℕ → Local × Outcome
unfolding zrwa_state
zns_write_zrwa zp zid l slba nr_lba =
    let wp = l.zone.wp in
    let elba = sub_size (add_size slba nr_lba) 1 in
    let zrwa_impl_end = sub_size (add_size wp (u32 (2 * zp.lbas_per_zrwa))) 1 in
    if not (mul_size nr_lba 512 % zp.write_unit_size == 0)
    then (l, done invalid_write)
    else if not (check_boundary_error zp slba nr_lba)
    then (l, done err_boundary)
    else if ltb slba wp || ltb zrwa_impl_end elba
    then (l, done invalid_write)
    else zrwa_state zp zid l (nr_lbas_flush zp zid wp elba)
