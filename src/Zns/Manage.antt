-- ===== src/Zns/Manage.antt =====
-- zns_mgmt_send.c: the zone management commands, on the zone they address.
pub mod Balance
pub mod Machine
use flax.Base.{
  ℕ, ◌+◌, ◌*◌, ◌%◌, Bool, true, false, ◌&&◌, not, Option, none, some, ltb, leb, ◌==◌, if◌then◌else◌,
  add_size, sub_size, min,
}
use flax.Zns.Zone.{
  State, empty, opened_impl, opened_expl, closed, read_only, full, offline, active_zone, open_zone,
  zrwa_zone, Status, success, invalid_field, invalid_zone_operation, zrwa_rsrc_unavail,
  no_active_zone, no_open_zone, invalid_transition, Zone, Local, is_zone_resource_full,
  acquire_zone_resource, release_zone_resource, change_zone_state, buffer_refill, Params,
  zone_to_slba,
}

-- `__zmgmt_send_close_zone`
unfoldable pub zmgmt_send_close_zone : Local → Local × Status
zmgmt_send_close_zone l = elim l.zone.state [
  | opened_impl ↦ (release_zone_resource (change_zone_state l closed) open_zone, success)
  | opened_expl ↦ (release_zone_resource (change_zone_state l closed) open_zone, success)
  | closed ↦ (l, success)
  | _ ↦ (l, invalid_transition)
]

-- The steps that finishing and resetting share: an active zone gives its resources back.
abbrev release_active : Local → Local
release_active l =
    let l' = release_zone_resource l active_zone in
    if l.zone.zrwav then release_zone_resource l' zrwa_zone else l'

-- `__zmgmt_send_finish_zone`
unfoldable pub zmgmt_send_finish_zone : Local → Local × Status
zmgmt_send_finish_zone l = elim l.zone.state [
  | opened_impl ↦
      (change_zone_state (release_active (release_zone_resource l open_zone)) full, success)
  | opened_expl ↦
      (change_zone_state (release_active (release_zone_resource l open_zone)) full, success)
  | closed ↦ (change_zone_state (release_active l) full, success)
  | empty ↦ (change_zone_state l full, success)
  | full ↦ (l, success)
  | _ ↦ (l, invalid_transition)
]

-- From `case ZONE_STATE_CLOSED` of `__zmgmt_send_open_zone` on.
abbrev open_closed : Local → Local × Status
open_closed l =
    let (l', got) = acquire_zone_resource l open_zone in
    if got then (change_zone_state l' opened_expl, success) else (l', no_open_zone)

abbrev take_zrwa : Local → Local
take_zrwa l =
    let l' = (acquire_zone_resource l zrwa_zone).0 in
    record l' { zone = record l'.zone { zrwav = true } }

abbrev open_empty : Local → Bool → Local × Status
open_empty l zrwa =
    if is_zone_resource_full l active_zone
    then (l, no_active_zone)
    else if is_zone_resource_full l open_zone
    then (l, no_open_zone)
    else if zrwa
    then (if is_zone_resource_full l zrwa_zone
        then (l, zrwa_rsrc_unavail)
        else open_closed (acquire_zone_resource (take_zrwa l) active_zone).0)
    else open_closed (acquire_zone_resource l active_zone).0

-- `__zmgmt_send_open_zone`
unfoldable pub zmgmt_send_open_zone : Local → Bool → Local × Status
zmgmt_send_open_zone l zrwa = elim l.zone.state [
  | empty ↦ open_empty l zrwa
  | closed ↦ open_closed l
  | opened_impl ↦ (change_zone_state l opened_expl, success)
  | opened_expl ↦ (l, success)
  | _ ↦ (l, invalid_transition)
]

-- `__reset_zone`, less the storage, which it clears.
abbrev pub reset_zone : Local → Local
reset_zone l = record l {
  zone = record l.zone { wp = l.zone.zslba; zrwav = false; buffer = buffer_refill l.zone.buffer };
}

-- `__zmgmt_send_reset_zone`
unfoldable pub zmgmt_send_reset_zone : Local → Local × Status
zmgmt_send_reset_zone l = elim l.zone.state [
  | opened_impl ↦ (
    reset_zone (change_zone_state (release_active (release_zone_resource l open_zone)) empty),
    success,
  )
  | opened_expl ↦ (
    reset_zone (change_zone_state (release_active (release_zone_resource l open_zone)) empty),
    success,
  )
  | closed ↦ (reset_zone (change_zone_state (release_active l) empty), success)
  | full ↦ (reset_zone (change_zone_state l empty), success)
  | empty ↦ (reset_zone (change_zone_state l empty), success)
  | _ ↦ (l, invalid_transition)
]

-- `__zmgmt_send_offline_zone`
unfoldable pub zmgmt_send_offline_zone : Local → Local × Status
zmgmt_send_offline_zone l = elim l.zone.state [
  | read_only ↦ (change_zone_state l offline, success)
  | offline ↦ (l, success)
  | _ ↦ (l, invalid_transition)
]

-- The switch of `__zmgmt_send_flush_explicit_zrwa`; the flag says that the zone is open.
abbrev flush_to : Params → ℕ → Local → ℕ → Bool → Local × Status
flush_to zp zid l slba is_open =
    let moved = record l { zone = record l.zone { wp = add_size slba 1 } } in
    if add_size slba 1 == add_size (zone_to_slba zp zid) l.zone.zone_capacity
    then (
      change_zone_state
          (release_zone_resource
            (release_zone_resource
              (if is_open then release_zone_resource moved open_zone else moved) active_zone)
            zrwa_zone)
          full,
      success,
    )
    else (moved, success)

-- `__zmgmt_send_flush_explicit_zrwa`
unfoldable pub zmgmt_send_flush_explicit_zrwa : Params → ℕ → Local → ℕ → Local × Status
zmgmt_send_flush_explicit_zrwa zp zid l slba =
    let wp = l.zone.wp in
    let zrwa_end =
      min (sub_size (add_size wp zp.lbas_per_zrwa) 1)
        (sub_size (add_size (zone_to_slba zp zid) l.zone.zone_capacity) 1) in
    if not l.zone.zrwav
    then (l, invalid_zone_operation)
    else if not (leb wp slba && leb slba zrwa_end)
    then (l, invalid_zone_operation)
    else if not (add_size (sub_size slba wp) 1 % zp.lbas_per_zrwafg == 0)
    then (l, invalid_field)
    else elim l.zone.state [
      | opened_expl ↦ flush_to zp zid l slba true
      | opened_impl ↦ flush_to zp zid l slba true
      | closed ↦ flush_to zp zid l slba false
      | _ ↦ (l, invalid_zone_operation)
    ]

abbrev send : Local × Status → Local × Option Status
send (l, status) = (l, some status)

-- `__zmgmt_send`, by the number of the action; `none` is the `status` that an unknown action leaves
-- uninitialised.
unfoldable pub zmgmt_send : Params → ℕ → Local → ℕ → ℕ → ℕ → Local × Option Status
unfolding zmgmt_send_close_zone zmgmt_send_finish_zone zmgmt_send_open_zone zmgmt_send_reset_zone
    zmgmt_send_offline_zone zmgmt_send_flush_explicit_zrwa
zmgmt_send zp zid l slba action option =
    if action == 1
    then send (zmgmt_send_close_zone l)
    else if action == 2
    then send (zmgmt_send_finish_zone l)
    else if action == 3
    then send (zmgmt_send_open_zone l (not (option == 0)))
    else if action == 4
    then send (zmgmt_send_reset_zone l)
    else if action == 5
    then send (zmgmt_send_offline_zone l)
    else if action == 17
    then send (zmgmt_send_flush_explicit_zrwa zp zid l slba)
    else (l, none)
