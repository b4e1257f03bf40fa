-- ===== src/Zns/Zone.antt =====
-- zns_ftl.h: zones, resources and addresses, and the write buffers of ssd.c.
-- What an operation on one zone sees is a `Local`: the device's resources and that zone.
use flax.Base.{ℕ, ◌+◌, ◌-◌, ◌*◌, ◌/◌, Bool, true, false, ltb, ◌==◌, if◌then◌else◌, u32, sub_size}

-- `enum zone_state`
pub data State : Type 0 where
  empty opened_impl opened_expl closed read_only full offline : State

-- `enum zone_resource_type`
pub data ResourceType : Type 0 where
  active_zone open_zone zrwa_zone : ResourceType

-- The statuses that a zoned command returns.
pub data Status : Type 0 where
  success invalid_field invalid_zone_operation zrwa_rsrc_unavail err_boundary err_offline
        err_read_only err_full invalid_write no_active_zone no_open_zone invalid_transition :
      Status

-- `struct buffer`, whose lock is held for the length of one operation.
pub record Buffer : Type 0 where
  pub initial : ℕ
  pub remaining : ℕ

-- `buffer_allocate`, `buffer_release` and `buffer_refill`; the sizes are `uint32_t`.
abbrev pub buffer_allocate : Buffer → ℕ → Buffer × ℕ
buffer_allocate buf size =
    if ltb buf.remaining size
    then (buf, 0)
    else (record buf { remaining = buf.remaining - size }, size)

abbrev pub buffer_release : Buffer → ℕ → Buffer
buffer_release buf size = record buf { remaining = u32 (buf.remaining + size) }

abbrev pub buffer_refill : Buffer → Buffer
buffer_refill buf = record buf { remaining = buf.initial }

-- `struct zone_resource_info`
pub record Resource : Type 0 where
  pub acquired_cnt : ℕ
  pub total_cnt : ℕ

-- `struct zone_descriptor`, with the entry of `zwra_buffer` at the same index.
pub record Zone : Type 0 where
  pub state : State
  pub zrwav : Bool
  pub zone_capacity : ℕ
  pub zslba : ℕ
  pub wp : ℕ
  pub buffer : Buffer

-- `res_infos`, by the type of the resource, and one zone.
pub record Local : Type 0 where
  pub active : Resource
  pub opened : Resource
  pub zrwa : Resource
  pub zone : Zone

abbrev pub info_of : ResourceType → Local → Resource
info_of active_zone l = l.active
info_of open_zone l = l.opened
info_of zrwa_zone l = l.zrwa

abbrev pub put_info : ResourceType → Resource → Local → Local
put_info active_zone r l = record l { active = r }
put_info open_zone r l = record l { opened = r }
put_info zrwa_zone r l = record l { zrwa = r }

-- `is_zone_resource_avail` and `is_zone_resource_full`
abbrev pub is_zone_resource_avail : Local → ResourceType → Bool
is_zone_resource_avail l type = ltb (info_of type l).acquired_cnt (info_of type l).total_cnt

abbrev pub is_zone_resource_full : Local → ResourceType → Bool
is_zone_resource_full l type = (info_of type l).acquired_cnt == (info_of type l).total_cnt

-- `acquire_zone_resource`; the counters are `__u32`.
abbrev pub acquire_zone_resource : Local → ResourceType → Local × Bool
acquire_zone_resource l type =
    if is_zone_resource_avail l type
    then (
      put_info type
          (record (info_of type l) { acquired_cnt = u32 ((info_of type l).acquired_cnt + 1) }) l,
      true,
    )
    else (l, false)

-- `release_zone_resource`; its ASSERT is an empty macro, so that a count of 0 wraps.
abbrev pub release_zone_resource : Local → ResourceType → Local
release_zone_resource l type =
    put_info type
      (record (info_of type l) { acquired_cnt = u32 ((info_of type l).acquired_cnt + 4294967295) })
      l

-- `change_zone_state`
abbrev pub change_zone_state : Local → State → Local
change_zone_state l state = record l { zone = record l.zone { state = state } }

-- The geometry of the namespace: `struct znsparams`, and two sizes of `struct ssdparams`.
-- `zone_lbas` is BYTE_TO_LBA(zone_size).
pub record Params : Type 0 where
  pub nr_zones : ℕ
  pub zone_lbas : ℕ
  pub zrwa_size : ℕ
  pub zrwa_buffer_size : ℕ
  pub lbas_per_zrwafg : ℕ
  pub lbas_per_zrwa : ℕ
  pub write_unit_size : ℕ

-- `lba_to_zone`, `zone_to_slba` and `zone_to_elba`: zone numbers are `uint32_t`, and so is the
-- product of one with the zone's size.
abbrev pub lba_to_zone : Params → ℕ → ℕ
lba_to_zone zp lba = u32 (lba / zp.zone_lbas)

abbrev pub zone_to_slba : Params → ℕ → ℕ
zone_to_slba zp zid = u32 (zid * zp.zone_lbas)

abbrev pub zone_to_elba : Params → ℕ → ℕ
zone_to_elba zp zid = sub_size (zone_to_slba zp (u32 (zid + 1))) 1
