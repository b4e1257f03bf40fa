-- ===== src/Zns/Device/Tests.antt =====
-- A namespace of two zones of 64 blocks, and the theorems there.
use flax.Base.{
  ap, ℕ, ◌≡◌, ◌≢◌, refl, Bool, true, false, some, [], ◌∷◌, arith, ◌==◌, if◌then◌else◌, add_size,
}
use flax.Zns.Zone.{
  State, empty, opened_impl, full, success, Zone, Local, Resource, Params, Buffer, zone_to_slba,
}
use flax.Zns.Manage.{zmgmt_send, zmgmt_send_close_zone, zmgmt_send_finish_zone}
use flax.Zns.Manage.Balance.{IsLocal}
use flax.Zns.Manage.Machine.{target, zmgmt_send-target}
use flax.Zns.Write.{done, stopped, zns_write_plain, zns_write_zrwa, zrwa_state, flush_implicit}
use flax.Zns.Write.Append.{is_open, zns_write_plain-appends}
use flax.Zns.Device.{
  Zns, send_one, send_all, zns_zmgmt_send, write_zone, zns_write, put_local, local_of,
}
use flax.Zns.Device.Counts.{IsCounted}
use flax.Zns.Device.Sends.{zns_zmgmt_send-IsCounted}
use flax.Zns.Device.Writes.{AtMostOneLost, zns_write-IsCounted, zns_write_zrwa-loses}

abbrev geometry : Params
geometry = record {
  nr_zones = 2;
  zone_lbas = 64;
  zrwa_size = 8192;
  zrwa_buffer_size = 65536;
  lbas_per_zrwafg = 8;
  lbas_per_zrwa = 16;
  write_unit_size = 512;
}

abbrev memory : Buffer
memory = record { initial = 65536; remaining = 65536 }

abbrev counter : ℕ → Resource
counter n = record { acquired_cnt = n; total_cnt = 2 }

abbrev zone_at : State → Bool → ℕ → Zone
zone_at s area wp = record {
  state = s;
  zrwav = area;
  zone_capacity = 64;
  zslba = 0;
  wp = wp;
  buffer = memory;
}

abbrev second : Zone
second = record {
  state = empty;
  zrwav = false;
  zone_capacity = 64;
  zslba = 64;
  wp = 64;
  buffer = memory;
}

abbrev device : ℕ → ℕ → Zone → Zns
device opened areas z = record {
  zp = geometry;
  secs_per_pg = 8;
  zone_pages = 8;
  active = counter opened;
  opened = counter opened;
  zrwa = counter areas;
  zones = z ∷ second ∷ [];
  write_buffer = memory;
}

abbrev idle : Local
idle = record {
  active = counter 0;
  opened = counter 0;
  zrwa = counter 0;
  zone = zone_at empty false 0;
}

abbrev busy : Local
busy = record {
  active = counter 1;
  opened = counter 1;
  zrwa = counter 0;
  zone = zone_at opened_impl false 8;
}

abbrev area : Local
area = record {
  active = counter 1;
  opened = counter 1;
  zrwa = counter 1;
  zone = zone_at opened_impl true 48;
}

idle-IsLocal : IsLocal idle
idle-IsLocal = ground arith

busy-IsLocal : IsLocal busy
busy-IsLocal = ground arith

area-IsLocal : IsLocal area
area-IsLocal = ground arith

finish_runs : zmgmt_send geometry 0 busy 0 2 0 ≡ (
  record busy { active = counter 0; opened = counter 0; zone = zone_at full false 8 },
  some success,
)
unfolding zmgmt_send zmgmt_send_finish_zone
finish_runs = refl

zmgmt_send-target_example : target 2 opened_impl ≡ some full
zmgmt_send-target_example = zmgmt_send-target geometry 0 busy 0 2 0 (omega arith) finish_runs

not_open : ◌≢◌ {A = ℕ} 2 3
not_open e = omega arith

refused : (zmgmt_send geometry 0 idle 0 1 0).1 ≢ some success
unfolding zmgmt_send zmgmt_send_close_zone
refused e = ground arith

abbrev written : Local
written = record busy { zone = zone_at opened_impl false 16 }

write_runs : zns_write_plain geometry 0 busy 8 8 ≡ (written, done success)
unfolding zns_write_plain
write_runs = refl

zns_write_plain-appends_example :
    (◌≡◌ {A = ℕ} 8 8)
    × (◌≡◌ {A = ℕ} 16 (add_size 8 8))
    × (if 16 == add_size (zone_to_slba geometry 0) 64
        then opened_impl ≡ full
        else is_open opened_impl ≡ true)
zns_write_plain-appends_example = zns_write_plain-appends geometry 0 busy 8 8 write_runs

misplaced : (zns_write_plain geometry 0 busy 9 8).1 ≢ done success
unfolding zns_write_plain
misplaced e = ground arith

-- The write that fills a zone with a random write area leaves the area acquired.
area_runs : zns_write_zrwa geometry 0 area 56 8 ≡ (
  record {
    active = counter 0;
    opened = counter 0;
    zrwa = counter 1;
    zone = record (zone_at full true 64) { buffer = record { initial = 65536; remaining = 57344 } };
  },
  done success,
)
unfolding zns_write_zrwa zrwa_state flush_implicit
area_runs = refl

not_stopped : (zns_write_zrwa geometry 0 area 56 8).1 ≢ stopped
unfolding zns_write_zrwa zrwa_state flush_implicit
not_stopped e = ground arith

one_open-IsCounted : IsCounted 0 (device 1 0 (zone_at opened_impl false 8))
one_open-IsCounted = ground arith

send_runs :
    zns_zmgmt_send (device 1 0 (zone_at opened_impl false 8)) 0 2 0 true
    ≡ some (
      record (device 0 0 (zone_at full false 8)) {
        zones = zone_at full false 8 ∷ record second { state = full } ∷ [];
      },
      some success,
    )
unfolding zns_zmgmt_send send_all send_one zmgmt_send zmgmt_send_finish_zone
send_runs = refl

zns_zmgmt_send-IsCounted_example : IsCounted 0 (record (device 0 0 (zone_at full false 8)) {
  zones = zone_at full false 8 ∷ record second { state = full } ∷ [];
})
zns_zmgmt_send-IsCounted_example =
    zns_zmgmt_send-IsCounted 0 (device 1 0 (zone_at opened_impl false 8)) 0 2 0 true
      one_open-IsCounted send_runs

abbrev after_write : Zns
after_write = record (device 1 0 (zone_at opened_impl false 16)) {
  write_buffer = record { initial = 65536; remaining = 61440 };
}

device_write_runs :
    zns_write (device 1 0 (zone_at opened_impl false 8)) 8 7 ≡ some (after_write, done success)
unfolding zns_write write_zone zns_write_plain
device_write_runs = refl

done_not_stopped : done success ≢ stopped
done_not_stopped e = ground arith

zns_write-IsCounted_example : AtMostOneLost 0 after_write
zns_write-IsCounted_example =
    zns_write-IsCounted 0 (device 1 0 (zone_at opened_impl false 8)) 8 7 one_open-IsCounted refl
      (omega arith) device_write_runs done_not_stopped

abbrev area_device : Zns
area_device = device 1 1 (zone_at opened_impl true 48)

area_device-IsCounted : IsCounted 0 area_device
area_device-IsCounted = ground arith

zns_write_zrwa-loses_example : IsCounted 1 (
    put_local area_device 0
      (zns_write_zrwa geometry 0 (local_of area_device (zone_at opened_impl true 48)) 56 8).0)
zns_write_zrwa-loses_example =
    zns_write_zrwa-loses 0 area_device 0 (zone_at opened_impl true 48) 56 8 area_device-IsCounted
      refl refl refl (ap (λ p. p.0.zone.state) area_runs) not_stopped
