-- ===== src/Slm/Tests.antt =====
-- The SLM operations at concrete regions, and their theorems there.
use flax.Base.{
  ℕ, ◌+◌, ◌-◌, ◌*◌, ◌/◌, ◌<◌, ◌≡◌, ◌≢◌, refl, true, false, none, some, [], ◌∷◌, arith,
  if◌then◌else◌, min, sub_size,
}
use flax.Buddy.{free, alloc, leaf, split, buddy_alloc, alloc_free}
use flax.Slm.Region.{Info}
use flax.Slm.Store.{Slm, Task, Step, ok, bug, hang, update, region_of, get_slm_offset, get_slm_addr}
use flax.Slm.Frontier.{ht_advance_head, settle, absorb, take_first}
use flax.Slm.Ready.{
  head_ready, check_slm_data_ready, check_region, extent_ready, check_output_linear,
}
use flax.Slm.Ready.Sound.{head_ready_sound}
use flax.Slm.Notify.{notify_slm_data_ready, finalize_region}
use flax.Slm.Notify.Laws.{notify-check, check_output_finalized}
use flax.Slm.Extent.{extents_cover}
use flax.Slm.Extent.Inject.{extent_translate_addr_injective}
use flax.Slm.Demand.{request_region, complete_region}
use flax.Slm.Demand.Cycle.{CanDemand, demand_cycle, demand_stall}
use flax.Slm.Magic.{slm_request_demand_read_info, next_extent}
use flax.Slm.Magic.Pack.{IsPacked, slm_request_demand_read_info-IsPacked}
use flax.Slm.Memory.{alloc_slm_lba_info, alloc_slm_range, set_pages, end_task, free_pages}
use flax.Slm.Memory.Reserve.{reserve_slm_memory-get_slm_lba_info_from_addr}
use flax.Slm.Memory.{reserve_slm_memory}
use flax.Slm.Store.{get_slm_lba_info_from_addr}
use flax.Slm.Memory.Pages.{within, free_pages_lem, free_pages-returns}

abbrev fresh : Info
fresh = record (alloc_slm_lba_info 0 1048576 65536 7 []) { use_head_tail = true }

abbrev half : Info
half = record fresh { ht_head = 8192 }

abbrev idle : Task
idle = record { generation_id = 0; task_step = Step.free; program_idx = 0; slm_lba_info = none }

-- A pool of 1 MiB at address 1 MiB; its first sixteen pages are region 3.
abbrev device : Info → Slm
device info = record {
  start_addr = 1048576;
  allocator = leaf free 0 1048576 0;
  ready_info = λ i. if within 0 16 i then some 3 else none;
  regions = λ p. info;
  tasks = λ i. idle;
}

alloc_runs :
    alloc_slm_range (record (device half) { allocator = leaf free 0 256 0 }) 200
    ≡ ok (record (device half) { allocator = leaf alloc 0 256 200 }, 1048576)
unfolding alloc_slm_range buddy_alloc alloc_free get_slm_addr
alloc_runs = refl

-- The second allocation of 100 bytes is at index 128, which is no page: the driver stops.
alloc_misaligned :
    alloc_slm_range
      (record (device half) {
        allocator = split 0 256 0 (leaf alloc 0 128 100) (leaf free 128 128 0);
      })
      100
    ≡ bug
unfolding alloc_slm_range buddy_alloc alloc_free get_slm_addr
alloc_misaligned = refl

head_ready_sound_example_runs : head_ready (record fresh { ht_head = 12000 }) 8192 4096 ≡ true
unfolding head_ready
head_ready_sound_example_runs = refl

head_ready_sound_example : 9000 / 4096 * 4096 < 12000
head_ready_sound_example =
    head_ready_sound (record fresh { ht_head = 12000 }) 8192 4096 9000
      (omega arith, omega arith, λ e. omega arith) (omega arith) head_ready_sound_example_runs
      (omega arith) (omega arith)

notify_runs :
    notify_slm_data_ready (device half) 1056768 4096
    ≡ ok (record (device half) {
      regions = update (device half).regions 3 (record half { ht_head = 12288 });
    })
unfolding notify_slm_data_ready get_slm_offset ht_advance_head settle absorb take_first
notify_runs = refl

notify-check_example_found : region_of (device half) 1056768 ≡ some 3
unfolding get_slm_offset
notify-check_example_found = refl

notify-check_example :
    (check_slm_data_ready
      (record (device half) {
        regions = update (device half).regions 3 (record half { ht_head = 12288 });
      })
      1056768
      4096).1
    ≡ true
notify-check_example =
    notify-check (device half) 3 1056768 4096 notify-check_example_found refl refl (omega arith)
      (omega arith) (omega arith) notify_runs (omega arith)

check_output_finalized_example :
    check_output_linear (finalize_region 2 half 10000) 8192 4096 ≡ (true, min 4096 (10000 - 8192))
check_output_finalized_example =
    check_output_finalized 2 10000 8192 4096 half refl (omega arith) (omega arith) (omega arith)
      (omega arith)

abbrev ring : Info
ring = record half {
  output_is_circular = true;
  is_output = true;
  host_consumed_logical_offset = 4096;
}

-- A jump to byte 40000 while one extent of a page is mapped at byte 8192.
abbrev mapped : Info
mapped = record half {
  extent_mapped = true;
  extents = record { file_offset = 8192; file_size = 4096; slm_offset = 8192; ready = true } ∷ [];
}

mapped-CanDemand_none_covers :
    extent_ready mapped.extents (sub_size 1088576 mapped.start_addr) 500 ≡ none
unfolding extent_ready
mapped-CanDemand_none_covers = refl

mapped-CanDemand : CanDemand mapped 1088576 500
mapped-CanDemand = record {
  mapped = refl;
  not_streaming = refl;
  idle = refl;
  input = refl;
  room = omega arith;
  uncovered = mapped-CanDemand_none_covers;
  some_bytes = omega arith;
  fits = omega arith;
}

demand_cycle_example :
    (check_region (complete_region (request_region mapped 1088576 500).0) 1088576 500).1 ≡ true
demand_cycle_example = demand_cycle mapped 1088576 500 mapped-CanDemand refl

longer-CanDemand_none_covers :
    extent_ready mapped.extents (sub_size 1056768 mapped.start_addr) 6000 ≡ none
unfolding extent_ready
longer-CanDemand_none_covers = refl

-- The same region, asked for 6000 bytes at byte 8192: one page is there, two are wanted.
longer-CanDemand : CanDemand mapped 1056768 6000
longer-CanDemand = record {
  mapped = refl;
  not_streaming = refl;
  idle = refl;
  input = refl;
  room = omega arith;
  uncovered = longer-CanDemand_none_covers;
  some_bytes = omega arith;
  fits = omega arith;
}

demand_stall_example :
    let after = complete_region (request_region mapped 1056768 6000).0 in
    ((check_region after 1056768 6000).1 ≡ false)
    × (request_region after 1056768 6000 ≡ (after, false))
demand_stall_example = demand_stall mapped 1056768 6000 longer-CanDemand refl

extent_translate_addr_injective_example : ◌≡◌ {A = ℕ} 1056800 1056800
extent_translate_addr_injective_example =
    extent_translate_addr_injective mapped 8192 12288 1056800 1056800 (refl, omega arith, refl)
      (omega arith) refl refl (omega arith) (omega arith) (omega arith) (omega arith) refl

abbrev packed_info : Info
packed_info = record mapped {
  extents = record { file_offset = 8192; file_size = 4096; slm_offset = 16384; ready = true } ∷ [];
  extent_next_free_page = 5;
}

packed_info-IsPacked : IsPacked packed_info
packed_info-IsPacked = record { chain = (refl, omega arith, refl); inside = omega arith }

abbrev packed_next : Info
packed_next = record packed_info {
  extents =
      record { file_offset = 8192; file_size = 4096; slm_offset = 16384; ready = true }
      ∷ record { file_offset = 36864; file_size = 4096; slm_offset = 20480; ready = false }
      ∷ [];
  extent_next_free_page = 6;
  demand_read_size = 4096;
  demand_read_slm_target = 1069056;
  request_done = false;
  random_access = true;
  demand_read_offset = 36864;
}

slm_request_demand_read_info-IsPacked_example_runs :
    slm_request_demand_read_info Step.wait packed_info 1088576 500 ≡ ok (packed_next, true)
unfolding slm_request_demand_read_info next_extent extents_cover
slm_request_demand_read_info-IsPacked_example_runs = refl

slm_request_demand_read_info-IsPacked_example : IsPacked packed_next
slm_request_demand_read_info-IsPacked_example =
    slm_request_demand_read_info-IsPacked Step.wait packed_info 1088576 500 {info' = packed_next}
      {woken = true} (λ e. packed_info-IsPacked) (omega arith)
      slm_request_demand_read_info-IsPacked_example_runs refl

abbrev freed : Slm
freed = record (device half) { ready_info = set_pages (device half).ready_info 0 16 none }

free_runs : free_pages 9 2 [] (device half) 0 16 ≡ ok freed
unfolding free_pages end_task
free_runs = refl

free_pages_lem_example :
    freed.ready_info 5 ≡ (if within 0 16 5 then none else (device half).ready_info 5)
free_pages_lem_example = free_pages_lem 9 2 [] 0 16 5 (device half) (omega arith) free_runs

free_pages-returns_example : free_pages 9 17 [] (device half) 0 16 ≢ hang
free_pages-returns_example =
    free_pages-returns 9 17 [] 0 16 (device half) (omega arith) (omega arith) (λ p. omega arith)

reserve_slm_memory-get_slm_lba_info_from_addr_example :
    get_slm_lba_info_from_addr (reserve_slm_memory (device half) 1114112 8192 5) (1114112 + 5000)
    ≡ some 5
reserve_slm_memory-get_slm_lba_info_from_addr_example =
    reserve_slm_memory-get_slm_lba_info_from_addr (device half) 1114112 8192 5 5000 (omega arith)
      (omega arith) (omega arith) (omega arith)
