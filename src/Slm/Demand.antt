-- ===== src/Slm/Demand.antt =====
-- csd_slm.c, demand reads: a consumer that jumps in its input switches the region to extents that
-- are loaded on demand.
pub mod Cycle
use flax.Base.{
  ℕ, ◌+◌, ◌-◌, ◌*◌, ◌/◌, ◌%◌, ◌≡◌, Bool, true, false, ◌&&◌, ◌||◌, not, Option, none, some, List, [],
  ◌∷◌, length, ltb, leb, ◌==◌, if◌then◌else◌, add_size, sub_size,
}
use flax.Slm.Region.{Extent, Info, minus_one, max_extents, page_down, page_up}
use flax.Slm.Store.{
  Slm, Task, Step, get_slm_offset, region_of, put_region, update, task_pool_index, Result, ok, bug,
}
use flax.Slm.Frontier.{snoc}
use flax.Slm.Extent.{extents_cover}

-- `atomic_set(&task->task_step, CCSD_TASK_SCHEDULE)` for the task that loads a region.
abbrev pub wake : (ℕ → Task) → ℕ → ℕ → Task
wake tasks gen_id =
    let i = task_pool_index gen_id in
    let t = tasks i in update tasks i (record t { task_step = Step.schedule })

-- `ht_demand_alloc_extent`: the changed region, and whether its task is woken.
pub ht_demand_alloc_extent : Info → ℕ → ℕ → Info × Bool
ht_demand_alloc_extent info addr size =
    let read_offset = sub_size addr info.start_addr in
    let at = page_down read_offset in
    let long = page_up (add_size size (sub_size read_offset at)) in
    if not (info.demand_read_offset == minus_one)
    then (info, false)
    else if extents_cover info.extents at long
    then (info, false)
    else if leb max_extents (length info.extents)
    then (info, false)
    else (
      record info {
        extents =
            snoc info.extents
              (record { file_offset = at; file_size = long; slm_offset = at; ready = false });
        random_access = true;
        request_done = false;
        demand_read_size = long;
        demand_read_slm_target = add_size info.start_addr at;
        demand_read_offset = at;
      },
      true,
    )

-- Whether the probe goes on where the consumer is.
abbrev pub contiguous : Info → ℕ → Bool
contiguous info read_offset =
    read_offset / 4096 == info.next_addr / 4096
    || read_offset / 4096 == add_size (info.next_addr / 4096) 1

-- The end of `slm_request_demand_read`, for a region in neither mode.
pub plain_demand : Info → ℕ → ℕ → Info × Bool
plain_demand info addr size =
    let read_offset = sub_size addr info.start_addr in
    let demand = record info {
      request_done = false;
      demand_read_size = add_size size (sub_size read_offset (page_down read_offset));
      demand_read_offset = page_down read_offset;
    } in
    if info.demand_read_offset == minus_one && not info.is_output
    then (if not (contiguous info read_offset) && not info.is_circular
        then (record demand { random_access = true }, true)
        else if read_offset == 0
        then (info, false)
        else if not info.random_access
        then (record info { stream_access = true }, false)
        else (demand, true))
    else (info, false)

-- The head/tail part of it: a ring only notes that it is streamed, a jump switches the region.
pub head_tail_demand : Info → ℕ → ℕ → Info × Bool
head_tail_demand info addr size =
    let read_offset = sub_size addr info.start_addr in
    let idle = info.demand_read_offset == minus_one && not info.is_output in
    if info.is_circular
    then (if idle && not (read_offset == 0) && not info.random_access
        then (record info { stream_access = true }, false)
        else (info, false))
    else if not idle
    then (info, false)
    else if not (contiguous info read_offset)
    then ht_demand_alloc_extent
        (record info { extent_mapped = true; random_access = true; use_head_tail = false }) addr
        size
    else if not (read_offset == 0) && not info.random_access
    then (record info { stream_access = true }, false)
    else (info, false)

-- `slm_request_demand_read` once its region is found.
pub request_region : Info → ℕ → ℕ → Info × Bool
request_region info addr size =
    if info.stream_access
    then (info, false)
    else if info.extent_mapped
    then ht_demand_alloc_extent info addr size
    else if info.use_head_tail
    then head_tail_demand info addr size
    else plain_demand info addr size

-- `slm_request_demand_read`
unfoldable pub slm_request_demand_read : Slm → ℕ → ℕ → Slm
unfolding get_slm_offset
slm_request_demand_read s addr size = elim (region_of s addr) [
  | none ↦ s
  | some p ↦
      let (info, woken) = request_region (s.regions p) addr size in
      let s' = put_region s p info in
      if woken then record s' { tasks = wake s.tasks (s.regions p).task_id } else s'
]

-- `slm_detect_sequential`
unfoldable pub slm_detect_sequential : Slm → ℕ → Slm
unfolding get_slm_offset
slm_detect_sequential s addr = elim (region_of s addr) [
  | none ↦ s
  | some p ↦
      let info = s.regions p in
      if info.demand_read_offset == minus_one
      then put_region s p (record info {
        demand_read_offset = page_down (sub_size addr info.start_addr);
        request_done = false;
        random_access = false;
      })
      else s
]

-- `slm_get_demand_read_offset`
unfoldable pub slm_get_demand_read_offset : Slm → ℕ → ℕ
unfolding get_slm_offset
slm_get_demand_read_offset s addr = elim (region_of s addr) [
  | none ↦ minus_one
  | some p ↦ if not (s.regions p).request_done then (s.regions p).demand_read_offset else minus_one
]

-- `notify_slm_demand_read_requested`, which reads through the pointer without a test for NULL.
unfoldable pub notify_slm_demand_read_requested : Slm → ℕ → Result Slm
unfolding get_slm_offset
notify_slm_demand_read_requested s addr = elim (region_of s addr) [
  | none ↦ bug
  | some p ↦ let info = s.regions p in ok (put_region s p (record info { request_done = true }))
]

-- The scan of `complete_slm_demand_read`: the first extent at the offset becomes ready.
pub mark_ready : List Extent → ℕ → List Extent
mark_ready [] at = []
mark_ready (x ∷ xs) at =
    if x.file_offset == at then record x { ready = true } ∷ xs else x ∷ mark_ready xs at

-- `complete_slm_demand_read` once its region is found.
pub complete_region : Info → Info
complete_region info =
    if not info.is_output && not (info.demand_read_offset == minus_one)
    then (if info.extent_mapped
        then record info {
          extents = mark_ready info.extents info.demand_read_offset;
          demand_read_offset = minus_one;
        }
        else record info { demand_read_offset = minus_one })
    else info

unfoldable pub complete_slm_demand_read : Slm → ℕ → Slm
unfolding get_slm_offset
complete_slm_demand_read s addr = elim (region_of s addr) [
  | none ↦ s
  | some p ↦ put_region s p (complete_region (s.regions p))
]
