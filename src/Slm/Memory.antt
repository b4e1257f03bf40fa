-- ===== src/Slm/Memory.antt =====
-- csd_slm.c, the memory operations: allocation of SLM ranges, and the page map of the regions.
pub mod Pages
pub mod Reserve
use flax.Base.{
  ◌∷◌, ◌||◌, ℕ, zero, suc, ◌+◌, ◌-◌, ◌/◌, ◌%◌, ◌≡◌, Bool, true, false, ◌&&◌, not, Option, none,
  some, List, [], ltb, leb, ◌==◌, if◌then◌else◌, add_size,
}
use flax.Buddy.{Code, done, missing, failed, buddy_alloc, buddy_free, buddy_size, buddy_act_size}
use flax.Slm.Region.{Info, SourceRange, minus_one, pages_up}
use flax.Slm.Store.{
  Slm, Task, Step, Result, ok, bug, hang, get_slm_offset, get_slm_addr, page_of, region_of, update,
  put_region, task_id_none, task_pool_index,
}

-- `alloc_slm_range`: it hangs where the allocator does not return, and stops at an offset that is
-- not a multiple of the page size.
unfoldable pub alloc_slm_range : Slm → ℕ → Result (Slm × ℕ)
unfolding get_slm_addr
alloc_slm_range s size = elim (buddy_alloc s.allocator size) [
  | none ↦ hang
  | some (t, slm_offset) ↦
      let s' = record s { allocator = t } in
      if slm_offset == failed
      then ok (s', minus_one)
      else if not (slm_offset % 4096 == 0)
      then bug
      else ok (s', get_slm_addr s' slm_offset)
]

-- `check_allocated_slm_range` and `get_slm_range_size`
unfoldable pub check_allocated_slm_range : Slm → ℕ → ℕ → Bool
unfolding get_slm_offset
check_allocated_slm_range s addr size =
    leb size (buddy_act_size s.allocator (get_slm_offset s addr))

unfoldable pub get_slm_range_size : Slm → ℕ → ℕ
unfolding get_slm_offset
get_slm_range_size s addr = buddy_size s.allocator (get_slm_offset s addr)

-- `for (i = from; i < from + count; i++) slm_data_ready_info[i].slm_lba_info = value;`
unfoldable pub set_pages : (ℕ → Option ℕ) → ℕ → ℕ → Option ℕ → ℕ → Option ℕ
set_pages ready from zero value = ready
set_pages ready from (suc count) value = set_pages (update ready from value) (from + 1) count value

-- `reserve_slm_memory`
unfoldable pub reserve_slm_memory : Slm → ℕ → ℕ → ℕ → Slm
unfolding set_pages get_slm_offset
reserve_slm_memory s start_addr len p =
    let s' = record s {
      ready_info = set_pages s.ready_info (page_of s start_addr) (pages_up len) (some p);
    } in
    put_region s' p
      (record (s.regions p) { ht_head = 0; ht_tail = 0; ht_producer_done = false; ht_pending = [] })

-- `set_slm_ready_for_csd`
unfoldable pub set_slm_ready_for_csd : Slm → ℕ → ℕ → ℕ → Slm
unfolding set_pages get_slm_offset
set_slm_ready_for_csd s start_addr len p =
    let s' = record s {
      ready_info = set_pages s.ready_info (page_of s start_addr) (pages_up len) (some p);
    } in
    put_region s' p (record (s.regions p) {
      ht_head = len;
      ht_tail = 0;
      ht_producer_done = true;
      ht_pending = [];
    })

-- The loop of `release_slm_memory`: pages of the given task's regions lose them.
abbrev pub owned_by : (ℕ → Info) → ℕ → Option ℕ → Bool
owned_by regions task_id none = false
owned_by regions task_id (some p) = (regions p).task_id == task_id

unfoldable pub release_pages : (ℕ → Info) → (ℕ → Option ℕ) → ℕ → ℕ → ℕ → ℕ → Option ℕ
release_pages regions ready from zero task_id = ready
release_pages regions ready from (suc count) task_id =
    release_pages regions
      (if owned_by regions task_id (ready from) then update ready from none else ready) (from + 1)
      count task_id

-- `release_slm_memory`; what `vfree` does to the region itself is not observed.
unfoldable pub release_slm_memory : Slm → ℕ → ℕ → ℕ → Slm
unfolding release_pages get_slm_offset
release_slm_memory s start_addr len task_id = record s {
  ready_info = release_pages s.regions s.ready_info (page_of s start_addr) (pages_up len) task_id;
}

-- `alloc_slm_lba_info`, where `vmalloc_node` succeeds. The size of a demand read is not set: `held`
-- stands for what the memory held.
abbrev pub alloc_slm_lba_info : ℕ → ℕ → ℕ → ℕ → List SourceRange → Info
alloc_slm_lba_info held start_addr len task_id sre = record {
  start_addr = start_addr;
  len = len;
  sre = sre;
  demand_read_offset = minus_one;
  demand_read_size = held;
  request_done = true;
  random_access = false;
  task_id = task_id;
  next_addr = 0;
  is_output = false;
  final_offset = minus_one;
  final_leftovers = 0;
  stream_access = false;
  is_circular = false;
  logical_total_size = len;
  load_complete = false;
  compute_logical_offset = 0;
  output_is_circular = false;
  host_consumed_logical_offset = 0;
  output_logical_total_size = 0;
  extent_mapped = false;
  extent_next_free_page = 0;
  extents = [];
  demand_read_slm_target = 0;
  use_head_tail = false;
  ht_head = 0;
  ht_tail = 0;
  ht_producer_done = false;
  ht_pending = [];
}

-- The part of `free_slm_lba_info` that stops the task which loads a region. The program index of
-- the load program is a parameter.
unfoldable pub end_task : ℕ → (ℕ → Task) → ℕ → Result (ℕ → Task)
end_task copy_to_slm tasks task_id =
    let i = task_pool_index task_id in
    let t = tasks i in
    if not (task_id == task_id_none) && t.generation_id == task_id && t.program_idx == copy_to_slm
    then elim t.slm_lba_info [
      | none ↦ ok tasks
      | some _ ↦ elim t.task_step [
        | Step.schedule ↦ bug
        | Step.free ↦ bug
        | Step.wait ↦ ok (update tasks i (record t { task_step = Step.end; slm_lba_info = none }))
        | Step.end ↦ ok (update tasks i (record t { task_step = Step.end; slm_lba_info = none }))
      ]
    ]
    else ok tasks

-- `info_end`: the first page after those of a region, cut at `to`.
abbrev pub end_of : Info → ℕ → ℕ → ℕ
end_of info from to = if ltb to (from + pages_up info.len) then to else from + pages_up info.len

-- Whether the memory of a region was given back before.
abbrev is_gone : List ℕ → ℕ → Bool
is_gone [] p = false
is_gone (q ∷ qs) p = q == p || is_gone qs p

-- A round of the loop reads the region of its page, which must not be given back yet, and stops the
-- task that loads it.
abbrev pub close_region : ℕ → List ℕ → Slm → ℕ → Result (ℕ → Task)
close_region copy_to_slm gone s p =
    if is_gone gone p then bug else end_task copy_to_slm s.tasks (s.regions p).task_id

-- The loop of `free_slm_lba_info`, from page `from` to page `to`, with fuel for its rounds. `gone`
-- are the regions that it gave back by `vfree`: a page that still leads to one is a use after free.
unfoldable pub free_pages : ℕ → ℕ → List ℕ → Slm → ℕ → ℕ → Result Slm
unfolding set_pages end_task
free_pages copy_to_slm zero gone s from to = hang
free_pages copy_to_slm (suc fuel) gone s from to =
    let skip =
      free_pages copy_to_slm fuel gone (record s { ready_info = update s.ready_info from none })
        (from + 1) to in
    if leb to from then ok s else elim (s.ready_info from) [
      | none ↦ skip
      | some p ↦
          let info_end = end_of (s.regions p) from to in
          elim (close_region copy_to_slm gone s p) [
            | hang ↦ hang
            | bug ↦ bug
            | ok tasks ↦
                free_pages copy_to_slm fuel (p ∷ gone)
                  (record s {
                    tasks = tasks;
                    ready_info = set_pages s.ready_info from (info_end - from) none;
                  })
                  info_end to
          ]
    ]

-- `free_slm_lba_info`
unfoldable pub free_slm_lba_info : ℕ → Slm → ℕ → ℕ → Result Slm
unfolding free_pages
free_slm_lba_info copy_to_slm s slm_offset slm_size =
    free_pages copy_to_slm (suc (pages_up slm_size)) [] s (slm_offset / 4096)
      (slm_offset / 4096 + pages_up slm_size)

-- `free_slm_range`
unfoldable pub free_slm_range : ℕ → Slm → ℕ → Result Slm
unfolding free_slm_lba_info get_slm_offset
free_slm_range copy_to_slm s addr =
    let slm_offset = get_slm_offset s addr in
    elim (free_slm_lba_info copy_to_slm s slm_offset (buddy_act_size s.allocator slm_offset)) [
      | hang ↦ hang
      | bug ↦ bug
      | ok s' ↦
          let (t, code) = buddy_free s'.allocator slm_offset in
          elim code [ done ↦ ok (record s' { allocator = t }) | missing ↦ bug ]
    ]
