-- ===== src/Slm/Store.antt =====
-- The state of csd_slm.c: the map from SLM pages to regions, the regions, the allocator, and the
-- part of the dispatcher's task table that the SLM code reads and writes.
-- A `struct slm_lba_info *` is a number, and `regions` says what it points to.
pub use flax.Base.{Result, ok, bug, hang}
use flax.Base.{ℕ, ◌/◌, ◌%◌, Option, none, some, add_size, sub_size, ◌==◌, if◌then◌else◌}
use flax.Buddy.{Node}
use flax.Slm.Region.{Info}

-- `enum TASK_STEP`
pub data Step : Type 0 where
  free schedule wait end : Step

-- `struct ccsd_task_info`, as far as csd_slm.c reads it.
pub record Task : Type 0 where
  pub generation_id : ℕ
  pub task_step : Step
  pub program_idx : ℕ
  pub slm_lba_info : Option ℕ

pub record Slm : Type 0 where
  pub start_addr : ℕ
  pub allocator : Node
  pub ready_info : ℕ → Option ℕ
  pub regions : ℕ → Info
  pub tasks : ℕ → Task

-- `TASK_ID_NONE`, and `TASK_POOL_INDEX`, the low seven bits.
abbrev pub task_id_none : ℕ
task_id_none = 4294967295

abbrev pub task_pool_index : ℕ → ℕ
task_pool_index gen_id = gen_id % 128

abbrev pub update {ℓ} : {A : Type ℓ} → (ℕ → A) → ℕ → A → ℕ → A
update f i v j = if i == j then v else f j

-- `get_slm_offset` and `get_slm_addr`
unfoldable pub get_slm_offset : Slm → ℕ → ℕ
get_slm_offset s addr = sub_size addr s.start_addr

unfoldable pub get_slm_addr : Slm → ℕ → ℕ
get_slm_addr s offset = add_size s.start_addr offset

-- `get_slm_offset(addr) / SLM_PAGE_SIZE`
abbrev pub page_of : Slm → ℕ → ℕ
page_of s addr = get_slm_offset s addr / 4096

-- `slm_data_ready_info[page].slm_lba_info`
abbrev pub region_of : Slm → ℕ → Option ℕ
region_of s addr = s.ready_info (page_of s addr)

-- Writing through a region's pointer.
abbrev pub put_region : Slm → ℕ → Info → Slm
put_region s p info = record s { regions = update s.regions p info }

-- A change of the region at an address; nothing if the page has no region.
abbrev pub change_region : Slm → ℕ → (Info → Info) → Slm
change_region s addr f = elim (region_of s addr) [
  | none ↦ s
  | some p ↦ put_region s p (f (s.regions p))
]

-- `get_slm_lba_info_from_addr`
unfoldable pub get_slm_lba_info_from_addr : Slm → ℕ → Option ℕ
unfolding get_slm_offset
get_slm_lba_info_from_addr s addr = region_of s addr

-- `get_task_id_from_slm_lba_info`
unfoldable pub get_task_id_from_slm_lba_info : Slm → ℕ → ℕ
unfolding get_slm_offset
get_task_id_from_slm_lba_info s addr = elim (region_of s addr) [
  | none ↦ task_id_none
  | some p ↦ (s.regions p).task_id
]

-- `get_io_task_from_slm_addr`
unfoldable pub get_io_task_from_slm_addr : Slm → ℕ → ℕ
unfolding get_slm_offset
get_io_task_from_slm_addr s addr = elim (region_of s addr) [
  | none ↦ task_id_none
  | some p ↦ if (s.regions p).is_output then task_id_none else (s.regions p).task_id
]
