-- ===== src/Slm/Region.antt =====
-- csd_slm.h: `struct slm_lba_info`, what the device knows of one SLM region, and page arithmetic.
-- An array with its count is the list of its live entries (`ht_pending`, `extents`).
use flax.Base.{ℕ, ◌*◌, ◌/◌, ◌%◌, Bool, List, add_size}

-- `struct ht_interval`: the bytes of `[start, end)`.
pub record Interval : Type 0 where
  pub start : ℕ
  pub end : ℕ

-- `struct extent_map_entry`
pub record Extent : Type 0 where
  pub file_offset : ℕ
  pub file_size : ℕ
  pub slm_offset : ℕ
  pub ready : Bool

-- `struct source_range_entry`, as far as the SLM and the dispatcher read it.
pub record SourceRange : Type 0 where
  pub saddr : ℕ
  pub n_byte : ℕ

-- `struct slm_lba_info`; `extent_count`, `nentry` and `ht_pending_cnt` are the lists' lengths.
pub record Info : Type 0 where
  pub start_addr : ℕ
  pub len : ℕ
  pub sre : List SourceRange
  pub demand_read_offset : ℕ
  pub demand_read_size : ℕ
  pub request_done : Bool
  pub random_access : Bool
  pub task_id : ℕ
  pub next_addr : ℕ
  pub is_output : Bool
  pub final_offset : ℕ
  pub final_leftovers : ℕ
  pub stream_access : Bool
  pub is_circular : Bool
  pub logical_total_size : ℕ
  pub load_complete : Bool
  pub compute_logical_offset : ℕ
  pub output_is_circular : Bool
  pub host_consumed_logical_offset : ℕ
  pub output_logical_total_size : ℕ
  pub extent_mapped : Bool
  pub extent_next_free_page : ℕ
  pub extents : List Extent
  pub demand_read_slm_target : ℕ
  pub use_head_tail : Bool
  pub ht_head : ℕ
  pub ht_tail : ℕ
  pub ht_producer_done : Bool
  pub ht_pending : List Interval

-- `(size_t)-1`, also the `-1` of the 64-bit fields.
abbrev pub minus_one : ℕ
minus_one = 18446744073709551615

-- `SLM_PAGE_SIZE`
abbrev pub page_size : ℕ
page_size = 4096

-- `HT_MAX_PENDING`
abbrev pub max_pending : ℕ
max_pending = 256

-- `MAX_EXTENT_ENTRIES`
abbrev pub max_extents : ℕ
max_extents = 16

-- `DIVIDE_UP(value, SLM_PAGE_SIZE)`
abbrev pub pages_up : ℕ → ℕ
pages_up n = add_size n 4095 / 4096

-- `ALIGNED_DOWN(value, SLM_PAGE_SIZE)`: the mask has the type of SLM_PAGE_SIZE, an unsigned int, so
-- that only the low 32 bits are left.
abbrev pub page_down : ℕ → ℕ
page_down n = n % 4294967296 / 4096 * 4096

-- `ALIGNED_UP(value, SLM_PAGE_SIZE)`, with the same mask.
abbrev pub page_up : ℕ → ℕ
page_up n = add_size n 4095 % 4294967296 / 4096 * 4096
