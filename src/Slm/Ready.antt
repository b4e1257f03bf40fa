-- ===== src/Slm/Ready.antt =====
-- csd_slm.c, the checks of a consumer: is a range of SLM ready to be read?
pub mod Sound
use flax.Base.{
  ℕ, ◌+◌, ◌-◌, ◌*◌, ◌/◌, ◌%◌, Bool, true, false, ◌&&◌, ◌||◌, not, Option, none, some, List, [], ◌∷◌,
  ltb, leb, ◌==◌, if◌then◌else◌, add_size, sub_size,
}
use flax.Slm.Region.{Extent, Info, minus_one, page_size, page_down, pages_up}
use flax.Slm.Store.{Slm, get_slm_offset, page_of, region_of, put_region, Result, ok, bug}

-- The head/tail test: the page that ends the probe lies below the produced frontier. A probe of
-- exactly one page asks for its first page only.
abbrev last_page : ℕ → ℕ → ℕ
last_page rel len = if len == page_size then rel / 4096 else sub_size (add_size rel len) 1 / 4096

unfoldable pub head_ready : Info → ℕ → ℕ → Bool
head_ready info rel len = ltb (last_page rel len) (pages_up info.ht_head)

-- The scan of `extents` for the first one that covers the probe; `none` if there is none.
unfoldable pub extent_ready : List Extent → ℕ → ℕ → Option Bool
extent_ready [] rel len = none
extent_ready (x ∷ xs) rel len =
    let rest = extent_ready xs rel len in
    if leb x.file_offset rel && leb (add_size rel len) (add_size x.file_offset x.file_size)
    then some x.ready
    else rest

-- `if (info->is_output == false) info->next_addr = rel + len;`
abbrev pub pass_by : Info → ℕ → ℕ → Info
pass_by info rel len = if info.is_output then info else record info { next_addr = add_size rel len }

-- The branch for a region in extent mode.
unfoldable pub check_extents : Info → ℕ → ℕ → Info × Bool
unfolding extent_ready
check_extents info rel len = elim (extent_ready info.extents rel len) [
  | none ↦ (info, false)
  | some false ↦ (info, false)
  | some true ↦ (pass_by info rel len, true)
]

-- The branch for a region in head/tail mode.
unfoldable pub check_head : Info → ℕ → ℕ → Info × Bool
unfolding head_ready
check_head info rel len =
    if head_ready info rel len then (pass_by info rel len, true) else (info, false)

-- `check_slm_data_ready` once its region is found.
unfoldable pub check_region : Info → ℕ → ℕ → Info × Bool
unfolding check_head check_extents
check_region info start_addr len =
    let rel = sub_size start_addr info.start_addr in
    if info.use_head_tail
      && not info.extent_mapped
      && not info.is_circular
      && not info.output_is_circular
    then check_head info rel len
    else if info.extent_mapped
    then check_extents info rel len
    else (info, false)

-- `check_slm_data_ready`
unfoldable pub check_slm_data_ready : Slm → ℕ → ℕ → Slm × Bool
unfolding check_region get_slm_offset
check_slm_data_ready s start_addr len = elim (region_of s start_addr) [
  | none ↦ (s, false)
  | some p ↦
      let (info, ready) = check_region (s.regions p) start_addr len in (put_region s p info, ready)
]

-- `check_slm_data_ready_info`, whose caller hands over the region.
unfoldable pub check_slm_data_ready_info : Info → ℕ → ℕ → Info × Bool
unfolding check_head check_extents
check_slm_data_ready_info info start_addr len =
    let rel = sub_size start_addr info.start_addr in
    if not info.is_output && (info.random_access && not (info.demand_read_offset == minus_one))
    then (info, false)
    else if info.extent_mapped
    then check_extents info rel len
    else if info.use_head_tail && not info.is_circular && not info.output_is_circular
    then check_head info rel len
    else (info, false)

-- `check_slm_output_data_finalized_info`; the other function of that name finds its region first.
unfoldable pub check_slm_output_data_finalized_info : Slm → ℕ → Info → Bool
check_slm_output_data_finalized_info s start_addr info =
    info.is_output
    && not (info.final_offset == minus_one)
    && ltb info.final_offset (page_of s start_addr)

unfoldable pub check_slm_output_data_finalized : Slm → ℕ → Bool
unfolding get_slm_offset check_slm_output_data_finalized_info
check_slm_output_data_finalized s start_addr = elim (region_of s start_addr) [
  | none ↦ false
  | some p ↦ check_slm_output_data_finalized_info s start_addr (s.regions p)
]

-- `get_slm_last_page_leftover`
unfoldable pub get_slm_last_page_leftover : Slm → ℕ → Result ℕ
unfolding get_slm_offset
get_slm_last_page_leftover s start_addr = elim (region_of s start_addr) [
  | none ↦ ok 0
  | some p ↦
      let info = s.regions p in
      if info.is_output && not (info.final_offset == minus_one)
      then (if page_of s start_addr == info.final_offset then ok info.final_leftovers else bug)
      else ok 0
]

-- The host's check of an output region: whether it is ready, and the length that is left of
-- `*cmd_len`.
unfoldable pub check_output_linear : Info → ℕ → ℕ → Bool × ℕ
check_output_linear info rel len =
    let rel_end = add_size rel len in
    let total = info.output_logical_total_size in
    if info.ht_producer_done && leb total rel
    then (true, 0)
    else if info.ht_producer_done && ltb total rel_end
    then (ltb (sub_size total 1 / 4096) (pages_up info.ht_head), sub_size total rel)
    else (ltb (sub_size rel_end 1 / 4096) (pages_up info.ht_head), len)

unfoldable pub check_output_ring : Info → ℕ → Bool × ℕ
check_output_ring info len =
    let from = info.host_consumed_logical_offset in
    let total = info.output_logical_total_size in
    if ltb 0 total && leb total from
    then (true, 0)
    else if ltb 0 total && ltb (sub_size total from) len
    then (leb (add_size from (sub_size total from)) info.ht_head, sub_size total from)
    else (leb (add_size from len) info.ht_head, len)

-- `check_output_slm_data_ready`
unfoldable pub check_output_slm_data_ready : Slm → ℕ → ℕ → Bool × ℕ
unfolding check_output_linear check_output_ring get_slm_offset
check_output_slm_data_ready s start_addr cmd_len = elim (region_of s start_addr) [
  | none ↦ (false, 0)
  | some p ↦
      let info = s.regions p in
      if info.use_head_tail && not info.output_is_circular
      then check_output_linear info (sub_size start_addr info.start_addr) cmd_len
      else if info.is_output && info.output_is_circular
      then check_output_ring info cmd_len
      else (false, 0)
]

-- `get_continuous_size`
unfoldable pub get_continuous_size : Slm → ℕ → ℕ → ℕ
unfolding get_slm_offset
get_continuous_size s addr len = elim (region_of s addr) [
  | none ↦ 0
  | some p ↦
      let info = s.regions p in
      let rel_page = sub_size addr info.start_addr / 4096 in
      let ready_pages = page_down info.ht_head / 4096 in
      if info.use_head_tail
      then (if leb ready_pages rel_page
          then 0
          else if ltb (len / 4096) (ready_pages - rel_page)
          then len / 4096 * 4096
          else (ready_pages - rel_page) * 4096)
      else 0
]
