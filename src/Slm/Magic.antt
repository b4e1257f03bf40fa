-- ===== src/Slm/Magic.antt =====
-- csd_slm.c, `slm_request_demand_read_info`: demand reads whose extents are packed into a buffer
-- of their own, one behind the other.
pub mod Pack
use flax.Base.{
  ℕ, ◌+◌, ◌*◌, ◌/◌, ◌≡◌, Bool, true, false, ◌&&◌, ◌||◌, not, List, [], ◌∷◌, length, ltb, leb, ◌==◌,
  if◌then◌else◌, add_size, sub_size,
}
use flax.Slm.Region.{Extent, Info, minus_one, max_extents, page_down, page_up}
use flax.Slm.Store.{Step, Result, ok, bug}
use flax.Slm.Frontier.{snoc}
use flax.Slm.Extent.{extents_cover}
use flax.Slm.Demand.{contiguous}

-- `MAGIC_READ_BUFFER_PAGES`, and the pages of the first sequential read, MIN_IO_REQUEST_SIZE
-- bytes, behind which the first extent lies.
abbrev pub buffer_pages : ℕ
buffer_pages = 4096

abbrev pub first_free_page : ℕ
first_free_page = 4

abbrev is_scheduled : Step → Bool
is_scheduled Step.schedule = true
is_scheduled _ = false

-- The pages round a probe, as an extent at the cursor `extent_next_free_page`.
abbrev pub packed : Info → ℕ → ℕ → Extent
packed info at long = record {
  file_offset = at;
  file_size = long;
  slm_offset = info.extent_next_free_page * 4096;
  ready = false;
}

abbrev pub has_room : Info → ℕ → Bool
has_room info pages =
    ltb (length info.extents) max_extents && leb (info.extent_next_free_page + pages) buffer_pages

-- A further extent of a region that is in extent mode. The flag says that the task is woken; the
-- task must not be scheduled already.
unfoldable pub next_extent : Step → Info → ℕ → ℕ → Result (Info × Bool)
next_extent step info read_offset size =
    let at = page_down read_offset in
    let long = page_up (add_size size (sub_size read_offset at)) in
    if extents_cover info.extents at long
    then ok (info, false)
    else if has_room info (long / 4096)
    then (if is_scheduled step
        then bug
        else ok (
          record info {
            extents = snoc info.extents (packed info at long);
            extent_next_free_page = info.extent_next_free_page + long / 4096;
            demand_read_size = long;
            demand_read_slm_target = add_size info.start_addr (info.extent_next_free_page * 4096);
            request_done = false;
            random_access = true;
            demand_read_offset = at;
          },
          true,
        ))
    else ok (info, false)

-- The jump that switches a region to extent mode, with its first extent. The task must be
-- scheduled.
pub first_extent : Step → Info → ℕ → ℕ → Result (Info × Bool)
first_extent step info read_offset size =
    let at = page_down read_offset in
    let asked = add_size size (sub_size read_offset at) in
    let long = page_up asked in
    let switched = record info {
      extent_mapped = true;
      extents = [];
      extent_next_free_page = first_free_page;
      random_access = true;
      request_done = false;
      demand_read_size = asked;
      demand_read_slm_target = add_size info.start_addr (first_free_page * 4096);
      demand_read_offset = at;
    } in
    if not (is_scheduled step)
    then bug
    else if leb (first_free_page + long / 4096) buffer_pages
    then ok (
      record switched {
        extents = packed switched at long ∷ [];
        extent_next_free_page = first_free_page + long / 4096;
      },
      true,
    )
    else ok (switched, true)

-- `slm_request_demand_read_info`, given the step of the region's task.
unfoldable pub slm_request_demand_read_info : Step → Info → ℕ → ℕ → Result (Info × Bool)
slm_request_demand_read_info step info addr size =
    let read_offset = sub_size addr info.start_addr in
    if info.demand_read_offset == minus_one && not info.is_output
    then (if info.extent_mapped
        then next_extent step info read_offset size
        else if not (contiguous info read_offset) && not info.is_circular
        then first_extent step info read_offset size
        else if read_offset == 0
        then ok (info, false)
        else if not info.random_access
        then ok (record info { stream_access = true }, false)
        else ok (
          record info {
            request_done = false;
            demand_read_offset = page_down read_offset;
            demand_read_size = add_size size (sub_size read_offset (page_down read_offset));
          },
          true,
        ))
    else ok (info, false)
