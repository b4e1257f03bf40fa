-- ===== src/Slm/Notify.antt =====
-- csd_slm.c, the notifications: producers and consumers report progress on a region.
pub mod Laws
use flax.Base.{
  ℕ, ◌+◌, ◌*◌, ◌/◌, ◌%◌, Bool, true, false, ◌&&◌, not, Option, none, some, ltb, if◌then◌else◌,
  add_size, sub_size, mul_size,
}
use flax.Slm.Region.{Info, page_down}
use flax.Slm.Store.{
  Slm, get_slm_offset, page_of, region_of, put_region, change_region, Result, ok, bug,
}
use flax.Slm.Frontier.{ht_advance_head, ht_advance_head_page, ht_set_tail}

-- The regions whose producer reports physical addresses.
abbrev pub is_linear : Info → Bool
is_linear info =
    info.use_head_tail
    && not info.extent_mapped
    && not info.is_circular
    && not info.output_is_circular

-- `notify_slm_data_ready`, and `notify_misaligned_slm_data_ready`, which does the same.
unfoldable pub notify_slm_data_ready : Slm → ℕ → ℕ → Result Slm
unfolding get_slm_offset
notify_slm_data_ready s start_addr len = elim (region_of s start_addr) [
  | none ↦ ok s
  | some p ↦
      let info = s.regions p in
      let rel = sub_size start_addr info.start_addr in
      if is_linear info && not info.ht_producer_done
      then elim (ht_advance_head info rel (add_size rel len)) [
        | none ↦ bug
        | some info' ↦ ok (put_region s p info')
      ]
      else ok s
]

unfoldable pub notify_misaligned_slm_data_ready : Slm → ℕ → ℕ → Result Slm
unfolding get_slm_offset
notify_misaligned_slm_data_ready s start_addr len = elim (region_of s start_addr) [
  | none ↦ ok s
  | some p ↦
      let info = s.regions p in
      let rel = sub_size start_addr info.start_addr in
      if is_linear info
      then (if not info.ht_producer_done
          then elim (ht_advance_head info rel (add_size rel len)) [
            | none ↦ bug
            | some info' ↦ ok (put_region s p info')
          ]
          else ok s)
      else ok s
]

-- `notify_if_slm_data_ready`
unfoldable pub notify_if_slm_data_ready : Slm → ℕ → ℕ → Slm
unfolding get_slm_offset ht_advance_head_page
notify_if_slm_data_ready s start_addr len = change_region s start_addr λ info.
    if is_linear info
    then ht_advance_head_page info (add_size (sub_size start_addr info.start_addr) len)
    else info

-- `notify_compute_ready`
unfoldable pub notify_compute_ready : Slm → ℕ → Slm
unfolding get_slm_offset ht_set_tail
notify_compute_ready s start_addr = change_region s start_addr λ info.
    if info.use_head_tail
    then ht_set_tail info (add_size (page_down (sub_size start_addr info.start_addr)) 4096)
    else info

-- `notify_output_consumed`
unfoldable pub consume_output : Info → ℕ → Info
unfolding ht_set_tail
consume_output info len =
    if info.output_is_circular
    then (let to = add_size info.host_consumed_logical_offset len in
        ht_set_tail (record info { host_consumed_logical_offset = to }) to)
    else info

unfoldable pub notify_output_consumed : Slm → ℕ → ℕ → Slm
unfolding get_slm_offset consume_output
notify_output_consumed s start_addr len = change_region s start_addr λ info. consume_output info len

-- `update_circular_compute_offset`, which reads through the pointer without a test for NULL.
unfoldable pub update_circular_compute_offset : Slm → ℕ → ℕ → Result Slm
unfolding get_slm_offset ht_set_tail
update_circular_compute_offset s start_addr logical_offset = elim (region_of s start_addr) [
  | none ↦ bug
  | some p ↦
      let info = s.regions p in
      if info.is_circular
      then (if info.use_head_tail
          then ok (put_region s p (ht_set_tail info logical_offset))
          else ok (put_region s p (record info { compute_logical_offset = logical_offset })))
      else ok s
]

-- `get_latest_compute_ready`: the first page that is not yet consumed.
unfoldable pub get_latest_compute_ready : Slm → ℕ → Result ℕ
unfolding get_slm_offset
get_latest_compute_ready s start_addr = elim (region_of s start_addr) [
  | none ↦ bug
  | some p ↦
      if (s.regions p).use_head_tail
      then ok (add_size (page_of s start_addr) ((s.regions p).ht_tail / 4096))
      else ok (page_of s start_addr)
]

-- `finalize_slm_data_ready`; `start_offset` is the page of `start_addr`.
pub finalize_region : ℕ → Info → ℕ → Info
finalize_region start_offset info output_len =
    let done = record info {
      final_offset = start_offset;
      final_leftovers = output_len % 4096;
      output_logical_total_size = output_len;
      ht_producer_done = true;
    } in
    let head = mul_size (add_size (output_len / 4096) 1) 4096 in
    if info.use_head_tail
    then (if ltb info.ht_head head then record done { ht_head = head } else done)
    else record info { final_offset = start_offset; final_leftovers = output_len % 4096 }

unfoldable pub finalize_slm_data_ready : Slm → ℕ → ℕ → Slm
unfolding get_slm_offset finalize_region
finalize_slm_data_ready s start_addr output_len =
    change_region s start_addr λ info. finalize_region (page_of s start_addr) info output_len
