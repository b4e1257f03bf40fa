-- ===== src/Slm/Demand/Cycle.antt =====
-- The life of one demand read: request, completion, and the check that the consumer repeats.
use flax.Base.{
  ℕ, ◌+◌, ◌≤◌, ◌<◌, ◌≡◌, refl, Bool, true, false, ◌||◌, none, some, List, [], ◌∷◌, length, ◌==◌,
  add_size, sub_size, size_mod, arith, ◌∙◌,
}
use flax.Slm.Region.{Extent, Info, minus_one, max_extents, page_down, page_up}
use flax.Slm.Frontier.{snoc}
use flax.Slm.Extent.{extents_cover}
use flax.Slm.Ready.{extent_ready, check_region}
use flax.Slm.Demand.{ht_demand_alloc_extent, request_region, mark_ready, complete_region}

-- Whether an extent starts at the offset.
abbrev pub starts_at : List Extent → ℕ → Bool
starts_at [] at = false
starts_at (x ∷ xs) at = x.file_offset == at || starts_at xs at

-- The region is in extent mode, no demand read is in flight, there is room for one more extent,
-- no extent covers the probe, and the probe ends 8 KiB below 4 GiB of the region: the page masks
-- keep 32 bits.
pub record CanDemand (info : Info) (addr size : ℕ) : Type 0 where
  pub mapped : info.extent_mapped ≡ true
  pub not_streaming : info.stream_access ≡ false
  pub idle : info.demand_read_offset ≡ minus_one
  pub input : info.is_output ≡ false
  pub room : length info.extents < max_extents
  pub uncovered : extent_ready info.extents (sub_size addr info.start_addr) size ≡ none
  pub some_bytes : 0 < size
  pub fits : sub_size addr info.start_addr + size + 8192 < 4294967296

-- What does not cover a probe does not cover the pages round it.
not_covered :
    (xs : List Extent) (rel size at long : ℕ)
    → extent_ready xs rel size ≡ none
    → at ≤ rel
    → rel + size ≤ at + long
    → at + long < size_mod
    → extents_cover xs at long ≡ false
unfolding extent_ready extents_cover
not_covered [] rel size at long e lo hi w = refl
not_covered (x ∷ xs) rel size at long e lo hi w = ground (arith, not_covered xs rel size at long)

-- The new extent becomes ready if no older one starts where it does.
ready_new :
    (xs : List Extent) (new : Extent) (rel size : ℕ)
    → extent_ready xs rel size ≡ none
    → starts_at xs new.file_offset ≡ false
    → new.file_offset ≤ rel
    → rel + size ≤ new.file_offset + new.file_size
    → new.file_offset + new.file_size < size_mod
    → extent_ready (mark_ready (snoc xs new) new.file_offset) rel size ≡ some true
unfolding extent_ready mark_ready
ready_new [] new rel size e fresh lo hi w = ground arith
ready_new (x ∷ xs) new rel size e fresh lo hi w = ground (arith, ready_new xs new rel size)

last_extent :
    (xs : List Extent) (new : Extent) (rel size : ℕ)
    → extent_ready xs rel size ≡ none
    → new.ready ≡ false
    → new.file_offset ≤ rel
    → rel + size ≤ new.file_offset + new.file_size
    → new.file_offset + new.file_size < size_mod
    → extent_ready (snoc xs new) rel size ≡ some false
unfolding extent_ready
last_extent [] new rel size e r lo hi w = ground arith
last_extent (x ∷ xs) new rel size e r lo hi w = ground (arith, last_extent xs new rel size)

-- Else the older one is marked, and the new one is not.
unready_new :
    (xs : List Extent) (new : Extent) (rel size : ℕ)
    → extent_ready xs rel size ≡ none
    → starts_at xs new.file_offset ≡ true
    → new.ready ≡ false
    → new.file_offset ≤ rel
    → rel + size ≤ new.file_offset + new.file_size
    → new.file_offset + new.file_size < size_mod
    → extent_ready (mark_ready (snoc xs new) new.file_offset) rel size ≡ some false
unfolding extent_ready mark_ready
unready_new [] new rel size e fresh r lo hi w = ground arith
unready_new (x ∷ xs) new rel size e fresh r lo hi w =
    ground (arith, unready_new xs new rel size, last_extent xs new rel size)

-- The request: one extent more, which holds the pages of the probe.
abbrev pub demanded : Info → ℕ → ℕ → Extent
demanded info addr size =
    let rel = sub_size addr info.start_addr in
    let at = page_down rel in
    record {
      file_offset = at;
      file_size = page_up (add_size size (sub_size rel at));
      slm_offset = at;
      ready = false;
    }

abbrev pub granted : Info → ℕ → ℕ → Info
granted info addr size =
    let new = demanded info addr size in
    record info {
      extents = snoc info.extents new;
      random_access = true;
      request_done = false;
      demand_read_size = new.file_size;
      demand_read_slm_target = add_size info.start_addr new.file_offset;
      demand_read_offset = new.file_offset;
    }

alloc_extent_grants :
    (info : Info) (addr size : ℕ)
    → info.demand_read_offset ≡ minus_one
    → length info.extents < max_extents
    → extents_cover info.extents
        (demanded info addr size).file_offset
        (demanded info addr size).file_size
      ≡ false
    → ht_demand_alloc_extent info addr size ≡ (granted info addr size, true)
unfolding ht_demand_alloc_extent
alloc_extent_grants info addr size idle room none_covers = ground arith

-- The pages round a probe hold it, without wrapping.
demanded_holds :
    (info : Info) (addr size : ℕ)
    → sub_size addr info.start_addr + size + 8192 < 4294967296
    → let new = demanded info addr size in
      let rel = sub_size addr info.start_addr in
      (new.file_offset ≤ rel)
      × (rel + size ≤ new.file_offset + new.file_size)
      × (new.file_offset + new.file_size < size_mod)
      × (new.file_offset < minus_one)
demanded_holds info addr size fits = omega arith

request_region_mapped :
    (info : Info) (addr size : ℕ)
    → info.stream_access ≡ false
    → info.extent_mapped ≡ true
    → request_region info addr size ≡ ht_demand_alloc_extent info addr size
unfolding request_region
request_region_mapped info addr size quiet mapped = simp (quiet, mapped)

-- A request in this state adds the extent of the probe's pages, starts its read and wakes the
-- loader.
pub request_region_grants :
    (info : Info) (addr size : ℕ)
    → CanDemand info addr size
    → request_region info addr size ≡ (granted info addr size, true)
request_region_grants info addr size c =
    let new = demanded info addr size in
    let (lo, hi, w, _) = demanded_holds info addr size c.fits in
    request_region_mapped info addr size c.not_streaming c.mapped
    ∙ alloc_extent_grants info addr size c.idle c.room (
        not_covered info.extents (sub_size addr info.start_addr) size new.file_offset new.file_size
          c.uncovered lo hi w)

abbrev pub landed : Info → ℕ → ℕ → Info
landed info addr size =
    let new = demanded info addr size in
    record (granted info addr size) {
      extents = mark_ready (snoc info.extents new) new.file_offset;
      demand_read_offset = minus_one;
    }

complete_granted :
    (info : Info) (addr size : ℕ)
    → CanDemand info addr size
    → complete_region (granted info addr size) ≡ landed info addr size
unfolding complete_region
complete_granted info addr size c =
    let h = demanded_holds info addr size c.fits in ground (arith, c.input, c.mapped, h.3)

check_landed :
    (info : Info) (addr size : ℕ) (b : Bool)
    → CanDemand info addr size
    → let new = demanded info addr size in
      extent_ready
          (mark_ready (snoc info.extents new) new.file_offset)
          (sub_size addr info.start_addr)
          size
        ≡ some b
      → (check_region (landed info addr size) addr size).1 ≡ b
unfolding check_region
check_landed info addr size b c e = ground (arith, c.mapped)

-- A demand read is served: in an input region that is in extent mode already and is not streamed,
-- with no demand read in flight, room for one more extent and none that covers the probe, a probe
-- in the first 4 GiB at whose page no older extent starts is ready after the request and its
-- completion.
pub demand_cycle :
    (info : Info) (addr size : ℕ)
    → CanDemand info addr size
    → starts_at info.extents (page_down (sub_size addr info.start_addr)) ≡ false
    → (check_region (complete_region (request_region info addr size).0) addr size).1 ≡ true
demand_cycle info addr size c fresh =
    let (lo, hi, w, _) = demanded_holds info addr size c.fits in
    rw (request_region_grants info addr size c, complete_granted info addr size c)
      (check_landed info addr size true c (
        ready_new info.extents (demanded info addr size) (sub_size addr info.start_addr) size
          c.uncovered fresh lo hi w))

covers_last :
    (xs : List Extent) (new : Extent)
    → extents_cover (snoc xs new) new.file_offset new.file_size ≡ true
unfolding extents_cover
covers_last [] new = ground arith
covers_last (x ∷ xs) new = ground (arith, covers_last xs new)

covers_itself :
    (xs : List Extent) (new : Extent)
    → extents_cover (mark_ready (snoc xs new) new.file_offset) new.file_offset new.file_size ≡ true
unfolding extents_cover mark_ready
covers_itself [] new = ground arith
covers_itself (x ∷ xs) new = ground (arith, covers_itself xs new, covers_last xs new)

alloc_extent_covered :
    (info : Info) (addr size : ℕ)
    → extents_cover info.extents
        (demanded info addr size).file_offset
        (demanded info addr size).file_size
      ≡ true
    → ht_demand_alloc_extent info addr size ≡ (info, false)
unfolding ht_demand_alloc_extent
alloc_extent_covered info addr size e = ground arith

-- A demand read is lost: in an input region that is in extent mode already and is not streamed, with
-- no demand read in flight, room for one more extent and none that covers the probe, if an older
-- extent starts at the page of a probe in the first 4 GiB, then the completion marks that one, the
-- probe stays unready, and asking again changes nothing.
pub demand_stall :
    (info : Info) (addr size : ℕ)
    → CanDemand info addr size
    → starts_at info.extents (page_down (sub_size addr info.start_addr)) ≡ true
    → let after = complete_region (request_region info addr size).0 in
      ((check_region after addr size).1 ≡ false) × (request_region after addr size ≡ (after, false))
demand_stall info addr size c older =
    let new = demanded info addr size in
    let (lo, hi, w, _) = demanded_holds info addr size c.fits in
    rw (request_region_grants info addr size c, complete_granted info addr size c)
      (
        check_landed info addr size false c (
            unready_new info.extents new (sub_size addr info.start_addr) size c.uncovered older refl
              lo hi w),
        request_region_mapped (landed info addr size) addr size c.not_streaming c.mapped
            ∙ alloc_extent_covered (landed info addr size) addr size
                (covers_itself info.extents new),
      )
