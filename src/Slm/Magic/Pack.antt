-- ===== src/Slm/Magic/Pack.antt =====
-- The packed extents stay inside the read buffer and never overlap.
use flax.Base.{
  ℕ, ◌+◌, ◌*◌, ◌/◌, ◌%◌, ◌≤◌, ◌<◌, ◌≡◌, refl, Bool, true, List, add_size, sub_size, size_mod, arith,
  Bool-cases, inl, inr,
}
use mathlib.Core.Path.{subst}
use flax.Slm.Region.{Extent, Info, page_down, page_up}
use flax.Slm.Store.{Step, ok}
use flax.Slm.Frontier.{snoc}
use flax.Slm.Extent.Inject.{Chain, Chain-snoc}
use flax.Slm.Magic.{
  buffer_pages, first_free_page, packed, has_room, next_extent, first_extent,
  slm_request_demand_read_info,
}

-- A region in extent mode: its extents fill the buffer from the end of the first sequential read
-- to the cursor, and the cursor stays inside the buffer.
pub record IsPacked (info : Info) : Type 0 where
  pub chain : Chain (first_free_page * 4096) info.extents (info.extent_next_free_page * 4096)
  pub inside : info.extent_next_free_page ≤ buffer_pages

Chain-to : (from to to' : ℕ) (xs : List Extent) → to ≡ to' → Chain from xs to → Chain from xs to'
Chain-to from to to' xs e c = subst (λ t. Chain from xs t) e c

-- One extent more at the cursor.
IsPacked-snoc :
    (info : Info) (at long : ℕ)
    → IsPacked info
    → has_room info (long / 4096) ≡ true
    → long % 4096 ≡ 0
    → at + long < size_mod
    → Chain
        (first_free_page * 4096)
        (snoc info.extents (packed info at long))
        ((info.extent_next_free_page + long / 4096) * 4096)
      × (info.extent_next_free_page + long / 4096 ≤ buffer_pages)
IsPacked-snoc info at long p room whole w = (
  Chain-to (first_free_page * 4096) (info.extent_next_free_page * 4096 + long) _ _ (omega arith) (
      Chain-snoc (first_free_page * 4096) (info.extent_next_free_page * 4096) info.extents
        (packed info at long) p.chain refl w),
  ground (arith, room),
)

next_extent-IsPacked :
    (step : Step) (info : Info) (read_offset size : ℕ) {info' : Info} {woken : Bool}
    → IsPacked info
    → read_offset + size + 8192 < 4294967296
    → next_extent step info read_offset size ≡ ok (info', woken)
    → IsPacked info'
unfolding next_extent
next_extent-IsPacked step info read_offset size p w e =
    let at = page_down read_offset in
    let long = page_up (add_size size (sub_size read_offset at)) in
    elim (Bool-cases (has_room info (long / 4096))) [
      | inl room ↦
          let (chain, inside) = IsPacked-snoc info at long p room (omega arith) (omega arith) in
          ground arith
      | inr full ↦ ground arith
    ]

first_extent-IsPacked :
    (step : Step) (info : Info) (read_offset size : ℕ) {info' : Info} {woken : Bool}
    → read_offset + size + 8192 < 4294967296
    → first_extent step info read_offset size ≡ ok (info', woken)
    → IsPacked info'
unfolding first_extent
first_extent-IsPacked step info read_offset size w e = ground arith

-- A demand read that returns keeps the extents packed: however the consumer jumps, they lie behind
-- the first sequential read, inside the buffer, and do not overlap. The probe ends 8 KiB
-- below 4 GiB of the region: the page masks keep 32 bits.
pub slm_request_demand_read_info-IsPacked :
    (step : Step) (info : Info) (addr size : ℕ) {info' : Info} {woken : Bool}
    → (info.extent_mapped ≡ true → IsPacked info)
    → sub_size addr info.start_addr + size + 8192 < 4294967296
    → slm_request_demand_read_info step info addr size ≡ ok (info', woken)
    → info'.extent_mapped ≡ true
    → IsPacked info'
unfolding slm_request_demand_read_info
slm_request_demand_read_info-IsPacked step info addr size {info'} {woken} p w e m = ground (
  arith,
  p,
  next_extent-IsPacked step info (sub_size addr info.start_addr) size {info' = info'}
      {woken = woken},
  first_extent-IsPacked step info (sub_size addr info.start_addr) size {info' = info'}
      {woken = woken},
)
