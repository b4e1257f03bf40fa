-- ===== src/Slm/Memory/Reserve.antt =====
-- What `reserve_slm_memory` means for a lookup by address.
use flax.Base.{
  refl, true, ℕ, ◌+◌, ◌-◌, ◌/◌, ◌%◌, ◌≤◌, ◌<◌, ◌≡◌, some, size_mod, arith, sub_size, ◌∙◌,
}
use flax.Slm.Region.{pages_up}
use flax.Slm.Store.{Slm, get_slm_offset, get_slm_lba_info_from_addr}
use flax.Slm.Memory.{set_pages, reserve_slm_memory}
use flax.Slm.Memory.Pages.{within, set_pages_lem}

-- The pages of a range that starts at a page hold exactly the addresses of its pages.
page_within :
    (base from len b : ℕ)
    → base ≤ from
    → (from - base) % 4096 ≡ 0
    → from + len + 4096 < size_mod
    → b < len
    → within
        (sub_size from base / 4096)
        (sub_size from base / 4096 + pages_up len)
        (sub_size (from + b) base / 4096)
      ≡ true
page_within base from len b le aligned fits h = ground arith

reserve_lookup :
    (s : Slm) (start_addr len p addr : ℕ)
    → get_slm_lba_info_from_addr (reserve_slm_memory s start_addr len p) addr
      ≡ set_pages s.ready_info
          (sub_size start_addr s.start_addr / 4096)
          (pages_up len)
          (some p)
          (sub_size addr s.start_addr / 4096)
unfolding reserve_slm_memory get_slm_lba_info_from_addr get_slm_offset
reserve_lookup s start_addr len p addr = refl

-- After a range is reserved for a region, every address of the range is found to be the region's.
-- The range starts at a page of the device's memory and does not come near 2 ^ 64.
pub reserve_slm_memory-get_slm_lba_info_from_addr :
    (s : Slm) (start_addr len p b : ℕ)
    → s.start_addr ≤ start_addr
    → (start_addr - s.start_addr) % 4096 ≡ 0
    → start_addr + len + 4096 < size_mod
    → b < len
    → get_slm_lba_info_from_addr (reserve_slm_memory s start_addr len p) (start_addr + b) ≡ some p
reserve_slm_memory-get_slm_lba_info_from_addr s start_addr len p b le aligned fits h =
    reserve_lookup s start_addr len p (start_addr + b)
    ∙ (set_pages_lem s.ready_info (sub_size start_addr s.start_addr / 4096) (pages_up len)
          (sub_size (start_addr + b) s.start_addr / 4096) (some p)
        ∙ rw (page_within s.start_addr start_addr len b le aligned fits h) refl)
