-- ===== src/Ftl/Map.antt =====
-- conv_ftl.c: one logical page gets a new physical page (`gc_write_page`, the loop of `conv_write`).
pub mod Tables
pub mod Keeps
pub mod Returns
use flax.Base.{
  ℕ, zero, suc, ◌+◌, ◌-◌, ◌*◌, ◌/◌, ◌%◌, Bool, true, false, ◌&&◌, not, Option, none, some, ltb, leb,
  ◌==◌, if◌then◌else◌, Result, ok, bug, assert, ◌>>=◌,
}
use flax.Ftl.Geometry.{tt_pgs, Ppa}
use flax.Ftl.State.{
  PQueue, IoType, gc_io, user_io, ConvFtl, invalid_lpn, set_maptbl_ent, get_rmap_ent, set_rmap_ent,
}
use flax.Ftl.Pages.{FtlState, mark_page_invalid, mark_page_valid}
use flax.Ftl.Pointer.{get_new_page, advance_write_pointer}

module _ (pq : PQueue) where
  -- The entries of both maps for a page that is written, and its status.
  unfoldable pub enter_page : FtlState pq → ℕ → Ppa → Result (FtlState pq)
  unfolding mark_page_valid
  enter_page s lpn p =
      set_maptbl_ent s lpn p >>= λ s1. set_rmap_ent s1 lpn p >>= λ s2. mark_page_valid pq s2 p

  -- What `conv_write` and `gc_write_page` share.
  unfoldable pub map_page : FtlState pq → ℕ → IoType → Result (FtlState pq)
  unfolding enter_page get_new_page advance_write_pointer
  map_page s lpn io =
      get_new_page pq s io >>= λ p. enter_page s lpn p >>= λ s'. advance_write_pointer pq s' io

  -- `gc_write_page`, less the delay.
  unfoldable pub gc_write_page : FtlState pq → Ppa → Result (FtlState pq)
  unfolding map_page
  gc_write_page s old =
      get_rmap_ent s old >>= λ lpn. assert (ltb lpn (tt_pgs s.sp)) (map_page s lpn gc_io)

  -- `conv_write`, where a page was mapped before: its entry in the reverse map goes.
  unfoldable pub forget_page : FtlState pq → Option Ppa → Result (FtlState pq)
  unfolding mark_page_invalid
  forget_page s none = ok s
  forget_page s (some p) = mark_page_invalid pq s p >>= λ s'. set_rmap_ent s' invalid_lpn p

  -- The part of the loop of `conv_write` that changes the maps.
  unfoldable pub remap_page : FtlState pq → ℕ → Result (FtlState pq)
  unfolding forget_page map_page
  remap_page s lpn = forget_page s (s.maptbl lpn) >>= λ s'. map_page s' lpn user_io
