-- ===== src/Ftl/Init.antt =====
-- ssd.c and conv_ftl.c: the geometry that `ssd_init_params` computes, and a new FTL instance.
pub mod Sound
use flax.Base.{
  ℕ, zero, suc, ◌+◌, ◌-◌, ◌*◌, ◌/◌, ◌%◌, Bool, true, false, ◌&&◌, ltb, ◌==◌, if◌then◌else◌, Option,
  none, some, List, [], ◌∷◌, Result, ok, bug, assert, ◌>>=◌, u32,
}
use flax.Ftl.Geometry.{Params, Ppa, tt_lines, tt_pgs, pgs_per_line}
use flax.Ftl.State.{
  PQueue, Line, Block, Status, pg_free, WritePointer, IoType, user_io, gc_io, ConvFtl, invalid_lpn,
}
use flax.Ftl.Pages.{FtlState, list_add_tail}
use flax.Ftl.Pointer.{init_write_pointer}

-- The constants of ssd_config.h that the geometry depends on.
pub record Config : Type 0 where
  pub nand_channels : ℕ
  pub luns_per_nand_ch : ℕ
  pub plns_per_lun : ℕ
  pub blks_per_pln : ℕ
  pub blk_size : ℕ
  pub flash_page_size : ℕ
  pub oneshot_page_size : ℕ

abbrev pub div_round_up : ℕ → ℕ → ℕ
div_round_up a b = (a + b - 1) / b

-- The geometry of `ssd_init_params`, for a plane of so many blocks of so many bytes.
abbrev pub geometry : Config → ℕ → ℕ → ℕ → Params
geometry c nparts blks blk_size =
    let oneshotpgs_per_blk = div_round_up blk_size c.oneshot_page_size in
    record {
      secs_per_pg = 8;
      pgs_per_flashpg = c.flash_page_size / 4096;
      flashpgs_per_blk = c.oneshot_page_size / c.flash_page_size * oneshotpgs_per_blk;
      pgs_per_oneshotpg = c.oneshot_page_size / 4096;
      pgs_per_blk = c.oneshot_page_size / 4096 * oneshotpgs_per_blk;
      blks_per_pl = blks;
      pls_per_lun = c.plns_per_lun;
      luns_per_ch = c.luns_per_nand_ch;
      nchs = c.nand_channels / nparts;
    }

abbrev pub aligned : Config → ℕ → Result Params → Result Params
aligned c nparts r = assert (c.nand_channels % nparts == 0) (
    assert (c.oneshot_page_size % 4096 == 0 && c.flash_page_size % 4096 == 0)
      (assert (c.oneshot_page_size % c.flash_page_size == 0) r))

-- Whether a number of blocks or pages can be counted by an `int`, and divided by.
abbrev pub is_count : ℕ → Bool
is_count n = ltb 0 n && ltb n 2147483648

-- `ssd_init_params`, for numbers that fit their types. The blocks of the flash are multiplied as
-- `int`s, which must not overflow; with a given block size the product has 64 bits.
unfoldable pub ssd_init_params : Config → ℕ → ℕ → Result Params
ssd_init_params c capacity nparts =
    let dies = c.plns_per_lun * c.luns_per_nand_ch * (c.nand_channels / nparts) in
    if ltb 0 c.blks_per_pln
    then assert (is_count (c.blks_per_pln * dies)) (
        aligned c nparts (
          ok (
            geometry c nparts c.blks_per_pln
              (div_round_up (capacity / nparts) (c.blks_per_pln * dies)))))
    else assert (ltb 0 c.blk_size) (
        aligned c nparts (
          ok (geometry c nparts (div_round_up (capacity / nparts) (c.blk_size * dies)) c.blk_size)))

-- The loop of `init_lines` that frees the lines, from one on.
unfoldable pub add_lines : ℕ → ℕ → List ℕ → List ℕ
add_lines zero i ls = ls
add_lines (suc n) i ls = add_lines n (i + 1) (list_add_tail ls i)

module _ (pq : PQueue) where
  -- The flash of `ssd_init`, the tables of `init_maptbl` and `init_rmap`, and `init_lines`. The
  -- pointers and credits have no value yet.
  unfoldable pub cleared_state : Params → ℕ → WritePointer → ℕ → FtlState pq
  unfolding add_lines
  cleared_state spp gc_thres_lines_high w credits = record {
    sp = spp;
    gc_thres_lines_high = gc_thres_lines_high;
    maptbl = λ lpn. none;
    rmap = λ i. invalid_lpn;
    wp = w;
    gc_wp = w;
    lines = λ l. record { ipc = 0; vpc = 0 };
    pos = λ l. 0;
    free_line_list = add_lines spp.blks_per_pl 0 [];
    full_line_list = [];
    victim_line_pq = pq.pqueue_init;
    free_line_cnt = spp.blks_per_pl;
    victim_line_cnt = 0;
    full_line_cnt = 0;
    write_credits = credits;
    credits_to_refill = credits;
    pages = λ p. pg_free;
    blocks = λ p. record { ipc = 0; vpc = 0; erase_cnt = 0 };
  }

  -- The loops of `init_maptbl` and `init_rmap` count the pages with an `int`, which overflows behind
  -- 2 ^ 31 - 1; that is no result here.
  unfoldable pub new_state : Params → ℕ → WritePointer → ℕ → Result (FtlState pq)
  unfolding cleared_state
  new_state spp gc_thres_lines_high w credits =
      assert (ltb (tt_pgs spp) 2147483648) (ok (cleared_state spp gc_thres_lines_high w credits))

  abbrev pub init_write_flow_control : FtlState pq → FtlState pq
  init_write_flow_control s = record s {
    write_credits = u32 (pgs_per_line s.sp);
    credits_to_refill = u32 (pgs_per_line s.sp);
  }

  -- `conv_init_ftl`; a pointer and credits stand for what the memory held.
  unfoldable pub conv_init_ftl : Params → ℕ → WritePointer → ℕ → Result (FtlState pq)
  unfolding init_write_pointer new_state
  conv_init_ftl spp gc_thres_lines_high w credits = assert (spp.blks_per_pl == tt_lines spp) (
      new_state spp gc_thres_lines_high w credits >>= λ s0.
      init_write_pointer pq s0 user_io >>= λ s.
      init_write_pointer pq s gc_io >>= λ s'. ok (init_write_flow_control s'))
