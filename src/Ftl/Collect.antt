-- ===== src/Ftl/Collect.antt =====
-- conv_ftl.c: garbage collection, and with it the whole loop of `conv_write`.
pub mod Clean
pub mod Flash
pub mod Erase
pub mod Passed
pub mod Line
pub mod Loops
pub mod Write
pub mod Refine
use flax.Base.{
  ℕ, zero, suc, ◌+◌, ◌-◌, ◌*◌, ◌/◌, ◌%◌, Bool, true, false, ◌&&◌, ◌||◌, not, Option, none, some,
  ltb, leb, ◌==◌, if◌then◌else◌, Result, ok, bug, assert, ◌>>=◌, u32,
}
use flax.Ftl.Geometry.{Params, pgs_per_line, Ppa}
use flax.Ftl.State.{PQueue, ConvFtl, is_pg_free, is_pg_valid, update, should_gc_high}
use flax.Ftl.Pages.{FtlState, vpcs, mark_block_free, mark_line_free}
use flax.Ftl.Map.{gc_write_page, remap_page}

-- `ppa_copy.g.pg++`, on a bit field.
abbrev pub next_pg : Ppa → Ppa
next_pg p = record p { pg = (p.pg + 1) % 65536 }

-- The address that `do_gc` builds, of bit fields.
abbrev pub victim_pg : Params → ℕ → ℕ → ℕ → ℕ → Ppa
victim_pg spp blk flashpg ch lun = record {
  ch = ch % 256;
  lun = lun % 256;
  pl = 0;
  blk = blk % 65536;
  pg = flashpg * spp.pgs_per_flashpg % 65536;
}

module _ (pq : PQueue) where
  open pq use {Queue, pqueue_pop, pqueue_peek}

  -- `select_victim_line`
  abbrev pub take_victim : FtlState pq → ℕ → FtlState pq
  take_victim s l =
      let (q, pos) = pqueue_pop (vpcs pq s) (s.victim_line_pq, s.pos) in
      record s {
        victim_line_pq = q;
        pos = update pos l 0;
        victim_line_cnt = u32 (s.victim_line_cnt + 4294967295);
      }

  unfoldable pub choose_victim : FtlState pq → Bool → Option ℕ → FtlState pq × Option ℕ
  choose_victim s force none = (s, none)
  choose_victim s force (some l) =
      if not force && ltb (pgs_per_line s.sp / 8) (s.lines l).vpc
      then (s, none)
      else (take_victim s l, some l)

  unfoldable pub select_victim_line : FtlState pq → Bool → FtlState pq × Option ℕ
  unfolding choose_victim
  select_victim_line s force = choose_victim s force (pqueue_peek s.victim_line_pq)

  -- The first loop of `clean_one_flashpg`: no page of the flash page may be free.
  unfoldable pub none_free : FtlState pq → Ppa → ℕ → Bool
  none_free s p zero = true
  none_free s p (suc n) = not (is_pg_free (s.pages p)) && none_free s (next_pg p) n

  -- The second loop: valid pages move.
  unfoldable pub clean_pages : FtlState pq → Ppa → ℕ → Result (FtlState pq)
  unfolding gc_write_page
  clean_pages s p zero = ok s
  clean_pages s p (suc n) =
      (if is_pg_valid (s.pages p) then gc_write_page pq s p else ok s) >>= λ s'.
      clean_pages s' (next_pg p) n

  -- `clean_one_flashpg`, less the delay; without valid pages the second loop does nothing.
  unfoldable pub clean_one_flashpg : FtlState pq → Ppa → Result (FtlState pq)
  unfolding none_free clean_pages
  clean_one_flashpg s p =
      assert (none_free s p s.sp.pgs_per_flashpg) (clean_pages s p s.sp.pgs_per_flashpg)

  -- The body of the loops of `do_gc`: the last flash page of a block frees it.
  unfoldable pub gc_flashpg : FtlState pq → ℕ → ℕ → ℕ → ℕ → Result (FtlState pq)
  unfolding clean_one_flashpg mark_block_free
  gc_flashpg s blk flashpg ch lun =
      let p : Ppa = victim_pg s.sp blk flashpg ch lun in
      clean_one_flashpg s p >>= λ s'.
      if flashpg + 1 == s'.sp.flashpgs_per_blk then ok (mark_block_free pq s' p) else ok s'

  -- The loops over the LUNs of a channel, the channels, and the flash pages; each from the given
  -- index on.
  unfoldable pub gc_luns : ℕ → FtlState pq → ℕ → ℕ → ℕ → ℕ → Result (FtlState pq)
  unfolding gc_flashpg
  gc_luns zero s blk flashpg ch lun = ok s
  gc_luns (suc n) s blk flashpg ch lun =
      gc_flashpg s blk flashpg ch lun >>= λ s'. gc_luns n s' blk flashpg ch (lun + 1)

  unfoldable pub gc_chs : ℕ → FtlState pq → ℕ → ℕ → ℕ → Result (FtlState pq)
  unfolding gc_luns
  gc_chs zero s blk flashpg ch = ok s
  gc_chs (suc n) s blk flashpg ch =
      gc_luns s.sp.luns_per_ch s blk flashpg ch 0 >>= λ s'. gc_chs n s' blk flashpg (ch + 1)

  unfoldable pub gc_flashpgs : ℕ → FtlState pq → ℕ → ℕ → Result (FtlState pq)
  unfolding gc_chs
  gc_flashpgs zero s blk flashpg = ok s
  gc_flashpgs (suc n) s blk flashpg =
      gc_chs s.sp.nchs s blk flashpg 0 >>= λ s'. gc_flashpgs n s' blk (flashpg + 1)

  -- `do_gc`, once a victim is chosen.
  unfoldable pub gc_line : FtlState pq → ℕ → Result (FtlState pq)
  unfolding gc_flashpgs mark_line_free
  gc_line s l =
      gc_flashpgs s.sp.flashpgs_per_blk (record s { credits_to_refill = (s.lines l).ipc }) l 0
      >>= λ s'. ok (mark_line_free pq s' l)

  -- `do_gc`; the flag says whether there was a victim.
  unfoldable pub gc_victim : FtlState pq × Option ℕ → Result (FtlState pq × Bool)
  unfolding gc_line
  gc_victim (s, none) = ok (s, false)
  gc_victim (s, some l) = gc_line s l >>= λ s'. ok (s', true)

  unfoldable pub do_gc : FtlState pq → Bool → Result (FtlState pq × Bool)
  unfolding select_victim_line gc_victim
  do_gc s force = gc_victim (select_victim_line s force)

  -- `forground_gc`
  unfoldable pub forground_gc : FtlState pq → Result (FtlState pq)
  unfolding do_gc
  forground_gc s = if should_gc_high s then (do_gc s true >>= λ (s', _). ok s') else ok s

  -- `consume_write_credit` and `check_and_refill_write_credit`; the credits are `uint32_t`.
  unfoldable pub consume_write_credit : FtlState pq → FtlState pq
  consume_write_credit s = record s { write_credits = u32 (s.write_credits + 4294967295) }

  unfoldable pub check_and_refill_write_credit : FtlState pq → Result (FtlState pq)
  unfolding forground_gc
  check_and_refill_write_credit s =
      if s.write_credits == 0
      then (forground_gc s >>= λ s'.
          ok (record s' { write_credits = u32 (s'.write_credits + s'.credits_to_refill) }))
      else ok s

  -- One round of the loop of `conv_write`, less the delays.
  unfoldable pub write_page : FtlState pq → ℕ → Result (FtlState pq)
  unfolding remap_page consume_write_credit check_and_refill_write_credit
  write_page s lpn =
      remap_page pq s lpn >>= λ s'. check_and_refill_write_credit (consume_write_credit s')
