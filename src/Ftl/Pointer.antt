-- ===== src/Ftl/Pointer.antt =====
-- conv_ftl.c: the two write pointers, which say where the next page is written, and the lists of
-- lines they take from and give to.
pub mod Slots
pub mod Step
pub mod Moves
use flax.Base.{
  ℕ, zero, suc, ◌+◌, ◌-◌, ◌*◌, ◌/◌, ◌%◌, Bool, true, false, ◌&&◌, not, Option, none, some, List, [],
  ◌∷◌, ltb, leb, ◌==◌, if◌then◌else◌, Result, ok, bug, assert, ◌>>=◌, u32,
}
use flax.Ftl.Geometry.{Params, pgs_per_line, Ppa}
use flax.Ftl.State.{PQueue, Line, WritePointer, IoType, ConvFtl, pointer, put_pointer}
use flax.Ftl.Pages.{FtlState, vpcs, list_add_tail}

-- The part of `advance_write_pointer` that moves the pointer inside its line; the flag says that
-- the line is used up. The fields are `uint32_t`.
unfoldable pub step_pointer : Params → WritePointer → Result (WritePointer × Bool)
step_pointer spp w =
    let back = u32 (w.pg + 1 + 4294967296 - spp.pgs_per_oneshotpg) in
    let next = u32 (back + spp.pgs_per_oneshotpg) in
    assert (ltb w.pg spp.pgs_per_blk) (
      if not ((w.pg + 1) % spp.pgs_per_oneshotpg == 0)
      then ok (record w { pg = w.pg + 1 }, false)
      else assert (ltb w.ch spp.nchs) (
          if not (w.ch + 1 == spp.nchs)
          then ok (record w { pg = back; ch = w.ch + 1 }, false)
          else assert (ltb w.lun spp.luns_per_ch) (
              if not (w.lun + 1 == spp.luns_per_ch)
              then ok (record w { pg = back; ch = 0; lun = w.lun + 1 }, false)
              else if not (next == spp.pgs_per_blk)
              then ok (record w { pg = next; ch = 0; lun = 0 }, false)
              else ok (record w { pg = 0; ch = 0; lun = 0 }, true))))

-- The fields of a `struct ppa` are bit fields.
abbrev pub ppa_of : WritePointer → Ppa
ppa_of w = record {
  ch = w.ch % 256;
  lun = w.lun % 256;
  pl = w.pl % 256;
  blk = w.blk % 65536;
  pg = w.pg % 65536;
}

module _ (pq : PQueue) where
  open pq use {Queue, pqueue_insert}

  -- `get_next_free_line`. On an empty list `list_first_entry` is a pointer into the list's head
  -- and not NULL, so that the test for NULL never holds; that case is `bug`.
  unfoldable pub take_line : FtlState pq → List ℕ → Result (FtlState pq × ℕ)
  take_line s [] = bug
  take_line s (l ∷ ls) =
      ok (record s { free_line_list = ls; free_line_cnt = u32 (s.free_line_cnt + 4294967295) }, l)

  unfoldable pub get_next_free_line : FtlState pq → Result (FtlState pq × ℕ)
  unfolding take_line
  get_next_free_line s = take_line s s.free_line_list

  -- `init_write_pointer`
  unfoldable pub init_write_pointer : FtlState pq → IoType → Result (FtlState pq)
  unfolding get_next_free_line
  init_write_pointer s io = get_next_free_line s >>= λ (s', l).
      ok (put_pointer io (record { curline = l; ch = 0; lun = 0; pg = 0; blk = l; pl = 0 }) s')

  -- A line that is used up goes to the full lines or to the victims.
  unfoldable pub retire_full : FtlState pq → ℕ → Result (FtlState pq)
  retire_full s l = assert ((s.lines l).ipc == 0) (
      ok (record s {
        full_line_list = list_add_tail s.full_line_list l;
        full_line_cnt = u32 (s.full_line_cnt + 1);
      }))

  unfoldable pub retire_victim : FtlState pq → ℕ → Result (FtlState pq)
  retire_victim s l =
      let (q, pos) = pqueue_insert (vpcs pq s) l (s.victim_line_pq, s.pos) in
      assert (ltb (s.lines l).vpc (pgs_per_line s.sp)) (
        assert (ltb 0 (s.lines l).ipc) (
          ok (record s {
            victim_line_pq = q;
            pos = pos;
            victim_line_cnt = u32 (s.victim_line_cnt + 1);
          })))

  unfoldable pub retire_line : FtlState pq → ℕ → Result (FtlState pq)
  unfolding retire_full retire_victim
  retire_line s l =
      if (s.lines l).vpc == pgs_per_line s.sp then retire_full s l else retire_victim s l

  -- The end of `advance_write_pointer`, with the pointer that stands at the end of its line.
  unfoldable pub enter_line : IoType → WritePointer → FtlState pq → ℕ → Result (FtlState pq)
  enter_line io w s l =
      assert (ltb l s.sp.blks_per_pl)
        (assert (w.pl == 0) (ok (put_pointer io (record w { curline = l; blk = l }) s)))

  unfoldable pub pick_line : IoType → WritePointer → FtlState pq → Result (FtlState pq)
  unfolding get_next_free_line enter_line
  pick_line io w s =
      assert (ltb w.blk s.sp.blks_per_pl) (get_next_free_line s >>= λ (s', l). enter_line io w s' l)

  unfoldable pub next_line : FtlState pq → IoType → WritePointer → Result (FtlState pq)
  unfolding retire_line pick_line
  next_line s io w = retire_line s w.curline >>= λ s'. pick_line io w s'

  -- `advance_write_pointer`
  unfoldable pub advance_write_pointer : FtlState pq → IoType → Result (FtlState pq)
  unfolding step_pointer next_line
  advance_write_pointer s io = step_pointer s.sp (pointer io s) >>= λ (w, used).
      if used then next_line s io w else ok (put_pointer io w s)

  -- `get_new_page`
  unfoldable pub get_new_page : FtlState pq → IoType → Result Ppa
  get_new_page s io = assert ((pointer io s).pl % 256 == 0) (ok (ppa_of (pointer io s)))
