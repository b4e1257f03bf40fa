-- ===== src/Ftl/Pages.antt =====
-- conv_ftl.c: the functions that mark pages, blocks and lines, with the counts they keep.
pub mod Marks
use flax.Base.{
  ℕ, zero, suc, ◌+◌, ◌-◌, ◌*◌, ◌/◌, ◌%◌, Bool, true, false, ◌&&◌, ◌||◌, not, Option, none, some,
  List, [], ◌∷◌, ltb, leb, ◌==◌, if◌then◌else◌, Result, ok, bug, assert, ◌>>=◌, u32,
}
use flax.Ftl.Geometry.{Params, pgs_per_line, Ppa, same_blk}
use flax.Ftl.State.{
  PQueue, Line, Block, Status, pg_free, pg_invalid, pg_valid, is_pg_free, is_pg_valid, ConvFtl,
  update, set_page,
}

-- `list_del_init` on a list of lines.
abbrev pub list_del : List ℕ → ℕ → List ℕ
list_del [] l = []
list_del (x ∷ xs) l = if x == l then xs else x ∷ list_del xs l

-- `list_add_tail`
abbrev pub list_add_tail : List ℕ → ℕ → List ℕ
list_add_tail [] l = l ∷ []
list_add_tail (x ∷ xs) l = x ∷ list_add_tail xs l

-- A change of the block that holds a page.
abbrev pub update_blk : (Ppa → Block) → Ppa → Block → Ppa → Block
update_blk f p b q = if same_blk p q then b else f q

module _ (pq : PQueue) where
  open pq use {Queue, pqueue_insert, pqueue_change_priority}

  abbrev pub FtlState : Type 0
  FtlState = ConvFtl Queue

  abbrev pub vpcs : FtlState → ℕ → ℕ
  vpcs s l = (s.lines l).vpc

  -- One page less in the block's and one more invalid page in its count.
  unfoldable pub block_invalid : FtlState → Ppa → Result FtlState
  block_invalid s p =
      let b = s.blocks p in
      assert (ltb b.ipc s.sp.pgs_per_blk) (
        assert (ltb 0 b.vpc && leb b.vpc s.sp.pgs_per_blk) (
          ok (record s {
            blocks = update_blk s.blocks p (record b { ipc = b.ipc + 1; vpc = b.vpc - 1 });
          })))

  abbrev pub line_lowered : FtlState → ℕ → FtlState
  line_lowered s l =
      let line = s.lines l in
      record s { lines = update s.lines l (record line { vpc = line.vpc - 1 }) }

  -- `pqueue_change_priority` writes the line's `vpc`, and moves the line in the queue.
  abbrev pub reprioritised : FtlState → ℕ → FtlState
  reprioritised s l =
      let s' = line_lowered s l in
      let (q, pos) = pqueue_change_priority (vpcs s) (vpcs s') l (s.victim_line_pq, s.pos) in
      record s' { victim_line_pq = q; pos = pos }

  -- The line loses a valid page; a line of the victim queue moves in it.
  unfoldable pub line_vpc_down : FtlState → ℕ → FtlState
  line_vpc_down s l = if s.pos l == 0 then line_lowered s l else reprioritised s l

  -- A full line becomes a victim.
  unfoldable pub full_to_victim : FtlState → ℕ → FtlState
  full_to_victim s l =
      let (q, pos) = pqueue_insert (vpcs s) l (s.victim_line_pq, s.pos) in
      record s {
        full_line_list = list_del s.full_line_list l;
        full_line_cnt = u32 (s.full_line_cnt + 4294967295);
        victim_line_pq = q;
        pos = pos;
        victim_line_cnt = u32 (s.victim_line_cnt + 1);
      }

  abbrev pub line_ipc_up : FtlState → ℕ → FtlState
  line_ipc_up s l =
      let line = s.lines l in
      record s { lines = update s.lines l (record line { ipc = line.ipc + 1 }) }

  -- The line gains an invalid page, and the line that was full becomes a victim.
  unfoldable pub move_line : Bool → FtlState → ℕ → FtlState
  unfolding line_vpc_down full_to_victim
  move_line was_full_line s l =
      let s' = line_vpc_down (line_ipc_up s l) l in
      if was_full_line then full_to_victim s' l else s'

  unfoldable pub line_invalid : FtlState → ℕ → Result FtlState
  unfolding move_line
  line_invalid s l =
      let line = s.lines l in
      assert (ltb line.ipc (pgs_per_line s.sp)) (
        assert (not (line.vpc == pgs_per_line s.sp) || line.ipc == 0) (
          assert (ltb 0 line.vpc && leb line.vpc (pgs_per_line s.sp))
            (ok (move_line (line.vpc == pgs_per_line s.sp) s l))))

  -- `mark_page_invalid`
  unfoldable pub mark_page_invalid : FtlState → Ppa → Result FtlState
  unfolding block_invalid line_invalid
  mark_page_invalid s p =
      assert (is_pg_valid (s.pages p))
        (block_invalid (set_page s p pg_invalid) p >>= λ s'. line_invalid s' p.blk)

  -- The counts of a page that becomes valid.
  unfoldable pub count_valid : FtlState → Ppa → Result FtlState
  count_valid s p =
      let b = s.blocks p in
      let line = s.lines p.blk in
      assert (ltb b.vpc s.sp.pgs_per_blk) (
        assert (ltb line.vpc (pgs_per_line s.sp)) (
          ok (record s {
            blocks = update_blk s.blocks p (record b { vpc = b.vpc + 1 });
            lines = update s.lines p.blk (record line { vpc = line.vpc + 1 });
          })))

  -- `mark_page_valid`
  unfoldable pub mark_page_valid : FtlState → Ppa → Result FtlState
  unfolding count_valid
  mark_page_valid s p = assert (is_pg_free (s.pages p)) (count_valid (set_page s p pg_valid) p)

  -- `mark_block_free`; the loop over the pages of the block is the test on `pg`.
  unfoldable pub mark_block_free : FtlState → Ppa → FtlState
  mark_block_free s p =
      let b = s.blocks p in
      record s {
        pages = λ q. if same_blk p q && ltb q.pg s.sp.pgs_per_blk then pg_free else s.pages q;
        blocks = update_blk s.blocks p (record { ipc = 0; vpc = 0; erase_cnt = b.erase_cnt + 1 });
      }

  -- `mark_line_free`
  unfoldable pub mark_line_free : FtlState → ℕ → FtlState
  mark_line_free s l = record s {
    lines = update s.lines l (record { ipc = 0; vpc = 0 });
    free_line_list = list_add_tail s.free_line_list l;
    free_line_cnt = u32 (s.free_line_cnt + 1);
  }
