-- ===== src/Ftl/Victims.antt =====
-- The queue of victim lines, as conv_ftl.c uses it: it holds lines of the flash only.
pub mod Fit
use flax.Base.{
  ℕ, ◌<◌, ◌≡◌, ◌⊎◌, refl, sym, ap, ◌∙◌, Bool, true, false, not, ◌&&◌, ◌||◌, Option, none, some,
  List, [], ◌∷◌, ltb, leb, ◌==◌, if◌then◌else◌, ok, assert, ◌>>=◌, >>=-ok, assert-ok, if-eq, ok-inj,
  arith, inl, inr,
}
use mathlib.Core.Path.{subst}
use flax.Ftl.Geometry.{Params, Ppa, tt_pgs, pgs_per_line}
use flax.Ftl.State.{
  PQueue, WritePointer, IoType, user_io, gc_io, pg_invalid, set_page, put_pointer, set_maptbl_ent,
  set_rmap_ent, pgidx, invalid_lpn, get_rmap_ent, is_pg_free, update, pointer,
}
use flax.Ftl.Pages.{
  FtlState, vpcs, line_ipc_up, block_invalid, line_lowered, reprioritised, line_vpc_down,
  full_to_victim, move_line, line_invalid, mark_page_invalid, count_valid, mark_page_valid,
  mark_block_free,
}
use flax.Ftl.Pointer.{
  take_line, get_next_free_line, retire_full, retire_victim, retire_line, enter_line, pick_line,
  next_line, advance_write_pointer, get_new_page,
}
use flax.Ftl.Pages.Marks.{Core, core}
use flax.Ftl.Pointer.Slots.{Shape, Placed}
use flax.Ftl.Pointer.Step.{step_pointer_lem}
use flax.Ftl.Map.Keeps.{Located, Placed-at, enter_page-core, map_page-Located}
use flax.Ftl.Map.{enter_page, map_page, gc_write_page, forget_page}

-- What the code relies on of pqueue.c: a call puts in the queue what it is given and nothing else,
-- and what it returns is in the queue.
pub record QueueLaws (pq : PQueue) : Type 1 where
  pub Holds : pq.Queue → ℕ → Type 0
  pub init : (l : ℕ) → Holds pq.pqueue_init l → ⊥
  pub insert :
      (vpc pos : ℕ → ℕ) (l x : ℕ) (q : pq.Queue)
      → Holds (pq.pqueue_insert vpc l (q, pos)).0 x
      → (x ≡ l) ⊎ Holds q x
  pub change :
      (vpc vpc' pos : ℕ → ℕ) (l x : ℕ) (q : pq.Queue)
      → Holds (pq.pqueue_change_priority vpc vpc' l (q, pos)).0 x
      → Holds q x
  pub pop :
      (vpc pos : ℕ → ℕ) (x : ℕ) (q : pq.Queue) → Holds (pq.pqueue_pop vpc (q, pos)).0 x → Holds q x
  pub peek : (q : pq.Queue) (l : ℕ) → pq.pqueue_peek q ≡ some l → Holds q l

module _ (pq : PQueue) (laws : QueueLaws pq) where
  -- Every victim is a line.
  abbrev pub InLines : FtlState pq → ℕ → Type 0
  InLines s n = (x : ℕ) → laws.Holds s.victim_line_pq x → x < n

  if-InLines :
      (b : Bool) (s s' : FtlState pq) (n : ℕ)
      → InLines s n
      → InLines s' n
      → InLines (if b then s else s') n
  if-InLines true s s' n h h' = h
  if-InLines false s s' n h h' = h'

  line_vpc_down-InLines :
      (s : FtlState pq) (l n : ℕ) → InLines s n → InLines (line_vpc_down pq s l) n
  unfolding line_vpc_down
  line_vpc_down-InLines s l n h =
      if-InLines (s.pos l == 0) (line_lowered pq s l) (reprioritised pq s l) n h (λ x k.
        h x (laws.change (vpcs pq s) (vpcs pq (line_lowered pq s l)) s.pos l x s.victim_line_pq k))

  full_to_victim-InLines :
      (s : FtlState pq) (l n : ℕ) → l < n → InLines s n → InLines (full_to_victim pq s l) n
  unfolding full_to_victim
  full_to_victim-InLines s l n b h x k =
      elim (laws.insert (vpcs pq s) s.pos l x s.victim_line_pq k) [
        | inl e ↦ omega arith
        | inr e ↦ h x e
      ]

  move_line-InLines :
      (b : Bool) (s : FtlState pq) (l n : ℕ) → l < n → InLines s n → InLines (move_line pq b s l) n
  unfolding move_line
  move_line-InLines true s l n b h =
      full_to_victim-InLines (line_vpc_down pq (line_ipc_up pq s l) l) l n b
        (line_vpc_down-InLines (line_ipc_up pq s l) l n h)
  move_line-InLines false s l n b h = line_vpc_down-InLines (line_ipc_up pq s l) l n h

  line_invalid-InLines :
      (s : FtlState pq) (l n : ℕ) {s' : FtlState pq}
      → l < n
      → InLines s n
      → line_invalid pq s l ≡ ok s'
      → InLines s' n
  unfolding line_invalid
  line_invalid-InLines s l n b h e =
      let line = s.lines l in
      let (_, e1) = assert-ok (ltb line.ipc (pgs_per_line s.sp)) _ e in
      let (_, e2) = assert-ok (not (line.vpc == pgs_per_line s.sp) || line.ipc == 0) _ e1 in
      let (_, e3) = assert-ok (ltb 0 line.vpc && leb line.vpc (pgs_per_line s.sp)) _ e2 in
      subst (λ x. InLines x n) (ok-inj e3)
        (move_line-InLines (line.vpc == pgs_per_line s.sp) s l n b h)

  pub mark_page_invalid-InLines :
      (s : FtlState pq) (p : Ppa) (n : ℕ) {s' : FtlState pq}
      → p.blk < n
      → InLines s n
      → mark_page_invalid pq s p ≡ ok s'
      → InLines s' n
  unfolding mark_page_invalid block_invalid
  mark_page_invalid-InLines s p n b h e =
      let (_, e1) = assert-ok _ _ e in
      let (s1, h1, e2) =
        >>=-ok (block_invalid pq (set_page s p pg_invalid) p) (λ s1. line_invalid pq s1 p.blk) e1 in
      let (_, h2) = assert-ok _ _ h1 in
      let (_, h3) = assert-ok _ _ h2 in
      line_invalid-InLines s1 p.blk n b (subst (λ x. InLines x n) (ok-inj h3) h) e2

  -- The functions that do not touch the queue, and those that add the line of a pointer.
  pub set_rmap_ent-InLines :
      (s : FtlState pq) (v : ℕ) (p : Ppa) (n : ℕ) {s' : FtlState pq}
      → InLines s n
      → set_rmap_ent s v p ≡ ok s'
      → InLines s' n
  set_rmap_ent-InLines s v p n h e =
      let (i, _, e1) = >>=-ok (pgidx s p) (λ i. ok (record s { rmap = update s.rmap i v })) e in
      subst (λ x. InLines x n) (ok-inj e1) h

  mark_page_valid-InLines :
      (s : FtlState pq) (p : Ppa) (n : ℕ) {s' : FtlState pq}
      → InLines s n
      → mark_page_valid pq s p ≡ ok s'
      → InLines s' n
  unfolding mark_page_valid count_valid
  mark_page_valid-InLines s p n h e =
      let (_, e1) = assert-ok (is_pg_free (s.pages p)) _ e in
      let (_, e2) = assert-ok (ltb (s.blocks p).vpc s.sp.pgs_per_blk) _ e1 in
      let (_, e3) = assert-ok (ltb (s.lines p.blk).vpc (pgs_per_line s.sp)) _ e2 in
      subst (λ x. InLines x n) (ok-inj e3) h

  pub enter_page-InLines :
      (s : FtlState pq) (lpn : ℕ) (p : Ppa) (n : ℕ) {s' : FtlState pq}
      → InLines s n
      → enter_page pq s lpn p ≡ ok s'
      → InLines s' n
  unfolding enter_page
  enter_page-InLines s lpn p n h e =
      let (s1, h1, e1) =
        >>=-ok (set_maptbl_ent s lpn p)
          (λ s1. set_rmap_ent s1 lpn p >>= λ s2. mark_page_valid pq s2 p) e in
      let (s2, h2, e2) = >>=-ok (set_rmap_ent s1 lpn p) (λ s2. mark_page_valid pq s2 p) e1 in
      let (_, h3) =
        assert-ok (ltb lpn (tt_pgs s.sp)) (ok (record s { maptbl = update s.maptbl lpn (some p) }))
          h1 in
      mark_page_valid-InLines s2 p n
        (set_rmap_ent-InLines s1 lpn p n (subst (λ x. InLines x n) (ok-inj h3) h) h2) e2

  retire_line-InLines :
      (s : FtlState pq) (l n : ℕ) {s' : FtlState pq}
      → l < n
      → InLines s n
      → retire_line pq s l ≡ ok s'
      → InLines s' n
  unfolding retire_line retire_full retire_victim
  retire_line-InLines s l n b h e =
      elim (if-eq ((s.lines l).vpc == pgs_per_line s.sp) (retire_full pq s l) (retire_victim pq s l)
        e) [
          | inl (_, e1) ↦ let (_, e2) = assert-ok _ _ e1 in subst (λ x. InLines x n) (ok-inj e2) h
          | inr (_, e1) ↦
              let (_, e2) = assert-ok _ _ e1 in
              let (_, e3) = assert-ok _ _ e2 in
              subst (λ x. InLines x n) (ok-inj e3)
                (λ x k. one_more x (laws.insert (vpcs pq s) s.pos l x s.victim_line_pq k))
        ]
    where
      one_more : (x : ℕ) → (x ≡ l) ⊎ laws.Holds s.victim_line_pq x → x < n
      one_more x (inl e4) = omega arith
      one_more x (inr e4) = h x e4

  take_line-InLines :
      (s : FtlState pq) (ls : List ℕ) (n : ℕ) {s' : FtlState pq} {l : ℕ}
      → InLines s n
      → take_line pq s ls ≡ ok (s', l)
      → InLines s' n
  unfolding take_line
  take_line-InLines s [] n h e = absurd (ground arith)
  take_line-InLines s (l ∷ ls) n h e =
      subst {A = FtlState pq × ℕ} (λ (x, _). InLines x n) (ok-inj e) h

  pub put_pointer-InLines :
      (io : IoType) (w : WritePointer) (s : FtlState pq) (n : ℕ)
      → InLines s n
      → InLines (put_pointer io w s) n
  put_pointer-InLines user_io w s n h = h
  put_pointer-InLines gc_io w s n h = h

  pub next_line-InLines :
      (s : FtlState pq) (io : IoType) (w : WritePointer) (n : ℕ) {s' : FtlState pq}
      → w.curline < n
      → InLines s n
      → next_line pq s io w ≡ ok s'
      → InLines s' n
  unfolding next_line pick_line enter_line get_next_free_line
  next_line-InLines s io w n b h e =
      let (s1, h1, e1) = >>=-ok (retire_line pq s w.curline) (pick_line pq io w) e in
      let (_, e2) = assert-ok (ltb w.blk s1.sp.blks_per_pl) _ e1 in
      let ((s2, l), h3, e3) =
        >>=-ok (get_next_free_line pq s1) (λ (s2, l). enter_line pq io w s2 l) e2 in
      let (_, e4) = assert-ok (ltb l s2.sp.blks_per_pl) _ e3 in
      let (_, e5) = assert-ok (w.pl == 0) _ e4 in
      subst (λ x. InLines x n) (ok-inj e5)
        (put_pointer-InLines io (record w { curline = l; blk = l }) s2 n
          (take_line-InLines s1 s1.free_line_list n (retire_line-InLines s w.curline n b h h1) h3))
