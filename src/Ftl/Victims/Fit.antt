-- ===== src/Ftl/Victims/Fit.antt =====
-- The writes of a page keep the pointers in the geometry and the victims in the flash.
use flax.Base.{
  ℕ, ◌<◌, ◌≡◌, refl, sym, ap, ◌∙◌, Option, none, some, ltb, ok, assert, ◌>>=◌, >>=-ok, assert-ok,
  if-eq, ok-inj, arith, inl, inr,
}
use mathlib.Core.Path.{subst}
use flax.Ftl.Geometry.{Params, Ppa, tt_pgs}
use flax.Ftl.State.{
  PQueue, IoType, gc_io, put_pointer, set_rmap_ent, invalid_lpn, get_rmap_ent, pointer,
}
use flax.Ftl.Pages.{FtlState, mark_page_invalid, mark_block_free}
use flax.Ftl.Pointer.{next_line, advance_write_pointer, get_new_page}
use flax.Ftl.Pages.Marks.{Core, core}
use flax.Ftl.Pointer.Slots.{Shape, Placed}
use flax.Ftl.Pointer.Step.{step_pointer_lem}
use flax.Ftl.Map.Keeps.{Located, Placed-at, enter_page-core, map_page-Located}
use flax.Ftl.Map.{enter_page, map_page, gc_write_page, forget_page}
use flax.Ftl.Victims.{
  QueueLaws, InLines, set_rmap_ent-InLines, mark_page_invalid-InLines, enter_page-InLines,
  put_pointer-InLines, next_line-InLines,
}

module _ (pq : PQueue) (laws : QueueLaws pq) where
  advance_write_pointer-InLines :
      (s : FtlState pq) (io : IoType) {s' : FtlState pq}
      → Shape s.sp
      → Placed s.sp (pointer io s)
      → InLines pq laws s s.sp.blks_per_pl
      → advance_write_pointer pq s io ≡ ok s'
      → InLines pq laws s' s.sp.blks_per_pl
  unfolding advance_write_pointer
  advance_write_pointer-InLines s io sh pl h e =
      let st = step_pointer_lem s.sp sh (pointer io s) pl in
      elim (if-eq st.used (next_line pq s io st.next) (ok (put_pointer io st.next s))
        (sym (rw st.step refl) ∙ e)) [
          | inl (_, e1) ↦
              next_line-InLines pq laws s io st.next s.sp.blks_per_pl
                (omega (arith, st.placed.line, st.placed.blk)) h e1
          | inr (_, e1) ↦
              subst (λ x. InLines pq laws x s.sp.blks_per_pl) (ok-inj e1)
                (put_pointer-InLines pq laws io st.next s s.sp.blks_per_pl h)
        ]

  map_page-InLines :
      (s : FtlState pq) (lpn : ℕ) (io : IoType) {s' : FtlState pq}
      → Located (core s)
      → InLines pq laws s s.sp.blks_per_pl
      → map_page pq s lpn io ≡ ok s'
      → InLines pq laws s' s.sp.blks_per_pl
  unfolding map_page
  map_page-InLines s lpn io {s'} o h e =
      let (p, _, e0) =
        >>=-ok (get_new_page pq s io)
          (λ p. enter_page pq s lpn p >>= λ s1. advance_write_pointer pq s1 io) e in
      let (s1, h1, e1) = >>=-ok (enter_page pq s lpn p) (λ s1. advance_write_pointer pq s1 io) e0 in
      let (_, _, c1) = enter_page-core pq s lpn p h1 in
      let same = ap {A = Core} (λ c. c.sp) c1 in
      let o1 : Located (core s1) =
        subst Located (sym c1) (record { shape = o.shape; wp = o.wp; gc_wp = o.gc_wp }) in
      subst (InLines pq laws s') (ap {A = Params} (λ x. x.blks_per_pl) same) (
        advance_write_pointer-InLines s1 io o1.shape (Placed-at pq s1 o1 io)
          (subst (InLines pq laws s1) (ap {A = Params} (λ x. x.blks_per_pl) (sym same))
            (enter_page-InLines pq laws s lpn p s.sp.blks_per_pl h h1))
          e1)

  pub forget_page-InLines :
      (s : FtlState pq) (o : Option Ppa) (n : ℕ) {s' : FtlState pq}
      → ((p : Ppa) → o ≡ some p → p.blk < n)
      → InLines pq laws s n
      → forget_page pq s o ≡ ok s'
      → InLines pq laws s' n
  unfolding forget_page
  forget_page-InLines s none n b h e = subst (λ x. InLines pq laws x n) (ok-inj e) h
  forget_page-InLines s (some p) n b h e =
      let (s1, h1, e1) =
        >>=-ok (mark_page_invalid pq s p) (λ s1. set_rmap_ent s1 invalid_lpn p) e in
      set_rmap_ent-InLines pq laws s1 invalid_lpn p n
        (mark_page_invalid-InLines pq laws s p n (b p refl) h h1) e1

  -- The pointers and the queue are well-formed, whatever the maps say.
  pub record Fit (s : FtlState pq) : Type 0 where
    pub located : Located (core s)
    pub victims : InLines pq laws s s.sp.blks_per_pl

  pub map_page-Fit :
      (s : FtlState pq) (lpn : ℕ) (io : IoType) {s' : FtlState pq}
      → Fit s
      → map_page pq s lpn io ≡ ok s'
      → Fit s'
  map_page-Fit s lpn io {s'} h e =
      let (o, same) = map_page-Located pq s lpn io h.located e in
      record {
        located = o;
        victims =
            subst (InLines pq laws s') (ap {A = Params} (λ x. x.blks_per_pl) (sym same))
              (map_page-InLines s lpn io h.located h.victims e);
      }

  pub gc_write_page-Fit :
      (s : FtlState pq) (p : Ppa) {s' : FtlState pq} → Fit s → gc_write_page pq s p ≡ ok s' → Fit s'
  unfolding gc_write_page
  gc_write_page-Fit s p h e =
      let (lpn, _, e0) =
        >>=-ok (get_rmap_ent s p) (λ lpn. assert (ltb lpn (tt_pgs s.sp)) (map_page pq s lpn gc_io))
          e in
      let (_, e1) = assert-ok (ltb lpn (tt_pgs s.sp)) (map_page pq s lpn gc_io) e0 in
      map_page-Fit s lpn gc_io h e1

  pub mark_block_free-Fit : (s : FtlState pq) (p : Ppa) → Fit s → Fit (mark_block_free pq s p)
  unfolding mark_block_free
  mark_block_free-Fit s p h = record {
    located = record { shape = h.located.shape; wp = h.located.wp; gc_wp = h.located.gc_wp };
    victims = h.victims;
  }
