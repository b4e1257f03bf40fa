-- ===== src/Ftl/Collect/Write.antt =====
-- What `conv_write` promises, and that its loop keeps it: an FTL instance is the set of the logical
-- pages that were written; where their data is, and when it moves, is not seen.
use flax.Base.{
  ℕ, ◌/◌, ◌<◌, ◌≡◌, refl, Bool, true, false, not, ◌&&◌, Option, none, some, ltb, if◌then◌else◌, ok,
  ◌>>=◌, >>=-ok, if-eq, ok-inj, inl, inr,
}
use mathlib.Core.Path.{subst}
use flax.Ftl.Geometry.{pgs_per_line}
use flax.Ftl.State.{PQueue, should_gc_high}
use flax.Ftl.Pages.{FtlState, vpcs, mark_line_free}
use flax.Ftl.Pages.Marks.{core}
use flax.Ftl.Map.Keeps.{IsFtl}
use flax.Ftl.Victims.{QueueLaws, InLines}
use flax.Ftl.Victims.Fit.{Fit, gc_write_page-Fit, mark_block_free-Fit}
use flax.Ftl.Collect.{
  take_victim, choose_victim, select_victim_line, gc_flashpgs, gc_line, gc_victim, do_gc,
  forground_gc,
}
use flax.Ftl.Collect.Erase.{Swept, Swept-refl}
use flax.Ftl.Collect.Line.{gc_line-Swept}
use flax.Ftl.Collect.Loops.{gc_flashpgs-keeps}

module _ (pq : PQueue) (laws : QueueLaws pq) where
  -- The whole invariant.
  pub record IsSound (s : FtlState pq) : Type 0 where
    pub ftl : IsFtl (core s)
    pub victims : InLines pq laws s s.sp.blks_per_pl

  pub record Collected (s s' : FtlState pq) : Type 0 where
    pub swept : Swept (core s) (core s')
    pub sound : IsSound s'

  pub Collected-refl : (s : FtlState pq) → IsSound s → Collected s s
  Collected-refl s h = record { swept = Swept-refl (core s) h.ftl; sound = h }

  gc_line-Fit :
      (s : FtlState pq) (l : ℕ) {s' : FtlState pq}
      → Fit pq laws s
      → gc_line pq s l ≡ ok s'
      → Fit pq laws s'
  unfolding gc_line mark_line_free
  gc_line-Fit s l h e =
      let s0 : FtlState pq = record s { credits_to_refill = (s.lines l).ipc } in
      let (s1, h1, e1) =
        >>=-ok (gc_flashpgs pq s.sp.flashpgs_per_blk s0 l 0) (λ s1. ok (mark_line_free pq s1 l))
          e in
      let f =
        gc_flashpgs-keeps pq (Fit pq laws) (λ s p s' x y. gc_write_page-Fit pq laws s p x y)
          (mark_block_free-Fit pq laws) s.sp.flashpgs_per_blk s0 l 0
          (record { located = h.located; victims = h.victims }) h1 in
      subst (Fit pq laws) (ok-inj e1) (record { located = f.located; victims = f.victims })

  gc_line-Collected :
      (s : FtlState pq) (l : ℕ) {s' : FtlState pq}
      → IsSound s
      → l < s.sp.blks_per_pl
      → gc_line pq s l ≡ ok s'
      → Collected s s'
  gc_line-Collected s l h b e =
      let w = gc_line-Swept pq s l h.ftl b e in
      let f = gc_line-Fit s l (record { located = h.ftl.located; victims = h.victims }) e in
      record { swept = w; sound = record { ftl = w.ftl; victims = f.victims } }

  -- The two outcomes of the choice of a victim.
  data Choice (s : FtlState pq) : FtlState pq × Option ℕ → Type 0 where
    none_chosen : Choice s (s, none)
    chosen : (l : ℕ) → l < s.sp.blks_per_pl → Choice s (take_victim pq s l, some l)

  choose_victim-Choice :
      (s : FtlState pq) (force : Bool) (o : Option ℕ)
      → ((l : ℕ) → o ≡ some l → l < s.sp.blks_per_pl)
      → Choice s (choose_victim pq s force o)
  unfolding choose_victim
  choose_victim-Choice s force none h = none_chosen
  choose_victim-Choice s force (some l) h =
      pick (not force && ltb (pgs_per_line s.sp / 8) (s.lines l).vpc)
    where
      pick : (b : Bool) → Choice s (if b then (s, none) else (take_victim pq s l, some l))
      pick true = none_chosen
      pick false = chosen l (h l refl)

  gc_victim-Collected :
      (s : FtlState pq) (c : FtlState pq × Option ℕ) {s' : FtlState pq} {b : Bool}
      → IsSound s
      → Choice s c
      → gc_victim pq c ≡ ok (s', b)
      → Collected s s'
  unfolding gc_victim
  gc_victim-Collected s _ h none_chosen e =
      subst {A = FtlState pq × Bool} (λ (x, _). Collected s x) (ok-inj e) (Collected-refl s h)
  gc_victim-Collected s _ h (chosen l b) e =
      let s0 = take_victim pq s l in
      let (s1, h1, e1) = >>=-ok (gc_line pq s0 l) (λ s1. ok (s1, true)) e in
      let g =
        gc_line-Collected s0 l
          (record {
            ftl = h.ftl;
            victims = λ x k. h.victims x (laws.pop (vpcs pq s) s.pos x s.victim_line_pq k);
          })
          b h1 in
      subst {A = FtlState pq × Bool} (λ (x, _). Collected s x) (ok-inj e1)
        (record { swept = g.swept; sound = g.sound })

  -- Garbage collection, forced or not, keeps the invariant and the set of logical pages.
  do_gc-Collected :
      (s : FtlState pq) (force : Bool) {s' : FtlState pq} {b : Bool}
      → IsSound s
      → do_gc pq s force ≡ ok (s', b)
      → Collected s s'
  unfolding do_gc select_victim_line
  do_gc-Collected s force h e =
      gc_victim-Collected s (select_victim_line pq s force) h
        (choose_victim-Choice s force (pq.pqueue_peek s.victim_line_pq)
          (λ l k. h.victims l (laws.peek s.victim_line_pq l k)))
        e

  pub forground_gc-Collected :
      (s : FtlState pq) {s' : FtlState pq} → IsSound s → forground_gc pq s ≡ ok s' → Collected s s'
  unfolding forground_gc
  forground_gc-Collected s h e =
      elim (if-eq (should_gc_high s) (do_gc pq s true >>= λ (s', _). ok s') (ok s) e) [
        | inl (_, e1) ↦
            let ((s1, b), h1, e2) = >>=-ok (do_gc pq s true) (λ (s', _). ok s') e1 in
            subst (Collected s) (ok-inj e2) (do_gc-Collected s true h h1)
        | inr (_, e1) ↦ subst (Collected s) (ok-inj e1) (Collected-refl s h)
      ]
