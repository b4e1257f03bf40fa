-- ===== src/Ftl/Collect/Refine.antt =====
-- What `conv_write` promises, and that a round of its loop keeps it: an FTL instance is the set of
-- the logical pages that were written; where their data is, and when it moves, is not seen.
use flax.Base.{
  ℕ, ◌+◌, ◌≡◌, refl, sym, ap, ◌∙◌, Bool, true, false, ◌||◌, Option, none, some, ◌==◌, if◌then◌else◌,
  u32, Result, ok, ◌>>=◌, >>=-ok, if-eq, ok-inj, inl, inr,
}
use mathlib.Core.Path.{subst}
use flax.Ftl.Geometry.{Params, Ppa}
use flax.Ftl.State.{PQueue, user_io}
use flax.Ftl.Pages.{FtlState}
use flax.Ftl.Pages.Marks.{Core, core}
use flax.Ftl.Map.{forget_page, map_page, remap_page}
use flax.Ftl.Map.Keeps.{Rewrote, remap_page-Rewrote, forget_page-Located}
use flax.Ftl.Victims.{QueueLaws, InLines}
use flax.Ftl.Victims.Fit.{map_page-Fit, forget_page-InLines}
use flax.Ftl.Collect.{forground_gc, consume_write_credit, check_and_refill_write_credit, write_page}
use flax.Ftl.Collect.Erase.{Swept}
use flax.Ftl.Collect.Write.{IsSound, Collected, Collected-refl, forground_gc-Collected}

-- The abstract state: which logical pages hold data.
abbrev pub is_mapped : Option Ppa → Bool
is_mapped none = false
is_mapped (some p) = true

abbrev pub view : Core → ℕ → Bool
view c x = is_mapped (c.maptbl x)

-- A write, as its caller sees it.
abbrev pub write_spec : ℕ → (ℕ → Bool) → ℕ → Bool
write_spec lpn a x = lpn == x || a x

-- The same set.
same_view :
    (a b : Option Ppa)
    → ((p : Ppa) × (a ≡ some p) → (q : Ppa) × (b ≡ some q))
    → ((q : Ppa) × (b ≡ some q) → (p : Ppa) × (a ≡ some p))
    → is_mapped a ≡ is_mapped b
same_view none none f g = refl
same_view none (some q) f g = let (p, e) = g (q, refl) in ap is_mapped e
same_view (some p) none f g = let (q, e) = f (p, refl) in sym (ap is_mapped e)
same_view (some p) (some q) f g = refl

Swept-view : {c c' : Core} → Swept c c' → (x : ℕ) → view c' x ≡ view c x
Swept-view {c} {c'} w x = same_view (c'.maptbl x) (c.maptbl x) (w.none_new x) (w.stay x)

Rewrote-view :
    (c c' : Core) (lpn : ℕ) → Rewrote c c' lpn → (x : ℕ) → view c' x ≡ write_spec lpn (view c) x
Rewrote-view c c' lpn w x = ap (λ f. is_mapped (f x)) w.maptbl ∙ cases (lpn == x)
  where
    cases : (b : Bool) → is_mapped (if b then some w.page else c.maptbl x) ≡ b || view c x
    cases true = refl
    cases false = refl

module _ (pq : PQueue) (laws : QueueLaws pq) where
  remap_page-IsSound :
      (s : FtlState pq) (lpn : ℕ) {s' : FtlState pq}
      → IsSound pq laws s
      → remap_page pq s lpn ≡ ok s'
      → IsSound pq laws s'
  unfolding remap_page
  remap_page-IsSound s lpn {s'} h e =
      let (s1, h1, e1) =
        >>=-ok (forget_page pq s (s.maptbl lpn)) (λ s1. map_page pq s1 lpn user_io) e in
      let (o, same) = forget_page-Located pq s (s.maptbl lpn) h.ftl.located h1 in
      let v =
        forget_page-InLines pq laws s (s.maptbl lpn) s.sp.blks_per_pl
          (λ p k. (h.ftl.tables.mapped lpn p k).inside.blk) h.victims h1 in
      let f =
        map_page-Fit pq laws s1 lpn user_io
          (record {
            located = o;
            victims =
                subst (InLines pq laws s1) (ap {A = Params} (λ x. x.blks_per_pl) (sym same)) v;
          })
          e1 in
      record { ftl = (remap_page-Rewrote pq s lpn h.ftl e).ftl; victims = f.victims }

  refill-Collected :
      (s : FtlState pq) {s' : FtlState pq}
      → IsSound pq laws s
      → check_and_refill_write_credit pq s ≡ ok s'
      → Collected pq laws s s'
  unfolding check_and_refill_write_credit
  refill-Collected s h e =
      let fill : FtlState pq → Result (FtlState pq) =
        λ s'. ok (record s' { write_credits = u32 (s'.write_credits + s'.credits_to_refill) }) in
      elim (if-eq (s.write_credits == 0) (forground_gc pq s >>= fill) (ok s) e) [
        | inl (_, e1) ↦
            let (s1, h1, e2) = >>=-ok (forground_gc pq s) fill e1 in
            let g = forground_gc-Collected pq laws s h h1 in
            subst (Collected pq laws s) (ok-inj e2) (record {
              swept = g.swept;
              sound = record { ftl = g.sound.ftl; victims = g.sound.victims };
            })
        | inr (_, e1) ↦ subst (Collected pq laws s) (ok-inj e1) (Collected-refl pq laws s h)
      ]

  -- A round of the loop keeps the invariant, and adds its logical page to those that hold data,
  -- whether or not it collects garbage.
  pub write_page-refines :
      (s : FtlState pq) (lpn : ℕ) {s' : FtlState pq}
      → IsSound pq laws s
      → write_page pq s lpn ≡ ok s'
      → IsSound pq laws s' × ((x : ℕ) → view (core s') x ≡ write_spec lpn (view (core s)) x)
  unfolding write_page consume_write_credit
  write_page-refines s lpn {s'} h e =
      let (s1, h1, e1) =
        >>=-ok (remap_page pq s lpn)
          (λ s1. check_and_refill_write_credit pq (consume_write_credit pq s1)) e in
      let r = remap_page-IsSound s lpn h h1 in
      let g =
        refill-Collected (consume_write_credit pq s1) (record { ftl = r.ftl; victims = r.victims })
          e1 in
      (
        g.sound,
        λ x.
            Swept-view {c = core s1} g.swept x
            ∙ Rewrote-view (core s) (core s1) lpn (remap_page-Rewrote pq s lpn h.ftl h1) x,
      )
