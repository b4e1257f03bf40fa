-- ===== src/Ftl/Collect/Clean.antt =====
-- What the writes of garbage collection keep.
use flax.Base.{ℕ, ◌≡◌, ◌≢◌, ◌⊎◌, refl, sym, ap, ◌∙◌, some, ◌==◌, if-eq, Bool-cases, arith, inl, inr}
use mathlib.Core.Option.{some-injective}
use flax.Ftl.Geometry.{Ppa, pgidx_of, same_pg}
use flax.Ftl.State.{pg_free, pg_valid, update_pg}
use flax.Ftl.Pages.Marks.{Core}
use flax.Ftl.Map.Keeps.{IsFtl, Wrote}

abbrev pub HasPage : Core → ℕ → Type 0
HasPage c x = (p : Ppa) × (c.maptbl x ≡ some p)

-- The page holds no logical page, and no write can take it.
pub record Clean (c : Core) (q : Ppa) : Type 0 where
  pub held : c.pages q ≢ pg_free
  pub unmapped : (x : ℕ) → c.maptbl x ≢ some q

-- What garbage collection keeps, as long as it erases nothing.
pub record Kept (c c' : Core) : Type 0 where
  pub ftl : IsFtl c'
  pub sp : c'.sp ≡ c.sp
  pub held : (q : Ppa) → c.pages q ≢ pg_free → c'.pages q ≢ pg_free
  pub clean : (q : Ppa) → Clean c q → Clean c' q
  pub stay : (x : ℕ) → HasPage c x → HasPage c' x
  pub none_new : (x : ℕ) → HasPage c' x → HasPage c x

pub Kept-refl : (c : Core) → IsFtl c → Kept c c
Kept-refl c w = record {
  ftl = w;
  sp = refl;
  held = λ q h. h;
  clean = λ q h. h;
  stay = λ x h. h;
  none_new = λ x h. h;
}

pub Kept-trans : {c c' c'' : Core} → Kept c c' → Kept c' c'' → Kept c c''
Kept-trans k j = record {
  ftl = j.ftl;
  sp = j.sp ∙ k.sp;
  held = λ q h. j.held q (k.held q h);
  clean = λ q h. j.clean q (k.clean q h);
  stay = λ x h. j.stay x (k.stay x h);
  none_new = λ x h. k.none_new x (j.none_new x h);
}

module _ (c c' : Core) (lpn : ℕ) (w : Wrote c c' lpn) where
  Wrote-held : (q : Ppa) → c.pages q ≢ pg_free → c'.pages q ≢ pg_free
  Wrote-held q h e =
      let e' : update_pg c.pages w.page pg_valid q ≡ pg_free = sym (ap (λ f. f q) w.pages) ∙ e in
      elim (if-eq (same_pg w.page q) pg_valid (c.pages q) e') [
        | inl (_, e1) ↦ absurd (ground arith)
        | inr (_, e1) ↦ h e1
      ]

  -- Where the logical page is after the write.
  Wrote-maptbl :
      (x : ℕ) {q : Ppa}
      → c'.maptbl x ≡ some q
      → ((lpn ≡ x) × (w.page ≡ q)) ⊎ ((lpn ≢ x) × (c.maptbl x ≡ some q))
  Wrote-maptbl x {q} e =
      elim (if-eq (lpn == x) (some w.page) (c.maptbl x) (sym (ap (λ f. f x) w.maptbl) ∙ e)) [
        | inl (b, e1) ↦ inl (ground arith, some-injective w.page q e1)
        | inr (b, e1) ↦ inr ((λ h. ground arith), e1)
      ]

  not_page : (q : Ppa) → c.pages q ≢ pg_free → w.page ≢ q
  not_page q h e = h (ap c.pages (sym e) ∙ w.free)

  Wrote-Clean : (q : Ppa) → Clean c q → Clean c' q
  Wrote-Clean q k = record {
    held = Wrote-held q k.held;
    unmapped = λ x e. elim (Wrote-maptbl x e) [
      | inl (_, e1) ↦ not_page q k.held e1
      | inr (_, e1) ↦ k.unmapped x e1
    ];
  }

  pub Wrote-Kept : HasPage c lpn → Kept c c'
  Wrote-Kept (r, h) = record {
    ftl = w.ftl;
    sp = w.sp;
    held = Wrote-held;
    clean = Wrote-Clean;
    stay = λ x (q, e). elim (Bool-cases (lpn == x)) [
      | inl b ↦ (w.page, ap (λ f. f x) w.maptbl ∙ rw b refl)
      | inr b ↦ (q, ap (λ f. f x) w.maptbl ∙ rw b e)
    ];
    none_new = λ x (q, e). elim (Wrote-maptbl x e) [
      | inl (e1, _) ↦ (r, ap c.maptbl (sym e1) ∙ h)
      | inr (_, e1) ↦ (q, e1)
    ];
  }

  -- The page that the logical page had is clean.
  pub old-Clean :
      (q : Ppa) → IsFtl c → c.pages q ≡ pg_valid → c.rmap (pgidx_of c.sp q) ≡ lpn → Clean c' q
  old-Clean q f v b =
      let held : c.pages q ≢ pg_free = λ e. ground (arith, sym v ∙ e) in
      record {
        held = Wrote-held q held;
        unmapped = λ x e. elim (Wrote-maptbl x e) [
          | inl (_, e1) ↦ not_page q held e1
          | inr (n, e1) ↦ n (sym b ∙ (f.tables.mapped x q e1).back)
        ];
      }
