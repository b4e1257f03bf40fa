-- ===== src/Ftl/Collect/Flash.antt =====
-- `clean_one_flashpg`: every page of the flash page ends without a logical page, and no logical page
-- is lost.
use flax.Base.{
  ℕ, zero, suc, ◌+◌, ◌<◌, ◌≡◌, ◌≢◌, refl, sym, ap, ◌∙◌, Bool, true, false, not, ◌&&◌, if◌then◌else◌,
  ok, >>=-ok, assert-ok, if-eq, ok-inj, arith, inl, inr,
}
use mathlib.Core.Path.{subst}
use flax.Ftl.Geometry.{Ppa, pgidx_of}
use flax.Ftl.Geometry.Radix.{Inside}
use flax.Ftl.State.{PQueue, Status, pg_free, pg_invalid, pg_valid, is_pg_free, is_pg_valid}
use flax.Ftl.Pages.{FtlState}
use flax.Ftl.Pages.Marks.{Core, core}
use flax.Ftl.Map.{gc_write_page}
use flax.Ftl.Map.Keeps.{IsFtl, gc_write_page-Wrote}
use flax.Ftl.Collect.{next_pg, none_free, clean_pages, clean_one_flashpg}
use flax.Ftl.Collect.Clean.{Clean, Kept, Kept-refl, Kept-trans, Wrote-Kept, old-Clean}

-- The page that many pages on.
abbrev pub page_on : Ppa → ℕ → Ppa
page_on p i = record p { pg = p.pg + i }

abbrev Held : Core → Ppa → ℕ → Type 0
Held c p n = (i : ℕ) → i < n → c.pages (page_on p i) ≢ pg_free

is_pg_valid_eq : (x : Status) → is_pg_valid x ≡ true → x ≡ pg_valid
is_pg_valid_eq pg_valid e = refl
is_pg_valid_eq pg_free e = absurd (ground arith)
is_pg_valid_eq pg_invalid e = absurd (ground arith)

not_valid : (x : Status) → is_pg_valid x ≡ false → x ≢ pg_valid
not_valid x e h = ground (arith, ap is_pg_valid h)

not_free : (x : Status) (b : Bool) → not (is_pg_free x) && b ≡ true → (x ≢ pg_free) × (b ≡ true)
not_free pg_free b e = absurd (ground arith)
not_free pg_valid b e = ((λ h. ground arith), e)
not_free pg_invalid b e = ((λ h. ground arith), e)

-- The successor of a page, below the last one.
next_pg_on : (p : Ppa) (i : ℕ) → p.pg + 1 < 65536 → page_on (next_pg p) i ≡ page_on p (suc i)
next_pg_on p i h = ap (λ k. record p { pg = k }) (omega arith)

module _ (pq : PQueue) where
  none_free-Held :
      (s : FtlState pq) (p : Ppa) (n : ℕ)
      → p.pg + n < 65536
      → none_free pq s p n ≡ true
      → Held (core s) p n
  unfolding none_free
  none_free-Held s p zero b e i h = absurd (omega arith)
  none_free-Held s p (suc n) b e zero h =
      let (f, _) = not_free (s.pages p) (none_free pq s (next_pg p) n) e in
      λ k. f (ap s.pages (ap (λ j. record p { pg = j }) (omega arith)) ∙ k)
  none_free-Held s p (suc n) b e (suc i) h =
      let (_, r) = not_free (s.pages p) (none_free pq s (next_pg p) n) e in
      λ k.
        none_free-Held s (next_pg p) n (omega (arith, b)) r i (omega (arith, h))
          (ap s.pages (next_pg_on p i (omega (arith, b))) ∙ k)

  Clean-step :
      (s : FtlState pq) (p : Ppa) {s' : FtlState pq}
      → IsFtl (core s)
      → Inside s.sp p
      → s.pages p ≢ pg_free
      → (if is_pg_valid (s.pages p) then gc_write_page pq s p else ok s) ≡ ok s'
      → Kept (core s) (core s') × Clean (core s') p
  Clean-step s p {s'} f i h e =
      elim (if-eq (is_pg_valid (s.pages p)) (gc_write_page pq s p) (ok s) e) [
        | inl (v, e1) ↦
            let v' = is_pg_valid_eq (s.pages p) v in
            let w = gc_write_page-Wrote pq s p f e1 in
            let lpn = s.rmap (pgidx_of s.sp p) in
            (
              Wrote-Kept (core s) (core s') lpn w (f.tables.live p i v'),
              old-Clean (core s) (core s') lpn w p f v' refl,
            )
        | inr (v, e1) ↦
            subst (λ x. Kept (core s) (core x) × Clean (core x) p) (ok-inj e1)
              (
                Kept-refl (core s) f,
                record {
                  held = h;
                  unmapped = λ x m. not_valid (s.pages p) v (f.tables.mapped x p m).valid;
                },
              )
      ]

  clean_pages-Kept :
      (s : FtlState pq) (p : Ppa) (n : ℕ) {s' : FtlState pq}
      → IsFtl (core s)
      → ((i : ℕ) → i < n → Inside s.sp (page_on p i))
      → p.pg + n < 65536
      → Held (core s) p n
      → clean_pages pq s p n ≡ ok s'
      → Kept (core s) (core s') × ((i : ℕ) → i < n → Clean (core s') (page_on p i))
  unfolding clean_pages
  clean_pages-Kept s p zero f i b h e =
      subst (λ x. Kept (core s) (core x) × ((i : ℕ) → i < 0 → Clean (core x) (page_on p i)))
        (ok-inj e) (Kept-refl (core s) f, λ i k. absurd (omega arith))
  clean_pages-Kept s p (suc n) {s'} f i b h e =
      let (s1, h1, e1) =
        >>=-ok (if is_pg_valid (s.pages p) then gc_write_page pq s p else ok s)
          (λ s1. clean_pages pq s1 (next_pg p) n) e in
      let same : page_on p 0 ≡ p = ap (λ j. record p { pg = j }) (omega arith) in
      let (k1, c1) =
        Clean-step s p f (subst (Inside s.sp) same (i 0 (omega arith)))
          (subst (λ q. s.pages q ≢ pg_free) same (h 0 (omega arith))) h1 in
      let on : (j : ℕ) → page_on (next_pg p) j ≡ page_on p (suc j) =
        λ j. next_pg_on p j (omega (arith, b)) in
      let (k2, c2) =
        clean_pages-Kept s1 (next_pg p) n k1.ftl
          (λ j l.
            subst (λ spp. Inside spp (page_on (next_pg p) j)) (sym k1.sp)
              (subst (Inside s.sp) (sym (on j)) (i (suc j) (omega arith))))
          (omega (arith, b))
          (λ j l.
            subst (λ q. s1.pages q ≢ pg_free) (sym (on j))
              (k1.held (page_on p (suc j)) (h (suc j) (omega arith))))
          e1 in
      (
        Kept-trans k1 k2,
        λ j. elim j as (λ j. j < suc n → Clean (core s') (page_on p j)) [
          | zero ↦ λ l. k2.clean (page_on p 0) (subst (Clean (core s1)) (sym same) c1)
          | suc j ↦ λ l. subst (Clean (core s')) (on j) (c2 j (omega arith))
        ],
      )

  -- The cleaning of a flash page, which its assertion lets happen only without a free page.
  pub clean_one_flashpg-Kept :
      (s : FtlState pq) (p : Ppa) {s' : FtlState pq}
      → IsFtl (core s)
      → ((i : ℕ) → i < s.sp.pgs_per_flashpg → Inside s.sp (page_on p i))
      → p.pg + s.sp.pgs_per_flashpg < 65536
      → clean_one_flashpg pq s p ≡ ok s'
      → Kept (core s) (core s')
        × ((i : ℕ) → i < s.sp.pgs_per_flashpg → Clean (core s') (page_on p i))
  unfolding clean_one_flashpg
  clean_one_flashpg-Kept s p f i b e =
      let (h, e1) =
        assert-ok (none_free pq s p s.sp.pgs_per_flashpg) (clean_pages pq s p s.sp.pgs_per_flashpg)
          e in
      clean_pages-Kept s p s.sp.pgs_per_flashpg f i b (none_free-Held s p s.sp.pgs_per_flashpg b h)
        e1
