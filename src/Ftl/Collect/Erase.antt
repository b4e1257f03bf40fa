-- ===== src/Ftl/Collect/Erase.antt =====
-- `mark_block_free`, on a block that holds no logical page, and what garbage collection keeps when it
-- erases.
use flax.Base.{
  ℕ, ◌≡◌, refl, ◌∙◌, Bool, true, false, ◌&&◌, some, ltb, if◌then◌else◌, if-eq, Bool-cases, arith,
  inl, inr,
}
use flax.Ftl.Geometry.{Params, Ppa, same_blk}
use flax.Ftl.Geometry.Radix.{Inside}
use flax.Ftl.State.{pg_free}
use flax.Ftl.Pages.Marks.{Core}
use flax.Ftl.Map.Tables.{Entry}
use flax.Ftl.Map.Keeps.{IsFtl}
use flax.Ftl.Collect.Clean.{HasPage, Clean, Kept}

-- The invariant, and the same logical pages as before.
pub record Swept (c c' : Core) : Type 0 where
  pub ftl : IsFtl c'
  pub sp : c'.sp ≡ c.sp
  pub stay : (x : ℕ) → HasPage c x → HasPage c' x
  pub none_new : (x : ℕ) → HasPage c' x → HasPage c x

pub Swept-refl : (c : Core) → IsFtl c → Swept c c
Swept-refl c w = record { ftl = w; sp = refl; stay = λ x h. h; none_new = λ x h. h }

pub Swept-trans : {c c' c'' : Core} → Swept c c' → Swept c' c'' → Swept c c''
Swept-trans k j = record {
  ftl = j.ftl;
  sp = j.sp ∙ k.sp;
  stay = λ x h. j.stay x (k.stay x h);
  none_new = λ x h. k.none_new x (j.none_new x h);
}

pub Kept-Swept : {c c' : Core} → Kept c c' → Swept c c'
Kept-Swept k = record { ftl = k.ftl; sp = k.sp; stay = k.stay; none_new = k.none_new }

abbrev pub in_block : Params → Ppa → Ppa → Bool
in_block spp p q = same_blk p q && ltb q.pg spp.pgs_per_blk

abbrev pub erased : Core → Ppa → Core
erased c p = record c { pages = λ q. if in_block c.sp p q then pg_free else c.pages q }

pub erased-other :
    (c : Core) (p q : Ppa) → in_block c.sp p q ≡ false → (erased c p).pages q ≡ c.pages q
erased-other c p q e = rw e refl

module _ (c : Core) (p : Ppa) (f : IsFtl c)
    (none_left : (q : Ppa) → Inside c.sp q → in_block c.sp p q ≡ true → Clean c q) where
  erased-Entry : (x : ℕ) (q : Ppa) → c.maptbl x ≡ some q → Entry (erased c p) x q
  erased-Entry x q e =
      let n = f.tables.mapped x q e in
      elim (Bool-cases (in_block c.sp p q)) [
        | inl b ↦ absurd ((none_left q n.inside b).unmapped x e)
        | inr b ↦ record {
          inside = n.inside;
          back = n.back;
          valid = erased-other c p q b ∙ n.valid;
        }
      ]

  pub erased-Swept : Swept c (erased c p)
  erased-Swept = record {
    ftl = record {
      located = record { shape = f.located.shape; wp = f.located.wp; gc_wp = f.located.gc_wp };
      tables = record {
        small = f.tables.small;
        mapped = erased-Entry;
        live = λ q i v. elim (if-eq (in_block c.sp p q) pg_free (c.pages q) v) [
          | inl (_, e) ↦ absurd (ground arith)
          | inr (_, e) ↦ f.tables.live q i e
        ];
      };
    };
    sp = refl;
    stay = λ x h. h;
    none_new = λ x h. h;
  }
