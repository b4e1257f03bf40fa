-- ===== src/Ftl/Map/Tables.antt =====
-- The invariant of the mapping table and the reverse map, and what it takes to add an entry.
use flax.Base.{
  ℕ, ◌<◌, ◌≡◌, ◌≢◌, ◌⊎◌, refl, sym, ap, ◌∙◌, true, false, some, ◌==◌, if◌then◌else◌, size_mod,
  Bool-cases, arith, inl, inr,
}
use mathlib.Core.Path.{subst}
use mathlib.Core.Option.{some-injective}
use flax.Ftl.Geometry.{Ppa, tt_pgs, pgidx_of, same_pg}
use flax.Ftl.Geometry.Radix.{Inside, pgidx_of_injective}
use flax.Ftl.State.{Status, pg_free, pg_invalid, pg_valid, update, update_pg, invalid_lpn}
use flax.Ftl.Pages.Marks.{Core}

-- A logical page and the physical page that holds it: each map leads to the other.
pub record Entry (c : Core) (lpn : ℕ) (p : Ppa) : Type 0 where
  pub inside : Inside c.sp p
  pub back : c.rmap (pgidx_of c.sp p) ≡ lpn
  pub valid : c.pages p ≡ pg_valid

-- A valid page belongs to a logical page that is mapped.
abbrev pub Live : Core → Type 0
Live c =
    (p : Ppa)
    → Inside c.sp p
    → c.pages p ≡ pg_valid
    → (q : Ppa) × (c.maptbl (c.rmap (pgidx_of c.sp p)) ≡ some q)

pub record Tables (c : Core) : Type 0 where
  pub small : tt_pgs c.sp < size_mod
  pub mapped : (x : ℕ) (p : Ppa) → c.maptbl x ≡ some p → Entry c x p
  pub live : Live c

-- The same, while the entry of one logical page is about to change.
pub record TablesBut (c : Core) (lpn : ℕ) : Type 0 where
  pub small : tt_pgs c.sp < size_mod
  pub mapped : (x : ℕ) (p : Ppa) → lpn ≢ x → c.maptbl x ≡ some p → Entry c x p
  pub live : Live c

pub Tables-TablesBut : (c : Core) (lpn : ℕ) → Tables c → TablesBut c lpn
Tables-TablesBut c lpn t = record {
  small = t.small;
  mapped = λ x p _ e. t.mapped x p e;
  live = t.live;
}

pub update_here {ℓ} : {A : Type ℓ} (f : ℕ → A) (i : ℕ) (v : A) → update f i v i ≡ v
update_here f i v = ground arith

update_other {ℓ} : {A : Type ℓ} (f : ℕ → A) (i j : ℕ) (v : A) → i ≢ j → update f i v j ≡ f j
update_other f i j v h = ground arith

same_pg_eq : (p q : Ppa) → same_pg p q ≡ true → p ≡ q
same_pg_eq p q e =
    let ch : p.ch ≡ q.ch = ground arith in
    let lun : p.lun ≡ q.lun = ground arith in
    let pl : p.pl ≡ q.pl = ground arith in
    let blk : p.blk ≡ q.blk = ground arith in
    let pg : p.pg ≡ q.pg = ground arith in cc (ch, lun, pl, blk, pg)

same_pg_refl : (p : Ppa) → same_pg p p ≡ true
same_pg_refl p = ground arith

pub Ppa-cases : (p q : Ppa) → (p ≡ q) ⊎ ((p ≢ q) × (same_pg p q ≡ false))
Ppa-cases p q = elim (Bool-cases (same_pg p q)) [
  | inl e ↦ inl (same_pg_eq p q e)
  | inr e ↦ inr ((λ h. ground (arith, ap (λ x. same_pg p x) h, same_pg_refl p)), e)
]

pub update_pg_here : (f : Ppa → Status) (p : Ppa) (v : Status) → update_pg f p v p ≡ v
update_pg_here f p v = rw (same_pg_refl p) refl

pub update_pg_other :
    (f : Ppa → Status) (p q : Ppa) (v : Status) → same_pg p q ≡ false → update_pg f p v q ≡ f q
update_pg_other f p q v e = rw e refl

-- A page's entry of the reverse map, and its status, change.
abbrev pub changed : Core → Ppa → ℕ → Status → Core
changed c p v u = record c {
  rmap = update c.rmap (pgidx_of c.sp p) v;
  pages = update_pg c.pages p u;
}

-- A page is written for a logical page.
abbrev pub entered : Core → ℕ → Ppa → Core
entered c lpn p = record (changed c p lpn pg_valid) { maptbl = update c.maptbl lpn (some p) }

-- The page of a logical page is given up.
abbrev pub forgotten : Core → Ppa → Core
forgotten c p = changed c p invalid_lpn pg_invalid

module _ (c : Core) (p : Ppa) (w : tt_pgs c.sp < size_mod) (i : Inside c.sp p) where
  -- Another page keeps its entry of the reverse map, and its status.
  pub other_rmap :
      (v : ℕ) (q : Ppa)
      → Inside c.sp q
      → p ≢ q
      → update c.rmap (pgidx_of c.sp p) v (pgidx_of c.sp q) ≡ c.rmap (pgidx_of c.sp q)
  other_rmap v q j h =
      update_other c.rmap (pgidx_of c.sp p) (pgidx_of c.sp q) v
        (λ e. h (pgidx_of_injective c.sp p q i j w e))

  other_entry :
      (v : ℕ) (u : Status) (x : ℕ) (q : Ppa)
      → p ≢ q
      → same_pg p q ≡ false
      → Entry c x q
      → Entry (changed c p v u) x q
  other_entry v u x q h e n = record {
    inside = n.inside;
    back = other_rmap v q n.inside h ∙ n.back;
    valid = update_pg_other c.pages p q u e ∙ n.valid;
  }

  forgotten-Live : Live c → Live (forgotten c p)
  forgotten-Live l q j v = elim (Ppa-cases p q) [
    | inl e ↦ absurd (
        ground (
          arith,
          sym (update_pg_here c.pages p pg_invalid) ∙ (ap (update_pg c.pages p pg_invalid) e ∙ v),
        ))
    | inr (h, e) ↦
        let (r, m) = l q j (sym (update_pg_other c.pages p q pg_invalid e) ∙ v) in
        (r, ap c.maptbl (other_rmap invalid_lpn q j h) ∙ m)
  ]

  some_entry :
      (lpn x : ℕ) {r : Ppa}
      → c.maptbl x ≡ some r
      → (r' : Ppa) × (update c.maptbl lpn (some p) x ≡ some r')
  some_entry lpn x {r} e = elim (Bool-cases (lpn == x)) [
    | inl h ↦ (p, rw h refl)
    | inr h ↦ (r, rw h e)
  ]

  entered-Live : (lpn : ℕ) → Live c → Live (entered c lpn p)
  entered-Live lpn l q j v = elim (Ppa-cases p q) [
    | inl e ↦ (
      p,
      ap (λ k. update c.maptbl lpn (some p) (update c.rmap (pgidx_of c.sp p) lpn (pgidx_of c.sp k)))
            (sym e)
          ∙ (ap (update c.maptbl lpn (some p)) (update_here c.rmap (pgidx_of c.sp p) lpn)
              ∙ update_here c.maptbl lpn (some p)),
    )
    | inr (h, e) ↦
        let (r, m) = l q j (sym (update_pg_other c.pages p q pg_valid e) ∙ v) in
        let (r', m') = some_entry lpn (c.rmap (pgidx_of c.sp q)) m in
        (r', ap (update c.maptbl lpn (some p)) (other_rmap lpn q j h) ∙ m')
  ]

-- Between the two steps of a write, the entry of the logical page is stale.
pub forgotten-TablesBut :
    (c : Core) (lpn : ℕ) (p : Ppa)
    → Tables c
    → c.maptbl lpn ≡ some p
    → TablesBut (forgotten c p) lpn
forgotten-TablesBut c lpn p t e =
    let i = (t.mapped lpn p e).inside in
    record {
      small = t.small;
      mapped = λ x q h m. elim (Ppa-cases p q) [
        | inl k ↦ absurd (
            h (
              sym (t.mapped lpn p e).back
              ∙ (ap (λ r. c.rmap (pgidx_of c.sp r)) k ∙ (t.mapped x q m).back)))
        | inr (k, d) ↦ other_entry c p t.small i invalid_lpn pg_invalid x q k d (t.mapped x q m)
      ];
      live = forgotten-Live c p t.small i t.live;
    }

-- A free page of the geometry, once it is entered, makes the tables whole.
pub entered-Tables :
    (c : Core) (lpn : ℕ) (p : Ppa)
    → TablesBut c lpn
    → Inside c.sp p
    → c.pages p ≡ pg_free
    → Tables (entered c lpn p)
entered-Tables c lpn p t i f = record {
  small = t.small;
  mapped = λ x q m. elim (Bool-cases (lpn == x)) [ inl h ↦ here x q h m | inr h ↦ there x q h m ];
  live = entered-Live c p t.small i lpn t.live;
}
  where
    here :
        (x : ℕ) (q : Ppa)
        → (lpn == x) ≡ true
        → update c.maptbl lpn (some p) x ≡ some q
        → Entry (entered c lpn p) x q
    here x q h m =
        let same = some-injective p q (ap (λ b. if b then some p else c.maptbl x) (sym h) ∙ m) in
        subst (λ r. Entry (entered c lpn p) x r) same
          (record {
            inside = i;
            back = update_here c.rmap (pgidx_of c.sp p) lpn ∙ ground arith;
            valid = update_pg_here c.pages p pg_valid;
          })

    there :
        (x : ℕ) (q : Ppa)
        → (lpn == x) ≡ false
        → update c.maptbl lpn (some p) x ≡ some q
        → Entry (entered c lpn p) x q
    there x q h m =
        let n =
          t.mapped x q (λ e. ground arith)
            (sym (update_other c.maptbl lpn x (some p) (λ e. ground arith)) ∙ m) in
        elim (Ppa-cases p q) [
          | inl e ↦ absurd (ground (arith, sym f ∙ (ap c.pages e ∙ n.valid)))
          | inr (k, d) ↦
              let o = other_entry c p t.small i lpn pg_valid x q k d n in
              record { inside = o.inside; back = o.back; valid = o.valid }
        ]
