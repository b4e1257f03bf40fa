-- ===== src/Ftl/Map/Keeps.antt =====
-- What writing one page, for a host or for garbage collection, does to the maps.
use flax.Base.{
  ℕ, ◌<◌, ◌≡◌, refl, sym, ap, ◌∙◌, size_mod, Option, none, some, ltb, ok, assert, ◌>>=◌, >>=-ok,
  assert-ok, ok-inj, arith, inl, inr,
}
use mathlib.Core.Path.{subst}
use mathlib.Core.Option.{some-injective}
use flax.Ftl.Geometry.{Params, Ppa, tt_pgs, pgidx_of}
use flax.Ftl.Geometry.Radix.{Inside}
use flax.Ftl.State.{
  PQueue, Status, pg_free, pg_invalid, pg_valid, IoType, user_io, gc_io, WritePointer, update,
  update_pg, invalid_lpn, pointer, set_maptbl_ent, get_rmap_ent, set_rmap_ent, pgidx,
}
use flax.Ftl.Pages.{FtlState, mark_page_invalid, mark_page_valid}
use flax.Ftl.Pages.Marks.{
  Core, core, mark_page_invalid-core, mark_page_valid-core, set_maptbl_ent-core, set_rmap_ent-core,
  pgidx-ok, with_page, with_maptbl, with_rmap,
}
use flax.Ftl.Pointer.{get_new_page, advance_write_pointer}
use flax.Ftl.Pointer.Slots.{Shape, Placed}
use flax.Ftl.Pointer.Moves.{
  address-Inside, Moved, get_new_page-address, advance_write_pointer-Moved,
}
use flax.Ftl.Map.{enter_page, map_page, gc_write_page, forget_page, remap_page}
use flax.Ftl.Map.Tables.{
  Tables, TablesBut, entered, forgotten, Ppa-cases, update_pg_here, update_pg_other, update_here,
  other_rmap, Tables-TablesBut, forgotten-TablesBut, entered-Tables,
}

empty_clash {ℓ} : {A : Type ℓ} {a : A} → none ≡ some a → ⊥
empty_clash e = ground arith

free_clash : pg_free ≡ pg_invalid → ⊥
free_clash e = ground arith

pub record Located (c : Core) : Type 0 where
  pub shape : Shape c.sp
  pub wp : Placed c.sp c.wp
  pub gc_wp : Placed c.sp c.gc_wp

-- The invariant of an FTL instance.
pub record IsFtl (c : Core) : Type 0 where
  pub located : Located c
  pub tables : Tables c

-- A free page now holds the logical page, and no other entry of the mapping table changes.
pub record Wrote (c c' : Core) (lpn : ℕ) : Type 0 where
  pub page : Ppa
  pub inside : Inside c.sp page
  pub free : c.pages page ≡ pg_free
  pub bound : lpn < tt_pgs c.sp
  pub sp : c'.sp ≡ c.sp
  pub maptbl : c'.maptbl ≡ update c.maptbl lpn (some page)
  pub rmap : c'.rmap ≡ update c.rmap (pgidx_of c.sp page) lpn
  pub pages : c'.pages ≡ update_pg c.pages page pg_valid
  pub ftl : IsFtl c'

-- A page holds no data, and leads to no logical page.
pub record GivenUp (spp : Params) (c : Core) (p : Ppa) : Type 0 where
  pub inside : Inside spp p
  pub unreferenced : c.rmap (pgidx_of spp p) ≡ invalid_lpn
  pub invalid : c.pages p ≡ pg_invalid

-- The same for a host's write, which also gives up the page that the logical page had.
pub record Rewrote (c c' : Core) (lpn : ℕ) : Type 0 where
  pub page : Ppa
  pub inside : Inside c.sp page
  pub free : c.pages page ≡ pg_free
  pub sp : c'.sp ≡ c.sp
  pub maptbl : c'.maptbl ≡ update c.maptbl lpn (some page)
  pub old : (p : Ppa) → c.maptbl lpn ≡ some p → GivenUp c.sp c' p
  pub ftl : IsFtl c'

Tables-moved :
    (c : Core) (w1 w2 : WritePointer) → Tables c → Tables (record c { wp = w1; gc_wp = w2 })
Tables-moved c w1 w2 t = record {
  small = t.small;
  mapped = λ x p e.
      let n = t.mapped x p e in record { inside = n.inside; back = n.back; valid = n.valid };
  live = t.live;
}

entered_moved :
    (c : Core) (lpn : ℕ) (p : Ppa) (w1 w2 : WritePointer)
    → Shape c.sp
    → Placed c.sp w1
    → Placed c.sp w2
    → TablesBut c lpn
    → Inside c.sp p
    → c.pages p ≡ pg_free
    → lpn < tt_pgs c.sp
    → Wrote c (record (entered c lpn p) { wp = w1; gc_wp = w2 }) lpn
entered_moved c lpn p w1 w2 sh p1 p2 t i f b = record {
  page = p;
  inside = i;
  free = f;
  bound = b;
  sp = refl;
  maptbl = refl;
  rmap = refl;
  pages = refl;
  ftl = record {
    located = record { shape = sh; wp = p1; gc_wp = p2 };
    tables = Tables-moved (entered c lpn p) w1 w2 (entered-Tables c lpn p t i f);
  };
}

module _ (pq : PQueue) where
  pub enter_page-core :
      (s : FtlState pq) (lpn : ℕ) (p : Ppa) {s' : FtlState pq}
      → enter_page pq s lpn p ≡ ok s'
      → (lpn < tt_pgs s.sp) × (s.pages p ≡ pg_free) × (core s' ≡ entered (core s) lpn p)
  unfolding enter_page
  enter_page-core s lpn p e =
      let (s1, h1, e1) =
        >>=-ok (set_maptbl_ent s lpn p)
          (λ s1. set_rmap_ent s1 lpn p >>= λ s2. mark_page_valid pq s2 p) e in
      let (s2, h2, e2) = >>=-ok (set_rmap_ent s1 lpn p) (λ s2. mark_page_valid pq s2 p) e1 in
      let (b, c1) = set_maptbl_ent-core s lpn p h1 in
      let c2 = set_rmap_ent-core s1 lpn p h2 in
      let (f, c3) = mark_page_valid-core pq s2 p e2 in
      let c12 : core s2 ≡ with_rmap (with_maptbl (core s) lpn p) p lpn =
        c2 ∙ ap {A = Core} (λ c. with_rmap c p lpn) c1 in
      (
        b,
        sym (ap {A = Core} (λ c. c.pages p) c12) ∙ f,
        c3 ∙ ap {A = Core} (λ c. with_page c p pg_valid) c12,
      )

  pub Placed-at : (s : FtlState pq) → Located (core s) → (io : IoType) → Placed s.sp (pointer io s)
  Placed-at s o user_io = o.wp
  Placed-at s o gc_io = o.gc_wp

  map_page-Wrote :
      (s : FtlState pq) (lpn : ℕ) (io : IoType) {s' : FtlState pq}
      → Located (core s)
      → TablesBut (core s) lpn
      → map_page pq s lpn io ≡ ok s'
      → Wrote (core s) (core s') lpn
  unfolding map_page
  map_page-Wrote s lpn io {s'} o t e =
      let (p, h0, e0) =
        >>=-ok (get_new_page pq s io)
          (λ p. enter_page pq s lpn p >>= λ s1. advance_write_pointer pq s1 io) e in
      let (s1, h1, e1) = >>=-ok (enter_page pq s lpn p) (λ s1. advance_write_pointer pq s1 io) e0 in
      let (b, f, c1) = enter_page-core s lpn p h1 in
      let at_pointer = Placed-at s o io in
      let i =
        subst (Inside s.sp) (sym (get_new_page-address pq s io o.shape at_pointer h0))
          (address-Inside s.sp (pointer io s) o.shape at_pointer) in
      let o1 : Located (core s1) =
        subst Located (sym c1) (record { shape = o.shape; wp = o.wp; gc_wp = o.gc_wp }) in
      let m =
        subst (λ c. Moved c (core s')) c1
          (advance_write_pointer-Moved pq s1 io o1.shape o1.wp o1.gc_wp e1) in
      subst (λ c. Wrote (core s) c lpn) (sym m.core)
        (entered_moved (core s) lpn p m.wp m.gc_wp o.shape m.wp_placed m.gc_wp_placed t i f b)

  pub map_page-Located :
      (s : FtlState pq) (lpn : ℕ) (io : IoType) {s' : FtlState pq}
      → Located (core s)
      → map_page pq s lpn io ≡ ok s'
      → Located (core s') × (s'.sp ≡ s.sp)
  unfolding map_page
  map_page-Located s lpn io {s'} o e =
      let (p, h0, e0) =
        >>=-ok (get_new_page pq s io)
          (λ p. enter_page pq s lpn p >>= λ s1. advance_write_pointer pq s1 io) e in
      let (s1, h1, e1) = >>=-ok (enter_page pq s lpn p) (λ s1. advance_write_pointer pq s1 io) e0 in
      let (_, _, c1) = enter_page-core s lpn p h1 in
      let o1 : Located (core s1) =
        subst Located (sym c1) (record { shape = o.shape; wp = o.wp; gc_wp = o.gc_wp }) in
      let m = advance_write_pointer-Moved pq s1 io o1.shape o1.wp o1.gc_wp e1 in
      (
        subst Located (sym m.core)
            (record { shape = o1.shape; wp = m.wp_placed; gc_wp = m.gc_wp_placed }),
        ap {A = Core} (λ c. c.sp) m.core ∙ ap {A = Core} (λ c. c.sp) c1,
      )

  -- Garbage collection moves a page.
  pub gc_write_page-Wrote :
      (s : FtlState pq) (old : Ppa) {s' : FtlState pq}
      → IsFtl (core s)
      → gc_write_page pq s old ≡ ok s'
      → Wrote (core s) (core s') (s.rmap (pgidx_of s.sp old))
  unfolding gc_write_page
  gc_write_page-Wrote s old {s'} w e =
      let (lpn, h0, e0) =
        >>=-ok (get_rmap_ent s old)
          (λ lpn. assert (ltb lpn (tt_pgs s.sp)) (map_page pq s lpn gc_io)) e in
      let (_, e1) = assert-ok (ltb lpn (tt_pgs s.sp)) _ e0 in
      let (i, h2, e2) = >>=-ok (pgidx s old) (λ i. ok (s.rmap i)) h0 in
      subst (Wrote (core s) (core s')) (sym (ok-inj e2) ∙ ap s.rmap (pgidx-ok s old h2))
        (map_page-Wrote s lpn gc_io w.located (Tables-TablesBut (core s) lpn w.tables) e1)

  forget_page-core :
      (s : FtlState pq) (p : Ppa) {s' : FtlState pq}
      → forget_page pq s (some p) ≡ ok s'
      → core s' ≡ forgotten (core s) p
  unfolding forget_page
  forget_page-core s p e =
      let (s1, h1, e1) =
        >>=-ok (mark_page_invalid pq s p) (λ s1. set_rmap_ent s1 invalid_lpn p) e in
      let (_, c1) = mark_page_invalid-core pq s p h1 in
      set_rmap_ent-core s1 invalid_lpn p e1 ∙ ap {A = Core} (λ c. with_rmap c p invalid_lpn) c1

  pub forget_page-Located :
      (s : FtlState pq) (o : Option Ppa) {s' : FtlState pq}
      → Located (core s)
      → forget_page pq s o ≡ ok s'
      → Located (core s') × (s'.sp ≡ s.sp)
  unfolding forget_page
  forget_page-Located s none h e =
      subst (λ x. Located (core x) × (x.sp ≡ s.sp)) (ok-inj e) (h, refl)
  forget_page-Located s (some p) h e =
      let c1 = forget_page-core s p e in
      (
        subst Located (sym c1) (record { shape = h.shape; wp = h.wp; gc_wp = h.gc_wp }),
        ap {A = Core} (λ c. c.sp) c1,
      )

  -- The state between the two steps of a host's write.
  record Ready (c c' : Core) (lpn : ℕ) : Type 0 where
    located : Located c'
    tables : TablesBut c' lpn
    sp : c'.sp ≡ c.sp
    maptbl : c'.maptbl ≡ c.maptbl
    free : (q : Ppa) → c'.pages q ≡ pg_free → c.pages q ≡ pg_free
    old : (p : Ppa) → c.maptbl lpn ≡ some p → GivenUp c.sp c' p

  forgotten-Ready :
      (c : Core) (lpn : ℕ) (p : Ppa) → IsFtl c → c.maptbl lpn ≡ some p → Ready c (forgotten c p) lpn
  forgotten-Ready c lpn p w n = record {
    located = record { shape = w.located.shape; wp = w.located.wp; gc_wp = w.located.gc_wp };
    tables = forgotten-TablesBut c lpn p w.tables n;
    sp = refl;
    maptbl = refl;
    free = λ q f. elim (Ppa-cases p q) [
      | inl e ↦ absurd (
          ground (
            arith,
            sym (update_pg_here c.pages p pg_invalid) ∙ (ap (update_pg c.pages p pg_invalid) e ∙ f),
          ))
      | inr (_, e) ↦ sym (update_pg_other c.pages p q pg_invalid e) ∙ f
    ];
    old = λ q e. subst (GivenUp c.sp (forgotten c p)) (some-injective p q (sym n ∙ e)) (record {
      inside = (w.tables.mapped lpn p n).inside;
      unreferenced = update_here c.rmap (pgidx_of c.sp p) invalid_lpn;
      invalid = update_pg_here c.pages p pg_invalid;
    });
  }

  forget_page-Ready :
      (s : FtlState pq) (lpn : ℕ) (o : Option Ppa) {s' : FtlState pq}
      → IsFtl (core s)
      → s.maptbl lpn ≡ o
      → forget_page pq s o ≡ ok s'
      → Ready (core s) (core s') lpn
  unfolding forget_page
  forget_page-Ready s lpn none w n e =
      subst (λ x. Ready (core s) (core x) lpn) (ok-inj e)
        (record {
          located = w.located;
          tables = Tables-TablesBut (core s) lpn w.tables;
          sp = refl;
          maptbl = refl;
          free = λ q f. f;
          old = λ p e. absurd (empty_clash (sym n ∙ e));
        })
  forget_page-Ready s lpn (some p) w n e =
      subst (λ c. Ready (core s) c lpn) (sym (forget_page-core s p e))
        (forgotten-Ready (core s) lpn p w n)

  -- A page that was given up stays so when another page is written.
  GivenUp-Wrote :
      (c c1 c' : Core) (lpn : ℕ) (p : Ppa)
      → c1.sp ≡ c.sp
      → tt_pgs c1.sp < size_mod
      → Wrote c1 c' lpn
      → GivenUp c.sp c1 p
      → GivenUp c.sp c' p
  GivenUp-Wrote c c1 c' lpn p same small w given =
      subst (λ spp. GivenUp spp c' p) same (kept (subst (λ spp. GivenUp spp c1 p) (sym same) given))
    where
      kept : GivenUp c1.sp c1 p → GivenUp c1.sp c' p
      kept g = elim (Ppa-cases w.page p) [
        | inl e ↦ absurd (free_clash (sym w.free ∙ (ap c1.pages e ∙ g.invalid)))
        | inr (h, e) ↦ record {
          inside = g.inside;
          unreferenced =
              ap {A = ℕ → ℕ} (λ f. f (pgidx_of c1.sp p)) w.rmap
              ∙ (other_rmap c1 w.page small w.inside lpn p g.inside h ∙ g.unreferenced);
          invalid =
              ap {A = Ppa → Status} (λ f. f p) w.pages
              ∙ (update_pg_other c1.pages w.page p pg_valid e ∙ g.invalid);
        }
      ]

  -- A host's write that returns maps the logical page to a page that was free, changes no other
  -- entry of the mapping table, and leaves maps that lead to each other. The page that the logical
  -- page had before is invalid then, and its entry of the reverse map is gone.
  pub remap_page-Rewrote :
      (s : FtlState pq) (lpn : ℕ) {s' : FtlState pq}
      → IsFtl (core s)
      → remap_page pq s lpn ≡ ok s'
      → Rewrote (core s) (core s') lpn
  unfolding remap_page
  remap_page-Rewrote s lpn {s'} w e =
      let (s1, h1, e1) =
        >>=-ok (forget_page pq s (s.maptbl lpn)) (λ s1. map_page pq s1 lpn user_io) e in
      let r = forget_page-Ready s lpn (s.maptbl lpn) w refl h1 in
      let m = map_page-Wrote s1 lpn user_io r.located r.tables e1 in
      record {
        page = m.page;
        inside = subst (λ spp. Inside spp m.page) r.sp m.inside;
        free = r.free m.page m.free;
        sp = m.sp ∙ r.sp;
        maptbl = m.maptbl ∙ ap (λ f. update f lpn (some m.page)) r.maptbl;
        old = λ p k.
            GivenUp-Wrote (core s) (core s1) (core s') lpn p r.sp r.tables.small m (r.old p k);
        ftl = m.ftl;
      }
