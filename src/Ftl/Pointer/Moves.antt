-- ===== src/Ftl/Pointer/Moves.antt =====
-- What taking and advancing a write pointer does to the rest of the state.
use flax.Base.{
  ℕ, ◌%◌, ◌<◌, ◌≡◌, refl, sym, ap, ◌∙◌, ltb, ◌==◌, ok, >>=-ok, assert-ok, if-eq, ok-inj, ltb→lt,
  arith, inl, inr, List, [], ◌∷◌,
}
use mathlib.Core.Path.{subst}
use flax.Ftl.Geometry.{Params, pgs_per_line, Ppa}
use flax.Ftl.Geometry.Radix.{Inside}
use flax.Ftl.State.{PQueue, WritePointer, IoType, user_io, gc_io, pointer, put_pointer}
use flax.Ftl.Pages.{FtlState}
use flax.Ftl.Pages.Marks.{Core, core}
use flax.Ftl.Pointer.{
  take_line, get_next_free_line, retire_full, retire_victim, retire_line, next_line, pick_line,
  enter_line, advance_write_pointer, get_new_page, ppa_of,
}
use flax.Ftl.Pointer.Slots.{Shape, Placed}
use flax.Ftl.Pointer.Step.{step_pointer_lem}

abbrev pub at : Core → IoType → WritePointer
at c user_io = c.wp
at c gc_io = c.gc_wp

-- The address that a pointer stands for.
abbrev pub address : WritePointer → Ppa
address w = record { ch = w.ch; lun = w.lun; pl = w.pl; blk = w.blk; pg = w.pg }

-- The pointer of one kind of write moves to a page of the geometry.
pub record Moved (c c' : Core) : Type 0 where
  pub wp : WritePointer
  pub gc_wp : WritePointer
  pub wp_placed : Placed c.sp wp
  pub gc_wp_placed : Placed c.sp gc_wp
  pub core : c' ≡ record c { wp = wp; gc_wp = gc_wp }

pub address-Inside :
    (spp : Params) (w : WritePointer) → Shape spp → Placed spp w → Inside spp (address w)
address-Inside spp w sh pl = record {
  ch = pl.ch;
  lun = pl.lun;
  pl = omega (arith, pl.pl, sh.one_pl);
  blk = pl.blk;
  pg = pl.pg;
}

-- No field of the address loses a bit.
pub ppa_of-address :
    (spp : Params) (w : WritePointer) → Shape spp → Placed spp w → ppa_of w ≡ address w
ppa_of-address spp w sh pl =
    let ch : w.ch % 256 ≡ w.ch = omega (arith, pl.ch, sh.chs) in
    let lun : w.lun % 256 ≡ w.lun = omega (arith, pl.lun, sh.luns) in
    let pl' : w.pl % 256 ≡ w.pl = omega (arith, pl.pl) in
    let blk : w.blk % 65536 ≡ w.blk = omega (arith, pl.blk, sh.blks) in
    let pg : w.pg % 65536 ≡ w.pg = omega (arith, pl.pg, sh.pgs) in cc (ch, lun, pl', blk, pg)

module _ (pq : PQueue) where
  pub get_new_page-address :
      (s : FtlState pq) (io : IoType) {p : Ppa}
      → Shape s.sp
      → Placed s.sp (pointer io s)
      → get_new_page pq s io ≡ ok p
      → p ≡ address (pointer io s)
  unfolding get_new_page
  get_new_page-address s io sh pl e =
      let (_, e1) = assert-ok ((pointer io s).pl % 256 == 0) (ok (ppa_of (pointer io s))) e in
      sym (ok-inj e1) ∙ ppa_of-address s.sp (pointer io s) sh pl

  retire_line-core :
      (s : FtlState pq) (l : ℕ) {s' : FtlState pq} → retire_line pq s l ≡ ok s' → core s' ≡ core s
  unfolding retire_line retire_full retire_victim
  retire_line-core s l e =
      elim (if-eq ((s.lines l).vpc == pgs_per_line s.sp) (retire_full pq s l) (retire_victim pq s l)
        e) [
          | inl (_, e1) ↦ let (_, e2) = assert-ok _ _ e1 in sym (ap core (ok-inj e2))
          | inr (_, e1) ↦
              let (_, e2) = assert-ok _ _ e1 in
              let (_, e3) = assert-ok _ _ e2 in sym (ap core (ok-inj e3))
        ]

  put_pointer-Moved :
      (s : FtlState pq) (c : Core) (io : IoType) (w : WritePointer)
      → core s ≡ c
      → Placed c.sp c.wp
      → Placed c.sp c.gc_wp
      → Placed c.sp w
      → Moved c (core (put_pointer io w s))
  put_pointer-Moved s c user_io w e p q r = record {
    wp = w;
    gc_wp = c.gc_wp;
    wp_placed = r;
    gc_wp_placed = q;
    core = ap {A = Core} (λ x. record x { wp = w }) e;
  }
  put_pointer-Moved s c gc_io w e p q r = record {
    wp = c.wp;
    gc_wp = w;
    wp_placed = p;
    gc_wp_placed = r;
    core = ap {A = Core} (λ x. record x { gc_wp = w }) e;
  }

  take_line-core :
      (s : FtlState pq) (ls : List ℕ) {s' : FtlState pq} {l : ℕ}
      → take_line pq s ls ≡ ok (s', l)
      → core s' ≡ core s
  unfolding take_line
  take_line-core s [] e = absurd (ground arith)
  take_line-core s (l ∷ ls) e = sym (ap {A = FtlState pq × ℕ} (λ (x, _). core x) (ok-inj e))

  get_next_free_line-core :
      (s : FtlState pq) {s' : FtlState pq} {l : ℕ}
      → get_next_free_line pq s ≡ ok (s', l)
      → core s' ≡ core s
  unfolding get_next_free_line
  get_next_free_line-core s e = take_line-core s s.free_line_list e

  next_line-Moved :
      (s : FtlState pq) (io : IoType) (w : WritePointer) {s' : FtlState pq}
      → Placed s.sp s.wp
      → Placed s.sp s.gc_wp
      → Placed s.sp w
      → next_line pq s io w ≡ ok s'
      → Moved (core s) (core s')
  unfolding next_line pick_line enter_line
  next_line-Moved s io w p q r e =
      let (s1, h1, e1) = >>=-ok (retire_line pq s w.curline) (pick_line pq io w) e in
      let (_, e2) = assert-ok (ltb w.blk s1.sp.blks_per_pl) _ e1 in
      let ((s2, l), h3, e3) =
        >>=-ok (get_next_free_line pq s1) (λ (s2, l). enter_line pq io w s2 l) e2 in
      let (h4, e4) = assert-ok (ltb l s2.sp.blks_per_pl) _ e3 in
      let (_, e5) = assert-ok (w.pl == 0) _ e4 in
      let c2 : core s2 ≡ core s = get_next_free_line-core s1 h3 ∙ retire_line-core s w.curline h1 in
      let below : l < s.sp.blks_per_pl =
        subst (λ n. l < n) (ap {A = Core} (λ c. c.sp.blks_per_pl) c2) (ltb→lt _ _ h4) in
      subst (λ x. Moved (core s) (core x)) (ok-inj e5)
        (put_pointer-Moved s2 (core s) io (record w { curline = l; blk = l }) c2 p q
          (record { ch = r.ch; lun = r.lun; pl = r.pl; blk = below; pg = r.pg; line = refl }))

  pub advance_write_pointer-Moved :
      (s : FtlState pq) (io : IoType) {s' : FtlState pq}
      → Shape s.sp
      → Placed s.sp s.wp
      → Placed s.sp s.gc_wp
      → advance_write_pointer pq s io ≡ ok s'
      → Moved (core s) (core s')
  unfolding advance_write_pointer
  advance_write_pointer-Moved s io {s'} sh p q e =
      let st = step_pointer_lem s.sp sh (pointer io s) (Placed-at io) in
      elim (if-eq st.used (next_line pq s io st.next) (ok (put_pointer io st.next s))
        (sym (rw st.step refl) ∙ e)) [
          | inl (_, e1) ↦ next_line-Moved s io st.next p q st.placed e1
          | inr (_, e1) ↦
              subst (λ x. Moved (core s) (core x)) (ok-inj e1)
                (put_pointer-Moved s (core s) io st.next refl p q st.placed)
        ]
    where
      Placed-at : (io : IoType) → Placed s.sp (pointer io s)
      Placed-at user_io = p
      Placed-at gc_io = q
