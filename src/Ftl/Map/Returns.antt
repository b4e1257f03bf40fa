-- ===== src/Ftl/Map/Returns.antt =====
-- Writing one page succeeds while its pointer has a free page and a next one in its line.
use flax.Base.{
  ℕ, ◌+◌, ◌%◌, ◌<◌, ◌≡◌, refl, sym, ap, ◌∙◌, Bool, true, false, Option, none, some, ltb, ◌==◌,
  if◌then◌else◌, Result, ok, bug, assert, ◌>>=◌, lt→ltb, size_mod, arith,
}
use mathlib.Core.Path.{subst, subst₂}
use flax.Ftl.Geometry.{Ppa, tt_pgs, pgs_per_line, pgidx_of}
use flax.Ftl.Geometry.Radix.{Inside, ppa2pgidx-Inside}
use flax.Ftl.State.{
  PQueue, pg_free, is_pg_free, IoType, user_io, gc_io, WritePointer, update, pointer, put_pointer,
  set_rmap_ent,
}
use flax.Ftl.Pages.{FtlState, mark_page_valid, count_valid}
use flax.Ftl.Pointer.{get_new_page, advance_write_pointer, next_line}
use flax.Ftl.Pointer.Slots.{Shape, Placed, Moves, slot}
use flax.Ftl.Pointer.Step.{step_pointer_lem}
use flax.Ftl.Pointer.Moves.{address, address-Inside, ppa_of-address}
use flax.Ftl.Map.{enter_page, map_page}

assert-true : {A : Type 0} (c : Bool) (r : Result A) → c ≡ true → assert c r ≡ r
assert-true c r e = ap (λ b. assert b r) e

module _ (pq : PQueue) where
  -- What the page at a pointer needs, to be written.
  pub record ReadyPage (s : FtlState pq) (w : WritePointer) : Type 0 where
    pub free : s.pages (address w) ≡ pg_free
    pub blk_room : (s.blocks (address w)).vpc < s.sp.pgs_per_blk
    pub line_room : (s.lines w.blk).vpc < pgs_per_line s.sp
    pub next : slot s.sp w + 1 < pgs_per_line s.sp

  mark_page_valid-returns :
      (s : FtlState pq) (p : Ppa)
      → s.pages p ≡ pg_free
      → (s.blocks p).vpc < s.sp.pgs_per_blk
      → (s.lines p.blk).vpc < pgs_per_line s.sp
      → (s' : FtlState pq) × (mark_page_valid pq s p ≡ ok s')
        × (s'.sp ≡ s.sp)
        × (s'.wp ≡ s.wp)
        × (s'.gc_wp ≡ s.gc_wp)
  unfolding mark_page_valid count_valid
  mark_page_valid-returns s p f b l = (
    _,
    assert-true (is_pg_free (s.pages p)) _ (ap is_pg_free f)
        ∙ (assert-true (ltb (s.blocks p).vpc s.sp.pgs_per_blk) _ (lt→ltb _ _ b)
            ∙ assert-true (ltb (s.lines p.blk).vpc (pgs_per_line s.sp)) _ (lt→ltb _ _ l)),
    refl,
    refl,
    refl,
  )

  advance_write_pointer-returns :
      (s : FtlState pq) (io : IoType)
      → Shape s.sp
      → Placed s.sp (pointer io s)
      → slot s.sp (pointer io s) + 1 < pgs_per_line s.sp
      → (s' : FtlState pq) × (advance_write_pointer pq s io ≡ ok s')
  unfolding advance_write_pointer
  advance_write_pointer-returns s io sh pl h =
      let st = step_pointer_lem s.sp sh (pointer io s) pl in
      let finish : WritePointer × Bool → Result (FtlState pq) =
        λ (w, used). if used then next_line pq s io w else ok (put_pointer io w s) in
      (
        put_pointer io st.next s,
        ap (λ r. r >>= finish) st.step
            ∙ ap (λ b. finish (st.next, b)) (not_used st.next st.used st.moves),
      )
    where
      not_used : (w : WritePointer) (b : Bool) → Moves s.sp (pointer io s) w b → b ≡ false
      not_used w true (e, _) = absurd (omega arith)
      not_used w false e = refl

  get_new_page-returns :
      (s : FtlState pq) (io : IoType)
      → Shape s.sp
      → Placed s.sp (pointer io s)
      → get_new_page pq s io ≡ ok (address (pointer io s))
  unfolding get_new_page
  get_new_page-returns s io sh pl =
      assert-true ((pointer io s).pl % 256 == 0) _ (ground (arith, pl.pl))
      ∙ ap ok (ppa_of-address s.sp (pointer io s) sh pl)

  set_rmap_ent-returns :
      (s : FtlState pq) (v : ℕ) (p : Ppa)
      → Inside s.sp p
      → tt_pgs s.sp < size_mod
      → set_rmap_ent s v p ≡ ok (record s { rmap = update s.rmap (pgidx_of s.sp p) v })
  set_rmap_ent-returns s v p i small =
      let found : Option ℕ → Result ℕ = λ o. elim o [ none ↦ bug | some i ↦ ok i ] in
      ap (λ o. found o >>= λ i. ok (record s { rmap = update s.rmap i v }))
        (ppa2pgidx-Inside s.sp p i small)

  same_pointer :
      (s s' : FtlState pq) (io : IoType)
      → s'.wp ≡ s.wp
      → s'.gc_wp ≡ s.gc_wp
      → pointer io s' ≡ pointer io s
  same_pointer s s' user_io e f = e
  same_pointer s s' gc_io e f = f

  -- A write for a host or for garbage collection returns, if its page is free, the counts have room
  -- and the pointer is not at the end of its line.
  pub map_page-returns :
      (s : FtlState pq) (lpn : ℕ) (io : IoType)
      → Shape s.sp
      → Placed s.sp (pointer io s)
      → tt_pgs s.sp < size_mod
      → lpn < tt_pgs s.sp
      → ReadyPage s (pointer io s)
      → (s' : FtlState pq) × (map_page pq s lpn io ≡ ok s')
  unfolding map_page enter_page
  map_page-returns s lpn io sh pl small b r =
      let p = address (pointer io s) in
      let i = address-Inside s.sp (pointer io s) sh pl in
      let s1 : FtlState pq = record s { maptbl = update s.maptbl lpn (some p) } in
      let s2 : FtlState pq = record s1 { rmap = update s1.rmap (pgidx_of s.sp p) lpn } in
      let (s3, e3, sp3, wp3, gc3) = mark_page_valid-returns s2 p r.free r.blk_room r.line_room in
      let same = same_pointer s s3 io wp3 gc3 in
      let pl3 = subst₂ Placed (sym sp3) (sym same) pl in
      let next3 = subst₂ (λ spp w. slot spp w + 1 < pgs_per_line spp) (sym sp3) (sym same) r.next in
      let (s4, e4) = advance_write_pointer-returns s3 io (subst Shape (sym sp3) sh) pl3 next3 in
      let advance : FtlState pq → Result (FtlState pq) = λ s. advance_write_pointer pq s io in
      let mark : FtlState pq → Result (FtlState pq) = λ s. mark_page_valid pq s p in
      (
        s4,
        ap (λ r. r >>= λ q. enter_page pq s lpn q >>= advance) (get_new_page-returns s io sh pl)
            ∙ (ap (λ r. (r >>= λ s. set_rmap_ent s lpn p >>= mark) >>= advance)
                  (assert-true (ltb lpn (tt_pgs s.sp)) (ok s1) (lt→ltb _ _ b))
                ∙ (ap (λ r. (r >>= mark) >>= advance) (set_rmap_ent-returns s1 lpn p i small)
                    ∙ (ap (λ r. r >>= advance) e3 ∙ e4))),
      )
