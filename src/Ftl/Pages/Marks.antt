-- ===== src/Ftl/Pages/Marks.antt =====
-- What the functions that mark pages do to the two maps, the page table's status and the pointers:
-- all else they change is counts, lists and the queue.
use flax.Base.{
  ℕ, ◌<◌, ◌≡◌, refl, sym, ap, ◌∙◌, Bool, true, false, ◌&&◌, ◌||◌, not, Option, some, ltb, leb, ◌==◌,
  ok, >>=-ok, assert-ok, ok-inj, Bool-cases, ltb→lt, arith, inl, inr,
}
use flax.Ftl.Geometry.{Params, Ppa, tt_pgs, pgs_per_line, pgidx_of}
use flax.Ftl.State.{
  PQueue, Status, pg_free, pg_invalid, pg_valid, is_pg_free, is_pg_valid, WritePointer, ConvFtl,
  update, update_pg, set_page, pgidx, set_maptbl_ent, set_rmap_ent,
}
use flax.Ftl.Pages.{
  FtlState, block_invalid, line_vpc_down, full_to_victim, line_ipc_up, move_line, line_invalid,
  mark_page_invalid, count_valid, mark_page_valid,
}

-- The part of the state that says where the data is.
pub record Core : Type 0 where
  pub sp : Params
  pub maptbl : ℕ → Option Ppa
  pub rmap : ℕ → ℕ
  pub pages : Ppa → Status
  pub wp : WritePointer
  pub gc_wp : WritePointer

abbrev pub core : {Q : Type 0} → ConvFtl Q → Core
core s = record {
  sp = s.sp;
  maptbl = s.maptbl;
  rmap = s.rmap;
  pages = s.pages;
  wp = s.wp;
  gc_wp = s.gc_wp;
}

-- Changes of single entries.
abbrev pub with_page : Core → Ppa → Status → Core
with_page c p u = record c { pages = update_pg c.pages p u }

abbrev pub with_maptbl : Core → ℕ → Ppa → Core
with_maptbl c lpn p = record c { maptbl = update c.maptbl lpn (some p) }

abbrev pub with_rmap : Core → Ppa → ℕ → Core
with_rmap c p v = record c { rmap = update c.rmap (pgidx_of c.sp p) v }

is_pg_valid_eq : (x : Status) → is_pg_valid x ≡ true → x ≡ pg_valid
is_pg_valid_eq pg_valid e = refl
is_pg_valid_eq pg_free e = absurd (ground arith)
is_pg_valid_eq pg_invalid e = absurd (ground arith)

is_pg_free_eq : (x : Status) → is_pg_free x ≡ true → x ≡ pg_free
is_pg_free_eq pg_free e = refl
is_pg_free_eq pg_valid e = absurd (ground arith)
is_pg_free_eq pg_invalid e = absurd (ground arith)

module _ (pq : PQueue) where
  block_invalid-core :
      (s : FtlState pq) (p : Ppa) {s' : FtlState pq}
      → block_invalid pq s p ≡ ok s'
      → core s' ≡ core s
  unfolding block_invalid
  block_invalid-core s p e =
      let (_, e1) = assert-ok _ _ e in let (_, e2) = assert-ok _ _ e1 in sym (ap core (ok-inj e2))

  line_vpc_down-core : (s : FtlState pq) (l : ℕ) → core (line_vpc_down pq s l) ≡ core s
  unfolding line_vpc_down
  line_vpc_down-core s l = elim (Bool-cases (s.pos l == 0)) [
    | inl e ↦ rw e refl
    | inr e ↦ rw e refl
  ]

  full_to_victim-core : (s : FtlState pq) (l : ℕ) → core (full_to_victim pq s l) ≡ core s
  unfolding full_to_victim
  full_to_victim-core s l = refl

  move_line-core : (b : Bool) (s : FtlState pq) (l : ℕ) → core (move_line pq b s l) ≡ core s
  unfolding move_line
  move_line-core true s l =
      full_to_victim-core (line_vpc_down pq (line_ipc_up pq s l) l) l
      ∙ line_vpc_down-core (line_ipc_up pq s l) l
  move_line-core false s l = line_vpc_down-core (line_ipc_up pq s l) l

  line_invalid-core :
      (s : FtlState pq) (l : ℕ) {s' : FtlState pq} → line_invalid pq s l ≡ ok s' → core s' ≡ core s
  unfolding line_invalid
  line_invalid-core s l e =
      let line = s.lines l in
      let (_, e1) = assert-ok (ltb line.ipc (pgs_per_line s.sp)) _ e in
      let (_, e2) = assert-ok (not (line.vpc == pgs_per_line s.sp) || line.ipc == 0) _ e1 in
      let (_, e3) = assert-ok (ltb 0 line.vpc && leb line.vpc (pgs_per_line s.sp)) _ e2 in
      sym (ap core (ok-inj e3)) ∙ move_line-core (line.vpc == pgs_per_line s.sp) s l

  pub mark_page_invalid-core :
      (s : FtlState pq) (p : Ppa) {s' : FtlState pq}
      → mark_page_invalid pq s p ≡ ok s'
      → (s.pages p ≡ pg_valid)
        × (core s' ≡ record (core s) { pages = update_pg s.pages p pg_invalid })
  unfolding mark_page_invalid
  mark_page_invalid-core s p e =
      let (v, e1) = assert-ok _ _ e in
      let (s1, b, l) =
        >>=-ok (block_invalid pq (set_page s p pg_invalid) p) (λ s1. line_invalid pq s1 p.blk) e1 in
      (
        is_pg_valid_eq (s.pages p) v,
        line_invalid-core s1 p.blk l ∙ block_invalid-core (set_page s p pg_invalid) p b,
      )

  pub mark_page_valid-core :
      (s : FtlState pq) (p : Ppa) {s' : FtlState pq}
      → mark_page_valid pq s p ≡ ok s'
      → (s.pages p ≡ pg_free) × (core s' ≡ record (core s) { pages = update_pg s.pages p pg_valid })
  unfolding mark_page_valid count_valid
  mark_page_valid-core s p e =
      let (v, e1) = assert-ok _ _ e in
      let (_, e2) = assert-ok _ _ e1 in
      let (_, e3) = assert-ok _ _ e2 in (is_pg_free_eq (s.pages p) v, sym (ap core (ok-inj e3)))

-- The maps.
pub pgidx-ok :
    {Q : Type 0} (s : ConvFtl Q) (p : Ppa) {i : ℕ} → pgidx s p ≡ ok i → i ≡ pgidx_of s.sp p
pgidx-ok s p e = ground arith

pub set_maptbl_ent-core :
    {Q : Type 0} (s : ConvFtl Q) (lpn : ℕ) (p : Ppa) {s' : ConvFtl Q}
    → set_maptbl_ent s lpn p ≡ ok s'
    → (lpn < tt_pgs s.sp) × (core s' ≡ record (core s) { maptbl = update s.maptbl lpn (some p) })
set_maptbl_ent-core s lpn p e =
    let (h, e1) =
      assert-ok (ltb lpn (tt_pgs s.sp)) (ok (record s { maptbl = update s.maptbl lpn (some p) }))
        e in
    (ltb→lt _ _ h, sym (ap core (ok-inj e1)))

pub set_rmap_ent-core :
    {Q : Type 0} (s : ConvFtl Q) (lpn : ℕ) (p : Ppa) {s' : ConvFtl Q}
    → set_rmap_ent s lpn p ≡ ok s'
    → core s' ≡ record (core s) { rmap = update s.rmap (pgidx_of s.sp p) lpn }
set_rmap_ent-core s lpn p e =
    let (i, e1, e2) = >>=-ok _ _ e in
    sym (ap core (ok-inj e2))
    ∙ ap (λ k. record (core s) { rmap = update s.rmap k lpn }) (pgidx-ok s p e1)
