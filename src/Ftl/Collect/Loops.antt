-- ===== src/Ftl/Collect/Loops.antt =====
-- The loops of `do_gc` change the state by `gc_write_page` and `mark_block_free` only: they keep what
-- both keep.
use flax.Base.{
  ℕ, zero, suc, ◌+◌, ◌≡◌, ◌==◌, if◌then◌else◌, ok, >>=-ok, assert-ok, if-eq, ok-inj, inl, inr,
}
use mathlib.Core.Path.{subst}
use flax.Ftl.Geometry.{Ppa}
use flax.Ftl.State.{PQueue, is_pg_valid}
use flax.Ftl.Pages.{FtlState, mark_block_free}
use flax.Ftl.Map.{gc_write_page}
use flax.Ftl.Collect.{
  next_pg, none_free, victim_pg, clean_pages, clean_one_flashpg, gc_flashpg, gc_luns, gc_chs,
  gc_flashpgs,
}

module _ (pq : PQueue) (P : FtlState pq → Type 0)
    (write : (s : FtlState pq) (p : Ppa) (s' : FtlState pq)
      → P s
      → gc_write_page pq s p ≡ ok s'
      → P s')
    (erase : (s : FtlState pq) (p : Ppa) → P s → P (mark_block_free pq s p)) where
  clean_pages-keeps :
      (n : ℕ) (s : FtlState pq) (p : Ppa) {s' : FtlState pq}
      → P s
      → clean_pages pq s p n ≡ ok s'
      → P s'
  unfolding clean_pages
  clean_pages-keeps zero s p h e = subst P (ok-inj e) h
  clean_pages-keeps (suc n) s p h e =
      let (s1, h1, e1) =
        >>=-ok (if is_pg_valid (s.pages p) then gc_write_page pq s p else ok s)
          (λ s1. clean_pages pq s1 (next_pg p) n) e in
      clean_pages-keeps n s1 (next_pg p)
        (elim (if-eq (is_pg_valid (s.pages p)) (gc_write_page pq s p) (ok s) h1) [
          | inl (_, e2) ↦ write s p s1 h e2
          | inr (_, e2) ↦ subst P (ok-inj e2) h
        ])
        e1

  gc_flashpg-keeps :
      (s : FtlState pq) (l k ch lun : ℕ) {s' : FtlState pq}
      → P s
      → gc_flashpg pq s l k ch lun ≡ ok s'
      → P s'
  unfolding gc_flashpg clean_one_flashpg
  gc_flashpg-keeps s l k ch lun h e =
      let p = victim_pg s.sp l k ch lun in
      let (s1, h1, e1) =
        >>=-ok (clean_one_flashpg pq s p)
          (λ s1. if k + 1 == s1.sp.flashpgs_per_blk then ok (mark_block_free pq s1 p) else ok s1)
          e in
      let (_, h2) =
        assert-ok (none_free pq s p s.sp.pgs_per_flashpg) (clean_pages pq s p s.sp.pgs_per_flashpg)
          h1 in
      let h3 = clean_pages-keeps s.sp.pgs_per_flashpg s p h h2 in
      elim (if-eq (k + 1 == s1.sp.flashpgs_per_blk) (ok (mark_block_free pq s1 p)) (ok s1) e1) [
        | inl (_, e2) ↦ subst P (ok-inj e2) (erase s1 p h3)
        | inr (_, e2) ↦ subst P (ok-inj e2) h3
      ]

  gc_luns-keeps :
      (n : ℕ) (s : FtlState pq) (l k ch lun : ℕ) {s' : FtlState pq}
      → P s
      → gc_luns pq n s l k ch lun ≡ ok s'
      → P s'
  unfolding gc_luns
  gc_luns-keeps zero s l k ch lun h e = subst P (ok-inj e) h
  gc_luns-keeps (suc n) s l k ch lun h e =
      let (s1, h1, e1) =
        >>=-ok (gc_flashpg pq s l k ch lun) (λ s1. gc_luns pq n s1 l k ch (lun + 1)) e in
      gc_luns-keeps n s1 l k ch (lun + 1) (gc_flashpg-keeps s l k ch lun h h1) e1

  gc_chs-keeps :
      (n : ℕ) (s : FtlState pq) (l k ch : ℕ) {s' : FtlState pq}
      → P s
      → gc_chs pq n s l k ch ≡ ok s'
      → P s'
  unfolding gc_chs
  gc_chs-keeps zero s l k ch h e = subst P (ok-inj e) h
  gc_chs-keeps (suc n) s l k ch h e =
      let (s1, h1, e1) =
        >>=-ok (gc_luns pq s.sp.luns_per_ch s l k ch 0) (λ s1. gc_chs pq n s1 l k (ch + 1)) e in
      gc_chs-keeps n s1 l k (ch + 1) (gc_luns-keeps s.sp.luns_per_ch s l k ch 0 h h1) e1

  pub gc_flashpgs-keeps :
      (n : ℕ) (s : FtlState pq) (l k : ℕ) {s' : FtlState pq}
      → P s
      → gc_flashpgs pq n s l k ≡ ok s'
      → P s'
  unfolding gc_flashpgs
  gc_flashpgs-keeps zero s l k h e = subst P (ok-inj e) h
  gc_flashpgs-keeps (suc n) s l k h e =
      let (s1, h1, e1) =
        >>=-ok (gc_chs pq s.sp.nchs s l k 0) (λ s1. gc_flashpgs pq n s1 l (k + 1)) e in
      gc_flashpgs-keeps n s1 l (k + 1) (gc_chs-keeps s.sp.nchs s l k 0 h h1) e1
