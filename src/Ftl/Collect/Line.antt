-- ===== src/Ftl/Collect/Line.antt =====
-- `do_gc`: the loops over the flash pages of a line, which erase each block once its last flash page
-- is cleaned.
use flax.Base.{
  ℕ, zero, suc, ◌+◌, ◌<◌, ◌≡◌, refl, sym, ap, true, ◌==◌, if◌then◌else◌, ok, >>=-ok, if-eq, ok-inj,
  arith, inl, inr,
}
use mathlib.Core.Path.{subst}
use flax.Ftl.Geometry.{Params, Ppa}
use flax.Ftl.Geometry.Radix.{Inside}
use flax.Ftl.State.{PQueue}
use flax.Ftl.Pages.{FtlState, mark_block_free, mark_line_free}
use flax.Ftl.Pages.Marks.{core}
use flax.Ftl.Map.Keeps.{IsFtl}
use flax.Ftl.Collect.{
  victim_pg, clean_one_flashpg, gc_flashpg, gc_luns, gc_chs, gc_flashpgs, gc_line,
}
use flax.Ftl.Collect.Clean.{Clean, Kept}
use flax.Ftl.Collect.Flash.{page_on, clean_one_flashpg-Kept}
use flax.Ftl.Collect.Erase.{
  Swept, Swept-refl, Swept-trans, Kept-Swept, in_block, erased, erased-Swept,
}
use flax.Ftl.Collect.Passed.{
  Cleaned, corner, Place, flash_bound, victim_pg-corner, corner-Inside, not_last, none_left,
  erased-Cleaned, next_ch_Cleaned, next_flash_Cleaned, first_Cleaned,
}

module _ (pq : PQueue) where
  record SweptTo (s s' : FtlState pq) (l k ch lun : ℕ) : Type 0 where
    swept : Swept (core s) (core s')
    cleaned : Cleaned s'.sp (core s') l k ch lun

  -- The end of the body of the loops.
  end_flash :
      (s s1 : FtlState pq) (l k ch lun : ℕ) {s' : FtlState pq}
      → Place s.sp l k ch lun
      → Kept (core s) (core s1)
      → Cleaned s.sp (core s) l k ch lun
      → ((i : ℕ) → i < s.sp.pgs_per_flashpg → Clean (core s1) (page_on (corner s.sp l k ch lun) i))
      → (if k + 1 == s1.sp.flashpgs_per_blk
          then ok (mark_block_free pq s1 (corner s.sp l k ch lun))
          else ok s1)
        ≡ ok s'
      → SweptTo s s' l k ch (lun + 1)
  unfolding mark_block_free
  end_flash s s1 l k ch lun {s'} pl kept d n e =
      elim (if-eq (k + 1 == s1.sp.flashpgs_per_blk)
        (ok (mark_block_free pq s1 (corner s.sp l k ch lun))) (ok s1) e) [
          | inl (b, e1) ↦
              let last : k + 1 ≡ s.sp.flashpgs_per_blk =
                ground (arith, ap {A = Params} (λ x. x.flashpgs_per_blk) kept.sp) in
              let none = none_left s.sp l k ch lun pl (core s) (core s1) kept d n last in
              subst (λ x. SweptTo s x l k ch (lun + 1)) (ok-inj e1)
                (record {
                  swept = Swept-trans (Kept-Swept kept) (
                      erased-Swept (core s1) (corner s.sp l k ch lun) kept.ftl (
                        subst
                          (λ spp.
                            (q : Ppa)
                            → Inside spp q
                            → in_block spp (corner s.sp l k ch lun) q ≡ true
                            → Clean (core s1) q)
                          (sym kept.sp) none));
                  cleaned =
                      subst
                        (λ spp.
                          Cleaned spp (erased (core s1) (corner s.sp l k ch lun)) l k ch (lun + 1))
                        (sym kept.sp)
                        (erased-Cleaned s.sp l k ch lun pl (core s) (core s1) kept d n last
                          kept.sp);
                })
          | inr (b, e1) ↦
              subst (λ x. SweptTo s x l k ch (lun + 1)) (ok-inj e1)
                (record {
                  swept = Kept-Swept kept;
                  cleaned =
                      subst (λ spp. Cleaned spp (core s1) l k ch (lun + 1)) (sym kept.sp)
                        (not_last s.sp l k ch lun pl (core s) (core s1) kept d n
                          (λ x. ground (arith, ap {A = Params} (λ x. x.flashpgs_per_blk) kept.sp)));
                })
        ]

  gc_flashpg-Swept :
      (s : FtlState pq) (l k ch lun : ℕ) {s' : FtlState pq}
      → IsFtl (core s)
      → Place s.sp l k ch lun
      → Cleaned s.sp (core s) l k ch lun
      → gc_flashpg pq s l k ch lun ≡ ok s'
      → SweptTo s s' l k ch (lun + 1)
  unfolding gc_flashpg
  gc_flashpg-Swept s l k ch lun {s'} f pl d e =
      let p = victim_pg s.sp l k ch lun in
      let same = victim_pg-corner s.sp l k ch lun pl in
      let (s1, h1, e1) =
        >>=-ok (clean_one_flashpg pq s p)
          (λ s1. if k + 1 == s1.sp.flashpgs_per_blk then ok (mark_block_free pq s1 p) else ok s1)
          e in
      let (kept, n) =
        clean_one_flashpg-Kept pq s (corner s.sp l k ch lun) f (corner-Inside s.sp l k ch lun pl)
          (omega (arith, flash_bound s.sp l k ch lun pl, f.located.shape.pgs))
          (subst (λ x. clean_one_flashpg pq s x ≡ ok s1) same h1) in
      end_flash s s1 l k ch lun pl kept d n (
        subst
          (λ x.
            (if k + 1 == s1.sp.flashpgs_per_blk then ok (mark_block_free pq s1 x) else ok s1)
            ≡ ok s')
          same e1)

  gc_luns-Swept :
      (n : ℕ) (s : FtlState pq) (l k ch lun : ℕ) {s' : FtlState pq}
      → IsFtl (core s)
      → l < s.sp.blks_per_pl
      → k < s.sp.flashpgs_per_blk
      → ch < s.sp.nchs
      → lun + n ≡ s.sp.luns_per_ch
      → Cleaned s.sp (core s) l k ch lun
      → gc_luns pq n s l k ch lun ≡ ok s'
      → SweptTo s s' l k (ch + 1) 0
  unfolding gc_luns
  gc_luns-Swept zero s l k ch lun f hl hk hc hn d e =
      subst (λ x. SweptTo s x l k (ch + 1) 0) (ok-inj e)
        (record {
          swept = Swept-refl (core s) f;
          cleaned = next_ch_Cleaned s.sp (core s) l k ch lun (omega arith) d;
        })
  gc_luns-Swept (suc n) s l k ch lun {s'} f hl hk hc hn d e =
      let (s1, h1, e1) =
        >>=-ok (gc_flashpg pq s l k ch lun) (λ s1. gc_luns pq n s1 l k ch (lun + 1)) e in
      let r =
        gc_flashpg-Swept s l k ch lun f
          (record {
            shape = f.located.shape;
            in_blk = hl;
            in_flash = hk;
            in_ch = hc;
            in_lun = omega arith;
          })
          d h1 in
      let t =
        gc_luns-Swept n s1 l k ch (lun + 1) r.swept.ftl
          (subst (λ x. l < x.blks_per_pl) (sym r.swept.sp) hl)
          (subst (λ x. k < x.flashpgs_per_blk) (sym r.swept.sp) hk)
          (subst (λ x. ch < x.nchs) (sym r.swept.sp) hc)
          (subst (λ x. lun + 1 + n ≡ x.luns_per_ch) (sym r.swept.sp) (omega arith)) r.cleaned e1 in
      record { swept = Swept-trans r.swept t.swept; cleaned = t.cleaned }

  gc_chs-Swept :
      (n : ℕ) (s : FtlState pq) (l k ch : ℕ) {s' : FtlState pq}
      → IsFtl (core s)
      → l < s.sp.blks_per_pl
      → k < s.sp.flashpgs_per_blk
      → ch + n ≡ s.sp.nchs
      → Cleaned s.sp (core s) l k ch 0
      → gc_chs pq n s l k ch ≡ ok s'
      → SweptTo s s' l k s'.sp.nchs 0
  unfolding gc_chs
  gc_chs-Swept zero s l k ch f hl hk hn d e =
      subst (λ x. SweptTo s x l k x.sp.nchs 0) (ok-inj e)
        (record {
          swept = Swept-refl (core s) f;
          cleaned = subst (λ x. Cleaned s.sp (core s) l k x 0) (omega arith) d;
        })
  gc_chs-Swept (suc n) s l k ch f hl hk hn d e =
      let (s1, h1, e1) =
        >>=-ok (gc_luns pq s.sp.luns_per_ch s l k ch 0) (λ s1. gc_chs pq n s1 l k (ch + 1)) e in
      let r = gc_luns-Swept s.sp.luns_per_ch s l k ch 0 f hl hk (omega arith) (omega arith) d h1 in
      let t =
        gc_chs-Swept n s1 l k (ch + 1) r.swept.ftl
          (subst (λ x. l < x.blks_per_pl) (sym r.swept.sp) hl)
          (subst (λ x. k < x.flashpgs_per_blk) (sym r.swept.sp) hk)
          (subst (λ x. ch + 1 + n ≡ x.nchs) (sym r.swept.sp) (omega arith)) r.cleaned e1 in
      record { swept = Swept-trans r.swept t.swept; cleaned = t.cleaned }

  gc_flashpgs-Swept :
      (n : ℕ) (s : FtlState pq) (l k : ℕ) {s' : FtlState pq}
      → IsFtl (core s)
      → l < s.sp.blks_per_pl
      → k + n ≡ s.sp.flashpgs_per_blk
      → (k < s.sp.flashpgs_per_blk → Cleaned s.sp (core s) l k 0 0)
      → gc_flashpgs pq n s l k ≡ ok s'
      → Swept (core s) (core s')
  unfolding gc_flashpgs
  gc_flashpgs-Swept zero s l k f hl hn d e =
      subst (λ x. Swept (core s) (core x)) (ok-inj e) (Swept-refl (core s) f)
  gc_flashpgs-Swept (suc n) s l k f hl hn d e =
      let (s1, h1, e1) =
        >>=-ok (gc_chs pq s.sp.nchs s l k 0) (λ s1. gc_flashpgs pq n s1 l (k + 1)) e in
      let r =
        gc_chs-Swept s.sp.nchs s l k 0 f hl (omega arith) (omega arith) (d (omega arith)) h1 in
      Swept-trans r.swept (
        gc_flashpgs-Swept n s1 l (k + 1) r.swept.ftl
          (subst (λ x. l < x.blks_per_pl) (sym r.swept.sp) hl)
          (subst (λ x. k + 1 + n ≡ x.flashpgs_per_blk) (sym r.swept.sp) (omega arith))
          (λ h. next_flash_Cleaned s1.sp (core s1) l k s1.sp.nchs refl h r.cleaned) e1)

  -- The garbage collection of one line loses no logical page and adds none.
  pub gc_line-Swept :
      (s : FtlState pq) (l : ℕ) {s' : FtlState pq}
      → IsFtl (core s)
      → l < s.sp.blks_per_pl
      → gc_line pq s l ≡ ok s'
      → Swept (core s) (core s')
  unfolding gc_line mark_line_free
  gc_line-Swept s l f hl e =
      let s0 : FtlState pq = record s { credits_to_refill = (s.lines l).ipc } in
      let (s1, h1, e1) =
        >>=-ok (gc_flashpgs pq s.sp.flashpgs_per_blk s0 l 0) (λ s1. ok (mark_line_free pq s1 l))
          e in
      subst (λ x. Swept (core s) (core x)) (ok-inj e1)
        (gc_flashpgs-Swept s.sp.flashpgs_per_blk s0 l 0 f hl (omega arith)
          (λ _. first_Cleaned s.sp (core s) l) h1)
