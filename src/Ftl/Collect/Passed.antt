-- ===== src/Ftl/Collect/Passed.antt =====
-- `do_gc`: the pages that its loops have passed, and what a round does to them.
use flax.Base.{
  ℕ, suc, ◌+◌, ◌-◌, ◌*◌, ◌%◌, ◌≤◌, ◌<◌, ◌≡◌, ◌≢◌, ◌⊎◌, sym, ap, ◌∙◌, true, false, arith, inl, inr,
}
use mathlib.Core.Path.{subst}
use native.Mathlib.Nat.{mul-le-mul_right, suc-mul}
use native.Mathlib.Decide.{dec_lt}
use flax.Ftl.Geometry.{Params, Ppa}
use flax.Ftl.Geometry.Radix.{Inside}
use flax.Ftl.Pages.Marks.{Core}
use flax.Ftl.Pointer.Slots.{Shape}
use flax.Ftl.Collect.{victim_pg}
use flax.Ftl.Collect.Clean.{Clean, Kept}
use flax.Ftl.Collect.Flash.{page_on}
use flax.Ftl.Collect.Erase.{in_block, erased, erased-other}

-- The pages that the loops have passed, at a flash page, a channel and a LUN.
abbrev pub Passed : Params → ℕ → ℕ → ℕ → Ppa → Type 0
Passed spp k ch lun q =
    (q.pg < k * spp.pgs_per_flashpg)
    ⊎ ((q.pg < (k + 1) * spp.pgs_per_flashpg) × ((q.ch < ch) ⊎ ((q.ch ≡ ch) × (q.lun < lun))))

-- The pages whose block the loops have not erased yet.
abbrev pub Standing : Params → ℕ → ℕ → ℕ → Ppa → Type 0
Standing spp k ch lun q = k + 1 ≡ spp.flashpgs_per_blk → (ch < q.ch) ⊎ ((q.ch ≡ ch) × (lun ≤ q.lun))

abbrev pub Cleaned : Params → Core → ℕ → ℕ → ℕ → ℕ → Type 0
Cleaned spp c l k ch lun =
    (q : Ppa)
    → Inside spp q
    → q.blk ≡ l
    → Passed spp k ch lun q
    → Standing spp k ch lun q
    → Clean c q

abbrev pub corner : Params → ℕ → ℕ → ℕ → ℕ → Ppa
corner spp l k ch lun = record { ch = ch; lun = lun; pl = 0; blk = l; pg = k * spp.pgs_per_flashpg }

pub record Place (spp : Params) (l k ch lun : ℕ) : Type 0 where
  pub shape : Shape spp
  pub in_blk : l < spp.blks_per_pl
  pub in_flash : k < spp.flashpgs_per_blk
  pub in_ch : ch < spp.nchs
  pub in_lun : lun < spp.luns_per_ch

module _ (spp : Params) (l k ch lun : ℕ) (pl : Place spp l k ch lun) where
  pub flash_bound : k * spp.pgs_per_flashpg + spp.pgs_per_flashpg ≤ spp.pgs_per_blk
  flash_bound = omega (
    arith,
    suc-mul k spp.pgs_per_flashpg,
    pl.shape.flash,
    mul-le-mul_right {m = suc k} {n = spp.flashpgs_per_blk} spp.pgs_per_flashpg pl.in_flash,
  )

  pub victim_pg-corner : victim_pg spp l k ch lun ≡ corner spp l k ch lun
  victim_pg-corner =
      let sh = pl.shape in
      let a : ch % 256 ≡ ch = omega (arith, pl.in_ch, sh.chs) in
      let b : lun % 256 ≡ lun = omega (arith, pl.in_lun, sh.luns) in
      let d : l % 65536 ≡ l = omega (arith, pl.in_blk, sh.blks) in
      let e : k * spp.pgs_per_flashpg % 65536 ≡ k * spp.pgs_per_flashpg =
        omega (arith, flash_bound, sh.pgs) in
      cc (a, b, d, e)

  pub corner-Inside :
      (i : ℕ) → i < spp.pgs_per_flashpg → Inside spp (page_on (corner spp l k ch lun) i)
  corner-Inside i h = record {
    ch = pl.in_ch;
    lun = pl.in_lun;
    pl = omega (arith, pl.shape.one_pl);
    blk = pl.in_blk;
    pg = omega (arith, flash_bound);
  }

  -- A page of the flash page at hand.
  on_corner :
      (q : Ppa)
      → Inside spp q
      → q.blk ≡ l
      → q.ch ≡ ch
      → q.lun ≡ lun
      → k * spp.pgs_per_flashpg ≤ q.pg
      → page_on (corner spp l k ch lun) (q.pg - k * spp.pgs_per_flashpg) ≡ q
  on_corner q i e1 e2 e3 h =
      let a : k * spp.pgs_per_flashpg + (q.pg - k * spp.pgs_per_flashpg) ≡ q.pg = omega arith in
      let b : 0 ≡ q.pl = omega (arith, i.pl, pl.shape.one_pl) in cc (a, b, e1, e2, e3)

  -- After the flash page is cleaned, and before a block is erased.
  module _ (c c1 : Core) (kept : Kept c c1) (d : Cleaned spp c l k ch lun)
      (n : (i : ℕ) → i < spp.pgs_per_flashpg → Clean c1 (page_on (corner spp l k ch lun) i)) where
    after_flash :
        (q : Ppa)
        → Inside spp q
        → q.blk ≡ l
        → Passed spp k ch (lun + 1) q
        → Standing spp k ch lun q
        → Clean c1 q
    after_flash q i e (inl h) st = kept.clean q (d q i e (inl h) st)
    after_flash q i e (inr (h, inl a)) st = kept.clean q (d q i e (inr (h, inl a)) st)
    after_flash q i e (inr (h, inr (a, b))) st = elim (dec_lt q.lun lun) [
      | yes lt ↦ kept.clean q (d q i e (inr (h, inr (a, lt))) st)
      | no ge ↦ elim (dec_lt q.pg (k * spp.pgs_per_flashpg)) [
        | yes lt ↦ kept.clean q (d q i e (inl lt) st)
        | no pg ↦
            subst (Clean c1) (on_corner q i e a (omega arith) (omega arith))
              (n (q.pg - k * spp.pgs_per_flashpg) (omega (arith, suc-mul k spp.pgs_per_flashpg)))
      ]
    ]

    -- Before the last flash page no block is erased.
    pub not_last : k + 1 ≢ spp.flashpgs_per_blk → Cleaned spp c1 l k ch (lun + 1)
    not_last h q i e p st = after_flash q i e p (λ x. absurd (h x))

    -- At the last one, nothing is left in the block, and the other blocks stay as they are.
    module _ (last : k + 1 ≡ spp.flashpgs_per_blk) where
      pub none_left :
          (q : Ppa) → Inside spp q → in_block spp (corner spp l k ch lun) q ≡ true → Clean c1 q
      none_left q i b =
          let e1 : l ≡ q.blk = ground arith in
          let e2 : ch ≡ q.ch = ground arith in
          let e3 : lun ≡ q.lun = ground arith in
          after_flash q i (sym e1)
            (inr (
              omega (arith, i.pg, pl.shape.flash, ap (λ x. x * spp.pgs_per_flashpg) last),
              inr (sym e2, omega (arith, e3)),
            ))
            (λ _. inr (sym e2, omega (arith, e3)))

      pub erased-Cleaned :
          c1.sp ≡ spp → Cleaned spp (erased c1 (corner spp l k ch lun)) l k ch (lun + 1)
      erased-Cleaned same q i e p st =
          let other : in_block c1.sp (corner spp l k ch lun) q ≡ false = ground (arith, st last) in
          let cl = after_flash q i e p (λ _. ground (arith, st last)) in
          record {
            held = λ x. cl.held (sym (erased-other c1 (corner spp l k ch lun) q other) ∙ x);
            unmapped = cl.unmapped;
          }

-- From the end of one loop to the next round of the loop around it.
pub next_ch_Cleaned :
    (spp : Params) (c : Core) (l k ch lun : ℕ)
    → lun ≡ spp.luns_per_ch
    → Cleaned spp c l k ch lun
    → Cleaned spp c l k (ch + 1) 0
next_ch_Cleaned spp c l k ch lun h d q i e p st =
    d q i e (ground (arith, p, i.lun)) (λ z. ground (arith, st z))

pub next_flash_Cleaned :
    (spp : Params) (c : Core) (l k ch : ℕ)
    → ch ≡ spp.nchs
    → k + 1 < spp.flashpgs_per_blk
    → Cleaned spp c l k ch 0
    → Cleaned spp c l (k + 1) 0 0
next_flash_Cleaned spp c l k ch h b d q i e p st =
    d q i e (inr (ground (arith, p), inl (omega (arith, i.ch)))) (λ z. absurd (omega arith))

pub first_Cleaned : (spp : Params) (c : Core) (l : ℕ) → Cleaned spp c l 0 0 0
first_Cleaned spp c l q i e p st = absurd (ground (arith, p))
