-- ===== src/Ftl/Geometry/Radix.antt =====
-- `ppa2pgidx` is a numbering of the pages: in range, and different for different pages.
use flax.Base.{ℕ, suc, ◌+◌, ◌*◌, ◌%◌, ◌<◌, ◌≡◌, sym, ap, true, some, arith, add_size, size_mod, ◌∙◌}
use native.Mathlib.Nat.{suc-mul, mul-le-mul_right}
use native.Mathlib.Decide.{dec_lt}
use flax.Ftl.Geometry.{
  Params, pgs_per_pl, pgs_per_lun, pgs_per_ch, tt_pgs, Ppa, valid_ppa, pgidx_of, ppa2pgidx,
}

-- A digit below `n` behind one below `m`.
digit_bound : (m n a b : ℕ) → a < m → b < n → a * n + b < m * n
digit_bound m n a b ha hb = omega (arith, mul-le-mul_right {m = suc a} {n = m} n ha, suc-mul a n)

digit_less : (n a b c d : ℕ) → b < n → a < c → a * n + b < c * n + d
digit_less n a b c d hb h = omega (arith, digit_bound c n a b h hb)

digit_same : (n a b c d : ℕ) → b < n → d < n → a * n + b ≡ c * n + d → (a ≡ c) × (b ≡ d)
digit_same n a b c d hb hd e = elim (dec_lt a c) [
  | yes lt ↦ absurd (omega (arith, digit_less n a b c d hb lt))
  | no ge ↦ elim (dec_lt c a) [
    | yes gt ↦ absurd (omega (arith, digit_less n c d a b hd gt))
    | no le ↦ let same : a ≡ c = omega arith in (same, omega (arith, ap (λ k. k * n) same))
  ]
]

-- The parts of a valid address.
pub record Inside (spp : Params) (p : Ppa) : Type 0 where
  pub ch : p.ch < spp.nchs
  pub lun : p.lun < spp.luns_per_ch
  pub pl : p.pl < spp.pls_per_lun
  pub blk : p.blk < spp.blks_per_pl
  pub pg : p.pg < spp.pgs_per_blk

valid_ppa-Inside : (spp : Params) (p : Ppa) → valid_ppa spp p ≡ true → Inside spp p
valid_ppa-Inside spp p h = ground arith

-- The number of the page, without wrapping.
abbrev blk_idx : Params → Ppa → ℕ
blk_idx spp p = p.blk * spp.pgs_per_blk + p.pg

abbrev pl_idx : Params → Ppa → ℕ
pl_idx spp p = p.pl * pgs_per_pl spp + blk_idx spp p

abbrev lun_idx : Params → Ppa → ℕ
lun_idx spp p = p.lun * pgs_per_lun spp + pl_idx spp p

abbrev idx : Params → Ppa → ℕ
idx spp p = p.ch * pgs_per_ch spp + lun_idx spp p

record Bounds (spp : Params) (p : Ppa) : Type 0 where
  in_pl : blk_idx spp p < pgs_per_pl spp
  in_lun : pl_idx spp p < pgs_per_lun spp
  in_ch : lun_idx spp p < pgs_per_ch spp
  in_all : idx spp p < tt_pgs spp

Inside-Bounds : (spp : Params) (p : Ppa) → Inside spp p → Bounds spp p
Inside-Bounds spp p i =
    let a = digit_bound spp.blks_per_pl spp.pgs_per_blk p.blk p.pg i.blk i.pg in
    let b = digit_bound spp.pls_per_lun (pgs_per_pl spp) p.pl (blk_idx spp p) i.pl a in
    let c = digit_bound spp.luns_per_ch (pgs_per_lun spp) p.lun (pl_idx spp p) i.lun b in
    record {
      in_pl = a;
      in_lun = b;
      in_ch = c;
      in_all = digit_bound spp.nchs (pgs_per_ch spp) p.ch (lun_idx spp p) i.ch c;
    }

-- No product or sum of a valid address wraps.
pgidx_of_idx :
    (spp : Params) (p : Ppa) → Inside spp p → tt_pgs spp < size_mod → pgidx_of spp p ≡ idx spp p
pgidx_of_idx spp p i w =
    small (p.ch * pgs_per_ch spp) (p.lun * pgs_per_lun spp) (p.pl * pgs_per_pl spp)
      (p.blk * spp.pgs_per_blk) p.pg (omega (arith, (Inside-Bounds spp p i).in_all))
  where
    small :
        (a b c d e : ℕ)
        → a + (b + (c + (d + e))) < size_mod
        → add_size
            (add_size
              (add_size (add_size (a % size_mod) (b % size_mod)) (c % size_mod))
              (d % size_mod))
            e
          ≡ a + (b + (c + (d + e)))
    small a b c d e h = omega arith

-- Every valid page has a number, which is in the range of the reverse map.
pub ppa2pgidx-Inside :
    (spp : Params) (p : Ppa)
    → Inside spp p
    → tt_pgs spp < size_mod
    → ppa2pgidx spp p ≡ some (pgidx_of spp p)
ppa2pgidx-Inside spp p i w = ground (arith, pgidx_of_idx spp p i w, (Inside-Bounds spp p i).in_all)

-- Different valid pages have different numbers.
pub pgidx_of_injective :
    (spp : Params) (p q : Ppa)
    → Inside spp p
    → Inside spp q
    → tt_pgs spp < size_mod
    → pgidx_of spp p ≡ pgidx_of spp q
    → p ≡ q
pgidx_of_injective spp p q i j w e =
    let a = Inside-Bounds spp p i in
    let b = Inside-Bounds spp q j in
    let (ch, r1) =
      digit_same (pgs_per_ch spp) p.ch (lun_idx spp p) q.ch (lun_idx spp q) a.in_ch b.in_ch
        (sym (pgidx_of_idx spp p i w) ∙ (e ∙ pgidx_of_idx spp q j w)) in
    let (lun, r2) =
      digit_same (pgs_per_lun spp) p.lun (pl_idx spp p) q.lun (pl_idx spp q) a.in_lun b.in_lun r1 in
    let (pl, r3) =
      digit_same (pgs_per_pl spp) p.pl (blk_idx spp p) q.pl (blk_idx spp q) a.in_pl b.in_pl r2 in
    let (blk, pg) = digit_same spp.pgs_per_blk p.blk p.pg q.blk q.pg i.pg j.pg r3 in
    cc (ch, lun, pl, blk, pg)
