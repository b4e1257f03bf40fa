-- ===== src/Ftl/Geometry.antt =====
-- ssd.h and ssd.c: the geometry of the flash, physical page addresses, and `ppa2pgidx`.
pub mod Radix
use flax.Base.{
  ℕ, ◌+◌, ◌-◌, ◌*◌, ◌/◌, ◌%◌, Bool, true, false, ◌&&◌, ltb, ◌==◌, if◌then◌else◌, add_size, mul_size,
  Option, none, some,
}

-- `struct ssdparams`, as far as the FTL reads it, less what `ssd_init_params` computes from it.
pub record Params : Type 0 where
  pub secs_per_pg : ℕ
  pub pgs_per_flashpg : ℕ
  pub flashpgs_per_blk : ℕ
  pub pgs_per_oneshotpg : ℕ
  pub pgs_per_blk : ℕ
  pub blks_per_pl : ℕ
  pub pls_per_lun : ℕ
  pub luns_per_ch : ℕ
  pub nchs : ℕ

-- The calculated values of `ssd_init_params`.
abbrev pub pgs_per_pl : Params → ℕ
pgs_per_pl spp = spp.blks_per_pl * spp.pgs_per_blk

abbrev pub pgs_per_lun : Params → ℕ
pgs_per_lun spp = spp.pls_per_lun * pgs_per_pl spp

abbrev pub pgs_per_ch : Params → ℕ
pgs_per_ch spp = spp.luns_per_ch * pgs_per_lun spp

abbrev pub tt_pgs : Params → ℕ
tt_pgs spp = spp.nchs * pgs_per_ch spp

abbrev pub tt_lines : Params → ℕ
tt_lines spp = spp.pls_per_lun * spp.blks_per_pl

abbrev pub pgs_per_line : Params → ℕ
pgs_per_line spp = spp.luns_per_ch * spp.nchs * spp.pgs_per_blk

-- `struct ppa`; the reserved bits are 0 in every address that is built, and all ones in
-- UNMAPPED_PPA, which is `none` where a `struct ppa` may be that.
pub record Ppa : Type 0 where
  pub ch : ℕ
  pub lun : ℕ
  pub pl : ℕ
  pub blk : ℕ
  pub pg : ℕ

abbrev pub same_blk : Ppa → Ppa → Bool
same_blk p q = p.ch == q.ch && (p.lun == q.lun && (p.pl == q.pl && p.blk == q.blk))

abbrev pub same_pg : Ppa → Ppa → Bool
same_pg p q = same_blk p q && p.pg == q.pg

-- `valid_ppa`
abbrev pub valid_ppa : Params → Ppa → Bool
valid_ppa spp p =
    ltb p.ch spp.nchs
    && (ltb p.lun spp.luns_per_ch
        && (ltb p.pl spp.pls_per_lun && (ltb p.blk spp.blks_per_pl && ltb p.pg spp.pgs_per_blk)))

-- `ppa2pgidx`; `none` is its NVMEV_ASSERT.
abbrev pub pgidx_of : Params → Ppa → ℕ
pgidx_of spp p =
    add_size
      (add_size
        (add_size (add_size (mul_size p.ch (pgs_per_ch spp)) (mul_size p.lun (pgs_per_lun spp)))
          (mul_size p.pl (pgs_per_pl spp)))
        (mul_size p.blk spp.pgs_per_blk))
      p.pg

abbrev pub ppa2pgidx : Params → Ppa → Option ℕ
ppa2pgidx spp p = if ltb (pgidx_of spp p) (tt_pgs spp) then some (pgidx_of spp p) else none
