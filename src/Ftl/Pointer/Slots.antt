-- ===== src/Ftl/Pointer/Slots.antt =====
-- The pages of a line in the order in which the write pointer visits them: those of a one-shot page
-- first, then the channels, the LUNs of a channel, and the one-shot pages of a block.
use flax.Base.{
  ℕ, ◌+◌, ◌*◌, ◌/◌, ◌%◌, ◌≤◌, ◌<◌, ◌≡◌, refl, sym, ap, ◌∙◌, Bool, true, false, ok, arith,
}
use native.Mathlib.Nat.{suc-mul, div-eq_of_lt-le, div-add-mod', add-zero}
use flax.Ftl.Geometry.{Params, pgs_per_line}
use flax.Ftl.State.{WritePointer}
use flax.Ftl.Pointer.{step_pointer}

-- What `ssd_init_params` makes of the configuration, and `init_lines` asserts: blocks are made of
-- one-shot pages, and of flash pages; an address fits its bit fields.
pub record Shape (spp : Params) : Type 0 where
  pub oneshotpgs_per_blk : ℕ
  pub oneshot : spp.pgs_per_blk ≡ oneshotpgs_per_blk * spp.pgs_per_oneshotpg
  pub flash : spp.pgs_per_blk ≡ spp.flashpgs_per_blk * spp.pgs_per_flashpg
  pub positive : 0 < spp.pgs_per_oneshotpg
  pub one_pl : spp.pls_per_lun ≡ 1
  pub chs : spp.nchs ≤ 256
  pub luns : spp.luns_per_ch ≤ 256
  pub blks : spp.blks_per_pl ≤ 65536
  pub pgs : spp.pgs_per_blk ≤ 65535

-- The pointer is at a page of the geometry, in its line.
pub record Placed (spp : Params) (w : WritePointer) : Type 0 where
  pub ch : w.ch < spp.nchs
  pub lun : w.lun < spp.luns_per_ch
  pub pl : w.pl ≡ 0
  pub blk : w.blk < spp.blks_per_pl
  pub pg : w.pg < spp.pgs_per_blk
  pub line : w.curline ≡ w.blk

-- The number of pages of the line that come before the pointer.
abbrev pub slot_at : Params → ℕ → ℕ → ℕ → ℕ → ℕ
slot_at spp row lun ch col =
    ((row * spp.luns_per_ch + lun) * spp.nchs + ch) * spp.pgs_per_oneshotpg + col

abbrev pub slot : Params → WritePointer → ℕ
slot spp w = slot_at spp (w.pg / spp.pgs_per_oneshotpg) w.lun w.ch (w.pg % spp.pgs_per_oneshotpg)

-- What a step does to that number; the flag says that the line is used up.
abbrev pub Moves : Params → WritePointer → WritePointer → Bool → Type 0
Moves spp w w' false = slot spp w' ≡ slot spp w + 1
Moves spp w w' true = (slot spp w + 1 ≡ pgs_per_line spp) × (slot spp w' ≡ 0)

pub record Stepped (spp : Params) (w : WritePointer) : Type 0 where
  pub next : WritePointer
  pub used : Bool
  pub step : step_pointer spp w ≡ ok (next, used)
  pub placed : Placed spp next
  pub same_block : next.blk ≡ w.blk
  pub same_line : next.curline ≡ w.curline
  pub moves : Moves spp w next used

carry : (n a b d : ℕ) → d + 1 ≡ n → b ≡ a + 1 → b * n + 0 ≡ a * n + (d + 1)
carry n a b d e f = omega (arith, ap (λ x. x * n) f)

-- The division of a number is undone.
div_digits : (x n row col : ℕ) → x ≡ row * n + col → col < n → x / n ≡ row
div_digits x n row col e h =
    div-eq_of_lt-le {k = row} n {m = x} (omega arith) (omega (arith, suc-mul row n))

pub mod_digits : (x n row col : ℕ) → x ≡ row * n + col → col < n → x % n ≡ col
mod_digits x n row col e h =
    omega (arith, div-add-mod' x n, ap (λ k. k * n) (div_digits x n row col e h))

module _ (spp : Params) (sh : Shape spp) where
  pub slot_digits :
      (w : WritePointer) (row col : ℕ)
      → w.pg ≡ row * spp.pgs_per_oneshotpg + col
      → col < spp.pgs_per_oneshotpg
      → slot spp w ≡ slot_at spp row w.lun w.ch col
  slot_digits w row col e h =
      let r = div_digits w.pg spp.pgs_per_oneshotpg row col e h in
      let m = mod_digits w.pg spp.pgs_per_oneshotpg row col e h in
      ap (λ x. slot_at spp x w.lun w.ch (w.pg % spp.pgs_per_oneshotpg)) r
      ∙ ap (slot_at spp row w.lun w.ch) m

  pub next_ch :
      (row lun ch col : ℕ)
      → col + 1 ≡ spp.pgs_per_oneshotpg
      → slot_at spp row lun (ch + 1) 0 ≡ slot_at spp row lun ch col + 1
  next_ch row lun ch col e = omega arith

  pub next_lun :
      (row lun ch col : ℕ)
      → col + 1 ≡ spp.pgs_per_oneshotpg
      → ch + 1 ≡ spp.nchs
      → slot_at spp row (lun + 1) 0 0 ≡ slot_at spp row lun ch col + 1
  next_lun row lun ch col e f =
      ap (λ x. x * spp.pgs_per_oneshotpg + 0)
        (carry spp.nchs (row * spp.luns_per_ch + lun) (row * spp.luns_per_ch + (lun + 1)) ch f
          (omega arith))
      ∙ next_ch row lun ch col e

  pub next_row :
      (row lun ch col : ℕ)
      → col + 1 ≡ spp.pgs_per_oneshotpg
      → ch + 1 ≡ spp.nchs
      → lun + 1 ≡ spp.luns_per_ch
      → slot_at spp (row + 1) 0 0 0 ≡ slot_at spp row lun ch col + 1
  next_row row lun ch col e f g =
      ap (λ x. (x * spp.nchs + 0) * spp.pgs_per_oneshotpg + 0)
        (carry spp.luns_per_ch row (row + 1) lun g refl)
      ∙ next_lun row lun ch col e f

  pub all_slots : (row : ℕ) → row ≡ sh.oneshotpgs_per_blk → slot_at spp row 0 0 0 ≡ pgs_per_line spp
  all_slots row e =
      zeros (row * spp.luns_per_ch) spp.nchs spp.pgs_per_oneshotpg
      ∙ (flat row spp.luns_per_ch spp.nchs spp.pgs_per_oneshotpg
          ∙ ap (λ x. spp.luns_per_ch * spp.nchs * x)
              (ap (λ x. x * spp.pgs_per_oneshotpg) e ∙ sym sh.oneshot))
    where
      zeros : (x n o : ℕ) → ((x + 0) * n + 0) * o + 0 ≡ x * n * o
      zeros x n o = simp add-zero

      flat : (r l n o : ℕ) → r * l * n * o ≡ l * n * (r * o)
      flat r l n o = grind arith

  pub first_slot : slot_at spp 0 0 0 0 ≡ 0
  first_slot = omega arith
