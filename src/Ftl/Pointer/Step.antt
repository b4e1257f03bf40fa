-- ===== src/Ftl/Pointer/Step.antt =====
-- The write pointer inside its line: it visits each page of the line once.
use flax.Base.{
  ℕ, suc, ◌+◌, ◌-◌, ◌*◌, ◌/◌, ◌%◌, ◌≤◌, ◌<◌, ◌≡◌, refl, sym, ap, ◌∙◌, true, false, u32, arith,
}
use native.Mathlib.Nat.{suc-mul, mul-le-mul_right, div-add-mod', mod-lt, lt_of_mul-lt-mul_right}
use native.Mathlib.Decide.{dec_lt}
use flax.Ftl.Geometry.{Params}
use flax.Ftl.State.{WritePointer}
use flax.Ftl.Pointer.{step_pointer}
use flax.Ftl.Pointer.Slots.{
  Shape, Placed, slot_at, slot, Stepped, mod_digits, slot_digits, next_ch, next_lun, next_row,
  all_slots, first_slot,
}

module _ (spp : Params) (sh : Shape spp) where
  module _ (w : WritePointer) (pl : Placed spp w) where
    row : ℕ
    row = w.pg / spp.pgs_per_oneshotpg

    col : ℕ
    col = w.pg % spp.pgs_per_oneshotpg

    at : w.pg ≡ row * spp.pgs_per_oneshotpg + col
    unfolding row col
    at = sym (div-add-mod' w.pg spp.pgs_per_oneshotpg)

    col_bound : col < spp.pgs_per_oneshotpg
    unfolding col
    col_bound = mod-lt w.pg sh.positive

    row_bound : row < sh.oneshotpgs_per_blk
    row_bound = lt_of_mul-lt-mul_right spp.pgs_per_oneshotpg (omega (arith, sh.oneshot, at, pl.pg))

    row_end : (row + 1) * spp.pgs_per_oneshotpg ≤ spp.pgs_per_blk
    row_end = omega (
      arith,
      sh.oneshot,
      mul-le-mul_right {m = row + 1} {n = sh.oneshotpgs_per_blk} spp.pgs_per_oneshotpg
          (omega (arith, row_bound)),
    )

    here : slot spp w ≡ slot_at spp row w.lun w.ch col
    here = slot_digits spp sh w row col at col_bound

    inner : col + 1 < spp.pgs_per_oneshotpg → Stepped spp w
    unfolding step_pointer
    inner h =
        let up : w.pg + 1 ≡ row * spp.pgs_per_oneshotpg + (col + 1) = omega (arith, at) in
        let m = mod_digits (w.pg + 1) spp.pgs_per_oneshotpg row (col + 1) up h in
        record {
          next = record w { pg = w.pg + 1 };
          used = false;
          step = ground (arith, pl.pg, m);
          placed = record {
            ch = pl.ch;
            lun = pl.lun;
            pl = pl.pl;
            blk = pl.blk;
            line = pl.line;
            pg = omega (arith, row_end, h, at);
          };
          same_block = refl;
          same_line = refl;
          moves =
              slot_digits spp sh (record w { pg = w.pg + 1 }) row (col + 1) up h
              ∙ omega (arith, here);
        }

    -- At the end of a one-shot page, the pointer goes back to its first page.
    module _ (last : col + 1 ≡ spp.pgs_per_oneshotpg) where
      back : ℕ
      back = u32 (w.pg + 1 + 4294967296 - spp.pgs_per_oneshotpg)

      back_row : back ≡ row * spp.pgs_per_oneshotpg
      unfolding back
      back_row = omega (arith, at, last, sh.pgs, pl.pg)

      last_mod : (w.pg + 1) % spp.pgs_per_oneshotpg ≡ 0
      last_mod =
          mod_digits (w.pg + 1) spp.pgs_per_oneshotpg (row + 1) 0 (omega (arith, at, last))
            sh.positive

      back_bound : back < spp.pgs_per_blk
      back_bound = omega (arith, back_row, row_end, sh.positive)

      other_ch : w.ch + 1 < spp.nchs → Stepped spp w
      unfolding step_pointer back
      other_ch h = record {
        next = record w { pg = back; ch = w.ch + 1 };
        used = false;
        step = ground (arith, pl.pg, pl.ch, last_mod, h);
        placed = record {
          ch = h;
          lun = pl.lun;
          pl = pl.pl;
          blk = pl.blk;
          line = pl.line;
          pg = back_bound;
        };
        same_block = refl;
        same_line = refl;
        moves =
            slot_digits spp sh (record w { pg = back; ch = w.ch + 1 }) row 0
              (omega (arith, back_row)) sh.positive
            ∙ (next_ch spp sh row w.lun w.ch col last ∙ omega (arith, here));
      }

      module _ (last_ch : w.ch + 1 ≡ spp.nchs) where
        other_lun : w.lun + 1 < spp.luns_per_ch → Stepped spp w
        unfolding step_pointer back
        other_lun h = record {
          next = record w { pg = back; ch = 0; lun = w.lun + 1 };
          used = false;
          step = ground (arith, pl.pg, pl.ch, pl.lun, last_mod, h, last_ch);
          placed = record {
            ch = omega (arith, pl.ch);
            lun = h;
            pl = pl.pl;
            blk = pl.blk;
            line = pl.line;
            pg = back_bound;
          };
          same_block = refl;
          same_line = refl;
          moves =
              slot_digits spp sh (record w { pg = back; ch = 0; lun = w.lun + 1 }) row 0
                (omega (arith, back_row)) sh.positive
              ∙ (next_lun spp sh row w.lun w.ch col last last_ch ∙ omega (arith, here));
        }

        module _ (last_lun : w.lun + 1 ≡ spp.luns_per_ch) where
          front : ℕ
          front = u32 (back + spp.pgs_per_oneshotpg)

          front-row : front ≡ (row + 1) * spp.pgs_per_oneshotpg
          unfolding front
          front-row = omega (arith, back_row, row_end, sh.pgs)

          other_row : row + 1 < sh.oneshotpgs_per_blk → Stepped spp w
          unfolding step_pointer back front
          other_row h =
              let below : front < spp.pgs_per_blk = omega (
                arith,
                front-row,
                sh.oneshot,
                sh.positive,
                suc-mul (row + 1) spp.pgs_per_oneshotpg,
                mul-le-mul_right {m = suc (row + 1)} {n = sh.oneshotpgs_per_blk}
                    spp.pgs_per_oneshotpg h,
              ) in
              record {
                next = record w { pg = front; ch = 0; lun = 0 };
                used = false;
                step = ground (arith, pl.pg, pl.ch, pl.lun, last_mod, last_ch, last_lun, below);
                placed = record {
                  ch = omega (arith, pl.ch);
                  lun = omega (arith, pl.lun);
                  pl = pl.pl;
                  blk = pl.blk;
                  line = pl.line;
                  pg = below;
                };
                same_block = refl;
                same_line = refl;
                moves =
                    slot_digits spp sh (record w { pg = front; ch = 0; lun = 0 }) (row + 1) 0
                      (omega (arith, front-row)) sh.positive
                    ∙ (next_row spp sh row w.lun w.ch col last last_ch last_lun
                        ∙ omega (arith, here));
              }

          end_of_line : row + 1 ≡ sh.oneshotpgs_per_blk → Stepped spp w
          unfolding step_pointer back front
          end_of_line h =
              let full : front ≡ spp.pgs_per_blk =
                omega (arith, front-row, sh.oneshot, ap (λ x. x * spp.pgs_per_oneshotpg) h) in
              record {
                next = record w { pg = 0; ch = 0; lun = 0 };
                used = true;
                step = ground (arith, pl.pg, pl.ch, pl.lun, last_mod, last_ch, last_lun, full);
                placed = record {
                  ch = omega (arith, pl.ch);
                  lun = omega (arith, pl.lun);
                  pl = pl.pl;
                  blk = pl.blk;
                  line = pl.line;
                  pg = omega (arith, pl.pg);
                };
                same_block = refl;
                same_line = refl;
                moves = (
                  sym (
                        next_row spp sh row w.lun w.ch col last last_ch last_lun
                        ∙ omega (arith, here))
                      ∙ all_slots spp sh (row + 1) h,
                  slot_digits spp sh (record w { pg = 0; ch = 0; lun = 0 }) 0 0 (omega arith)
                        sh.positive
                      ∙ first_slot spp sh,
                );
              }

    -- The pointer's step succeeds, and moves it to the next page of the line; it says that the line
    -- is used up just when there is none.
    pub step_pointer_lem : Stepped spp w
    step_pointer_lem = elim (dec_lt (col + 1) spp.pgs_per_oneshotpg) [
      | yes h ↦ inner h
      | no h ↦
          let e1 : col + 1 ≡ spp.pgs_per_oneshotpg = omega (arith, col_bound) in
          elim (dec_lt (w.ch + 1) spp.nchs) [
            | yes h ↦ other_ch e1 h
            | no h ↦
                let e2 : w.ch + 1 ≡ spp.nchs = omega (arith, pl.ch) in
                elim (dec_lt (w.lun + 1) spp.luns_per_ch) [
                  | yes h ↦ other_lun e1 e2 h
                  | no h ↦
                      let e3 : w.lun + 1 ≡ spp.luns_per_ch = omega (arith, pl.lun) in
                      elim (dec_lt (row + 1) sh.oneshotpgs_per_blk) [
                        | yes h ↦ other_row e1 e2 e3 h
                        | no h ↦ end_of_line e1 e2 e3 (omega (arith, row_bound))
                      ]
                ]
          ]
    ]
