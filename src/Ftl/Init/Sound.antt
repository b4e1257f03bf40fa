-- ===== src/Ftl/Init/Sound.antt =====
-- A new FTL instance is sound, in the geometry that `ssd_init_params` computes.
use flax.Base.{
  ℕ, zero, suc, ◌+◌, ◌*◌, ◌/◌, ◌%◌, ◌≤◌, ◌<◌, ◌≡◌, refl, sym, ap, ◌∙◌, true, false, ◌&&◌, ltb, ◌==◌,
  List, [], ◌∷◌, Result, ok, assert, ◌>>=◌, assert-ok, ok-inj, if-eq, u32, arith, inl, inr,
}
use mathlib.Core.Path.{subst}
use native.Mathlib.Nat.{div-add-mod', mul-div_cancel}
use flax.Ftl.Geometry.{Params, tt_lines, tt_pgs, pgs_per_line}
use flax.Ftl.State.{PQueue, WritePointer, IoType, user_io, gc_io, ConvFtl, put_pointer}
use flax.Ftl.Pages.{FtlState, list_add_tail}
use flax.Ftl.Pages.Marks.{core}
use flax.Ftl.Pointer.{init_write_pointer, get_next_free_line, take_line}
use flax.Ftl.Pointer.Slots.{Shape, Placed}
use flax.Ftl.Victims.{QueueLaws}
use flax.Ftl.Collect.Write.{IsSound}
use flax.Ftl.Collect.Refine.{view}
use flax.Ftl.Init.{
  Config, div_round_up, geometry, aligned, ssd_init_params, add_lines, is_count, cleared_state,
  new_state, init_write_flow_control, conv_init_ftl,
}

-- What fits the types and bit fields, and a page at the least of each kind.
pub record Fits (c : Config) (spp : Params) : Type 0 where
  pub flash : 4096 ≤ c.flash_page_size
  pub one_shot : c.flash_page_size ≤ c.oneshot_page_size
  pub one_pl : c.plns_per_lun ≡ 1
  pub chs : spp.nchs ≤ 256
  pub luns : spp.luns_per_ch ≤ 256
  pub blks : spp.blks_per_pl ≤ 65536
  pub pgs : spp.pgs_per_blk ≤ 65535

-- A page size that is a multiple of another that is a multiple of 4096.
two_steps : (o f : ℕ) → 4096 ≤ f → f % 4096 ≡ 0 → o % f ≡ 0 → o / 4096 ≡ o / f * (f / 4096)
two_steps o f b e g =
    let whole : o ≡ o / f * f = omega (arith, div-add-mod' o f) in
    let part : f ≡ f / 4096 * 4096 = omega (arith, div-add-mod' f 4096) in
    ap (λ x. x / 4096) (whole ∙ (ap (λ x. o / f * x) part ∙ regroup (o / f) (f / 4096)))
    ∙ mul-div_cancel (o / f * (f / 4096)) {n = 4096} (omega arith)
  where
    regroup : (a b : ℕ) → a * (b * 4096) ≡ a * b * 4096
    regroup a b = grind arith

swap : (a b n : ℕ) → a * b * n ≡ a * n * b
swap a b n = grind arith

aligned-ok :
    (c : Config) (nparts : ℕ) (r : Result Params) {spp : Params}
    → aligned c nparts r ≡ ok spp
    → (c.oneshot_page_size % 4096 ≡ 0)
      × (c.flash_page_size % 4096 ≡ 0)
      × (c.oneshot_page_size % c.flash_page_size ≡ 0)
      × (r ≡ ok spp)
aligned-ok c nparts r e =
    let (_, e1) = assert-ok (c.nand_channels % nparts == 0) _ e in
    let (a, e2) =
      assert-ok (c.oneshot_page_size % 4096 == 0 && c.flash_page_size % 4096 == 0) _ e1 in
    let (b, e3) = assert-ok (c.oneshot_page_size % c.flash_page_size == 0) r e2 in
    (ground (arith, a), ground (arith, a), ground (arith, b), e3)

geometry-Shape :
    (c : Config) (nparts blks size : ℕ) {spp : Params}
    → Fits c spp
    → aligned c nparts (ok (geometry c nparts blks size)) ≡ ok spp
    → Shape spp
geometry-Shape c nparts blks size {spp} f e =
    let (a, b, d, e1) = aligned-ok c nparts (ok (geometry c nparts blks size)) e in
    let same = ok-inj e1 in
    let n = div_round_up size c.oneshot_page_size in
    subst Shape same (record {
      oneshotpgs_per_blk = n;
      oneshot = grind arith;
      flash =
          ap (λ x. x * n) (two_steps c.oneshot_page_size c.flash_page_size f.flash b d)
          ∙ swap (c.oneshot_page_size / c.flash_page_size) (c.flash_page_size / 4096) n;
      positive = omega (arith, f.flash, f.one_shot);
      one_pl = f.one_pl;
      chs = subst (λ x. x.nchs ≤ 256) (sym same) f.chs;
      luns = subst (λ x. x.luns_per_ch ≤ 256) (sym same) f.luns;
      blks = subst (λ x. x.blks_per_pl ≤ 65536) (sym same) f.blks;
      pgs = subst (λ x. x.pgs_per_blk ≤ 65535) (sym same) f.pgs;
    })

-- Whatever the configuration, a geometry that `ssd_init_params` returns is made of whole flash pages
-- and whole one-shot pages.
pub ssd_init_params-Shape :
    (c : Config) (capacity nparts : ℕ) {spp : Params}
    → Fits c spp
    → ssd_init_params c capacity nparts ≡ ok spp
    → Shape spp
unfolding ssd_init_params
ssd_init_params-Shape c capacity nparts {spp} f e =
    let dies = c.plns_per_lun * c.luns_per_nand_ch * (c.nand_channels / nparts) in
    let size = div_round_up (capacity / nparts) (c.blks_per_pln * dies) in
    let blks = div_round_up (capacity / nparts) (c.blk_size * dies) in
    elim (if-eq (ltb 0 c.blks_per_pln)
      (assert (is_count (c.blks_per_pln * dies))
        (aligned c nparts (ok (geometry c nparts c.blks_per_pln size))))
      (assert (ltb 0 c.blk_size) (aligned c nparts (ok (geometry c nparts blks c.blk_size)))) e) [
        | inl (_, e1) ↦
            let (_, e2) =
              assert-ok (is_count (c.blks_per_pln * dies))
                (aligned c nparts (ok (geometry c nparts c.blks_per_pln size))) e1 in
            geometry-Shape c nparts c.blks_per_pln size f e2
        | inr (_, e1) ↦
            let (_, e2) =
              assert-ok (ltb 0 c.blk_size)
                (aligned c nparts (ok (geometry c nparts blks c.blk_size))) e1 in
            geometry-Shape c nparts blks c.blk_size f e2
      ]

-- The first two lines in the list of free lines.
add_lines-keeps :
    (n i a b : ℕ) (ls : List ℕ) → (ls' : List ℕ) × (add_lines n i (a ∷ b ∷ ls) ≡ a ∷ b ∷ ls')
unfolding add_lines
add_lines-keeps zero i a b ls = (ls, refl)
add_lines-keeps (suc n) i a b ls = add_lines-keeps n (i + 1) a b (list_add_tail ls i)

add_lines-first : (n : ℕ) → 2 ≤ n → (ls : List ℕ) × (add_lines n 0 [] ≡ 0 ∷ 1 ∷ ls)
unfolding add_lines
add_lines-first zero h = absurd (omega arith)
add_lines-first (suc zero) h = absurd (omega arith)
add_lines-first (suc (suc n)) h = add_lines-keeps n 2 0 1 []

abbrev pointer_to : ℕ → WritePointer
pointer_to l = record { curline = l; ch = 0; lun = 0; pg = 0; blk = l; pl = 0 }

-- The state once a pointer has the first free line.
abbrev with_line : {Q : Type 0} → ConvFtl Q → IoType → ℕ → List ℕ → ConvFtl Q
with_line s io l ls =
    put_pointer io (pointer_to l)
      (record s { free_line_list = ls; free_line_cnt = u32 (s.free_line_cnt + 4294967295) })

init_write_pointer-with_line :
    (pq : PQueue) (s : FtlState pq) (io : IoType) (l : ℕ) (ls : List ℕ)
    → s.free_line_list ≡ l ∷ ls
    → init_write_pointer pq s io ≡ ok (with_line s io l ls)
unfolding init_write_pointer get_next_free_line take_line
init_write_pointer-with_line pq s io l ls e =
    ap {A = List ℕ} (λ xs. take_line pq s xs >>= λ (s', l). ok (put_pointer io (pointer_to l) s')) e

pointer_to-Placed :
    (spp : Params) (l : ℕ) → l < spp.blks_per_pl → 0 < pgs_per_line spp → Placed spp (pointer_to l)
pointer_to-Placed spp l b h =
    let (h1, pg) = both_pos (spp.luns_per_ch * spp.nchs) spp.pgs_per_blk h in
    let (lun, ch) = both_pos spp.luns_per_ch spp.nchs h1 in
    record { ch = ch; lun = lun; pl = refl; blk = b; pg = pg; line = refl }
  where
    both_pos : (a b : ℕ) → 0 < a * b → (0 < a) × (0 < b)
    both_pos zero b h = absurd (omega arith)
    both_pos (suc a) zero h = absurd (omega arith)
    both_pos (suc a) (suc b) h = (omega arith, omega arith)

-- A new instance is sound, and holds no data.
pub record NewFtl (pq : PQueue) (laws : QueueLaws pq) (s : FtlState pq) : Type 0 where
  pub sound : IsSound pq laws s
  pub unmapped : (x : ℕ) → view (core s) x ≡ false

-- The set-up of an instance succeeds when there is a line for each of the two pointers, the lines
-- have pages, and an `int` counts the pages: in a geometry of whole pages it returns an instance
-- that is sound and holds no data.
pub conv_init_ftl-NewFtl :
    (pq : PQueue) (laws : QueueLaws pq) (spp : Params) (thres : ℕ) (w : WritePointer) (credits : ℕ)
    → Shape spp
    → tt_pgs spp < 2147483648
    → 2 ≤ spp.blks_per_pl
    → 0 < pgs_per_line spp
    → (s : FtlState pq) × (conv_init_ftl pq spp thres w credits ≡ ok s) × NewFtl pq laws s
unfolding conv_init_ftl new_state cleared_state
conv_init_ftl-NewFtl pq laws spp thres w credits sh small two pos =
    let (ls, e) = add_lines-first spp.blks_per_pl two in
    let s0 = cleared_state pq spp thres w credits in
    let s1 = with_line s0 user_io 0 (1 ∷ ls) in
    let s2 = with_line s1 gc_io 1 ls in
    let one : spp.blks_per_pl == tt_lines spp ≡ true =
      ground (arith, ap (λ x. x * spp.blks_per_pl) sh.one_pl) in
    let finish : FtlState pq → Result (FtlState pq) = λ s. ok (init_write_flow_control pq s) in
    let second : FtlState pq → Result (FtlState pq) =
      λ s. init_write_pointer pq s gc_io >>= finish in
    let third : FtlState pq → Result (FtlState pq) =
      λ s. init_write_pointer pq s user_io >>= second in
    let counted : ltb (tt_pgs spp) 2147483648 ≡ true = ground arith in
    (
      init_write_flow_control pq s2,
      ap (λ b. assert b (new_state pq spp thres w credits >>= third)) one
          ∙ ap (λ b. assert b (ok s0) >>= third) counted
          ∙ (ap (λ m. m >>= second) (init_write_pointer-with_line pq s0 user_io 0 (1 ∷ ls) e)
              ∙ ap (λ m. m >>= finish) (init_write_pointer-with_line pq s1 gc_io 1 ls refl)),
      record {
        sound = record {
          ftl = record {
            located = record {
              shape = sh;
              wp = pointer_to-Placed spp 0 (omega arith) pos;
              gc_wp = pointer_to-Placed spp 1 (omega arith) pos;
            };
            tables = record {
              small = omega arith;
              mapped = λ x p k. absurd (ground arith);
              live = λ p i k. absurd (ground arith);
            };
          };
          victims = λ x k. absurd (laws.init x k);
        };
        unmapped = λ x. refl;
      },
    )
