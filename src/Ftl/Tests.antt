-- ===== src/Ftl/Tests.antt =====
-- conv_ftl.c on a small flash, with the victims in a sorted list.
use flax.Base.{ℕ, ◌≡◌, refl, sym, List, [], ◌∷◌, Result, ok, bug, hang, ok-inj, arith, inl, ◌>>=◌}
use mathlib.Core.Path.{subst}
use flax.Ftl.Geometry.{Params, Ppa}
use flax.Ftl.Geometry.Radix.{Inside}
use flax.Ftl.State.{WritePointer, gc_io}
use flax.Ftl.Pages.{FtlState}
use flax.Ftl.Pages.Marks.{core}
use flax.Ftl.Pointer.Slots.{Shape, Stepped}
use flax.Ftl.Pointer.Step.{step_pointer_lem}
use flax.Ftl.Map.{map_page, remap_page}
use flax.Ftl.Map.Returns.{map_page-returns}
use flax.Ftl.Map.Keeps.{IsFtl, Rewrote, remap_page-Rewrote}
use flax.Ftl.ListQueue.{list_pq, list_laws}
use flax.Ftl.Collect.{write_page, gc_line}
use flax.Ftl.Collect.Erase.{Swept}
use flax.Ftl.Collect.Line.{gc_line-Swept}
use flax.Ftl.Collect.Write.{IsSound}
use flax.Ftl.Collect.Refine.{view, write_spec, write_page-refines}
use flax.Ftl.Conv.{Namespace, IoStatus, io_success, io_error, conv_write}
use flax.Ftl.Conv.Refine.{
  AreSound, view_all, conv_write_spec, conv_write-refines, conv_write-refused,
}
use flax.Ftl.Init.{Config, geometry, ssd_init_params, conv_init_ftl, new_state, cleared_state}
use flax.Ftl.Init.Sound.{NewFtl, conv_init_ftl-NewFtl, ssd_init_params-Shape}

-- One channel of one LUN, four blocks of two pages.
abbrev small_params : Params
small_params = record {
  secs_per_pg = 8;
  pgs_per_flashpg = 1;
  flashpgs_per_blk = 2;
  pgs_per_oneshotpg = 1;
  pgs_per_blk = 2;
  blks_per_pl = 4;
  pls_per_lun = 1;
  luns_per_ch = 1;
  nchs = 1;
}

small-Shape : Shape small_params
small-Shape = record {
  oneshotpgs_per_blk = 2;
  oneshot = refl;
  flash = refl;
  positive = omega arith;
  one_pl = refl;
  chs = omega arith;
  luns = omega arith;
  blks = omega arith;
  pgs = omega arith;
}

abbrev no_pointer : WritePointer
no_pointer = record { curline = 0; ch = 0; lun = 0; pg = 0; blk = 0; pl = 0 }

abbrev new_ftl : Result (FtlState list_pq)
unfolding conv_init_ftl
new_ftl = conv_init_ftl list_pq small_params 2 no_pointer 0

-- A state, of a call that returns one.
abbrev state_of : Result (FtlState list_pq) → FtlState list_pq
state_of (ok s) = s
state_of bug = record (cleared_state list_pq small_params 2 no_pointer 0) { free_line_cnt = 0 }
state_of hang = record (cleared_state list_pq small_params 2 no_pointer 0) { free_line_cnt = 0 }

abbrev fresh : FtlState list_pq
unfolding conv_init_ftl new_state cleared_state
fresh = state_of (conv_init_ftl list_pq small_params 2 no_pointer 0)

fresh-NewFtl : NewFtl list_pq list_laws fresh
unfolding fresh conv_init_ftl new_state cleared_state
fresh-NewFtl =
    let (s, e, n) =
      conv_init_ftl-NewFtl list_pq list_laws small_params 2 no_pointer 0 small-Shape (omega arith)
        (omega arith) (omega arith) in
    subst (NewFtl list_pq list_laws) (sym (ok-inj e)) n

-- Logical pages written one after another.
writes : List ℕ → FtlState list_pq → Result (FtlState list_pq)
unfolding write_page
writes [] s = ok s
writes (l ∷ ls) s = write_page list_pq s l >>= writes ls

-- Two pages are written twice: garbage collection runs, and erases the block they had first.
erases : Result (FtlState list_pq) → ℕ → ℕ
erases (ok s) b = (s.blocks (record { ch = 0; lun = 0; pl = 0; blk = b; pg = 0 })).erase_cnt
erases bug b = 100
erases hang b = 100

collects_garbage : erases (writes (0 ∷ 1 ∷ 0 ∷ 1 ∷ []) fresh) 0 ≡ 1
unfolding writes fresh erases
collects_garbage = refl

-- The refinement, at one write.
write_page-refines_example :
    IsSound list_pq list_laws (state_of (write_page list_pq fresh 3))
    × ((x : ℕ)
        → view (core (state_of (write_page list_pq fresh 3))) x
          ≡ write_spec 3 (view (core fresh)) x)
unfolding write_page fresh
write_page-refines_example = write_page-refines list_pq list_laws fresh 3 fresh-NewFtl.sound refl

abbrev once : FtlState list_pq
unfolding write_page fresh
once = state_of (write_page list_pq fresh 3)

once-IsSound : IsSound list_pq list_laws once
unfolding write_page fresh once
once-IsSound =
    let (h, _) = write_page-refines list_pq list_laws fresh 3 fresh-NewFtl.sound refl in h

-- Both pages of the first line are used, and the first one is stale.
abbrev twice : FtlState list_pq
unfolding remap_page once
twice = state_of (remap_page list_pq once 3)

twice-IsFtl : IsFtl (core twice)
unfolding remap_page fresh once twice write_page
twice-IsFtl = (remap_page-Rewrote list_pq once 3 once-IsSound.ftl refl).ftl

-- The page that holds logical page 3, of a new instance.
abbrev first_pg : Ppa
first_pg = record { ch = 0; lun = 0; pl = 0; blk = 0; pg = 0 }

first_pg-Inside : Inside small_params first_pg
first_pg-Inside = record {
  ch = omega arith;
  lun = omega arith;
  pl = omega arith;
  blk = omega arith;
  pg = omega arith;
}

remap_page-Rewrote_example : Rewrote (core once) (core twice) 3
unfolding remap_page fresh once twice write_page
remap_page-Rewrote_example = remap_page-Rewrote list_pq once 3 once-IsSound.ftl refl

gc_line-Swept_example : Swept (core twice) (core (state_of (gc_line list_pq twice 0)))
unfolding gc_line fresh once twice write_page remap_page
gc_line-Swept_example = gc_line-Swept list_pq twice 0 twice-IsFtl (omega arith) refl

step_pointer_lem_example : Stepped small_params no_pointer
step_pointer_lem_example = step_pointer_lem small_params small-Shape no_pointer (record {
  ch = omega arith;
  lun = omega arith;
  pl = refl;
  blk = omega arith;
  pg = omega arith;
  line = refl;
})

conv_init_ftl-NewFtl_example :
    (s : FtlState list_pq) × (conv_init_ftl list_pq small_params 2 no_pointer 0 ≡ ok s)
    × NewFtl list_pq list_laws s
conv_init_ftl-NewFtl_example =
    conv_init_ftl-NewFtl list_pq list_laws small_params 2 no_pointer 0 small-Shape (omega arith)
      (omega arith) (omega arith)

-- Eight channels of two LUNs, in four instances.
abbrev config : Config
config = record {
  nand_channels = 8;
  luns_per_nand_ch = 2;
  plns_per_lun = 1;
  blks_per_pln = 1024;
  blk_size = 0;
  flash_page_size = 32768;
  oneshot_page_size = 98304;
}

ssd_init_params-Shape_example : Shape (geometry config 4 1024 1048576)
unfolding ssd_init_params
ssd_init_params-Shape_example =
    ssd_init_params-Shape config 17179869184 4
      (record {
        flash = omega arith;
        one_shot = omega arith;
        one_pl = refl;
        chs = omega arith;
        luns = omega arith;
        blks = omega arith;
        pgs = omega arith;
      })
      refl

-- A namespace of one instance.
abbrev small_ns : Namespace list_pq
unfolding fresh
small_ns = record {
  ftls = λ i. fresh;
  nr_parts = 1;
  write_buffer = record { initial = 65536; remaining = 65536 };
}

abbrev ns_of : Result (Namespace list_pq × IoStatus) → Namespace list_pq
unfolding small_ns
ns_of (ok (ns, st)) = ns
ns_of bug = small_ns
ns_of hang = small_ns

conv_write-refines_example :
    AreSound list_pq list_laws (ns_of (conv_write list_pq small_ns 8 15)).ftls
    × ((x : ℕ)
        → view_all list_pq list_laws 1 (ns_of (conv_write list_pq small_ns 8 15)).ftls x
          ≡ conv_write_spec list_pq list_laws small_ns 8 15 io_success
              (view_all list_pq list_laws 1 small_ns.ftls)
              x)
unfolding conv_write fresh small_ns ns_of
conv_write-refines_example =
    conv_write-refines list_pq list_laws small_ns 8 15 (λ i. fresh-NewFtl.sound) refl

conv_write-refused_example : conv_write list_pq small_ns 1000 0 ≡ ok (small_ns, io_error)
unfolding fresh small_ns
conv_write-refused_example =
    conv_write-refused list_pq list_laws small_ns 1000 0 (omega arith) (inl (omega arith))

map_page-returns_example : (s : FtlState list_pq) × (map_page list_pq fresh 3 gc_io ≡ ok s)
unfolding fresh
map_page-returns_example =
    map_page-returns list_pq fresh 3 gc_io small-Shape
      (record {
        ch = omega arith;
        lun = omega arith;
        pl = refl;
        blk = omega arith;
        pg = omega arith;
        line = refl;
      })
      (omega arith) (omega arith)
      (record { free = refl; blk_room = omega arith; line_room = omega arith; next = omega arith })
