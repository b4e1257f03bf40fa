-- ===== src/Ftl/State.antt =====
-- conv_ftl.h: the state of one FTL instance.
-- The victim queue is a priority queue of another project (pqueue.c), and a parameter here: its
-- callbacks read the lines' `vpc` and write their `pos`, which therefore stands beside the lines.
use flax.Base.{
  ℕ, Bool, true, false, Option, none, some, List, ltb, leb, ◌==◌, if◌then◌else◌, Result, ok, bug,
  assert, ◌>>=◌,
}
use flax.Ftl.Geometry.{Params, tt_pgs, Ppa, same_pg, ppa2pgidx}

-- The queue, with the positions of its lines. A call gets the priorities of the lines.
pub record PQueue : Type 1 where
  pub Queue : Type 0
  pub pqueue_init : Queue
  pub pqueue_insert : (ℕ → ℕ) → ℕ → Queue × (ℕ → ℕ) → Queue × (ℕ → ℕ)
  pub pqueue_change_priority : (ℕ → ℕ) → (ℕ → ℕ) → ℕ → Queue × (ℕ → ℕ) → Queue × (ℕ → ℕ)
  pub pqueue_pop : (ℕ → ℕ) → Queue × (ℕ → ℕ) → Queue × (ℕ → ℕ)
  pub pqueue_peek : Queue → Option ℕ

-- `struct line`; its `id` is its index, and `entry` says in which list it is.
pub record Line : Type 0 where
  pub ipc : ℕ
  pub vpc : ℕ

-- `struct nand_block`, less its pages and the fields that nothing writes.
pub record Block : Type 0 where
  pub ipc : ℕ
  pub vpc : ℕ
  pub erase_cnt : ℕ

-- The status of a `struct nand_page`.
pub data Status : Type 0 where
  pg_free pg_invalid pg_valid : Status

abbrev pub is_pg_free : Status → Bool
is_pg_free pg_free = true
is_pg_free _ = false

abbrev pub is_pg_valid : Status → Bool
is_pg_valid pg_valid = true
is_pg_valid _ = false

-- `struct write_pointer`; `curline` is the line's id.
pub record WritePointer : Type 0 where
  pub curline : ℕ
  pub ch : ℕ
  pub lun : ℕ
  pub pg : ℕ
  pub blk : ℕ
  pub pl : ℕ

-- `USER_IO` and `GC_IO`
pub data IoType : Type 0 where
  user_io gc_io : IoType

-- `INVALID_LPN`
abbrev pub invalid_lpn : ℕ
invalid_lpn = 18446744073709551615

-- `struct conv_ftl` with its `struct line_mgmt`, `struct write_flow_control` and the flash of its
-- `struct ssd`. Pages are found by their address, blocks by that of any of their pages.
pub record ConvFtl (Queue : Type 0) : Type 0 where
  pub sp : Params
  pub gc_thres_lines_high : ℕ
  pub maptbl : ℕ → Option Ppa
  pub rmap : ℕ → ℕ
  pub wp : WritePointer
  pub gc_wp : WritePointer
  pub lines : ℕ → Line
  pub pos : ℕ → ℕ
  pub free_line_list : List ℕ
  pub full_line_list : List ℕ
  pub victim_line_pq : Queue
  pub free_line_cnt : ℕ
  pub victim_line_cnt : ℕ
  pub full_line_cnt : ℕ
  pub write_credits : ℕ
  pub credits_to_refill : ℕ
  pub pages : Ppa → Status
  pub blocks : Ppa → Block

abbrev pub update {ℓ} : {A : Type ℓ} → (ℕ → A) → ℕ → A → ℕ → A
update f i v j = if i == j then v else f j

abbrev pub update_pg : (Ppa → Status) → Ppa → Status → Ppa → Status
update_pg f p v q = if same_pg p q then v else f q

module _ {Q : Type 0} where
  abbrev pub pointer : IoType → ConvFtl Q → WritePointer
  pointer user_io s = s.wp
  pointer gc_io s = s.gc_wp

  abbrev pub put_pointer : IoType → WritePointer → ConvFtl Q → ConvFtl Q
  put_pointer user_io w s = record s { wp = w }
  put_pointer gc_io w s = record s { gc_wp = w }

  -- `set_maptbl_ent`, with its assertion
  abbrev pub set_maptbl_ent : ConvFtl Q → ℕ → Ppa → Result (ConvFtl Q)
  set_maptbl_ent s lpn p =
      assert (ltb lpn (tt_pgs s.sp)) (ok (record s { maptbl = update s.maptbl lpn (some p) }))

  -- `get_rmap_ent` and `set_rmap_ent`, with the assertion of `ppa2pgidx`
  abbrev pub pgidx : ConvFtl Q → Ppa → Result ℕ
  pgidx s p = elim (ppa2pgidx s.sp p) [ none ↦ bug | some i ↦ ok i ]

  abbrev pub get_rmap_ent : ConvFtl Q → Ppa → Result ℕ
  get_rmap_ent s p = pgidx s p >>= λ i. ok (s.rmap i)

  abbrev pub set_rmap_ent : ConvFtl Q → ℕ → Ppa → Result (ConvFtl Q)
  set_rmap_ent s lpn p = pgidx s p >>= λ i. ok (record s { rmap = update s.rmap i lpn })

  abbrev pub set_page : ConvFtl Q → Ppa → Status → ConvFtl Q
  set_page s p v = record s { pages = update_pg s.pages p v }

  -- `should_gc_high`
  abbrev pub should_gc_high : ConvFtl Q → Bool
  should_gc_high s = leb s.free_line_cnt s.gc_thres_lines_high
