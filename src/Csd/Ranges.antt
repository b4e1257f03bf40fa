-- ===== src/Csd/Ranges.antt =====
-- csd_dispatcher.c, address computation: where a load finds the bytes of its source ranges, and how
-- much one request may read.
pub mod Bytes
pub mod Read
use flax.Base.{
  ℕ, ◌-◌, ◌*◌, ◌/◌, ◌%◌, Option, none, some, List, [], ◌∷◌, ltb, ◌==◌, if◌then◌else◌, add_size,
  Result, ok, bug, ◌>>=◌, Bool, false,
}
use flax.Slm.Region.{Info, SourceRange}

-- Where a scan of the ranges stops: the address of the last range it met, the offset that is left
-- there, and the range that holds it, if there is one.
pub record RangePlace : Type 0 where
  pub base_addr : ℕ
  pub local_offset : ℕ
  pub range : Option SourceRange

-- The loop that the three functions share. A subtraction follows the test that it does not wrap.
unfoldable pub find_place : ℕ → List SourceRange → ℕ → RangePlace
find_place base [] o = record { base_addr = base; local_offset = o; range = none }
find_place base (r ∷ rs) o =
    let rest = find_place r.saddr rs (o - r.n_byte) in
    if ltb o r.n_byte
    then record { base_addr = r.saddr; local_offset = o; range = some r }
    else rest

-- `sre[0]`, which is read without a test of `nentry`.
abbrev pub first_range : List SourceRange → Result SourceRange
first_range [] = bug
first_range (r ∷ rs) = ok r

-- `__calculate_lba`
unfoldable pub calculate_lba : Info → ℕ → Result ℕ
calculate_lba info io_offset =
    if io_offset == 0
    then first_range info.sre >>= (λ r. ok r.saddr)
    else let p = find_place 0 info.sre io_offset in ok (add_size p.base_addr (p.local_offset / 512))

-- `ALIGNED_UP(io_size, 512)`, unless it is aligned.
abbrev pub sector_up : ℕ → ℕ
sector_up n = if n % 512 == 0 then n else add_size n 511 / 512 * 512

-- The rest of a range, or the size if that is less.
abbrev pub cut : RangePlace → ℕ → ℕ
cut p size = elim p.range [
  | none ↦ 0
  | some r ↦ if ltb r.n_byte (add_size p.local_offset size) then r.n_byte - p.local_offset else size
]

-- `__calculate_io_size`
unfoldable pub calculate_io_size : Info → ℕ → ℕ → Result ℕ
calculate_io_size info io_offset io_size =
    if io_offset == 0
    then first_range info.sre
      >>= (λ r. ok (if ltb (sector_up io_size) r.n_byte then sector_up io_size else r.n_byte))
    else ok (cut (find_place 0 info.sre io_offset) (sector_up io_size))

-- `__calculate_local_offset`
unfoldable pub calculate_local_offset : Info → ℕ → ℕ
calculate_local_offset info io_offset = (find_place 0 info.sre io_offset).local_offset % 512

-- `MAGIC_BUFFER_SIZE`; masking with it less one is the remainder.
abbrev pub magic_buffer_size : ℕ
magic_buffer_size = 134217728

abbrev in_ring : Option Info → Bool
in_ring none = false
in_ring (some info) = info.is_circular

-- `__calculate_circular_buf_addr`
unfoldable pub calculate_circular_buf_addr : Option Info → ℕ → ℕ → ℕ
calculate_circular_buf_addr lba_info base_addr logical_offset =
    if in_ring lba_info
    then add_size base_addr (logical_offset % magic_buffer_size)
    else add_size base_addr logical_offset

-- `__calculate_circular_io_size`
unfoldable pub calculate_circular_io_size : Option Info → ℕ → ℕ → ℕ
calculate_circular_io_size lba_info logical_offset requested_size =
    let remaining_in_buffer = magic_buffer_size - logical_offset % magic_buffer_size in
    if in_ring lba_info
    then if ltb remaining_in_buffer requested_size then remaining_in_buffer else requested_size
    else requested_size
