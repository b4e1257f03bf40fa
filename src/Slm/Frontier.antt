-- ===== src/Slm/Frontier.antt =====
-- csd_slm.c, `ht_advance_head` and the other functions that move a region's two frontiers:
-- `ht_head`, up to which it has been produced, and `ht_tail`, up to which it has been consumed.
mod Pending
pub mod View
pub mod Order
pub mod Frame
mod Tests
use flax.Base.{
  ℕ, zero, suc, ◌+◌, ◌*◌, ◌/◌, Bool, true, false, ◌&&◌, not, Option, none, some, List, [], ◌∷◌,
  length, ltb, leb, if◌then◌else◌, add_size,
}
use flax.Slm.Region.{Interval, Info, max_pending, page_down}

-- The scan of `ht_pending` for an entry that meets `[start, end)`, which is then widened in
-- place; `none` if there is no such entry.
unfoldable pub coalesce : ℕ → ℕ → List Interval → Option (List Interval)
coalesce start end [] = none
coalesce start end (p ∷ ps) =
    let rest = coalesce start end ps in
    if leb start p.end && leb p.start end
    then some (
        record {
          start = if ltb start p.start then start else p.start;
          end = if ltb p.end end then end else p.end;
        }
        ∷ ps)
    else elim rest [ none ↦ none | some qs ↦ some (p ∷ qs) ]

abbrev pub snoc {ℓ} : {A : Type ℓ} → List A → A → List A
snoc [] a = a ∷ []
snoc (x ∷ xs) a = x ∷ snoc xs a

-- A range beyond the frontier is stashed. `none` is the `BUG()` on 256 entries.
unfoldable pub stash : ℕ → ℕ → List Interval → Option (List Interval)
unfolding coalesce
stash start end ps = elim (coalesce start end ps) [
  | some qs ↦ some qs
  | none ↦
      if leb max_pending (length ps)
      then none
      else some (snoc ps (record { start = start; end = end }))
]

-- `a[0] = a[n]; n--` for an array `a` whose entries behind the first are the given list.
put_second : Interval → List Interval → List Interval
put_second x [] = x ∷ []
put_second x (l ∷ r) = l ∷ x ∷ r

to_front : List Interval → List Interval
unfolding put_second
to_front [] = []
to_front (x ∷ xs) = put_second x (to_front xs)

-- One pass of the `for` loop: the first entry that starts at or below the frontier is taken out,
-- and the last entry moves to its place.
unfoldable pub take_first : ℕ → List Interval → Option (Interval × List Interval)
unfolding to_front
take_first head [] = none
take_first head (p ∷ ps) =
    let rest = take_first head ps in
    if leb p.start head
    then some (p, to_front ps)
    else elim rest [ none ↦ none | some (q, qs) ↦ some (q, p ∷ qs) ]

-- The `do … while (progressed)` loop, with fuel for its rounds.
unfoldable pub absorb : ℕ → ℕ → List Interval → ℕ × List Interval
unfolding take_first
absorb zero head ps = (head, ps)
absorb (suc fuel) head ps = elim (take_first head ps) [
  | none ↦ (head, ps)
  | some (p, qs) ↦ absorb fuel (if ltb head p.end then p.end else head) qs
]

-- The stashed list has an entry to give up in each round but the last.
unfoldable pub settle : Info → ℕ → List Interval → Info
settle info head ps =
    let out = absorb (suc (length ps)) head ps in
    record info { ht_head = out.0; ht_pending = out.1 }

-- `ht_advance_head`; `none` is `BUG()`.
unfoldable pub ht_advance_head : Info → ℕ → ℕ → Option Info
ht_advance_head info start end =
    if leb end start
    then some info
    else if leb start info.ht_head
    then some (settle info (if ltb info.ht_head end then end else info.ht_head) info.ht_pending)
    else elim (stash start end info.ht_pending) [
      | none ↦ none
      | some ps ↦ some (settle info info.ht_head ps)
    ]

-- `ht_advance_head_page`
unfoldable pub ht_advance_head_page : Info → ℕ → Info
ht_advance_head_page info rel_byte_end =
    if ltb info.ht_head (page_down rel_byte_end)
    then record info { ht_head = page_down rel_byte_end }
    else info

-- `ht_set_tail`
unfoldable pub ht_set_tail : Info → ℕ → Info
ht_set_tail info rel_end =
    if ltb info.ht_tail rel_end then record info { ht_tail = rel_end } else info

-- `notify_circular_load_ready`
unfoldable pub notify_circular_load_ready : Info → ℕ → ℕ → Option Info
notify_circular_load_ready info logical len =
    if not info.ht_producer_done
    then ht_advance_head info logical (add_size logical len)
    else some info

-- `notify_circular_output_produced`: the larger of HT_NOTIFY_GRAIN and SLM_PAGE_SIZE is 16 KiB.
unfoldable pub notify_circular_output_produced : Info → ℕ → Info
notify_circular_output_produced info logical_write_end =
    if not info.ht_producer_done && ltb info.ht_head (logical_write_end / 16384 * 16384)
    then record info { ht_head = logical_write_end / 16384 * 16384 }
    else info
