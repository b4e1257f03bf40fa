-- ===== src/Csd/Ranges/Read.antt =====
-- What one read of a load reads.
use flax.Base.{
  ℕ, ◌+◌, ◌-◌, ◌*◌, ◌/◌, ◌%◌, ◌≤◌, ◌<◌, ◌≡◌, refl, sym, ap, ◌∙◌, some, none, List, [], ◌∷◌, arith,
  ltb, lt→ltb, ◌==◌, if◌then◌else◌, Bool-cases, inl, inr, ◌⊎◌, run, take, drop, add_size, ok, ◌>>=◌,
  false,
}
use flax.Slm.Region.{Info, SourceRange}
use flax.Csd.Ranges.{
  RangePlace, find_place, first_range, calculate_lba, calculate_io_size, calculate_local_offset,
  sector_up, cut,
}
use flax.Csd.Ranges.Bytes.{total, bytes, Addressed, left, find_place-Held}

-- The size of the first range, 0 where there is none.
abbrev pub opening : List SourceRange → ℕ
opening [] = 0
opening (r ∷ rs) = r.n_byte

-- At offset 0 the code takes the first range without a scan, which finds the same.
scan_zero :
    (r : SourceRange) (rs : List SourceRange)
    → 0 < r.n_byte
    → find_place 0 (r ∷ rs) 0 ≡ record { base_addr = r.saddr; local_offset = 0; range = some r }
unfolding find_place
scan_zero r rs h = rw (lt→ltb 0 r.n_byte h) refl

unfoldable pub lba_of : RangePlace → ℕ
lba_of p = add_size p.base_addr (p.local_offset / 512)

lba_first :
    (rs : List SourceRange)
    → 0 < opening rs
    → Addressed rs
    → (first_range rs >>= (λ r. ok r.saddr)) ≡ ok (lba_of (find_place 0 rs 0))
unfolding lba_of
lba_first [] h a = absurd (omega (arith, h))
lba_first (r ∷ rs) h a = rw (scan_zero r rs h) (ap ok (omega (arith, a.0)))

pub lba_at :
    (info : Info) (o : ℕ)
    → 0 < opening info.sre
    → Addressed info.sre
    → calculate_lba info o ≡ ok (lba_of (find_place 0 info.sre o))
unfolding calculate_lba lba_of
lba_at info o h a = elim (Bool-cases (o == 0)) [
  | inl z ↦
      let e : 0 ≡ o = ground arith in
      rw z (lba_first info.sre h a ∙ ap (λ k. ok (lba_of (find_place 0 info.sre k))) e)
  | inr z ↦ rw z refl
]

size_first :
    (rs : List SourceRange) (n : ℕ)
    → 0 < opening rs
    → n < 9223372036854775808
    → (first_range rs >>= (λ r. ok (if ltb n r.n_byte then n else r.n_byte)))
      ≡ ok (cut (find_place 0 rs 0) n)
size_first [] n h b = absurd (omega (arith, h))
size_first (r ∷ rs) n h b = rw (scan_zero r rs h) (ground arith)

pub io_size_at :
    (info : Info) (o size : ℕ)
    → 0 < opening info.sre
    → size < 4611686018427387904
    → calculate_io_size info o size ≡ ok (cut (find_place 0 info.sre o) (sector_up size))
unfolding calculate_io_size
io_size_at info o size h b = elim (Bool-cases (o == 0)) [
  | inl z ↦
      let e : 0 ≡ o = ground arith in
      let n = sector_up size in
      let f : n < 9223372036854775808 = ground arith in
      rw z (size_first info.sre n h f ∙ ap (λ k. ok (cut (find_place 0 info.sre k) n)) e)
  | inr z ↦ rw z refl
]

-- What one read gives: an address and a length, which is not 0 and stays inside the ranges, and the
-- bytes behind that address are the next bytes of the stream.
pub record Read (info : Info) (o size : ℕ) : Type 0 where
  pub lba : ℕ
  pub length : ℕ
  pub read-lba : calculate_lba info o ≡ ok lba
  pub read-size : calculate_io_size info o size ≡ ok length
  pub read-pos : 0 < length
  pub read-fits : o + length ≤ total info.sre
  pub read-most : (size ≤ length) ⊎ (left info.sre (o + length) < left info.sre o)
  pub read-bytes :
      (s : ℕ)
      → s ≤ length
      → take s (drop o (bytes info.sre)) ≡ run (lba * 512 + calculate_local_offset info o) s

-- A cut of a range that holds the offset.
cut_lem :
    (p : RangePlace) (r : SourceRange) (n : ℕ)
    → p.range ≡ some r
    → p.local_offset < r.n_byte
    → r.n_byte < 4611686018427387904
    → 0 < n
    → n < 9223372036854775808
    → (0 < cut p n)
      × (cut p n ≤ r.n_byte - p.local_offset)
      × ((n ≤ cut p n) ⊎ (cut p n ≡ r.n_byte - p.local_offset))
cut_lem p r n e h k b f =
    let l = p.local_offset in
    elim (Bool-cases (ltb r.n_byte (add_size l n))) [
      | inl t ↦ rw (e, t) (omega arith, omega arith, inr refl)
      | inr t ↦ rw (e, t) (b, ground arith, inl (omega arith))
    ]

address_split :
    (b s l : ℕ)
    → b ≡ s
    → s < 18014398509481984
    → l < 18014398509481984
    → add_size b (l / 512) * 512 + l % 512 ≡ s * 512 + l
address_split b s l e h k = omega (arith, e)

read_end :
    (rs : List SourceRange) (o n m d : ℕ)
    → left rs (o + d) < left rs o
    → (n ≤ m) ⊎ (m ≡ d)
    → (n ≤ m) ⊎ (left rs (o + m) < left rs o)
read_end rs o n m d h (inl k) = inl k
read_end rs o n m d h (inr e) = inr (rw e h)

sector_up-ge :
    (n : ℕ) → n < 4611686018427387904 → (n ≤ sector_up n) × (sector_up n < 9223372036854775808)
sector_up-ge n h = (ground arith, ground arith)

at_least : (a b m : ℕ) {X : Type 0} → a ≤ b → (b ≤ m) ⊎ X → (a ≤ m) ⊎ X
at_least a b m h (inl k) = inl (omega arith)
at_least a b m h (inr x) = inr x

cut-none : (p : RangePlace) (n : ℕ) → p.range ≡ none → cut p n ≡ 0
cut-none p n e = rw e refl

pub read_lem :
    (info : Info) (o size : ℕ)
    → 0 < opening info.sre
    → Addressed info.sre
    → total info.sre < 4611686018427387904
    → o < total info.sre
    → 0 < size
    → size < 4611686018427387904
    → Read info o size
unfolding lba_of calculate_local_offset
read_lem info o size h a t k p f =
    let place = find_place 0 info.sre o in
    let g = find_place-Held 0 info.sre o k in
    let n = sector_up size in
    let b = g.held-Addressed a in
    let u = sector_up-ge size f in
    let c =
      cut_lem place g.held n g.held-range g.held-inside (omega arith) (omega (arith, u.0)) u.1 in
    record {
      lba = lba_of place;
      length = cut place n;
      read-lba = lba_at info o h a;
      read-size = io_size_at info o size h f;
      read-pos = c.0;
      read-fits = omega (arith, c.1, g.held-rest);
      read-most =
          at_least size n (cut place n) u.0 (read_end info.sre o n (cut place n) _ g.held-left c.2);
      read-bytes = λ s v.
          g.held-bytes s (omega (arith, c.1))
          ∙ ap (λ x. run x s)
              (sym (
                address_split place.base_addr g.held.saddr place.local_offset g.held-base
                  (omega arith) (omega (arith, g.held-inside))));
    }

place_past :
    (base : ℕ) (rs : List SourceRange) (o : ℕ) → total rs ≤ o → (find_place base rs o).range ≡ none
unfolding find_place
place_past base [] o h = refl
place_past base (r ∷ rs) o h =
    let e : ltb o r.n_byte ≡ false = ground arith in
    rw e (place_past r.saddr rs (o - r.n_byte) (omega arith))

-- Past the end of the ranges nothing is read.
pub size_past :
    (info : Info) (o size : ℕ)
    → 0 < opening info.sre
    → total info.sre ≤ o
    → size < 4611686018427387904
    → calculate_io_size info o size ≡ ok 0
size_past info o size h k f =
    io_size_at info o size h f
    ∙ ap ok (cut-none (find_place 0 info.sre o) (sector_up size) (place_past 0 info.sre o k))
