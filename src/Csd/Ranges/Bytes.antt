-- ===== src/Csd/Ranges/Bytes.antt =====
-- What the source ranges stand for: the stream of the bytes that they name, one range behind the
-- other, by their addresses on the namespace.
use flax.Base.{
  ℕ, suc, ◌+◌, ◌-◌, ◌*◌, ◌≤◌, ◌<◌, ◌≡◌, refl, ap, ◌∙◌, some, List, [], ◌∷◌, ◌++◌, length, arith,
  ltb, ltb→lt, lt→ltb, false, if◌then◌else◌, Bool-cases, inl, inr, run, take, drop, take-append,
  drop-append, drop-append_past, length-run, take-run, drop-run,
}
use flax.Slm.Region.{SourceRange}
use flax.Csd.Ranges.{RangePlace, find_place}

ltb_self : (n : ℕ) → ltb n n ≡ false
ltb_self n = ground arith

ltb_ge : (a b : ℕ) → b ≤ a → ltb a b ≡ false
ltb_ge a b h = ground arith

abbrev pub total : List SourceRange → ℕ
total [] = 0
total (r ∷ rs) = r.n_byte + total rs

abbrev pub bytes : List SourceRange → List ℕ
bytes [] = []
bytes (r ∷ rs) = run (r.saddr * 512) r.n_byte ++ bytes rs

-- Ranges whose bytes have addresses below 2 ^ 63.
abbrev pub Addressed : List SourceRange → Type 0
Addressed [] = Unit
Addressed (r ∷ rs) = (r.saddr + r.n_byte < 18014398509481984) × Addressed rs

-- How many ranges are not yet passed at an offset.
unfoldable pub left : List SourceRange → ℕ → ℕ
left [] o = 0
left (r ∷ rs) o =
    let rest = left rs (o - r.n_byte) in if ltb o r.n_byte then suc (length rs) else rest

left-le-length : (rs : List SourceRange) (o : ℕ) → left rs o ≤ length rs
unfolding left
left-le-length [] o = omega arith
left-le-length (r ∷ rs) o = ground (arith, left-le-length rs (o - r.n_byte))

pub left_zero : (rs : List SourceRange) (o : ℕ) → left rs o ≤ 0 → total rs ≤ o
unfolding left
left_zero [] o h = omega arith
left_zero (r ∷ rs) o h = ground (arith, left_zero rs (o - r.n_byte))

left-end :
    (r : SourceRange) (rs : List SourceRange) (o : ℕ)
    → o < r.n_byte
    → left (r ∷ rs) (o + (r.n_byte - o)) < left (r ∷ rs) o
unfolding left
left-end r rs o h =
    let e : o + (r.n_byte - o) ≡ r.n_byte = omega arith in
    rw (e, lt→ltb o r.n_byte h, ltb_self r.n_byte)
      (omega (arith, left-le-length rs (r.n_byte - r.n_byte)))

left-past :
    (r : SourceRange) (rs : List SourceRange) (o n : ℕ)
    → r.n_byte ≤ o
    → left rs (o - r.n_byte + n) < left rs (o - r.n_byte)
    → left (r ∷ rs) (o + n) < left (r ∷ rs) o
unfolding left
left-past r rs o n h k =
    let e : o + n - r.n_byte ≡ o - r.n_byte + n = omega arith in
    rw (ltb_ge (o + n) r.n_byte (omega arith), ltb_ge o r.n_byte h, e) k

-- The range that a scan stops in.
pub record Held (p : RangePlace) (rs : List SourceRange) (o : ℕ) : Type 0 where
  pub held : SourceRange
  pub held-range : p.range ≡ some held
  pub held-base : p.base_addr ≡ held.saddr
  pub held-inside : p.local_offset < held.n_byte
  pub held-rest : o + (held.n_byte - p.local_offset) ≤ total rs
  pub held-Addressed : Addressed rs → held.saddr + held.n_byte < 18014398509481984
  pub held-left : left rs (o + (held.n_byte - p.local_offset)) < left rs o
  pub held-bytes :
      (s : ℕ)
      → s ≤ held.n_byte - p.local_offset
      → take s (drop o (bytes rs)) ≡ run (held.saddr * 512 + p.local_offset) s

here-bytes :
    (r : SourceRange) (rs : List SourceRange) (o s : ℕ)
    → o < r.n_byte
    → s ≤ r.n_byte - o
    → take s (drop o (bytes (r ∷ rs))) ≡ run (r.saddr * 512 + o) s
here-bytes r rs o s h k =
    let a = r.saddr * 512 in
    let n = r.n_byte in
    ap (take s) (drop-append o (run a n) (bytes rs) (rw (length-run a n) (omega arith)))
    ∙ ap (λ l. take s (l ++ bytes rs)) (drop-run o a n (omega arith))
    ∙ take-append s (run (a + o) (n - o)) (bytes rs) (rw (length-run (a + o) (n - o)) k)
    ∙ take-run s (a + o) (n - o) k

past-bytes :
    (r : SourceRange) (rs : List SourceRange) (o : ℕ)
    → r.n_byte ≤ o
    → drop o (bytes (r ∷ rs)) ≡ drop (o - r.n_byte) (bytes rs)
past-bytes r rs o h =
    let xs = run (r.saddr * 512) r.n_byte in
    let e : o ≡ length xs + (o - r.n_byte) =
      rw (length-run (r.saddr * 512) r.n_byte) (omega arith) in
    ap (λ k. drop k (xs ++ bytes rs)) e ∙ drop-append_past (o - r.n_byte) xs (bytes rs)

-- A scan from an offset in the stream ends in the range that holds it.
pub find_place-Held :
    (base : ℕ) (rs : List SourceRange) (o : ℕ) → o < total rs → Held (find_place base rs o) rs o
unfolding find_place
find_place-Held base [] o h = absurd (omega (arith, h))
find_place-Held base (r ∷ rs) o h = elim (Bool-cases (ltb o r.n_byte)) [
  | inl t ↦ rw t (record {
    held = r;
    held-range = refl;
    held-base = refl;
    held-inside = ground arith;
    held-rest = ground arith;
    held-Addressed = λ a. a.0;
    held-left = left-end r rs o (ltb→lt o r.n_byte t);
    held-bytes = λ s k. here-bytes r rs o s (ltb→lt o r.n_byte t) k;
  })
  | inr t ↦
      let g = find_place-Held r.saddr rs (o - r.n_byte) (ground arith) in
      rw t (record {
        held = g.held;
        held-range = g.held-range;
        held-base = g.held-base;
        held-inside = g.held-inside;
        held-rest = ground (arith, g.held-rest);
        held-Addressed = λ a. g.held-Addressed a.1;
        held-left = left-past r rs o _ (ground arith) g.held-left;
        held-bytes = λ s k. ap (take s) (past-bytes r rs o (ground arith)) ∙ g.held-bytes s k;
      })
]
