-- ===== src/Slm/Frontier/Pending.antt =====
-- What the steps of `ht_advance_head` do to the set of bytes that have been produced.
use flax.Base.{
  ℕ, suc, ◌≤◌, ◌<◌, ◌≡◌, refl, Bool, true, false, ◌&&◌, ◌||◌, none, some, List, [], ◌∷◌, length,
  ltb, leb, arith, if◌then◌else◌, ap, ◌∙◌, Bool-cases, Option-cases, inl, inr,
}
use flax.Slm.Region.{Interval, max_pending}
use flax.Slm.Frontier.{coalesce, snoc, stash, put_second, to_front, take_first}

abbrev pub inside : ℕ → ℕ → ℕ → Bool
inside start end b = leb start b && ltb b end

-- Whether a byte lies in one of the intervals.
abbrev pub covered : List Interval → ℕ → Bool
covered [] b = false
covered (p ∷ ps) b = inside p.start p.end b || covered ps b

-- Every interval starts beyond the frontier.
abbrev pub Beyond : ℕ → List Interval → Type 0
Beyond head [] = Unit
Beyond head (p ∷ ps) = (head < p.start) × Beyond head ps

pub covered-Beyond : (head : ℕ) (ps : List Interval) → Beyond head ps → covered ps head ≡ false
covered-Beyond head [] h = refl
covered-Beyond head (p ∷ ps) h = ground (arith, covered-Beyond head ps h.1)

-- Two ranges that meet make up the range that `coalesce` writes.
inside_widened :
    (s e s' e' b : ℕ)
    → leb s e' && leb s' e ≡ true
    → inside (if ltb s s' then s else s') (if ltb e' e then e else e') b
      ≡ (inside s' e' b || inside s e b)
inside_widened s e s' e' b h = ground arith

covered-coalesce :
    (start end b : ℕ) (ps : List Interval) {qs : List Interval}
    → coalesce start end ps ≡ some qs
    → covered qs b ≡ (covered ps b || inside start end b)
unfolding coalesce
covered-coalesce start end b [] e = ground arith
covered-coalesce start end b (p ∷ ps) {qs} e =
    elim (Bool-cases (leb start p.end && leb p.start end)) [
      | inl meets ↦ ground (arith, inside_widened start end p.start p.end b meets)
      | inr apart ↦ elim (Option-cases (coalesce start end ps)) [
        | inl none_left ↦ ground arith
        | inr (rs, found) ↦ ground (arith, covered-coalesce start end b ps found)
      ]
    ]

length-coalesce :
    (start end : ℕ) (ps : List Interval) {qs : List Interval}
    → coalesce start end ps ≡ some qs
    → length qs ≡ length ps
unfolding coalesce
length-coalesce start end [] e = ground arith
length-coalesce start end (p ∷ ps) e = elim (Option-cases (coalesce start end ps)) [
  | inl none_left ↦ ground arith
  | inr (rs, found) ↦ ground (arith, length-coalesce start end ps found)
]

covered-snoc :
    (b : ℕ) (ps : List Interval) (q : Interval)
    → covered (snoc ps q) b ≡ (covered ps b || inside q.start q.end b)
covered-snoc b [] q = ground arith
covered-snoc b (p ∷ ps) q = ground (arith, covered-snoc b ps q)

length-snoc : (ps : List Interval) (q : Interval) → length (snoc ps q) ≡ suc (length ps)
length-snoc [] q = refl
length-snoc (p ∷ ps) q = ap suc (length-snoc ps q)

-- Stashing adds exactly the bytes of the range.
pub covered-stash :
    (start end b : ℕ) (ps : List Interval) {qs : List Interval}
    → stash start end ps ≡ some qs
    → covered qs b ≡ (covered ps b || inside start end b)
unfolding stash
covered-stash start end b ps e = elim (Option-cases (coalesce start end ps)) [
  | inl fresh ↦ ground (arith, covered-snoc b ps (record { start = start; end = end }))
  | inr (rs, found) ↦ ground (arith, covered-coalesce start end b ps found)
]

-- With fewer than 256 entries stashing does not fail, and adds one entry at most.
pub stash-room :
    (start end : ℕ) (ps : List Interval)
    → length ps < max_pending
    → (qs : List Interval) × (stash start end ps ≡ some qs) × (length qs ≤ suc (length ps))
unfolding stash
stash-room start end ps h = elim (Option-cases (coalesce start end ps)) [
  | inl fresh ↦ (
    snoc ps (record { start = start; end = end }),
    ground arith,
    omega (arith, length-snoc ps (record { start = start; end = end })),
  )
  | inr (rs, found) ↦ (rs, ground arith, omega (arith, length-coalesce start end ps found))
]

covered-put_second :
    (b : ℕ) (x : Interval) (ps : List Interval)
    → covered (put_second x ps) b ≡ (inside x.start x.end b || covered ps b)
unfolding put_second
covered-put_second b x [] = refl
covered-put_second b x (l ∷ r) = ground arith

covered-to_front : (b : ℕ) (ps : List Interval) → covered (to_front ps) b ≡ covered ps b
unfolding to_front
covered-to_front b [] = refl
covered-to_front b (x ∷ ps) =
    ground (arith, covered-put_second b x (to_front ps), covered-to_front b ps)

length-put_second : (x : Interval) (ps : List Interval) → length (put_second x ps) ≡ suc (length ps)
unfolding put_second
length-put_second x [] = refl
length-put_second x (l ∷ r) = refl

length-to_front : (ps : List Interval) → length (to_front ps) ≡ length ps
unfolding to_front
length-to_front [] = refl
length-to_front (x ∷ ps) = length-put_second x (to_front ps) ∙ ap suc (length-to_front ps)

-- What is taken out starts at or below the frontier, and the rest is kept.
pub record Taken (head : ℕ) (ps : List Interval) (p : Interval) (qs : List Interval) : Type 0 where
  pub reached : p.start ≤ head
  pub shorter : length ps ≡ suc (length qs)
  pub same : (b : ℕ) → covered ps b ≡ (inside p.start p.end b || covered qs b)

pub take_first-Taken :
    (head : ℕ) (ps : List Interval) {p : Interval} {qs : List Interval}
    → take_first head ps ≡ some (p, qs)
    → Taken head ps p qs
unfolding take_first
take_first-Taken head [] e = ground arith
take_first-Taken head (x ∷ ps) e = elim (Bool-cases (leb x.start head)) [
  | inl low ↦ record {
    reached = ground arith;
    shorter = ground (arith, length-to_front ps);
    same = λ b. ground (arith, covered-to_front b ps);
  }
  | inr high ↦ elim (Option-cases (take_first head ps)) [
    | inl nothing ↦ ground arith
    | inr (t, found) ↦
        let ih = take_first-Taken head ps {p = t.0} {qs = t.1} found in
        record {
          reached = ground (arith, ih);
          shorter = ground (arith, ih);
          same = λ b. ground (arith, ih.same b);
        }
  ]
]

pub take_first-Beyond : (head : ℕ) (ps : List Interval) → take_first head ps ≡ none → Beyond head ps
unfolding take_first
take_first-Beyond head [] e = tt
take_first-Beyond head (x ∷ ps) e = elim (Option-cases (take_first head ps)) [
  | inl nothing ↦ (ground arith, take_first-Beyond head ps nothing)
  | inr (t, found) ↦ ground arith
]
