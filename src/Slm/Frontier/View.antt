-- ===== src/Slm/Frontier/View.antt =====
-- The frontier is exact: `ht_head` is the first byte that no completed range has covered, in
-- whatever order the ranges arrive.
use flax.Base.{
  ℕ, zero, suc, ◌≤◌, ◌<◌, ◌≡◌, refl, Bool, true, false, ◌||◌, none, some, List, length, ltb, leb,
  arith, if◌then◌else◌, ◌∙◌, Bool-cases, Option-cases, inl, inr, leb→le,
}
use flax.Slm.Region.{Interval, Info}
use flax.Slm.Frontier.{stash, take_first, absorb, settle, ht_advance_head}
use flax.Slm.Frontier.Pending.{
  inside, covered, Beyond, covered-Beyond, covered-stash, Taken, take_first-Taken,
  take_first-Beyond,
}

-- The bytes that a frontier and its stashed ranges account for.
abbrev pub produced : ℕ → List Interval → ℕ → Bool
produced head ps b = ltb b head || covered ps b

-- Taking an entry out moves the frontier over it and accounts for the same bytes.
produced-Taken :
    (head b : ℕ) (ps qs : List Interval) (p : Interval)
    → Taken head ps p qs
    → produced (if ltb head p.end then p.end else head) qs b ≡ produced head ps b
produced-Taken head b ps qs p t = ground (arith, t.same b)

absorb_zero : (head : ℕ) (ps : List Interval) → absorb 0 head ps ≡ (head, ps)
unfolding absorb
absorb_zero head ps = refl

absorb_stop :
    (fuel head : ℕ) (ps : List Interval)
    → take_first head ps ≡ none
    → absorb (suc fuel) head ps ≡ (head, ps)
unfolding absorb
absorb_stop fuel head ps e = rw (e, absorb)

absorb_go :
    (fuel head : ℕ) (ps qs : List Interval) (p : Interval)
    → take_first head ps ≡ some (p, qs)
    → absorb (suc fuel) head ps ≡ absorb fuel (if ltb head p.end then p.end else head) qs
unfolding absorb
absorb_go fuel head ps qs p e = rw (e, absorb)

produced-absorb :
    (fuel head b : ℕ) (ps : List Interval)
    → let (head', qs) = absorb fuel head ps in produced head' qs b ≡ produced head ps b
produced-absorb zero head b ps = rw (absorb_zero head ps) refl
produced-absorb (suc fuel) head b ps = elim (Option-cases (take_first head ps)) [
  | inl nothing ↦ rw (absorb_stop fuel head ps nothing) refl
  | inr ((p, qs), found) ↦ rw (absorb_go fuel head ps qs p found) (
      produced-absorb fuel (if ltb head p.end then p.end else head) b qs
      ∙ produced-Taken head b ps qs p (take_first-Taken head ps found))
]

-- What the loop leaves, with fuel above the number of entries: it ends by its own test.
pub record Absorbed (head : ℕ) (ps : List Interval) (out : ℕ × List Interval) : Type 0 where
  pub beyond : Beyond out.0 out.1
  pub onward : head ≤ out.0
  pub fewer : length out.1 ≤ length ps

absorb-Absorbed :
    (fuel head : ℕ) (ps : List Interval) → length ps < fuel → Absorbed head ps (absorb fuel head ps)
absorb-Absorbed zero head ps h = absurd (omega arith)
absorb-Absorbed (suc fuel) head ps h = elim (Option-cases (take_first head ps)) [
  | inl nothing ↦ rw (absorb_stop fuel head ps nothing) (record {
    beyond = take_first-Beyond head ps nothing;
    onward = omega arith;
    fewer = omega arith;
  })
  | inr ((p, qs), found) ↦
      let t = take_first-Taken head ps {p = p} {qs = qs} found in
      let next : ℕ = if ltb head p.end then p.end else head in
      let ih = absorb-Absorbed fuel next qs (omega (arith, t.shorter)) in
      rw (absorb_go fuel head ps qs p found) (record {
        beyond = ih.beyond;
        onward = ground (arith, ih.onward);
        fewer = omega (arith, ih.fewer, t.shorter);
      })
]

-- Between calls no stashed range touches the frontier.
abbrev pub Settled : Info → Type 0
Settled info = Beyond info.ht_head info.ht_pending

abbrev pub info_produced : Info → ℕ → Bool
info_produced info = produced info.ht_head info.ht_pending

produced-settle :
    (info : Info) (head b : ℕ) (ps : List Interval)
    → info_produced (settle info head ps) b ≡ produced head ps b
unfolding settle
produced-settle info head b ps = produced-absorb (suc (length ps)) head b ps

pub settle-Absorbed :
    (info : Info) (head : ℕ) (ps : List Interval)
    → let info' = settle info head ps in Absorbed head ps (info'.ht_head, info'.ht_pending)
unfolding settle
settle-Absorbed info head ps = absorb-Absorbed (suc (length ps)) head ps (omega arith)

-- The ways in which `ht_advance_head` returns.
pub data Advanced (info : Info) (start end : ℕ) (info' : Info) : Type 0 where
  skipped : end ≤ start → info' ≡ info → Advanced info start end info'
  extended :
      start ≤ info.ht_head
      → info' ≡ settle info (if ltb info.ht_head end then end else info.ht_head) info.ht_pending
      → Advanced info start end info'
  stashed :
      (qs : List Interval)
      → info.ht_head < start
      → stash start end info.ht_pending ≡ some qs
      → info' ≡ settle info info.ht_head qs
      → Advanced info start end info'

pub ht_advance_head-Advanced :
    (info : Info) (start end : ℕ) {info' : Info}
    → ht_advance_head info start end ≡ some info'
    → Advanced info start end info'
unfolding ht_advance_head
ht_advance_head-Advanced info start end e = elim (Bool-cases (leb end start)) [
  | inl empty ↦ skipped (leb→le _ _ empty) (ground arith)
  | inr fine ↦ elim (Bool-cases (leb start info.ht_head)) [
    | inl near ↦ extended (leb→le _ _ near) (ground arith)
    | inr far ↦ elim (Option-cases (stash start end info.ht_pending)) [
      | inl full ↦ absurd (ground arith)
      | inr (qs, found) ↦ stashed qs (ground arith) found (ground arith)
    ]
  ]
]

-- `ht_advance_head` adds exactly the bytes of the completed range to those that are accounted for.
pub produced-ht_advance_head :
    (info : Info) (start end b : ℕ) {info' : Info}
    → ht_advance_head info start end ≡ some info'
    → info_produced info' b ≡ (info_produced info b || inside start end b)
produced-ht_advance_head info start end b {info'} e = go (ht_advance_head-Advanced info start end e)
  where
    go :
        Advanced info start end info'
        → info_produced info' b ≡ (info_produced info b || inside start end b)
    go (skipped le same) = rw same (ground arith)
    go (extended le same) = rw same (produced-settle info _ b info.ht_pending ∙ ground arith)
    go (stashed qs lt found same) = rw same (
        produced-settle info info.ht_head b qs
        ∙ ground (arith, covered-stash start end b info.ht_pending found))

-- `ht_advance_head` never moves the frontier back, and leaves no stashed range that touches it.
pub ht_advance_head-Settled :
    (info : Info) (start end : ℕ) {info' : Info}
    → Settled info
    → ht_advance_head info start end ≡ some info'
    → Settled info' × (info.ht_head ≤ info'.ht_head)
ht_advance_head-Settled info start end {info'} s e = go (ht_advance_head-Advanced info start end e)
  where
    go : Advanced info start end info' → Settled info' × (info.ht_head ≤ info'.ht_head)
    go (skipped le same) = rw same (s, omega arith)
    go (extended le same) =
        let a =
          settle-Absorbed info (if ltb info.ht_head end then end else info.ht_head)
            info.ht_pending in
        rw same (a.beyond, ground (arith, a.onward))
    go (stashed qs lt found same) =
        let a = settle-Absorbed info info.ht_head qs in rw same (a.beyond, a.onward)

-- A settled frontier is exact: all bytes below `ht_head` are accounted for, and that one is not.
pub Settled-exact :
    (info : Info)
    → Settled info
    → ((b : ℕ) → b < info.ht_head → info_produced info b ≡ true)
      × (info_produced info info.ht_head ≡ false)
Settled-exact info s =
    (λ b h. ground arith, ground (arith, covered-Beyond info.ht_head info.ht_pending s))
