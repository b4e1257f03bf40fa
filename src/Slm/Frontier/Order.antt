-- ===== src/Slm/Frontier/Order.antt =====
-- Whole runs of completions: the frontier depends on which bytes were completed, not on the order
-- in which the completions came in.
use flax.Base.{
  ℕ, suc, ◌+◌, ◌≤◌, ◌<◌, ◌≡◌, refl, Bool, true, false, ◌||◌, Option, none, some, List, [], ◌∷◌,
  length, ltb, leb, arith, ◌∙◌, Bool-cases, Option-cases, inl, inr, sym, ap, if◌then◌else◌,
}
use mathlib.Core.Path.{subst}
use native.Mathlib.Decide.{dec_lt}
use flax.Slm.Region.{Interval, Info, max_pending}
use flax.Slm.Frontier.{settle, ht_advance_head}
use flax.Slm.Frontier.Pending.{inside, covered, stash-room}
use flax.Slm.Frontier.View.{
  Settled, info_produced, produced-ht_advance_head, ht_advance_head-Settled, Settled-exact,
  settle-Absorbed,
}

-- The producer's completions, in the order of their arrival.
unfoldable pub advance_all : Info → List Interval → Option Info
advance_all info [] = some info
advance_all info (p ∷ ps) = elim (ht_advance_head info p.start p.end) [
  | none ↦ none
  | some info' ↦ advance_all info' ps
]

advance_all_nil : (info : Info) → advance_all info [] ≡ some info
unfolding advance_all
advance_all_nil info = refl

advance_all_step :
    (info info' : Info) (p : Interval) (ps : List Interval)
    → ht_advance_head info p.start p.end ≡ some info'
    → advance_all info (p ∷ ps) ≡ advance_all info' ps
unfolding advance_all
advance_all_step info info' p ps e = rw (e, advance_all)

advance_all_fault :
    (info : Info) (p : Interval) (ps : List Interval)
    → ht_advance_head info p.start p.end ≡ none
    → advance_all info (p ∷ ps) ≡ none
unfolding advance_all
advance_all_fault info p ps e = rw (e, advance_all)

or_assoc : (a b c : Bool) → ((a || b) || c) ≡ (a || (b || c))
or_assoc a b c = ground arith

advance_all_view :
    (info : Info) (ps : List Interval) {info' : Info}
    → Settled info
    → advance_all info ps ≡ some info'
    → Settled info' × ((b : ℕ) → info_produced info' b ≡ (info_produced info b || covered ps b))
advance_all_view info [] {info'} s e =
    subst (λ i. Settled i × ((b : ℕ) → info_produced i b ≡ (info_produced info b || false))) same
      (s, λ b. ground arith)
  where
    same : info ≡ info'
    same = cc (advance_all_nil info, e)
advance_all_view info (p ∷ ps) {info'} s e =
    elim (Option-cases (ht_advance_head info p.start p.end)) [
      | inl fault ↦ absurd (ground (arith, advance_all_fault info p ps fault))
      | inr (mid, ok) ↦
          let (s', up) = ht_advance_head-Settled info p.start p.end {info' = mid} s ok in
          let ih =
            advance_all_view mid ps {info' = info'} s'
              (sym (advance_all_step info mid p ps ok) ∙ e) in
          (
            ih.0,
            λ b.
                ih.1 b
                ∙ (ap (λ v. v || covered ps b) (produced-ht_advance_head info p.start p.end b ok)
                    ∙ or_assoc (info_produced info b) (inside p.start p.end b) (covered ps b)),
          )
    ]

-- A region of which nothing has been produced yet.
pub record IsFresh (info : Info) : Type 0 where
  pub head_zero : info.ht_head ≡ 0
  pub none_pending : info.ht_pending ≡ []

IsFresh-Settled : (info : Info) → IsFresh info → Settled info
IsFresh-Settled info f = rw f.none_pending tt

-- After any run of completions from a fresh region that returns, `ht_head` is the first byte that
-- none of them covers.
pub frontier_exact :
    (info : Info) (ps : List Interval) {info' : Info}
    → IsFresh info
    → advance_all info ps ≡ some info'
    → ((b : ℕ) → b < info'.ht_head → covered ps b ≡ true) × (covered ps info'.ht_head ≡ false)
frontier_exact info ps {info'} f e =
    let (settled, view) = advance_all_view info ps {info' = info'} (IsFresh-Settled info f) e in
    let (below, at) = Settled-exact info' settled in
    (
      λ b h. sym (fresh_view b) ∙ (sym (view b) ∙ below b h),
      sym (fresh_view info'.ht_head) ∙ (sym (view info'.ht_head) ∙ at),
    )
  where
    fresh_view : (b : ℕ) → (info_produced info b || covered ps b) ≡ covered ps b
    fresh_view b = rw (f.head_zero, f.none_pending) (ground arith)

-- Two runs from a fresh region that return and complete the same bytes, in any order and in any
-- pieces, end at the same frontier.
pub frontier_order :
    (info : Info) (ps qs : List Interval) {after_ps after_qs : Info}
    → IsFresh info
    → ((b : ℕ) → covered ps b ≡ covered qs b)
    → advance_all info ps ≡ some after_ps
    → advance_all info qs ≡ some after_qs
    → after_ps.ht_head ≡ after_qs.ht_head
frontier_order info ps qs {after_ps} {after_qs} f same e e' =
    meet after_ps.ht_head after_qs.ht_head (frontier_exact info ps f e)
      (frontier_exact info qs f e')
  where
    meet :
        (h k : ℕ)
        → ((b : ℕ) → b < h → covered ps b ≡ true) × (covered ps h ≡ false)
        → ((b : ℕ) → b < k → covered qs b ≡ true) × (covered qs k ≡ false)
        → h ≡ k
    meet h k (all_h, not_h) (all_k, not_k) = elim (dec_lt h k) [
      | yes lt ↦ cc (all_k h lt, same h, not_h)
      | no ge ↦ elim (dec_lt k h) [ yes gt ↦ cc (all_h k gt, same k, not_k) | no le ↦ omega arith ]
    ]

-- A completion adds one stashed range at most, and cannot fail while there is room for one.
advance_room :
    (info : Info) (start end : ℕ)
    → length info.ht_pending < max_pending
    → (info' : Info) × (ht_advance_head info start end ≡ some info')
      × (length info'.ht_pending ≤ suc (length info.ht_pending))
unfolding ht_advance_head
advance_room info start end h = elim (Bool-cases (leb end start)) [
  | inl empty ↦ (info, rw empty refl, omega arith)
  | inr fine ↦ elim (Bool-cases (leb start info.ht_head)) [
    | inl near ↦
        let head : ℕ = if ltb info.ht_head end then end else info.ht_head in
        (
          settle info head info.ht_pending,
          rw (fine, near) refl,
          omega (arith, (settle-Absorbed info head info.ht_pending).fewer),
        )
    | inr far ↦
        let (qs, found, len) = stash-room start end info.ht_pending h in
        (
          settle info info.ht_head qs,
          rw (fine, far, found) refl,
          omega (arith, (settle-Absorbed info info.ht_head qs).fewer, len),
        )
  ]
]

advance_all_room :
    (info : Info) (ps : List Interval)
    → length info.ht_pending + length ps ≤ max_pending
    → (info' : Info) × (advance_all info ps ≡ some info')
advance_all_room info [] h = (info, advance_all_nil info)
advance_all_room info (p ∷ ps) h =
    let (mid, ok, len) = advance_room info p.start p.end (omega arith) in
    let (out, rest) = advance_all_room mid ps (omega (arith, len)) in
    (out, advance_all_step info mid p ps ok ∙ rest)

-- Up to 256 completions of a fresh region never overflow the table of stashed ranges: the run
-- returns, and no `BUG()` is reached.
pub advance_all-room :
    (info : Info) (ps : List Interval)
    → IsFresh info
    → length ps ≤ max_pending
    → (info' : Info) × (advance_all info ps ≡ some info')
advance_all-room info ps f h =
    advance_all_room info ps (omega (arith, ap (λ (l : List Interval). length l) f.none_pending))
