-- ===== src/Csd/Lists/Family.antt =====
-- The lists of the task table as a family: each stands for a sequence, no index is in two of them,
-- and none is lost. A segment that has been taken out of one and not yet put into another is held.
pub mod Take
pub mod Put
use flax.Base.{
  ℕ, zero, suc, ◌+◌, ◌≤◌, ◌<◌, ◌≡◌, ◌≢◌, refl, sym, ap, ◌∙◌, none, List, [], ◌∷◌, ◌==◌, arith,
  length, Bool-cases, inl, inr,
}
use flax.Slm.Store.{update}
use flax.Csd.Lists.{TaskList, Links}
use flax.Csd.Lists.Segments.{Segment, Distinct, update_self, update-ne}
use flax.Csd.Lists.Moves.{Apart, Apart-sym, IsList}

abbrev pub sum_of : ℕ → (ℕ → ℕ) → ℕ
sum_of zero f = 0
sum_of (suc n) f = f n + sum_of n f

pub record Family (m : ℕ) (lists : ℕ → TaskList) (k : Links) (L : ℕ → List ℕ) (held : List ℕ)
    (total : ℕ) : Type 0 where
  pub each : (j : ℕ) → j < m → IsList (lists j) k (L j)
  pub apart : (i j : ℕ) → i < m → j < m → i ≢ j → Apart (L i) (L j)
  pub out : Segment k none held none
  pub out-once : Distinct held
  pub out-apart : (j : ℕ) → j < m → Apart (L j) held
  pub all : sum_of m (λ j. length (L j)) + length held ≡ total
  pub few : total < 4294967296

-- What holds of the new value, and of the old ones elsewhere, holds after a write.
pub update_elim {ℓ κ} :
    {A : Type ℓ} (P : A → Type κ) (f : ℕ → A) (i : ℕ) (v : A) (j : ℕ)
    → (i ≡ j → P v)
    → (i ≢ j → P (f j))
    → P (update f i v j)
update_elim P f i v j here there = elim (Bool-cases (i == j)) [
  | inl e ↦ rw e (here (ground arith))
  | inr e ↦ rw e (there (ground arith))
]

pub update_both {ℓ κ μ} :
    {A : Type ℓ} {B : Type κ} (P : A → B → Type μ) (f : ℕ → A) (g : ℕ → B) (i : ℕ) (u : A) (v : B)
    (j : ℕ)
    → (i ≡ j → P u v)
    → (i ≢ j → P (f j) (g j))
    → P (update f i u j) (update g i v j)
update_both P f g i u v j here there = elim (Bool-cases (i == j)) [
  | inl e ↦ rw e (here (ground arith))
  | inr e ↦ rw e (there (ground arith))
]

-- A sequence that shares nothing with the others keeps the family apart.
pub Apart-update :
    (m : ℕ) (L : ℕ → List ℕ) (a : ℕ) (v : List ℕ)
    → ((i j : ℕ) → i < m → j < m → i ≢ j → Apart (L i) (L j))
    → ((j : ℕ) → j < m → a ≢ j → Apart (L j) v)
    → (i j : ℕ) → i < m
    → j < m
    → i ≢ j
    → Apart (update L a v i) (update L a v j)
Apart-update m L a v old new i j b c n =
    update_elim (λ x. Apart x (update L a v j)) L a v i
      (λ p.
        update_elim (λ x. Apart v x) L a v j (λ q. absurd (n (sym p ∙ q)))
          (λ q. Apart-sym (L j) v (new j c q)))
      (λ p. update_elim (λ x. Apart (L i) x) L a v j (λ q. new i b p) (λ q. old i j b c n))

sum-le : (n : ℕ) (f g : ℕ → ℕ) → ((j : ℕ) → j < n → f j ≡ g j) → sum_of n f ≡ sum_of n g
sum-le zero f g h = refl
sum-le (suc n) f g h = omega (arith, h n (omega arith), sum-le n f g (λ j b. h j (omega arith)))

pub sum-update :
    (n : ℕ) (L : ℕ → List ℕ) (a : ℕ) (v : List ℕ)
    → a < n
    → sum_of n (λ j. length (update L a v j)) + length (L a)
      ≡ sum_of n (λ j. length (L j)) + length v
sum-update zero L a v h = absurd (omega (arith, h))
sum-update (suc n) L a v h = elim (Bool-cases (a == n)) [
  | inl e ↦
      let e' : n ≡ a = ground arith in
      let r =
        sum-le n (λ j. length (update L a v j)) (λ j. length (L j))
          (λ j b. ap length (update-ne L a v j (ground arith))) in
      let p : length (update L a v n) ≡ length v = ap length (rw e' (update_self L a v)) in
      let q : length (L n) ≡ length (L a) = ap (λ j. length (L j)) e' in omega (arith, r, p, q)
  | inr e ↦
      let r = sum-update n L a v (ground arith) in
      let s = ap length (update-ne L a v n (ground arith)) in omega (arith, r, s)
]

pub length-le-sum : (n : ℕ) (f : ℕ → ℕ) (a : ℕ) → a < n → f a ≤ sum_of n f
length-le-sum zero f a h = absurd (omega (arith, h))
length-le-sum (suc n) f a h = elim (Bool-cases (a == n)) [
  | inl e ↦ let e' : a ≡ n = ground arith in let p = ap f e' in omega (arith, p)
  | inr e ↦ omega (arith, length-le-sum n f a (ground arith))
]
