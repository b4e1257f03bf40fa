-- ===== src/Csd/Lists/Segments.antt =====
-- Segments of a doubly linked list, and what a write of one link does to them.
use flax.Base.{
  ℕ, ◌≡◌, ◌≢◌, refl, sym, ◌∙◌, Option, some, List, [], ◌∷◌, ◌++◌, ◌==◌, arith, false, true,
}
use flax.Slm.Store.{update}
use flax.Csd.Lists.{Links, set_next, set_prev}

-- The index is not in the list.
abbrev pub Fresh : ℕ → List ℕ → Type 0
Fresh i [] = Unit
Fresh i (x ∷ xs) = (i ≢ x) × Fresh i xs

abbrev pub Distinct : List ℕ → Type 0
Distinct [] = Unit
Distinct (x ∷ xs) = Fresh x xs × Distinct xs

-- The first index of a list, or what comes behind it, and the last, or what comes before it.
abbrev pub first : List ℕ → Option ℕ → Option ℕ
first [] q = q
first (x ∷ xs) q = some x

abbrev pub last : List ℕ → Option ℕ → Option ℕ
last [] p = p
last (x ∷ xs) p = last xs (some x)

abbrev pub last_of : ℕ → List ℕ → ℕ
last_of x [] = x
last_of x (y ∷ ys) = last_of y ys

pub last-last_of : (x : ℕ) (xs : List ℕ) (p : Option ℕ) → last (x ∷ xs) p ≡ some (last_of x xs)
last-last_of x [] p = refl
last-last_of x (y ∷ ys) p = last-last_of y ys p

-- The indices are linked in order, between `p` and `q`.
abbrev pub Segment : Links → Option ℕ → List ℕ → Option ℕ → Type 0
Segment k p [] q = Unit
Segment k p (x ∷ xs) q = (k.prev x ≡ p) × (k.next x ≡ first xs q) × Segment k (some x) xs q

pub Segment-append :
    (k : Links) (p : Option ℕ) (xs ys : List ℕ) (q : Option ℕ)
    → Segment k p xs (first ys q)
    → Segment k (last xs p) ys q
    → Segment k p (xs ++ ys) q
Segment-append k p [] ys q s t = t
Segment-append k p (x ∷ []) ys q s t = (s.0, s.1, t)
Segment-append k p (x ∷ y ∷ zs) ys q s t = (s.0, s.1, Segment-append k (some x) (y ∷ zs) ys q s.2 t)

pub Segment-split :
    (k : Links) (p : Option ℕ) (xs ys : List ℕ) (q : Option ℕ)
    → Segment k p (xs ++ ys) q
    → Segment k p xs (first ys q) × Segment k (last xs p) ys q
Segment-split k p [] ys q s = (tt, s)
Segment-split k p (x ∷ []) ys q s = ((s.0, s.1, tt), s.2)
Segment-split k p (x ∷ y ∷ zs) ys q s =
    let r = Segment-split k (some x) (y ∷ zs) ys q s.2 in ((s.0, s.1, r.0), r.1)

pub update-ne {ℓ} : {A : Type ℓ} (f : ℕ → A) (i : ℕ) (v : A) (j : ℕ) → i ≢ j → update f i v j ≡ f j
update-ne f i v j h = let e : (i == j) ≡ false = ground arith in rw e refl

pub update_self {ℓ} : {A : Type ℓ} (f : ℕ → A) (i : ℕ) (v : A) → update f i v i ≡ v
update_self f i v = let e : (i == i) ≡ true = ground arith in rw e refl

-- A write elsewhere leaves a segment as it is.
pub set_next-Segment :
    (k : Links) (i : ℕ) (v p : Option ℕ) (xs : List ℕ) (q : Option ℕ)
    → Fresh i xs
    → Segment k p xs q
    → Segment (set_next k i v) p xs q
set_next-Segment k i v p [] q f s = tt
set_next-Segment k i v p (x ∷ xs) q f s =
    (s.0, update-ne k.next i v x f.0 ∙ s.1, set_next-Segment k i v (some x) xs q f.1 s.2)

pub set_prev-Segment :
    (k : Links) (i : ℕ) (v p : Option ℕ) (xs : List ℕ) (q : Option ℕ)
    → Fresh i xs
    → Segment k p xs q
    → Segment (set_prev k i v) p xs q
set_prev-Segment k i v p [] q f s = tt
set_prev-Segment k i v p (x ∷ xs) q f s =
    (update-ne k.prev i v x f.0 ∙ s.0, s.1, set_prev-Segment k i v (some x) xs q f.1 s.2)

pub Fresh-last_of : (i x : ℕ) (xs : List ℕ) → Fresh i (x ∷ xs) → i ≢ last_of x xs
Fresh-last_of i x [] f = f.0
Fresh-last_of i x (y ∷ ys) f = Fresh-last_of i y ys f.1

-- A write at an end of a segment gives it another neighbour.
pub set_prev-first :
    (k : Links) (p p' : Option ℕ) (x : ℕ) (xs : List ℕ) (q : Option ℕ)
    → Fresh x xs
    → Segment k p (x ∷ xs) q
    → Segment (set_prev k x p') p' (x ∷ xs) q
set_prev-first k p p' x xs q f s =
    (update_self k.prev x p', s.1, set_prev-Segment k x p' (some x) xs q f s.2)

pub set_next-last :
    (k : Links) (p : Option ℕ) (x : ℕ) (xs : List ℕ) (q q' : Option ℕ)
    → Distinct (x ∷ xs)
    → Segment k p (x ∷ xs) q
    → Segment (set_next k (last_of x xs) q') p (x ∷ xs) q'
set_next-last k p x [] q q' d s = (s.0, update_self k.next x q', tt)
set_next-last k p x (y ∷ ys) q q' d s = (
  s.0,
  update-ne k.next (last_of y ys) q' x (λ e. Fresh-last_of x y ys d.0 (sym e)) ∙ s.1,
  set_next-last k (some x) y ys q q' d.1 s.2,
)
