-- ===== src/Csd/Lists/Moves.antt =====
-- What the list operations do to the sequences that the lists stand for: a segment is put behind a
-- list, or taken out of one.
use flax.Base.{ℕ, ◌≡◌, sym, Option, none, some, List, [], ◌∷◌, ◌++◌, length}
use flax.Csd.Lists.{TaskList, Links, set_next, set_prev, cut_off}
use flax.Csd.Lists.Segments.{
  Fresh, Distinct, first, last, last_of, last-last_of, Segment, Segment-append, set_next-Segment,
  set_prev-Segment, set_prev-first, set_next-last,
}

-- No index of the one list is in the other.
abbrev pub Apart : List ℕ → List ℕ → Type 0
Apart [] ys = Unit
Apart (x ∷ xs) ys = Fresh x ys × Apart xs ys

pub Apart-first : (xs : List ℕ) (y : ℕ) (ys : List ℕ) → Apart xs (y ∷ ys) → Fresh y xs
Apart-first [] y ys a = tt
Apart-first (x ∷ xs) y ys a = ((λ e. a.0.0 (sym e)), Apart-first xs y ys a.1)

pub no_one : (xs : List ℕ) → Apart xs []
no_one [] = tt
no_one (x ∷ xs) = (tt, no_one xs)

Apart-rest : (xs : List ℕ) (y : ℕ) (ys : List ℕ) → Apart xs (y ∷ ys) → Apart xs ys
Apart-rest [] y ys a = tt
Apart-rest (x ∷ xs) y ys a = (a.0.1, Apart-rest xs y ys a.1)

pub Apart-last_of :
    (xs : List ℕ) (y : ℕ) (ys : List ℕ) → Apart xs (y ∷ ys) → Fresh (last_of y ys) xs
Apart-last_of xs y [] a = Apart-first xs y [] a
Apart-last_of xs y (z ∷ zs) a = Apart-last_of xs z zs (Apart-rest xs y (z ∷ zs) a)

pub last_of-Apart : (x : ℕ) (xs ys : List ℕ) → Apart (x ∷ xs) ys → Fresh (last_of x xs) ys
last_of-Apart x [] ys a = a.0
last_of-Apart x (z ∷ zs) ys a = last_of-Apart z zs ys a.1

Fresh-split : (i : ℕ) (xs ys : List ℕ) → Fresh i (xs ++ ys) → Fresh i xs × Fresh i ys
Fresh-split i [] ys f = (tt, f)
Fresh-split i (x ∷ xs) ys f = let r = Fresh-split i xs ys f.1 in ((f.0, r.0), r.1)

pub Distinct-split :
    (xs ys : List ℕ) → Distinct (xs ++ ys) → Distinct xs × Distinct ys × Apart xs ys
Distinct-split [] ys d = (tt, d, tt)
Distinct-split (x ∷ xs) ys d =
    let f = Fresh-split x xs ys d.0 in
    let r = Distinct-split xs ys d.1 in ((f.0, r.0), r.1, (f.1, r.2))

pub Apart-sym : (xs ys : List ℕ) → Apart xs ys → Apart ys xs
Apart-sym xs [] a = tt
Apart-sym xs (y ∷ ys) a = (Apart-first xs y ys a, Apart-sym xs ys (Apart-rest xs y ys a))

pub Apart-split : (xs ys zs : List ℕ) → Apart xs (ys ++ zs) → Apart xs ys × Apart xs zs
Apart-split [] ys zs a = (tt, tt)
Apart-split (x ∷ xs) ys zs a =
    let f = Fresh-split x ys zs a.0 in let r = Apart-split xs ys zs a.1 in ((f.0, r.0), (f.1, r.1))

Fresh-join : (i : ℕ) (xs ys : List ℕ) → Fresh i xs → Fresh i ys → Fresh i (xs ++ ys)
Fresh-join i [] ys f g = g
Fresh-join i (x ∷ xs) ys f g = (f.0, Fresh-join i xs ys f.1 g)

pub Apart-join : (xs ys zs : List ℕ) → Apart xs ys → Apart xs zs → Apart xs (ys ++ zs)
Apart-join [] ys zs a b = tt
Apart-join (x ∷ xs) ys zs a b = (Fresh-join x ys zs a.0 b.0, Apart-join xs ys zs a.1 b.1)

pub Distinct-join : (xs ys : List ℕ) → Distinct xs → Distinct ys → Apart xs ys → Distinct (xs ++ ys)
Distinct-join [] ys d e a = e
Distinct-join (x ∷ xs) ys d e a = (Fresh-join x xs ys d.0 a.0, Distinct-join xs ys d.1 e a.1)

-- Three lists in one that holds no index twice.
pub Distinct-three :
    (xs ys zs : List ℕ)
    → Distinct (xs ++ (ys ++ zs))
    → Distinct xs × Distinct ys × Distinct zs × Apart xs ys × Apart xs zs × Apart ys zs
Distinct-three xs ys zs d =
    let r = Distinct-split xs (ys ++ zs) d in
    let t = Distinct-split ys zs r.1 in
    let a = Apart-split xs ys zs r.2 in (r.0, t.0, t.1, a.0, a.1, t.2)

pub last-append :
    (xs : List ℕ) (y : ℕ) (ys : List ℕ) (p : Option ℕ) → last (xs ++ y ∷ ys) p ≡ some (last_of y ys)
last-append [] y ys p = last-last_of y ys p
last-append (x ∷ xs) y ys p = last-append xs y ys (some x)

-- The list stands for the sequence.
pub record IsList (list : TaskList) (k : Links) (xs : List ℕ) : Type 0 where
  pub at_head : list.head ≡ first xs none
  pub at_tail : list.tail ≡ last xs none
  pub counted : list.running ≡ length xs
  pub linked : Segment k none xs none
  pub once : Distinct xs

pub IsList-links :
    (list : TaskList) (k k' : Links) (xs : List ℕ)
    → IsList list k xs
    → Segment k' none xs none
    → IsList list k' xs
IsList-links list k k' xs l s = record {
  at_head = l.at_head;
  at_tail = l.at_tail;
  counted = l.counted;
  linked = s;
  once = l.once;
}

-- Cutting a segment off, seen from inside and from outside.
pub cut_off-Segment :
    (k : Links) (p q : Option ℕ) (y : ℕ) (ys : List ℕ)
    → Distinct (y ∷ ys)
    → Segment k p (y ∷ ys) q
    → Segment (cut_off k y (last_of y ys)) none (y ∷ ys) none
cut_off-Segment k p q y ys d s =
    set_next-last (set_prev k y none) none y ys q none d (set_prev-first k p none y ys q d.0 s)

pub cut_off-other :
    (k : Links) (p q : Option ℕ) (xs : List ℕ) (i j : ℕ)
    → Fresh i xs
    → Fresh j xs
    → Segment k p xs q
    → Segment (cut_off k i j) p xs q
cut_off-other k p q xs i j f g s =
    set_next-Segment (set_prev k i none) j none p xs q g (set_prev-Segment k i none p xs q f s)

-- The links after a segment is put behind a list that is not empty.
abbrev pub joined : Links → ℕ → ℕ → ℕ → Links
joined k start end t = set_next (set_prev (cut_off k start end) start (some t)) t (some start)

pub joined-Segment :
    (k : Links) (p q : Option ℕ) (x : ℕ) (xs : List ℕ) (y : ℕ) (ys : List ℕ)
    → Distinct (x ∷ xs)
    → Distinct (y ∷ ys)
    → Apart (x ∷ xs) (y ∷ ys)
    → Segment k none (x ∷ xs) none
    → Segment k p (y ∷ ys) q
    → Segment (joined k y (last_of y ys) (last_of x xs)) none ((x ∷ xs) ++ y ∷ ys) none
joined-Segment k p q x xs y ys d e a s t =
    let end = last_of y ys in
    let z = last_of x xs in
    let k1 = cut_off k y end in
    let f = Apart-first (x ∷ xs) y ys a in
    let s1 = cut_off-other k none none (x ∷ xs) y end f (Apart-last_of (x ∷ xs) y ys a) s in
    let s2 = set_prev-Segment k1 y (some z) none (x ∷ xs) none f s1 in
    let t1 = cut_off-Segment k p q y ys e t in
    let t2 = set_prev-first k1 none (some z) y ys none e.0 t1 in
    let k2 = set_prev k1 y (some z) in
    Segment-append (joined k y end z) none (x ∷ xs) (y ∷ ys) none
      (set_next-last k2 none x xs none (some y) d s2)
      (rw (last-last_of x xs none)
        (set_next-Segment k2 z (some y) (some z) (y ∷ ys) none (last_of-Apart x xs (y ∷ ys) a) t2))
