-- ===== src/Csd/Lists/Enqueue.antt =====
-- `__enqueue_task_multi` puts a segment behind a list.
use flax.Base.{
  ℕ, ◌+◌, ◌<◌, ◌≡◌, refl, sym, ◌∙◌, Option, none, some, List, [], ◌∷◌, ◌++◌, arith, length,
  length-append, ok, u32,
}
use flax.Csd.Lists.{TaskList, Links, set_prev, cut_off, enqueue_task_multi}
use flax.Csd.Lists.Segments.{
  Distinct, first, last_of, last-last_of, Segment, set_next-Segment, set_prev-Segment,
}
use flax.Csd.Lists.Moves.{
  Apart, Apart-first, Apart-last_of, Distinct-split, last-append, IsList, cut_off-Segment,
  cut_off-other, joined, joined-Segment,
}

-- What the call returns for a list that stands for `xs`.
abbrev pub links_back : Links → List ℕ → ℕ → ℕ → Links
links_back k [] start end = cut_off k start end
links_back k (x ∷ xs) start end = joined k start end (last_of x xs)

abbrev pub list_back : TaskList → List ℕ → ℕ → ℕ → ℕ → TaskList
list_back list xs start end count = record {
  head = first xs (some start);
  tail = some end;
  running = u32 (list.running + count);
}

pub enqueue_task_multi_lem :
    (list : TaskList) (k : Links) (xs : List ℕ) (start end count : ℕ)
    → IsList list k xs
    → enqueue_task_multi list k start end count
      ≡ ok (list_back list xs start end count, links_back k xs start end)
unfolding enqueue_task_multi
enqueue_task_multi_lem list k [] start end count l = rw l.at_head refl
enqueue_task_multi_lem list k (x ∷ xs) start end count l =
    rw (l.at_head, l.at_tail ∙ last-last_of x xs none) refl

list_back-head : (xs : List ℕ) (y : ℕ) (ys : List ℕ) → first xs (some y) ≡ first (xs ++ y ∷ ys) none
list_back-head [] y ys = refl
list_back-head (x ∷ xs) y ys = refl

links_back-Segment :
    (k : Links) (xs : List ℕ) (y : ℕ) (ys : List ℕ) (p q : Option ℕ)
    → Distinct (xs ++ y ∷ ys)
    → Segment k none xs none
    → Segment k p (y ∷ ys) q
    → Segment (links_back k xs y (last_of y ys)) none (xs ++ y ∷ ys) none
links_back-Segment k [] y ys p q d s t = cut_off-Segment k p q y ys d t
links_back-Segment k (x ∷ xs) y ys p q d s t =
    let r = Distinct-split (x ∷ xs) (y ∷ ys) d in joined-Segment k p q x xs y ys r.0 r.1 r.2 s t

-- What the call returns stands for the old sequence with the segment behind it.
pub back-IsList :
    (list : TaskList) (k : Links) (xs : List ℕ) (y : ℕ) (ys : List ℕ) (p q : Option ℕ)
    → IsList list k xs
    → Segment k p (y ∷ ys) q
    → Distinct (xs ++ y ∷ ys)
    → length (xs ++ y ∷ ys) < 4294967296
    → IsList
        (list_back list xs y (last_of y ys) (length (y ∷ ys)))
        (links_back k xs y (last_of y ys))
        (xs ++ y ∷ ys)
back-IsList list k xs y ys p q l t d b = record {
  at_head = list_back-head xs y ys;
  at_tail = sym (last-append xs y ys none);
  counted = omega (arith, l.counted, b, length-append xs (y ∷ ys));
  linked = links_back-Segment k xs y ys p q d l.linked t;
  once = d;
}

-- Enqueueing a segment of new indices appends it: the list then stands for its old sequence with
-- the segment behind it. The segment is linked from its first to its last index, and the list has
-- room in its counter.
pub enqueue-IsList :
    (list : TaskList) (k : Links) (xs : List ℕ) (y : ℕ) (ys : List ℕ) (p q : Option ℕ)
    → IsList list k xs
    → Segment k p (y ∷ ys) q
    → Distinct (xs ++ y ∷ ys)
    → length (xs ++ y ∷ ys) < 4294967296
    → (after : TaskList × Links) × (enqueue_task_multi list k y (last_of y ys) (length (y ∷ ys))
        ≡ ok after)
      × IsList after.0 after.1 (xs ++ y ∷ ys)
enqueue-IsList list k xs y ys p q l t d b = (
  _,
  enqueue_task_multi_lem list k xs y (last_of y ys) (length (y ∷ ys)) l,
  back-IsList list k xs y ys p q l t d b,
)

-- A list of other indices stays as it is.
pub links_back-other :
    (k : Links) (xs : List ℕ) (y : ℕ) (ys : List ℕ) (p : Option ℕ) (os : List ℕ) (q : Option ℕ)
    → Apart os xs
    → Apart os (y ∷ ys)
    → Segment k p os q
    → Segment (links_back k xs y (last_of y ys)) p os q
links_back-other k [] y ys p os q a b s =
    cut_off-other k p q os y (last_of y ys) (Apart-first os y ys b) (Apart-last_of os y ys b) s
links_back-other k (x ∷ xs) y ys p os q a b s =
    let f = Apart-first os y ys b in
    let end = last_of y ys in
    let t = last_of x xs in
    set_next-Segment (set_prev (cut_off k y end) y (some t)) t (some y) p os q
      (Apart-last_of os x xs a)
      (set_prev-Segment (cut_off k y end) y (some t) p os q f
        (cut_off-other k p q os y end f (Apart-last_of os y ys b) s))
