-- ===== src/Ftl/ListQueue.antt =====
-- A queue of victim lines that meets what conv_ftl.c relies on.
use flax.Base.{
  ℕ, ◌≡◌, ◌⊎◌, sym, Bool, true, false, Option, none, some, List, [], ◌∷◌, leb, if◌then◌else◌, arith,
  inl, inr,
}
use mathlib.Core.Option.{some-injective}
use flax.Ftl.State.{PQueue, update}
use flax.Ftl.Victims.{QueueLaws}

-- A queue: the lines in the order of their priorities.
abbrev pub insert_line : (ℕ → ℕ) → ℕ → List ℕ → List ℕ
insert_line vpc l [] = l ∷ []
insert_line vpc l (x ∷ xs) =
    let rest = insert_line vpc l xs in if leb (vpc l) (vpc x) then l ∷ x ∷ xs else x ∷ rest

abbrev pub sort_lines : (ℕ → ℕ) → List ℕ → List ℕ
sort_lines vpc [] = []
sort_lines vpc (x ∷ xs) = insert_line vpc x (sort_lines vpc xs)

abbrev pub tail_of : List ℕ → List ℕ
tail_of [] = []
tail_of (x ∷ xs) = xs

abbrev pub head_of : List ℕ → Option ℕ
head_of [] = none
head_of (x ∷ xs) = some x

abbrev pub list_pq : PQueue
list_pq = record {
  Queue = List ℕ;
  pqueue_init = [];
  pqueue_insert = λ vpc l (q, pos). (insert_line vpc l q, update pos l 1);
  pqueue_change_priority = λ vpc vpc' l (q, pos). (sort_lines vpc' q, pos);
  pqueue_pop = λ vpc (q, pos). (tail_of q, pos);
  pqueue_peek = head_of;
}

abbrev pub Has : List ℕ → ℕ → Type 0
Has [] x = ⊥
Has (y ∷ ys) x = (x ≡ y) ⊎ Has ys x

insert_line-Has :
    (vpc : ℕ → ℕ) (l x : ℕ) (q : List ℕ) → Has (insert_line vpc l q) x → (x ≡ l) ⊎ Has q x
insert_line-Has vpc l x [] h = h
insert_line-Has vpc l x (y ∷ ys) h = split (leb (vpc l) (vpc y)) h (insert_line-Has vpc l x ys)
  where
    split :
        (b : Bool)
        → Has (if b then l ∷ y ∷ ys else y ∷ insert_line vpc l ys) x
        → (Has (insert_line vpc l ys) x → (x ≡ l) ⊎ Has ys x)
        → (x ≡ l) ⊎ Has (y ∷ ys) x
    split true h f = h
    split false (inl e) f = inr (inl e)
    split false (inr k) f = elim (f k) [ inl e ↦ inl e | inr k ↦ inr (inr k) ]

sort_lines-Has : (vpc : ℕ → ℕ) (x : ℕ) (q : List ℕ) → Has (sort_lines vpc q) x → Has q x
sort_lines-Has vpc x [] h = h
sort_lines-Has vpc x (y ∷ ys) h = elim (insert_line-Has vpc y x (sort_lines vpc ys) h) [
  | inl e ↦ inl e
  | inr k ↦ inr (sort_lines-Has vpc x ys k)
]

tail_of-Has : (x : ℕ) (q : List ℕ) → Has (tail_of q) x → Has q x
tail_of-Has x [] h = h
tail_of-Has x (y ∷ ys) h = inr h

head_of-Has : (q : List ℕ) (l : ℕ) → head_of q ≡ some l → Has q l
head_of-Has [] l e = absurd (ground arith)
head_of-Has (y ∷ ys) l e = inl (sym (some-injective y l e))

pub list_laws : QueueLaws list_pq
list_laws = record {
  Holds = Has;
  init = λ l h. h;
  insert = λ vpc pos l x q h. insert_line-Has vpc l x q h;
  change = λ vpc vpc' pos l x q h. sort_lines-Has vpc' x q h;
  pop = λ vpc pos x q h. tail_of-Has x q h;
  peek = head_of-Has;
}
