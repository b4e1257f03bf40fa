-- ===== src/Csd/Table/Scan.antt =====
-- The scan of `__reclaim_task` over a list finds the first run of ended tasks, as a whole.
use flax.Base.{
  ℕ, zero, suc, ◌+◌, ◌<◌, ◌≡◌, refl, ap, ◌∙◌, true, false, inl, inr, Bool-cases, Option, none, some,
  List, [], ◌∷◌, ◌++◌, arith, Result, ok, length,
}
use flax.Csd.Task.{TaskInfo}
use flax.Csd.Lists.{Links}
use flax.Csd.Lists.Segments.{Segment, first, last_of}
use flax.Csd.Table.{is_step_end}
use flax.Csd.Table.Moves.{Run, scan}

abbrev pub AllEnded : (ℕ → TaskInfo) → List ℕ → Type 0
AllEnded task [] = Unit
AllEnded task (x ∷ xs) = (is_step_end (task x).task_step ≡ true) × AllEnded task xs

abbrev pub NoneEnded : (ℕ → TaskInfo) → List ℕ → Type 0
NoneEnded task [] = Unit
NoneEnded task (x ∷ xs) = (is_step_end (task x).task_step ≡ false) × NoneEnded task xs

-- A list that does not start with an ended task.
abbrev pub Stops : (ℕ → TaskInfo) → List ℕ → Type 0
Stops task [] = Unit
Stops task (x ∷ xs) = is_step_end (task x).task_step ≡ false

abbrev pub run_of : List ℕ → Option Run
run_of [] = none
run_of (y ∷ ys) =
    some (record { first_entry = y; last_entry = last_of y ys; count = suc (length ys) })

-- A run that started at `y` and has reached `z` after `k` tasks, continued.
abbrev grown : ℕ → ℕ → ℕ → List ℕ → Option Run
grown y z k bs = some (record { first_entry = y; last_entry = last_of z bs; count = k + length bs })

count_eq :
    (y z : ℕ) {a b : ℕ}
    → a ≡ b
    → ◌≡◌ {A = Result (Option Run)}
        (ok (some (record { first_entry = y; last_entry = z; count = a })))
        (ok (some (record { first_entry = y; last_entry = z; count = b })))
count_eq y z e = ap (λ c. ok (some (record { first_entry = y; last_entry = z; count = c }))) e

record Within (task : ℕ → TaskInfo) (xs : List ℕ) (r : Result (Option Run)) (y z k : ℕ)
    : Type 0 where
  bs : List ℕ
  cs : List ℕ
  both : xs ≡ bs ++ cs
  ended : AllEnded task bs
  stops : Stops task cs
  result : r ≡ ok (grown y z k bs)

-- What the scan of a list returns.
pub record Scanned (task : ℕ → TaskInfo) (xs : List ℕ) (r : Result (Option Run)) : Type 0 where
  pub before : List ℕ
  pub run : List ℕ
  pub behind : List ℕ
  pub parts : xs ≡ before ++ (run ++ behind)
  pub none-before : NoneEnded task before
  pub ended : AllEnded task run
  pub stops : Stops task behind
  pub result : r ≡ ok (run_of run)

module _ (task : ℕ → TaskInfo) (links : Links) where
  scan-Within :
      (n : ℕ) (p : Option ℕ) (xs : List ℕ) (y z k : ℕ)
      → length xs < n
      → Segment links p xs none
      → Within task xs
          (scan task links n
            (first xs none)
            (some (record { first_entry = y; last_entry = z; count = k })))
          y
          z
          k
  unfolding scan
  scan-Within zero p xs y z k h s = absurd (omega (arith, h))
  scan-Within (suc n) p [] y z k h s = record {
    bs = [];
    cs = [];
    both = refl;
    ended = tt;
    stops = tt;
    result = count_eq y z (omega arith);
  }
  scan-Within (suc n) p (x ∷ xs) y z k h s = elim (Bool-cases (is_step_end (task x).task_step)) [
    | inl e ↦
        let r = scan-Within n (some x) xs y x (k + 1) (omega arith) s.2 in
        record {
          bs = x ∷ r.bs;
          cs = r.cs;
          both = ap (λ l. x ∷ l) r.both;
          ended = (e, r.ended);
          stops = r.stops;
          result = rw (e, s.1) (r.result ∙ count_eq y (last_of x r.bs) (omega arith));
        }
    | inr e ↦ record {
      bs = [];
      cs = x ∷ xs;
      both = refl;
      ended = tt;
      stops = e;
      result = rw e (count_eq y z (omega arith));
    }
  ]

  pub scan-Scanned :
      (n : ℕ) (p : Option ℕ) (xs : List ℕ)
      → length xs < n
      → Segment links p xs none
      → Scanned task xs (scan task links n (first xs none) none)
  unfolding scan
  scan-Scanned zero p xs h s = absurd (omega (arith, h))
  scan-Scanned (suc n) p [] h s = record {
    before = [];
    run = [];
    behind = [];
    parts = refl;
    none-before = tt;
    ended = tt;
    stops = tt;
    result = refl;
  }
  scan-Scanned (suc n) p (x ∷ xs) h s = elim (Bool-cases (is_step_end (task x).task_step)) [
    | inl e ↦
        let r = scan-Within n (some x) xs x x 1 (omega arith) s.2 in
        record {
          before = [];
          run = x ∷ r.bs;
          behind = r.cs;
          parts = ap (λ l. x ∷ l) r.both;
          none-before = tt;
          ended = (e, r.ended);
          stops = r.stops;
          result = rw (e, s.1) (r.result ∙ count_eq x (last_of x r.bs) (omega arith));
        }
    | inr e ↦
        let r = scan-Scanned n (some x) xs (omega arith) s.2 in
        record {
          before = x ∷ r.before;
          run = r.run;
          behind = r.behind;
          parts = ap (λ l. x ∷ l) r.parts;
          none-before = (e, r.none-before);
          ended = r.ended;
          stops = r.stops;
          result = rw (e, s.1) r.result;
        }
  ]
