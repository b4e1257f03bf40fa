-- ===== src/Slm/Memory/Pages.antt =====
-- Which pages the loops of csd_slm.c change.
use flax.Base.{
  ℕ, zero, suc, ◌+◌, ◌-◌, ◌≤◌, ◌<◌, ◌≡◌, ◌≢◌, ◌⊎◌, refl, sym, ap, Bool, ◌&&◌, Option, none, some,
  ltb, leb, ◌==◌, List, ◌∷◌, if◌then◌else◌, arith, Bool-cases, Option-cases, inl, inr, ◌∙◌,
}
use flax.Slm.Region.{Info, pages_up}
use flax.Slm.Store.{Slm, Task, Result, ok, bug, hang, update}
use flax.Slm.Memory.{set_pages, owned_by, release_pages, end_task, end_of, close_region, free_pages}

abbrev pub within : ℕ → ℕ → ℕ → Bool
within from to j = leb from j && ltb j to

lt_cases : {a b : ℕ} → a ≤ b → (a ≡ b) ⊎ (a < b)
lt_cases {a} {b} h = elim (Bool-cases (a == b)) [
  | inl e ↦ inl (ground arith)
  | inr e ↦ inr (ground arith)
]

hang_ok : {A : Type 0} {r : Result A} {a : A} → r ≡ hang → r ≢ ok a
hang_ok h e = ground arith

bug_ok : {A : Type 0} {r : Result A} {a : A} → r ≡ bug → r ≢ ok a
bug_ok h e = ground arith

bug_hang : {A : Type 0} {r : Result A} → r ≡ bug → r ≢ hang
bug_hang h e = ground arith

ok_hang : {A : Type 0} {r : Result A} {a : A} → r ≡ ok a → r ≢ hang
ok_hang h e = ground arith

ok_ok : {A : Type 0} {r : Result A} {a b : A} → r ≡ ok a → r ≡ ok b → a ≡ b
ok_ok {a} h e = ap (λ r. elim r [ ok x ↦ x | bug ↦ a | hang ↦ a ]) (sym h ∙ e)

end_of_bounds :
    (info : Info) {from to : ℕ}
    → from < to
    → (from ≤ end_of info from to) × (end_of info from to ≤ to)
end_of_bounds info h = (ground arith, ground arith)

end_of_progress :
    (info : Info) {from to : ℕ} → from < to → 0 < pages_up info.len → from < end_of info from to
end_of_progress info h p = ground arith

-- The loop writes the value to exactly the pages of its range.
pub set_pages_lem :
    (ready : ℕ → Option ℕ) (from count j : ℕ) (value : Option ℕ)
    → set_pages ready from count value j ≡ (if within from (from + count) j then value else ready j)
unfolding set_pages
set_pages_lem ready from zero j value = ground arith
set_pages_lem ready from (suc count) j value =
    ground (arith, set_pages_lem (update ready from value) (from + 1) count j value)

within_empty :
    {from to : ℕ} (j : ℕ) (a b : Option ℕ) → from ≡ to → (if within from to j then a else b) ≡ b
within_empty j a b h = ground arith

within_step :
    (ready : ℕ → Option ℕ) {from to : ℕ} (j : ℕ)
    → from < to
    → (if within (from + 1) to j then none else update ready from none j)
      ≡ (if within from to j then none else ready j)
within_step ready {from} j h = elim (Bool-cases (from == j)) [
  | inl e ↦ ground arith
  | inr e ↦ ground arith
]

within_jump :
    (ready : ℕ → Option ℕ) {from mid to : ℕ} (j : ℕ)
    → from ≤ mid
    → mid ≤ to
    → (if within mid to j then none else set_pages ready from (mid - from) none j)
      ≡ (if within from to j then none else ready j)
within_jump ready {from} {mid} j h k = ground (arith, set_pages_lem ready from (mid - from) j none)

-- Releasing clears the pages of the range that belong to the task, and no other.
release_pages_lem :
    (regions : ℕ → Info) (ready : ℕ → Option ℕ) (from count task_id j : ℕ)
    → release_pages regions ready from count task_id j ≡ (
        if within from (from + count) j && owned_by regions task_id (ready j)
        then none
        else ready j)
unfolding release_pages
release_pages_lem regions ready from zero task_id j = ground arith
release_pages_lem regions ready from (suc count) task_id j =
    elim (Bool-cases (owned_by regions task_id (ready from))) [
      | inl o ↦ elim (Bool-cases (from == j)) [
        | inl e ↦
            ground
              (arith, release_pages_lem regions (update ready from none) (from + 1) count task_id j)
        | inr n ↦
            ground
              (arith, release_pages_lem regions (update ready from none) (from + 1) count task_id j)
      ]
      | inr o ↦ elim (Bool-cases (from == j)) [
        | inl e ↦ ground (arith, release_pages_lem regions ready (from + 1) count task_id j)
        | inr n ↦ ground (arith, release_pages_lem regions ready (from + 1) count task_id j)
      ]
    ]

-- One round of the loop, by what it finds at its page.
free_pages_skip :
    (copy fuel : ℕ) (gone : List ℕ) (from to : ℕ) (s : Slm)
    → from < to
    → s.ready_info from ≡ none
    → free_pages copy (suc fuel) gone s from to
      ≡ free_pages copy fuel gone
          (record s { ready_info = update s.ready_info from none })
          (from + 1)
          to
unfolding free_pages
free_pages_skip copy fuel gone from to s lt e = ground arith

free_pages_region :
    (copy fuel : ℕ) (gone : List ℕ) (from to : ℕ) (s : Slm) (p : ℕ) (tasks : ℕ → Task)
    → from < to
    → s.ready_info from ≡ some p
    → close_region copy gone s p ≡ ok tasks
    → free_pages copy (suc fuel) gone s from to
      ≡ free_pages copy fuel
          (p ∷ gone)
          (record s {
            tasks = tasks;
            ready_info = set_pages s.ready_info from (end_of (s.regions p) from to - from) none;
          })
          (end_of (s.regions p) from to)
          to
unfolding free_pages
free_pages_region copy fuel gone from to s p tasks lt e et = ground arith

free_pages_stop :
    (copy fuel : ℕ) (gone : List ℕ) (from : ℕ) (s : Slm)
    → free_pages copy (suc fuel) gone s from from ≡ ok s
unfolding free_pages
free_pages_stop copy fuel gone from s = ground arith

free_pages_shut_bug :
    (copy fuel : ℕ) (gone : List ℕ) (from to : ℕ) (s : Slm) (p : ℕ)
    → from < to
    → s.ready_info from ≡ some p
    → close_region copy gone s p ≡ bug
    → free_pages copy (suc fuel) gone s from to ≡ bug
unfolding free_pages
free_pages_shut_bug copy fuel gone from to s p lt e et = ground arith

free_pages-zero :
    (copy : ℕ) (gone : List ℕ) (from to : ℕ) (s : Slm) → free_pages copy zero gone s from to ≡ hang
unfolding free_pages
free_pages-zero copy gone from to s = refl

-- What the task of a region is found to be.
Result-cases : {A : Type 0} (r : Result A) → (r ≡ hang) ⊎ ((r ≡ bug) ⊎ ((a : A) × (r ≡ ok a)))
Result-cases hang = inl refl
Result-cases bug = inr (inl refl)
Result-cases (ok a) = inr (inr (a, refl))

end_task-hang : (copy : ℕ) (tasks : ℕ → Task) (task_id : ℕ) → end_task copy tasks task_id ≢ hang
unfolding end_task
end_task-hang copy tasks task_id e = ground arith

close_region-hang : (copy : ℕ) (gone : List ℕ) (s : Slm) (p : ℕ) → close_region copy gone s p ≢ hang
close_region-hang copy gone s p e = ground (arith, end_task-hang copy s.tasks (s.regions p).task_id)

-- Where `free_slm_lba_info` returns, all pages of the range are without a region, and the other
-- pages are as before.
pub free_pages_lem :
    (copy fuel : ℕ) (gone : List ℕ) (from to j : ℕ) (s : Slm) {s' : Slm}
    → from ≤ to
    → free_pages copy fuel gone s from to ≡ ok s'
    → s'.ready_info j ≡ (if within from to j then none else s.ready_info j)
free_pages_lem copy zero gone from to j s le e =
    absurd (hang_ok (free_pages-zero copy gone from to s) e)
free_pages_lem copy (suc fuel) gone from to j s le e = elim (lt_cases le) [
  | inl same ↦
      ap (λ r. r.ready_info j)
        (ok_ok e (
          ap (λ k. free_pages copy (suc fuel) gone s from k) (sym same)
          ∙ free_pages_stop copy fuel gone from s))
      ∙ sym (within_empty j none _ same)
  | inr lt ↦ elim (Option-cases (s.ready_info from)) [
    | inl n ↦
        let ih =
          free_pages_lem copy fuel gone (from + 1) to j
            (record s { ready_info = update s.ready_info from none }) (omega arith)
            (sym (free_pages_skip copy fuel gone from to s lt n) ∙ e) in
        ih ∙ within_step s.ready_info j lt
    | inr (p, at_p) ↦ elim (Result-cases (close_region copy gone s p)) [
      | inl h ↦ absurd (close_region-hang copy gone s p h)
      | inr (inl b) ↦ absurd (bug_ok (free_pages_shut_bug copy fuel gone from to s p lt at_p b) e)
      | inr (inr (tasks, t)) ↦
          let ih =
            free_pages_lem copy fuel (p ∷ gone) (end_of (s.regions p) from to) to j _
              (end_of_bounds (s.regions p) lt).1
              (sym (free_pages_region copy fuel gone from to s p tasks lt at_p t) ∙ e) in
          ih
          ∙ within_jump s.ready_info j (end_of_bounds (s.regions p) lt).0
              (end_of_bounds (s.regions p) lt).1
    ]
  ]
]

-- The loop returns, or meets a region that it gave back or a task in a step that it stops at, where no region has a length of 0
-- and there is a round for each page.
pub free_pages-returns :
    (copy fuel : ℕ) (gone : List ℕ) (from to : ℕ) (s : Slm)
    → from ≤ to
    → to - from < fuel
    → ((p : ℕ) → 0 < pages_up (s.regions p).len)
    → free_pages copy fuel gone s from to ≢ hang
free_pages-returns copy zero gone from to s le f pos e = ground arith
free_pages-returns copy (suc fuel) gone from to s le f pos e = elim (lt_cases le) [
  | inl same ↦
      ok_hang
        (ap (λ k. free_pages copy (suc fuel) gone s from k) (sym same)
          ∙ free_pages_stop copy fuel gone from s)
        e
  | inr lt ↦ elim (Option-cases (s.ready_info from)) [
    | inl n ↦
        free_pages-returns copy fuel gone (from + 1) to _ (omega arith) (omega arith) pos
          (sym (free_pages_skip copy fuel gone from to s lt n) ∙ e)
    | inr (p, at_p) ↦ elim (Result-cases (close_region copy gone s p)) [
      | inl h ↦ close_region-hang copy gone s p h
      | inr (inl b) ↦ bug_hang (free_pages_shut_bug copy fuel gone from to s p lt at_p b) e
      | inr (inr (tasks, t)) ↦
          free_pages-returns copy fuel (p ∷ gone) (end_of (s.regions p) from to) to _
            (end_of_bounds (s.regions p) lt).1
            (omega
              (arith, end_of_bounds (s.regions p) lt, end_of_progress (s.regions p) lt (pos p)))
            pos (sym (free_pages_region copy fuel gone from to s p tasks lt at_p t) ∙ e)
    ]
  ]
]
