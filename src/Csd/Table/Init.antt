-- ===== src/Csd/Table/Init.antt =====
-- csd_dispatcher.c, `NVMEV_CSD_PROC_INIT`: the task table at the start.
use flax.Base.{
  ℕ, zero, suc, ◌+◌, ◌-◌, ◌≤◌, ◌<◌, ◌≡◌, ◌≢◌, refl, ap, true, false, Option, none, some, List, [],
  ◌==◌, arith, length, if◌then◌else◌, run,
}
use flax.Csd.Task.{TaskInfo}
use flax.Csd.Lists.{TaskList, Links}
use flax.Csd.Lists.Segments.{Fresh, Distinct, Segment}
use flax.Csd.Lists.Moves.{IsList, Apart, no_one}
use flax.Csd.Lists.Family.{sum_of}
use flax.Csd.Table.{Table, list_at, max_task_count}
use flax.Csd.Table.Moves.{freed_task}
use flax.Csd.Table.Invariant.{TableOk, AllIdle, AllBelow}

abbrev pub empty_list : TaskList
empty_list = record { head = none; tail = none; running = 0 }

-- `next = i + 1` and `prev = i - 1`, but -1 at the ends.
abbrev pub init_links : Links
init_links = record {
  next = λ i. if i == 127 then none else some (i + 1);
  prev = λ i. if i == 0 then none else some (i - 1);
}

-- The table for a number of cores; `task` is the memory that it is written to, of which only the
-- step, the region and the identifier are set.
unfoldable pub init_table : ℕ → (ℕ → TaskInfo) → Table
init_table cores task = record {
  task = λ i. freed_task (task i);
  links = init_links;
  free_list = record { head = some 0; tail = some 127; running = max_task_count };
  done_list = empty_list;
  comp_list = λ core. empty_list;
  num_cpu_resources = cores;
  compute_turn = 0;
  next_generation = 1;
}

-- All tasks are free.
abbrev pub all_free : ℕ → List ℕ
all_free zero = run 0 128
all_free (suc j) = []

run-Segment :
    (n a : ℕ) (p : Option ℕ)
    → a + suc n ≡ 128
    → init_links.prev a ≡ p
    → Segment init_links p (run a (suc n)) none
run-Segment zero a p h e = let z : (a == 127) ≡ true = ground arith in (e, rw z refl, tt)
run-Segment (suc n) a p h e =
    let z : (a == 127) ≡ false = ground arith in
    let s : a + 1 ≡ suc a = omega arith in
    let q : (suc a == 0) ≡ false = ground arith in
    let d : suc a - 1 ≡ a = omega arith in
    (e, rw z (ap some s), run-Segment n (suc a) (some a) (omega arith) (rw q (ap some d)))

pub run-Fresh : (i a n : ℕ) → i < a → Fresh i (run a n)
run-Fresh i a zero h = tt
run-Fresh i a (suc n) h = ((λ e. absurd (omega (arith, e, h))), run-Fresh i (suc a) n (omega arith))

run-Distinct : (a n : ℕ) → Distinct (run a n)
run-Distinct a zero = tt
run-Distinct a (suc n) = (run-Fresh a (suc a) n (omega arith), run-Distinct (suc a) n)

pub run-AllBelow : (m a n : ℕ) → a + n ≤ m → AllBelow m (run a n)
run-AllBelow m a zero h = tt
run-AllBelow m a (suc n) h = (omega arith, run-AllBelow m (suc a) n (omega arith))

pub run-AllIdle : (task : ℕ → TaskInfo) (a n : ℕ) → AllIdle (λ i. freed_task (task i)) (run a n)
run-AllIdle task a zero = tt
run-AllIdle task a (suc n) = ((refl, refl), run-AllIdle task (suc a) n)

empty-IsList : (k : Links) → IsList empty_list k []
empty-IsList k = record { at_head = refl; at_tail = refl; counted = refl; linked = tt; once = tt }

free-IsList :
    IsList
      (record { head = some 0; tail = some 127; running = max_task_count })
      init_links
      (run 0 128)
free-IsList = record {
  at_head = refl;
  at_tail = refl;
  counted = refl;
  linked = run-Segment 127 0 none refl refl;
  once = run-Distinct 0 128;
}

-- What holds of the free list and of empty lists holds of all.
init_each :
    (cores : ℕ) (task : ℕ → TaskInfo) (j : ℕ)
    → IsList (list_at (init_table cores task) j) init_links (all_free j)
unfolding init_table
init_each cores task zero = free-IsList
init_each cores task (suc zero) = empty-IsList init_links
init_each cores task (suc (suc j)) = empty-IsList init_links

init-Apart : (i j : ℕ) → i ≢ j → Apart (all_free i) (all_free j)
init-Apart zero zero n = absurd (n refl)
init-Apart zero (suc j) n = no_one (run 0 128)
init-Apart (suc i) j n = tt

init_sum : (m : ℕ) → sum_of (suc m) (λ j. length (all_free j)) ≡ 128
init_sum zero = refl
init_sum (suc m) = omega (arith, init_sum m)

pub init_below : (j : ℕ) → AllBelow 128 (all_free j)
init_below zero = run-AllBelow 128 0 128 (omega arith)
init_below (suc j) = tt

-- The table is set up with all tasks on the free list, and meets its invariant, where there is a
-- core.
pub init_table-TableOk :
    (cores : ℕ) (task : ℕ → TaskInfo) → 0 < cores → TableOk (init_table cores task) all_free
unfolding init_table
init_table-TableOk cores task h = record {
  family = record {
    each = λ j b. init_each cores task j;
    apart = λ i j b c n. init-Apart i j n;
    out = tt;
    out-once = tt;
    out-apart = λ j b. no_one (all_free j);
    all = omega (arith, init_sum (suc (suc cores)));
    few = omega arith;
  };
  idle = run-AllIdle task 0 128;
  below = λ j b. init_below j;
  turn = h;
  generation = omega arith;
}
