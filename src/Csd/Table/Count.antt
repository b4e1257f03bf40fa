-- ===== src/Csd/Table/Count.antt =====
-- csd_dispatcher.c, `get_running_task_count`.
use flax.Base.{ℕ, zero, suc, ◌+◌, ◌-◌, ◌≡◌, arith, length, List}
use flax.Csd.Lists.Family.{sum_of}
use flax.Csd.Table.{Table, max_task_count}
use flax.Csd.Table.Invariant.{TableOk}

-- The error that it reports where the counter is too large changes nothing.
unfoldable pub get_running_task_count : Table → ℕ
get_running_task_count t = max_task_count - t.free_list.running

sum_first : (n : ℕ) (f : ℕ → ℕ) → sum_of (suc n) f ≡ f 0 + sum_of n (λ j. f (suc j))
sum_first zero f = omega arith
sum_first (suc n) f = omega (arith, sum_first n f)

-- The count of running tasks, which the code computes from the counter of the free list, is the
-- number of the tasks on the done list and on the lists of the cores and of the loads.
pub get_running_task_count_lem :
    (t : Table) (L : ℕ → List ℕ)
    → TableOk t L
    → get_running_task_count t ≡ sum_of (suc (suc t.num_cpu_resources)) (λ j. length (L (suc j)))
unfolding get_running_task_count
get_running_task_count_lem t L v =
    let first = sum_first (suc (suc t.num_cpu_resources)) (λ j. length (L j)) in
    let list = (v.family.each 0 (omega arith)).counted in omega (arith, first, list, v.family.all)
