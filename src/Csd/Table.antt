-- ===== src/Csd/Table.antt =====
-- csd_dispatcher.c, the task table: identifiers, the dispatch of a task to a core, the reclaim of
-- ended tasks, and their return to the free list.
pub mod Identifiers
pub mod Moves
pub mod Scan
pub mod Submit
pub mod Dispatch
pub mod Reclaim
pub mod Retire
pub mod Init
pub mod Reach
pub mod Count
pub mod Invariant
use flax.Base.{
  ℕ, zero, suc, ◌+◌, ◌-◌, ◌*◌, ◌%◌, Bool, true, false, not, ◌&&◌, Option, none, some, ltb, ◌==◌,
  if◌then◌else◌, Result, ok, bug, hang, ◌>>=◌, assert, u32,
}
use flax.Slm.Store.{Step, task_id_none, task_pool_index, update}
use flax.Csd.Task.{TaskInfo}
use flax.Csd.Lists.{
  TaskList, Links, enqueue_task, dequeue_task, enqueue_task_multi, dequeue_task_multi,
}

-- `struct ccsd_task_table`. The list of the load tasks is the last of `comp_list`.
pub record Table : Type 0 where
  pub task : ℕ → TaskInfo
  pub links : Links
  pub free_list : TaskList
  pub done_list : TaskList
  pub comp_list : ℕ → TaskList
  pub num_cpu_resources : ℕ
  pub compute_turn : ℕ
  pub next_generation : ℕ

-- `MAX_TASK_COUNT`
abbrev pub max_task_count : ℕ
max_task_count = 128

-- The lists of the table, in one family: the free list, the done list, the lists of the cores.
abbrev pub lists_of : TaskList → TaskList → (ℕ → TaskList) → ℕ → TaskList
lists_of free done comp zero = free
lists_of free done comp (suc zero) = done
lists_of free done comp (suc (suc i)) = comp i

abbrev pub list_at : Table → ℕ → TaskList
list_at t = lists_of t.free_list t.done_list t.comp_list

-- `TASK_GEN_VALID`
abbrev pub task_gen_valid : ℕ → TaskInfo → Bool
task_gen_valid gen_id task = not (gen_id == task_id_none) && task.generation_id == gen_id

abbrev pub is_step_free : Step → Bool
is_step_free Step.free = true
is_step_free _ = false

abbrev pub is_step_end : Step → Bool
is_step_end Step.end = true
is_step_end _ = false

abbrev pub put_task : Table → ℕ → TaskInfo → Table
put_task t i task = record t { task = update t.task i task }

-- `(next_generation << TASK_POOL_BITS) | pool_index`, in 32 bits.
abbrev pub identifier : ℕ → ℕ → ℕ
identifier generation pool_index = u32 (generation * 128) + pool_index

-- The identifier and the next generation; the identifier that means none is passed over.
unfoldable pub next_identifier : ℕ → ℕ → ℕ × ℕ
next_identifier generation pool_index =
    if identifier generation pool_index == task_id_none
    then (identifier (u32 (generation + 1)) pool_index, u32 (u32 (generation + 1) + 1))
    else (identifier generation pool_index, u32 (generation + 1))

-- The task that is taken from the free list.
abbrev pub take_task : Table → ℕ → Table
take_task t i =
    let (list, links) = dequeue_task t.free_list t.links i in
    let (gen_id, next) = next_identifier t.next_generation i in
    record t {
      task = update t.task i (record (t.task i) { generation_id = gen_id });
      links = links;
      free_list = list;
      next_generation = next;
    }

-- `allocate_new_task`: the identifier, TASK_ID_NONE where no task is free.
unfoldable pub allocate_new_task : Table → Result (Table × ℕ)
allocate_new_task t = elim t.free_list.head [
  | none ↦ ok (t, task_id_none)
  | some i ↦ assert (ltb i max_task_count) (
      assert (is_step_free (t.task i).task_step)
        (ok (take_task t i, (next_identifier t.next_generation i).0)))
]

-- `__enqueue_compute_work`
unfoldable pub enqueue_compute_work : Table → ℕ → ℕ → Result Table
enqueue_compute_work t task_id core =
    enqueue_task (t.comp_list core) t.links task_id
    >>= (λ (list, links). ok (record t { comp_list = update t.comp_list core list; links = links }))

-- `__find_idle_compute_core`, from a core on.
abbrev pub find_idle : (ℕ → TaskList) → ℕ → ℕ → Option ℕ
find_idle lists zero core = none
find_idle lists (suc n) core =
    let rest = find_idle lists n (suc core) in if (lists core).running == 0 then some core else rest

abbrev pub find_idle_compute_core : Table → Option ℕ
find_idle_compute_core t = find_idle t.comp_list t.num_cpu_resources 0

-- The core of a program: an idle one, or else the next in turn. `compute_turn` is the new turn.
unfoldable pub choose_core : Table → ℕ × ℕ
choose_core t = elim (find_idle_compute_core t) [
  | some core ↦ (core, t.compute_turn)
  | none ↦ (t.compute_turn, (t.compute_turn + 1) % t.num_cpu_resources)
]
