-- ===== src/Csd/Queue.antt =====
-- csd_dispatcher.c, the queues of the SLM threads, `__enqueue_slm_work`, and the free list of the
-- requests, `__enqueue_io_req_free_list`. Both are linked like the lists of tasks.
pub mod Append
use flax.Base.{
  ℕ, zero, suc, ◌+◌, ◌-◌, ◌%◌, Option, none, some, ltb, ◌==◌, if◌then◌else◌, Result, ok, bug, ◌>>=◌,
  u32,
}
use flax.Slm.Store.{update}
use flax.Csd.Lists.{TaskList, Links, set_next, set_prev}

-- The part of `struct csd_io_req_table` that the queues are kept in.
pub record Queues : Type 0 where
  pub slm_list : ℕ → TaskList
  pub links : Links
  pub slm_turn : ℕ
  pub num_slm_resources : ℕ

-- The loop that looks for a queue: the shortest one before the first that is empty.
unfoldable pub choose_queue : (ℕ → TaskList) → ℕ → ℕ → ℕ → ℕ → ℕ → ℕ
choose_queue lists num zero turn min_running min_index = min_index
choose_queue lists num (suc n) turn min_running min_index =
    let next = (turn + 1) % num in
    let found = choose_queue lists num n next (lists turn).running turn in
    let onward = choose_queue lists num n next min_running min_index in
    if (lists turn).running == 0
    then min_index
    else if ltb (lists turn).running min_running
    then found
    else onward

-- A request goes to the end of a queue.
unfoldable pub append_req : TaskList → Links → ℕ → Result (TaskList × Links)
append_req list k i = elim list.head [
  | none ↦ ok (record { head = some i; tail = some i; running = u32 (list.running + 1) }, k)
  | some h ↦ elim list.tail [
    | none ↦ bug
    | some t ↦ ok (
      record { head = some h; tail = some i; running = u32 (list.running + 1) },
      set_next (set_prev k i (some t)) t (some i),
    )
  ]
]

-- `__enqueue_slm_work`
unfoldable pub enqueue_slm_work : Queues → ℕ → Result Queues
enqueue_slm_work q i =
    let turn =
      choose_queue q.slm_list q.num_slm_resources q.num_slm_resources q.slm_turn 65535 q.slm_turn in
    append_req (q.slm_list turn) q.links i >>= (λ (list, links). ok (record q {
      slm_list = update q.slm_list turn list;
      links = links;
      slm_turn = (q.slm_turn + 1) % q.num_slm_resources;
    }))

-- `io_req[end]` is cut off from what follows it.
abbrev cut_behind : Links → ℕ → Links
cut_behind k end = elim (k.next end) [
  | none ↦ set_next k end none
  | some n ↦ set_next (set_prev k n none) end none
]

-- `__enqueue_io_req_free_list`, which does not count.
unfoldable pub enqueue_io_req_free_list : TaskList → Links → ℕ → ℕ → Result (TaskList × Links)
enqueue_io_req_free_list list k start end = elim list.head [
  | none ↦
      ok
        (record list { head = some start; tail = some end }, set_prev (cut_behind k end) start none)
  | some h ↦ elim list.tail [
    | none ↦ bug
    | some t ↦ ok (
      record list { tail = some end },
      set_next (set_prev (cut_behind k end) start (some t)) t (some start),
    )
  ]
]
