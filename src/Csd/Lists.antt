-- ===== src/Csd/Lists.antt =====
-- csd_dispatcher.c, the lists of tasks: doubly linked by indices, `struct ccsd_list` with its
-- `next` and `prev`. The index -1 is none.
pub mod Segments
pub mod Moves
pub mod Enqueue
pub mod Dequeue
pub mod Family
use flax.Base.{
  ℕ, ◌+◌, ◌-◌, ◌%◌, Option, none, some, ◌==◌, if◌then◌else◌, Bool, false, Result, ok, bug, u32,
}
use flax.Slm.Store.{update}

-- `struct ccsd_list`
pub record TaskList : Type 0 where
  pub head : Option ℕ
  pub tail : Option ℕ
  pub running : ℕ

-- The fields `next` and `prev` of all tasks.
pub record Links : Type 0 where
  pub next : ℕ → Option ℕ
  pub prev : ℕ → Option ℕ

abbrev pub is_at : Option ℕ → ℕ → Bool
is_at none i = false
is_at (some j) i = j == i

abbrev pub set_next : Links → ℕ → Option ℕ → Links
set_next k i v = record k { next = update k.next i v }

abbrev pub set_prev : Links → ℕ → Option ℕ → Links
set_prev k i v = record k { prev = update k.prev i v }

-- The links of a segment that is cut off on both sides.
abbrev pub cut_off : Links → ℕ → ℕ → Links
cut_off k start end = set_next (set_prev k start none) end none

-- `__enqueue_task_multi`
unfoldable pub enqueue_task_multi : TaskList → Links → ℕ → ℕ → ℕ → Result (TaskList × Links)
enqueue_task_multi list k start end count =
    let k' = cut_off k start end in
    elim list.head [
      | none ↦
          ok (
            record { head = some start; tail = some end; running = u32 (list.running + count) },
            k',
          )
      | some h ↦ elim list.tail [
        | none ↦ bug
        | some t ↦ ok (
          record { head = some h; tail = some end; running = u32 (list.running + count) },
          set_next (set_prev k' start (some t)) t (some start),
        )
      ]
    ]

-- The neighbours of what is taken out, linked with one another.
abbrev pub link_prev : Links → Option ℕ → Option ℕ → Links
link_prev k none p = k
link_prev k (some n) p = set_prev k n p

abbrev pub link_next : Links → Option ℕ → Option ℕ → Links
link_next k none n = k
link_next k (some p) n = set_next k p n

-- `__dequeue_task_multi`; too large a count is only reported.
unfoldable pub dequeue_task_multi : TaskList → Links → ℕ → ℕ → ℕ → TaskList × Links
dequeue_task_multi list k start end count =
    let p = k.prev start in
    let n = k.next end in
    (
      record {
        head = if is_at list.head start then n else list.head;
        tail = if is_at list.tail end then p else list.tail;
        running = u32 (list.running + 4294967296 - count);
      },
      link_next (link_prev (cut_off k start end) n p) p n,
    )

-- `__enqueue_task` and `__dequeue_task`
unfoldable pub enqueue_task : TaskList → Links → ℕ → Result (TaskList × Links)
enqueue_task list k task_id = enqueue_task_multi list k task_id task_id 1

unfoldable pub dequeue_task : TaskList → Links → ℕ → TaskList × Links
dequeue_task list k task_id = dequeue_task_multi list k task_id task_id 1
