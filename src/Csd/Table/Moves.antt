-- ===== src/Csd/Table/Moves.antt =====
-- csd_dispatcher.c, what moves a task through the table: the end of `__do_perform_dispatch`,
-- `__reclaim_task`, and the loop over the done list.
use flax.Base.{
  ℕ, zero, suc, ◌+◌, not, ◌&&◌, leb, Bool, true, false, Option, none, some, if◌then◌else◌, ◌==◌,
  Result, ok, bug, hang, ◌>>=◌,
}
use flax.Slm.Store.{Step, task_id_none, task_pool_index, update}
use flax.Csd.Task.{TaskInfo}
use flax.Csd.Lists.{Links, enqueue_task, dequeue_task, enqueue_task_multi, dequeue_task_multi}
use flax.Csd.Table.{
  Table, is_step_end, allocate_new_task, enqueue_compute_work, choose_core, max_task_count,
}

-- What a dispatched command says of its task, after its region has been set up. `is_copy` tells a
-- memory copy from the execution of a program.
pub record Command : Type 0 where
  pub is_copy : Bool
  pub opcode : ℕ
  pub host_id : ℕ
  pub proc_idx : ℕ
  pub program_idx : ℕ
  pub input_size : ℕ
  pub requested_io_offset : ℕ
  pub done_io_offset : ℕ
  pub input_buf_addr : ℕ
  pub output_buf_addr : ℕ
  pub region : Option ℕ

-- `// 1. Make task`, with the fields that a memory copy sets before.
abbrev pub make_task : Command → TaskInfo → TaskInfo
make_task c task = record {
  task_step = Step.schedule;
  proc_idx = c.proc_idx;
  invalid = false;
  total_size = c.input_size;
  status = 0;
  slm_lba_info = c.region;
  requested_io_offset = c.requested_io_offset;
  done_io_offset = c.done_io_offset;
  internal_io_count = 0;
  input_buf_addr = c.input_buf_addr;
  output_buf_addr = c.output_buf_addr;
  program_idx = c.program_idx;
  result = 0;
  processed_offset = 0;
  opcode = c.opcode;
  host_id = c.host_id;
  io_quota = if c.is_copy then 1 else task.io_quota;
  is_first_io = if c.is_copy then true else task.is_first_io;
  generation_id = task.generation_id;
}

-- The core, and the turn after it.
abbrev pub core_of : Table → Command → ℕ × ℕ
core_of t c = if c.is_copy then (t.num_cpu_resources, t.compute_turn) else choose_core t

-- The task is filled in, and put on the list of its core.
abbrev pub start_task : Table → Command → ℕ → Result Table
start_task t c gen_id =
    let i = task_pool_index gen_id in
    let links = record t.links {
      prev = update t.links.prev i none;
      next = update t.links.next i none;
    } in
    enqueue_compute_work
      (record t {
        task = update t.task i (make_task c (t.task i));
        links = links;
        compute_turn = (core_of t c).1;
      })
      i (core_of t c).0

-- A program whose input is too large is refused, after its task has been allocated.
abbrev pub is_too_large : Command → Bool
is_too_large c = not c.is_copy && leb 4294967295 c.input_size

-- `__do_perform_dispatch` for the task table; no free task is `BUG()`.
unfoldable pub dispatch : Table → Command → Result (Table × ℕ)
dispatch t c = allocate_new_task t >>= (λ (t', gen_id).
    if gen_id == task_id_none
    then bug
    else if is_too_large c
    then ok (t', gen_id)
    else start_task t' c gen_id >>= (λ t''. ok (t'', gen_id)))

-- A run of ended tasks: the first, the last, and how many.
pub record Run : Type 0 where
  pub first_entry : ℕ
  pub last_entry : ℕ
  pub count : ℕ

abbrev pub extend : Option Run → ℕ → Run
extend none i = record { first_entry = i; last_entry = i; count = 1 }
extend (some r) i = record r { last_entry = i; count = r.count + 1 }

-- The loop of `__reclaim_task` over one list, with a number of rounds: the first run of ended tasks.
unfoldable pub scan : (ℕ → TaskInfo) → Links → ℕ → Option ℕ → Option Run → Result (Option Run)
scan task links zero curr run = hang
scan task links (suc n) none run = ok run
scan task links (suc n) (some i) run =
    let found = scan task links n (links.next i) (some (extend run i)) in
    let onward = scan task links n (links.next i) none in
    if is_step_end (task i).task_step
    then found
    else elim run [ none ↦ onward | some r ↦ ok (some r) ]

-- The run goes from the list of a core to the done list.
abbrev pub move_run : Table → ℕ → Option Run → Result Table
move_run t core none = ok t
move_run t core (some r) =
    let (list, links) =
      dequeue_task_multi (t.comp_list core) t.links r.first_entry r.last_entry r.count in
    enqueue_task_multi t.done_list links r.first_entry r.last_entry r.count >>= (λ (done, links').
      ok (record t { links = links'; done_list = done; comp_list = update t.comp_list core list }))

unfoldable pub reclaim_list : Table → ℕ → Result Table
reclaim_list t core =
    scan t.task t.links (suc max_task_count) (t.comp_list core).head none
    >>= (λ r. move_run t core r)

-- `__reclaim_task`, from one list on.
unfoldable pub reclaim_from : ℕ → ℕ → Table → Result Table
reclaim_from zero core t = ok t
reclaim_from (suc n) core t = reclaim_list t core >>= (λ t'. reclaim_from n (suc core) t')

unfoldable pub reclaim_task : Table → Result Table
reclaim_task t = reclaim_from (suc t.num_cpu_resources) 0 t

-- The end of the loop over the done list: a task is freed.
abbrev pub freed_task : TaskInfo → TaskInfo
freed_task task = record task {
  generation_id = task_id_none;
  task_step = Step.free;
  slm_lba_info = none;
}

unfoldable pub retire : Table → ℕ → Result Table
retire t i =
    let (list, links) = dequeue_task t.done_list t.links i in
    enqueue_task t.free_list links i >>= (λ (free, links'). ok (record t {
      task = update t.task i (freed_task (t.task i));
      links = links';
      free_list = free;
      done_list = list;
    }))

-- The loop itself, with a number of rounds; the next task is read before the list is changed.
unfoldable pub retire_from : ℕ → Option ℕ → Table → Result Table
retire_from zero curr t = hang
retire_from (suc n) none t = ok t
retire_from (suc n) (some i) t = retire t i >>= (λ t'. retire_from n (t.links.next i) t')

unfoldable pub retire_done : Table → Result Table
retire_done t = retire_from (suc max_task_count) t.done_list.head t
