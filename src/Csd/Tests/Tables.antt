-- ===== src/Csd/Tests/Tables.antt =====
-- The task table's theorems at concrete tables.
use flax.Base.{
  ℕ, suc, ◌≡◌, refl, some, none, true, false, List, [], ◌∷◌, arith, length, run, Result, ok,
}
use flax.Slm.Store.{Step, update, task_pool_index}
use flax.Csd.Task.{TaskInfo}
use flax.Csd.Lists.{TaskList, Links}
use flax.Csd.Lists.Dequeue.{links_out}
use flax.Csd.Lists.Enqueue.{list_back, links_back}
use flax.Csd.Lists.Family.{Family, sum_of, update_elim}
use flax.Csd.Lists.Family.Take
use flax.Csd.Lists.Family.Put
use flax.Csd.Table.{Table, list_at, lists_of, task_gen_valid}
use flax.Csd.Table.Moves.{Command, core_of, dispatch, reclaim_task, retire_done, freed_task}
use flax.Csd.Table.Invariant.{
  TableOk, AllIdle, AllBelow, AllIdle-update, Family-cong, free_at, done_at, comp_at,
}
use flax.Csd.Table.Init.{
  run-Fresh, run-AllIdle, run-AllBelow, init_below, init_table, init_links, empty_list, all_free,
  init_table-TableOk,
}
use flax.Csd.Table.Dispatch.{dispatched, dispatch-TableOk, dispatch_too_large}
use flax.Csd.Table.Reclaim.{Reclaims, reclaim_task-TableOk}
use flax.Csd.Table.Retire.{retired, retire_done-TableOk}
use flax.Csd.Table.Reach.{here, onward, submits, Reach-TableOk}
use flax.Csd.Table.Count.{get_running_task_count, get_running_task_count_lem}

abbrev blank : TaskInfo
blank = record {
  task_step = Step.end;
  proc_idx = 0;
  invalid = false;
  total_size = 0;
  status = 0;
  slm_lba_info = none;
  requested_io_offset = 0;
  done_io_offset = 0;
  internal_io_count = 0;
  input_buf_addr = 0;
  output_buf_addr = 0;
  program_idx = 0;
  result = 0;
  processed_offset = 0;
  opcode = 0;
  host_id = 0;
  io_quota = 0;
  is_first_io = false;
  generation_id = 0;
}

abbrev copy : Command
copy = record {
  is_copy = true;
  opcode = 1;
  host_id = 4;
  proc_idx = 2;
  program_idx = 0;
  input_size = 31000;
  requested_io_offset = 0;
  done_io_offset = 0;
  input_buf_addr = 65536;
  output_buf_addr = 65536;
  region = some 1;
}

abbrev memory : ℕ → TaskInfo
memory i = blank

abbrev fresh : Table
fresh = init_table 2 memory

fresh-TableOk : TableOk fresh all_free
fresh-TableOk = init_table-TableOk 2 memory (omega arith)

dispatch-TableOk_example :
    (t' : Table) × (gen_id : ℕ) × ◌≡◌ {A = Result (Table × ℕ)}
      (dispatch fresh copy)
      (ok (t', gen_id))
    × (task_pool_index gen_id ≡ 0)
    × (task_gen_valid gen_id (t'.task 0) ≡ true)
    × TableOk t' (dispatched all_free (run 1 127) (core_of fresh copy).0 0)
dispatch-TableOk_example =
    dispatch-TableOk fresh all_free copy 0 (run 1 127) fresh-TableOk refl refl

abbrev large : Command
large = record copy { is_copy = false; input_size = 4294967296 }

dispatch_too_large_example :
    (t' : Table) × (gen_id : ℕ) × ◌≡◌ {A = Result (Table × ℕ)}
      (dispatch fresh large)
      (ok (t', gen_id))
    × Family
        (suc (suc (suc t'.num_cpu_resources)))
        (list_at t')
        t'.links
        (update all_free 0 (run 1 127))
        (0 ∷ [])
        128
dispatch_too_large_example =
    dispatch_too_large fresh all_free large 0 (run 1 127) fresh-TableOk refl refl

-- Task 0 has been taken out of the free list.
abbrev rest_list : TaskList
rest_list = record { head = some 1; tail = some 127; running = 127 }

abbrev rest_links : Links
rest_links = links_out init_links [] 0 0 (run 1 127)

abbrev rest_of_all : ℕ → List ℕ
rest_of_all = update all_free 0 (run 1 127)

abbrev no_lists : ℕ → TaskList
no_lists i = empty_list

held : Family 5 (lists_of rest_list empty_list no_lists) rest_links rest_of_all (0 ∷ []) 128
unfolding init_table
held =
    Family-cong 5 _ (lists_of rest_list empty_list no_lists) rest_links rest_of_all (0 ∷ []) 128
      (free_at (list_at fresh 0) empty_list no_lists rest_list)
      (Take.take-Family 5 (list_at fresh) init_links all_free 128 0 [] 0 [] (run 1 127)
        fresh-TableOk.family (omega arith) refl).1

-- It has ended, and is on the list of the first core.
abbrev ended : ℕ → TaskInfo
ended = update (λ i. freed_task blank) 0 (record blank { generation_id = 128 })

ended-AllIdle : AllIdle ended (run 1 127)
ended-AllIdle =
    AllIdle-update (λ i. freed_task blank) 0 (record blank { generation_id = 128 }) (run 1 127)
      (run-Fresh 0 1 127 (omega arith)) (run-AllIdle memory 1 127)

put_below : (b j : ℕ) → AllBelow 128 (update rest_of_all b (0 ∷ []) j)
put_below b j =
    update_elim (AllBelow 128) rest_of_all b (0 ∷ []) j (λ e. (omega arith, tt))
      (λ e.
        update_elim (AllBelow 128) all_free 0 (run 1 127) j
          (λ e. run-AllBelow 128 1 127 (omega arith)) (λ e. init_below j))

abbrev one_ended : Table
one_ended = record {
  task = ended;
  links = links_back rest_links [] 0 0;
  free_list = rest_list;
  done_list = empty_list;
  comp_list = update no_lists 0 (list_back empty_list [] 0 0 1);
  num_cpu_resources = 2;
  compute_turn = 0;
  next_generation = 2;
}

one_ended-TableOk : TableOk one_ended (update rest_of_all 2 (0 ∷ []))
one_ended-TableOk = record {
  family =
      Family-cong 5 _ (list_at one_ended) one_ended.links (update rest_of_all 2 (0 ∷ [])) [] 128
        (comp_at rest_list empty_list no_lists 0 (list_back empty_list [] 0 0 1))
        (Put.put-Family 5 (lists_of rest_list empty_list no_lists) rest_links rest_of_all 128 2 0 []
          held (omega arith)).1;
  idle = ended-AllIdle;
  below = λ j b. put_below 2 j;
  turn = omega arith;
  generation = omega arith;
}

reclaim_task-TableOk_example :
    (t' : Table) × (M : ℕ → List ℕ) × (reclaim_task one_ended ≡ ok t')
    × Reclaims ended 3 0 (update rest_of_all 2 (0 ∷ [])) M
    × TableOk t' M
reclaim_task-TableOk_example =
    reclaim_task-TableOk one_ended (update rest_of_all 2 (0 ∷ [])) one_ended-TableOk

one_runs :
    get_running_task_count one_ended
    ≡ sum_of 4 (λ j. length (update rest_of_all 2 (0 ∷ []) (suc j)))
one_runs = get_running_task_count_lem one_ended (update rest_of_all 2 (0 ∷ [])) one_ended-TableOk

-- Now it is on the done list.
abbrev one_done : Table
one_done = record one_ended { done_list = list_back empty_list [] 0 0 1; comp_list = no_lists }

one_done-TableOk : TableOk one_done (update rest_of_all 1 (0 ∷ []))
one_done-TableOk = record {
  family =
      Family-cong 5 _ (list_at one_done) one_done.links (update rest_of_all 1 (0 ∷ [])) [] 128
        (done_at rest_list empty_list no_lists (list_back empty_list [] 0 0 1))
        (Put.put-Family 5 (lists_of rest_list empty_list no_lists) rest_links rest_of_all 128 1 0 []
          held (omega arith)).1;
  idle = ended-AllIdle;
  below = λ j b. put_below 1 j;
  turn = omega arith;
  generation = omega arith;
}

retire_done-TableOk_example :
    (t' : Table) × (retire_done one_done ≡ ok t')
    × TableOk t' (retired (update rest_of_all 1 (0 ∷ [])))
retire_done-TableOk_example =
    retire_done-TableOk one_done (update rest_of_all 1 (0 ∷ [])) one_done-TableOk

-- The table after the first command of a device.
first_copy :
    (t' : Table) × (gen_id : ℕ) × ◌≡◌ {A = Result (Table × ℕ)}
      (dispatch fresh copy)
      (ok (t', gen_id))
    × (task_pool_index gen_id ≡ 0)
    × (task_gen_valid gen_id (t'.task 0) ≡ true)
    × TableOk t' (dispatched all_free (run 1 127) (core_of fresh copy).0 0)
first_copy = dispatch-TableOk fresh all_free copy 0 (run 1 127) fresh-TableOk refl refl

Reach-TableOk_example : (L : ℕ → List ℕ) × TableOk first_copy.0 L
Reach-TableOk_example =
    Reach-TableOk 2 memory first_copy.0 (omega arith)
      (onward here (submits copy first_copy.1 refl first_copy.2))
