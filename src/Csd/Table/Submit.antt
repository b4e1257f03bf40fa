-- ===== src/Csd/Table/Submit.antt =====
-- A dispatched command takes a free task, fills it in and queues it.
use flax.Base.{
  ℕ, suc, ◌≤◌, ◌≡◌, refl, sym, ap, ◌∙◌, none, some, List, [], ◌∷◌, ◌++◌, lt→ltb, arith, ok,
}
use mathlib.Core.Path.{subst}
use flax.Slm.Store.{update, task_pool_index}
use flax.Csd.Lists.{TaskList, Links, cut_off, dequeue_task, enqueue_task}
use flax.Csd.Lists.Segments.{first}
use flax.Csd.Lists.Family.{Family}
use flax.Csd.Lists.Family.Take
use flax.Csd.Lists.Family.Put
use flax.Csd.Table.{
  Table, list_at, take_task, allocate_new_task, next_identifier, enqueue_compute_work,
}
use flax.Csd.Table.Moves.{Command, make_task, core_of, start_task}
use flax.Csd.Table.Invariant.{
  TableOk, AllIdle, AllBelow, Family-cong, reset-Family, free_at, comp_at,
}

pub allocate_lem :
    (t : Table) (L : ℕ → List ℕ) (i : ℕ) (rest : List ℕ)
    → TableOk t L
    → L 0 ≡ i ∷ rest
    → allocate_new_task t ≡ ok (take_task t i, (next_identifier t.next_generation i).0)
unfolding allocate_new_task
allocate_lem t L i rest v e =
    let head : t.free_list.head ≡ some i =
      (v.family.each 0 (omega arith)).at_head ∙ ap (λ l. first l none) e in
    let b = subst (AllBelow 128) e (v.below 0 (omega arith)) in
    let s = subst (AllIdle t.task) e v.idle in rw (head, lt→ltb i 128 b.0, s.0.0) refl

-- The family after a task is taken from the free list: the task is held.
pub take_task-Family :
    (t : Table) (L : ℕ → List ℕ) (i : ℕ) (rest : List ℕ)
    → TableOk t L
    → L 0 ≡ i ∷ rest
    → Family
        (suc (suc (suc t.num_cpu_resources)))
        (list_at (take_task t i))
        (take_task t i).links
        (update L 0 rest)
        (i ∷ [])
        128
unfolding dequeue_task
take_task-Family t L i rest v e =
    let m = suc (suc (suc t.num_cpu_resources)) in
    let r = Take.take-Family m (list_at t) t.links L 128 0 [] i [] rest v.family (omega arith) e in
    Family-cong m _ (list_at (take_task t i)) (dequeue_task t.free_list t.links i).1
      (update L 0 rest) (i ∷ []) 128
      (free_at t.free_list t.done_list t.comp_list (dequeue_task t.free_list t.links i).0)
      (subst (λ d. Family m (update (list_at t) 0 d.0) d.1 (update L 0 rest) (i ∷ []) 128) (sym r.0)
        r.1)

-- The table after the task of an identifier is filled in and put on the list of its core.
abbrev pub started : Table → Command → ℕ → TaskList × Links → Table
started t c i d = record t {
  task = update t.task i (make_task c (t.task i));
  links = d.1;
  comp_list = update t.comp_list (core_of t c).0 d.0;
  compute_turn = (core_of t c).1;
}

abbrev pub queued : (ℕ → List ℕ) → ℕ → ℕ → ℕ → List ℕ
queued L core i = update L (suc (suc core)) (L (suc (suc core)) ++ i ∷ [])

pub start_task-Family :
    (t : Table) (L : ℕ → List ℕ) (c : Command) (gen_id : ℕ)
    → Family
        (suc (suc (suc t.num_cpu_resources)))
        (list_at t)
        t.links
        L
        (task_pool_index gen_id ∷ [])
        128
    → (core_of t c).0 ≤ t.num_cpu_resources
    → (d : TaskList × Links) × (start_task t c gen_id ≡ ok (started t c (task_pool_index gen_id) d))
      × Family
          (suc (suc (suc t.num_cpu_resources)))
          (list_at (started t c (task_pool_index gen_id) d))
          d.1
          (queued L (core_of t c).0 (task_pool_index gen_id))
          []
          128
unfolding enqueue_compute_work enqueue_task
start_task-Family t L c gen_id v b =
    let m = suc (suc (suc t.num_cpu_resources)) in
    let i = task_pool_index gen_id in
    let core = (core_of t c).0 in
    let k = cut_off t.links i i in
    let r =
      Put.put-Family m (list_at t) k L 128 (suc (suc core)) i []
        (reset-Family m (list_at t) t.links L i 128 v) (omega arith) in
    (
      _,
      rw r.0 refl,
      Family-cong m _ _ _ (queued L core i) [] 128
          (comp_at t.free_list t.done_list t.comp_list core _) r.1,
    )
