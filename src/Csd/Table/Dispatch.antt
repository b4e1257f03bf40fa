-- ===== src/Csd/Table/Dispatch.antt =====
-- A dispatch keeps the invariant of the task table.
use flax.Base.{
  ℕ, suc, ◌≤◌, ◌<◌, ◌≡◌, ◌≢◌, refl, sym, ap, ap₂, ◌∙◌, true, false, Bool-cases, inl, inr, List, [],
  ◌∷◌, ◌==◌, arith, Result, ok,
}
use mathlib.Core.Path.{subst}
use flax.Slm.Store.{update, task_id_none, task_pool_index}
use flax.Csd.Task.{TaskInfo}
use flax.Csd.Lists.{TaskList, Links}
use flax.Csd.Lists.Segments.{Fresh, Distinct, update-ne, update_self}
use flax.Csd.Lists.Family.{Family, update_elim}
use flax.Csd.Table.{Table, list_at, choose_core, take_task, next_identifier, task_gen_valid}
use flax.Csd.Table.Moves.{Command, make_task, core_of, is_too_large, start_task, dispatch}
use flax.Csd.Table.Identifiers.{next_identifier_lem}
use flax.Csd.Table.Invariant.{
  TableOk, AllIdle, AllBelow, AllIdle-update, AllBelow-append, choose_core-lt,
}
use flax.Csd.Table.Submit.{allocate_lem, take_task-Family, start_task-Family, started, queued}

core_of-take_task : (t : Table) (i : ℕ) (c : Command) → core_of (take_task t i) c ≡ core_of t c
unfolding choose_core
core_of-take_task t i c = refl

core_of-lt :
    (t : Table) (c : Command)
    → t.compute_turn < t.num_cpu_resources
    → ((core_of t c).0 ≤ t.num_cpu_resources) × ((core_of t c).1 < t.num_cpu_resources)
core_of-lt t c h =
    let r = choose_core-lt t h in
    elim (Bool-cases c.is_copy) [
      | inl e ↦ rw e (omega arith, h)
      | inr e ↦ rw e (omega (arith, r.0), r.1)
    ]

-- The sequences after a dispatch: the first free task goes behind the list of its core.
abbrev pub dispatched : (ℕ → List ℕ) → List ℕ → ℕ → ℕ → ℕ → List ℕ
dispatched L rest core i = queued (update L 0 rest) core i

dispatched-AllBelow :
    (L : ℕ → List ℕ) (rest : List ℕ) (core i m : ℕ)
    → ((j : ℕ) → j < m → AllBelow 128 (L j))
    → suc (suc core) < m
    → AllBelow 128 (i ∷ rest)
    → (j : ℕ) → j < m
    → AllBelow 128 (dispatched L rest core i j)
dispatched-AllBelow L rest core i m v h b j c =
    let old =
      λ (n : ℕ) (d : n < m). update_elim (AllBelow 128) L 0 rest n (λ e. b.1) (λ e. v n d) in
    update_elim (AllBelow 128) (update L 0 rest) (suc (suc core)) _ j
      (λ e.
        AllBelow-append 128 (update L 0 rest (suc (suc core))) (i ∷ []) (old (suc (suc core)) h)
          (b.0, tt))
      (λ e. old j c)

next_lt : (generation i : ℕ) → (next_identifier generation i).1 < 4294967296
unfolding next_identifier
next_lt generation i = ground arith

not_none : (gen : ℕ) → gen ≢ task_id_none → (gen == task_id_none) ≡ false
not_none gen n = ground arith

same_self : (n : ℕ) → (n == n) ≡ true
same_self n = ground arith

named_task :
    (t : Table) (i x gen : ℕ)
    → x ≡ i
    → (update t.task i (record (t.task i) { generation_id = gen }) x).generation_id ≡ gen
named_task t i x gen e =
    let w : TaskInfo = record (t.task i) { generation_id = gen } in
    ap (λ y. (update t.task i w y).generation_id) e
    ∙ ap {A = TaskInfo} (λ y. y.generation_id) (update_self t.task i w)

-- The identifier of a dispatched task is valid for the task in its place.
valid_now :
    (t : Table) (c : Command) (gen i : ℕ) (d : TaskList × Links)
    → gen ≢ task_id_none
    → (t.task i).generation_id ≡ gen
    → task_gen_valid gen ((started t c i d).task i) ≡ true
valid_now t c gen i d n g =
    ap (task_gen_valid gen) (update_self t.task i (make_task c (t.task i)))
    ∙ rw (not_none gen n, g) (same_self gen)

dispatch_lem :
    (t : Table) (L : ℕ → List ℕ) (c : Command) (i : ℕ) (rest : List ℕ) (t' : Table)
    → TableOk t L
    → L 0 ≡ i ∷ rest
    → is_too_large c ≡ false
    → (next_identifier t.next_generation i).0 ≢ task_id_none
    → start_task (take_task t i) c (next_identifier t.next_generation i).0 ≡ ok t'
    → ◌≡◌ {A = Result (Table × ℕ)} (dispatch t c) (ok (t', (next_identifier t.next_generation i).0))
unfolding dispatch
dispatch_lem t L c i rest t' v e z n s =
    rw (allocate_lem t L i rest v e, not_none (next_identifier t.next_generation i).0 n, z, s) refl

-- What a dispatch leaves of the free list is free.
rest_idle :
    (t : Table) (L : ℕ → List ℕ) (core i x : ℕ) (rest : List ℕ) (a b : TaskInfo)
    → AllIdle t.task rest
    → Fresh i rest
    → Fresh x rest
    → AllIdle (update (update t.task i a) x b) (dispatched L rest core x 0)
rest_idle t L core i x rest a b h f g =
    subst (AllIdle (update (update t.task i a) x b))
      (sym (
        update-ne (update L 0 rest) (suc (suc core)) _ 0 (λ e. absurd (ground (arith, e)))
        ∙ update_self L 0 rest))
      (AllIdle-update (update t.task i a) x b rest g (AllIdle-update t.task i a rest f h))

-- A dispatch takes the first free task, gives it an identifier that is valid for it, and puts it
-- behind the list of its core: the lists still share out the tasks of the pool, none is lost or in
-- two lists, and what is left of the free list is idle. There is a free task, and the command is not
-- a program with an input of 4 GB less one byte or more.
pub dispatch-TableOk :
    (t : Table) (L : ℕ → List ℕ) (c : Command) (i : ℕ) (rest : List ℕ)
    → TableOk t L
    → L 0 ≡ i ∷ rest
    → is_too_large c ≡ false
    → (t' : Table) × (gen_id : ℕ) × ◌≡◌ {A = Result (Table × ℕ)} (dispatch t c) (ok (t', gen_id))
      × (task_pool_index gen_id ≡ i)
      × (task_gen_valid gen_id (t'.task i) ≡ true)
      × TableOk t' (dispatched L rest (core_of t c).0 i)
dispatch-TableOk t L c i rest v e z =
    let gen = (next_identifier t.next_generation i).0 in
    let x = task_pool_index gen in
    let m = suc (suc (suc t.num_cpu_resources)) in
    let b = subst (AllBelow 128) e (v.below 0 (omega arith)) in
    let (named, index, wide) = next_identifier_lem t.next_generation i v.generation b.0 in
    let u = take_task t i in
    let lt = core_of-lt t c v.turn in
    let same = core_of-take_task t i c in
    let h : (core_of u c).0 ≤ t.num_cpu_resources = rw same lt.0 in
    let held =
      subst (λ y. Family m (list_at u) u.links (update L 0 rest) (y ∷ []) 128) (sym index)
        (take_task-Family t L i rest v e) in
    let r = start_task-Family u (update L 0 rest) c gen held h in
    let once = subst Distinct e (v.family.each 0 (omega arith)).once in
    let t' = started u c x r.0 in
    let ready : TableOk t' (dispatched L rest (core_of u c).0 x) = record {
      family = r.2;
      idle =
          rest_idle t L (core_of u c).0 i x rest _ _ (subst (AllIdle t.task) e v.idle).1 once.0
            (subst (λ y. Fresh y rest) (sym index) once.0);
      below =
          dispatched-AllBelow L rest (core_of u c).0 x m v.below (omega (arith, h))
            (subst (λ y. AllBelow 128 (y ∷ rest)) (sym index) b);
      turn = rw same lt.1;
      generation = next_lt t.next_generation i;
    } in
    (
      t',
      gen,
      dispatch_lem t L c i rest t' v e z named r.1,
      index,
      subst (λ y. task_gen_valid gen (t'.task y) ≡ true) index
          (valid_now u c gen x r.0 named (named_task t i x gen index)),
      subst (TableOk t') (ap₂ (λ y z. dispatched L rest y.0 z) same index) ready,
    )

-- A program whose input is too large takes a free task that then is on no list: the free list has
-- lost it, no other list has got it, and nothing names it any more.
pub dispatch_too_large :
    (t : Table) (L : ℕ → List ℕ) (c : Command) (i : ℕ) (rest : List ℕ)
    → TableOk t L
    → L 0 ≡ i ∷ rest
    → is_too_large c ≡ true
    → (t' : Table) × (gen_id : ℕ) × ◌≡◌ {A = Result (Table × ℕ)} (dispatch t c) (ok (t', gen_id))
      × Family
          (suc (suc (suc t'.num_cpu_resources)))
          (list_at t')
          t'.links
          (update L 0 rest)
          (i ∷ [])
          128
unfolding dispatch
dispatch_too_large t L c i rest v e z =
    let b = subst (AllBelow 128) e (v.below 0 (omega arith)) in
    let n = (next_identifier_lem t.next_generation i v.generation b.0).0 in
    let gen = (next_identifier t.next_generation i).0 in
    (
      take_task t i,
      gen,
      rw (allocate_lem t L i rest v e, not_none gen n, z) refl,
      take_task-Family t L i rest v e,
    )
