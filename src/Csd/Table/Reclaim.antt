-- ===== src/Csd/Table/Reclaim.antt =====
-- `__reclaim_task` moves the first run of ended tasks of every core's list to the done list.
use flax.Base.{
  ℕ, zero, suc, ◌+◌, ◌≤◌, ◌<◌, ◌≡◌, refl, sym, ap, ◌∙◌, none, List, [], ◌∷◌, ◌++◌, arith, ok,
  length,
}
use mathlib.Core.List.{append-nil}
use mathlib.Core.Path.{subst, fun_ext}
use flax.Slm.Store.{update}
use flax.Csd.Task.{TaskInfo}
use flax.Csd.Lists.{TaskList, Links, dequeue_task_multi}
use flax.Csd.Lists.Segments.{last_of, update-ne}
use flax.Csd.Lists.Enqueue.{list_back, links_back}
use flax.Csd.Lists.Family.{Family, update_elim, length-le-sum}
use flax.Csd.Lists.Family.Take
use flax.Csd.Lists.Family.Put
use flax.Csd.Table.{Table, list_at, lists_of}
use flax.Csd.Table.Moves.{scan, move_run, reclaim_list, reclaim_from, reclaim_task}
use flax.Csd.Table.Scan.{AllEnded, NoneEnded, Stops, run_of, scan-Scanned}
use flax.Csd.Table.Invariant.{
  TableOk, AllIdle, AllBelow, AllBelow-append, AllBelow-split, Family-cong, done_at, comp_at,
}

-- The sequences after the run `bs` has left the list of a core, of which `l` remains.
abbrev pub moved : (ℕ → List ℕ) → ℕ → List ℕ → List ℕ → ℕ → List ℕ
moved L core l bs = update (update L (suc (suc core)) l) 1 (L 1 ++ bs)

abbrev after_move : Table → ℕ → TaskList → TaskList × Links → Table
after_move t core list d = record t {
  links = d.1;
  done_list = d.0;
  comp_list = update t.comp_list core list;
}

move_run-Family :
    (t : Table) (L : ℕ → List ℕ) (core : ℕ) (xs : List ℕ) (y : ℕ) (ys cs : List ℕ)
    → Family (suc (suc (suc t.num_cpu_resources))) (list_at t) t.links L [] 128
    → core ≤ t.num_cpu_resources
    → L (suc (suc core)) ≡ xs ++ ((y ∷ ys) ++ cs)
    → (list : TaskList) × (d : TaskList × Links) × (move_run t core (run_of (y ∷ ys))
        ≡ ok (after_move t core list d))
      × Family
          (suc (suc (suc t.num_cpu_resources)))
          (list_at (after_move t core list d))
          d.1
          (moved L core (xs ++ cs) (y ∷ ys))
          []
          128
move_run-Family t L core xs y ys cs v b e =
    let m = suc (suc (suc t.num_cpu_resources)) in
    let c = suc (suc core) in
    let r = Take.take-Family m (list_at t) t.links L 128 c xs y ys cs v (omega arith) e in
    let d = dequeue_task_multi (t.comp_list core) t.links y (last_of y ys) (length (y ∷ ys)) in
    let rest = update L c (xs ++ cs) in
    let comp = update t.comp_list core d.0 in
    let held =
      Family-cong m _ (lists_of t.free_list t.done_list comp) d.1 rest (y ∷ ys) 128
        (comp_at t.free_list t.done_list t.comp_list core d.0)
        (subst (λ x. Family m (update (list_at t) c x.0) x.1 rest (y ∷ ys) 128) (sym r.0) r.1) in
    let p =
      Put.put-Family m (lists_of t.free_list t.done_list comp) d.1 rest 128 1 y ys held
        (omega arith) in
    let end = last_of y ys in
    let a : TaskList × Links =
      (list_back t.done_list (rest 1) y end (length (y ∷ ys)), links_back d.1 (rest 1) y end) in
    let old : rest 1 ≡ L 1 = update-ne L c (xs ++ cs) 1 (λ q. absurd (ground (arith, q))) in
    (
      d.0,
      a,
      rw p.0 refl,
      Family-cong m _ (lists_of t.free_list a.0 comp) a.1 (moved L core (xs ++ cs) (y ∷ ys)) [] 128
          (done_at t.free_list t.done_list comp a.0)
          (subst
            (λ l.
              Family m (update (lists_of t.free_list t.done_list comp) 1 a.0) a.1
                (update rest 1 (l ++ y ∷ ys)) [] 128)
            old p.1),
    )

-- Without a run nothing moves.
moved_none :
    (L : ℕ → List ℕ) (core : ℕ) (xs cs : List ℕ)
    → L (suc (suc core)) ≡ xs ++ ([] ++ cs)
    → (j : ℕ) → L j ≡ moved L core (xs ++ cs) [] j
moved_none L core xs cs e j = sym (
    update_elim (λ x. x ≡ L j) (update L (suc (suc core)) (xs ++ cs)) 1 (L 1 ++ []) j
      (λ q. append-nil (L 1) ∙ ap L q)
      (λ q.
        update_elim (λ x. x ≡ L j) L (suc (suc core)) (xs ++ cs) j (λ p. sym e ∙ ap L p)
          (λ p. refl)))

moved_below :
    (L : ℕ → List ℕ) (core : ℕ) (xs bs cs : List ℕ) (m : ℕ)
    → ((j : ℕ) → j < m → AllBelow 128 (L j))
    → suc (suc core) < m
    → L (suc (suc core)) ≡ xs ++ (bs ++ cs)
    → (j : ℕ) → j < m
    → AllBelow 128 (moved L core (xs ++ cs) bs j)
moved_below L core xs bs cs m v h e j c =
    let all = subst (AllBelow 128) e (v (suc (suc core)) h) in
    let p = AllBelow-split 128 xs (bs ++ cs) all in
    let q = AllBelow-split 128 bs cs p.1 in
    update_elim (AllBelow 128) (update L (suc (suc core)) (xs ++ cs)) 1 (L 1 ++ bs) j
      (λ r. AllBelow-append 128 (L 1) bs (v 1 (omega arith)) q.0)
      (λ r.
        update_elim (AllBelow 128) L (suc (suc core)) (xs ++ cs) j
          (λ s. AllBelow-append 128 xs cs p.0 q.1) (λ s. v j c))

moved_free : (L : ℕ → List ℕ) (core : ℕ) (l bs : List ℕ) → moved L core l bs 0 ≡ L 0
moved_free L core l bs = update-ne L (suc (suc core)) l 0 (λ e. absurd (ground (arith, e)))

move_run-TableOk :
    (t : Table) (L : ℕ → List ℕ) (core : ℕ) (xs bs cs : List ℕ)
    → TableOk t L
    → core ≤ t.num_cpu_resources
    → L (suc (suc core)) ≡ xs ++ (bs ++ cs)
    → (t' : Table) × (move_run t core (run_of bs) ≡ ok t')
      × TableOk t' (moved L core (xs ++ cs) bs)
      × (t'.task ≡ t.task)
      × (t'.num_cpu_resources ≡ t.num_cpu_resources)
move_run-TableOk t L core xs [] cs v b e =
    (t, refl, subst (TableOk t) (fun_ext (moved_none L core xs cs e)) v, refl, refl)
move_run-TableOk t L core xs (y ∷ ys) cs v b e =
    let r = move_run-Family t L core xs y ys cs v.family b e in
    (
      after_move t core r.0 r.1,
      r.2,
      record {
        family = r.3;
        idle = subst (AllIdle t.task) (sym (moved_free L core (xs ++ cs) (y ∷ ys))) v.idle;
        below =
            moved_below L core xs (y ∷ ys) cs (suc (suc (suc t.num_cpu_resources))) v.below
              (omega arith) e;
        turn = v.turn;
        generation = v.generation;
      },
      refl,
      refl,
    )

-- What the reclaim of `n` lists from a core on does to the sequences: from each, the first run of
-- ended tasks goes behind the done list, as a whole.
pub data Reclaims (task : ℕ → TaskInfo) : ℕ → ℕ → (ℕ → List ℕ) → (ℕ → List ℕ) → Type 0 where
  none_left : {core : ℕ} {L : ℕ → List ℕ} → Reclaims task 0 core L L
  one_list :
      {n core : ℕ} {L M : ℕ → List ℕ} (before run behind : List ℕ)
      → L (suc (suc core)) ≡ before ++ (run ++ behind)
      → NoneEnded task before
      → AllEnded task run
      → Stops task behind
      → Reclaims task n (suc core) (moved L core (before ++ behind) run) M
      → Reclaims task (suc n) core L M

reclaim_from-TableOk :
    (n core : ℕ) (t : Table) (L : ℕ → List ℕ)
    → TableOk t L
    → core + n ≤ suc t.num_cpu_resources
    → (t' : Table) × (M : ℕ → List ℕ) × (reclaim_from n core t ≡ ok t')
      × Reclaims t.task n core L M
      × TableOk t' M
unfolding reclaim_from reclaim_list
reclaim_from-TableOk zero core t L v h = (t, L, refl, none_left, v)
reclaim_from-TableOk (suc n) core t L v h =
    let c = suc (suc core) in
    let list = v.family.each c (omega arith) in
    let few =
      length-le-sum (suc (suc (suc t.num_cpu_resources))) (λ j. length (L j)) c (omega arith) in
    let s =
      scan-Scanned t.task t.links 129 none (L c) (omega (arith, few, v.family.all)) list.linked in
    let found : scan t.task t.links 129 (t.comp_list core).head none ≡ ok (run_of s.run) =
      ap (λ x. scan t.task t.links 129 x none) list.at_head ∙ s.result in
    let r = move_run-TableOk t L core s.before s.run s.behind v (omega arith) s.parts in
    let q =
      reclaim_from-TableOk n (suc core) r.0 (moved L core (s.before ++ s.behind) s.run) r.2
        (rw r.4 (omega arith)) in
    (
      q.0,
      q.1,
      rw (found, r.1) q.2,
      one_list s.before s.run s.behind s.parts s.none-before s.ended s.stops (
          subst (λ k. Reclaims k n (suc core) (moved L core (s.before ++ s.behind) s.run) q.1) r.3
            q.3),
      q.4,
    )

-- The reclaim of tasks ends, and moves the first run of ended tasks of every core's list, and of the
-- list of the loads, to the done list, in their order, and nothing else; the lists still share out
-- the tasks of the pool.
pub reclaim_task-TableOk :
    (t : Table) (L : ℕ → List ℕ)
    → TableOk t L
    → (t' : Table) × (M : ℕ → List ℕ) × (reclaim_task t ≡ ok t')
      × Reclaims t.task (suc t.num_cpu_resources) 0 L M
      × TableOk t' M
unfolding reclaim_task
reclaim_task-TableOk t L v = reclaim_from-TableOk (suc t.num_cpu_resources) 0 t L v (omega arith)
