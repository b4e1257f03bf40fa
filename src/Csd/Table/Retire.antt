-- ===== src/Csd/Table/Retire.antt =====
-- The loop over the done list puts every ended task back on the free list.
use flax.Base.{
  ℕ, zero, suc, ◌<◌, ◌≡◌, refl, sym, ap, ◌∙◌, none, List, [], ◌∷◌, ◌++◌, arith, ok, length,
}
use mathlib.Core.List.{append-nil, append_assoc}
use mathlib.Core.Path.{subst, fun_ext}
use flax.Slm.Store.{update}
use flax.Csd.Lists.{TaskList, Links, dequeue_task, enqueue_task, dequeue_task_multi}
use flax.Csd.Lists.Segments.{Segment, first, update-ne, update_self}
use flax.Csd.Lists.Moves.{Apart, Apart-first}
use flax.Csd.Lists.Family.{Family, update_elim, length-le-sum}
use flax.Csd.Lists.Family.Take
use flax.Csd.Lists.Family.Put
use flax.Csd.Table.{Table, list_at, lists_of}
use flax.Csd.Table.Moves.{freed_task, retire, retire_from, retire_done}
use flax.Csd.Table.Invariant.{
  TableOk, Idle, AllBelow, AllIdle-update, AllIdle-append, AllBelow-append, Family-cong, free_at,
  done_at,
}

-- The sequences after one task is freed.
abbrev step_of : (ℕ → List ℕ) → ℕ → List ℕ → ℕ → List ℕ
step_of L i rest = update (update L 1 rest) 0 (L 0 ++ i ∷ [])

-- The table after the list operations returned `d` and `f`.
abbrev after_retire : Table → ℕ → TaskList → TaskList × Links → Table
after_retire t i done f = record t {
  task = update t.task i (freed_task (t.task i));
  links = f.1;
  free_list = f.0;
  done_list = done;
}

retire-Family :
    (t : Table) (L : ℕ → List ℕ) (i : ℕ) (rest : List ℕ)
    → TableOk t L
    → L 1 ≡ i ∷ rest
    → (done : TaskList) × (f : TaskList × Links) × (retire t i ≡ ok (after_retire t i done f))
      × Family
          (suc (suc (suc t.num_cpu_resources)))
          (list_at (after_retire t i done f))
          f.1
          (step_of L i rest)
          []
          128
unfolding retire dequeue_task enqueue_task
retire-Family t L i rest v e =
    let m = suc (suc (suc t.num_cpu_resources)) in
    let r = Take.take-Family m (list_at t) t.links L 128 1 [] i [] rest v.family (omega arith) e in
    let d = dequeue_task_multi t.done_list t.links i i 1 in
    let held =
      Family-cong m _ (lists_of t.free_list d.0 t.comp_list) d.1 (update L 1 rest) (i ∷ []) 128
        (done_at t.free_list t.done_list t.comp_list d.0)
        (subst (λ x. Family m (update (list_at t) 1 x.0) x.1 (update L 1 rest) (i ∷ []) 128)
          (sym r.0) r.1) in
    let p =
      Put.put-Family m (lists_of t.free_list d.0 t.comp_list) d.1 (update L 1 rest) 128 0 i [] held
        (omega arith) in
    (
      d.0,
      _,
      rw p.0 refl,
      Family-cong m _ _ _ (step_of L i rest) [] 128 (free_at t.free_list d.0 t.comp_list _) p.1,
    )

below_step :
    (L : ℕ → List ℕ) (i : ℕ) (rest : List ℕ) (m : ℕ)
    → ((j : ℕ) → j < m → AllBelow 128 (L j))
    → 0 < m
    → AllBelow 128 (i ∷ rest)
    → (j : ℕ) → j < m
    → AllBelow 128 (step_of L i rest j)
below_step L i rest m v h b j c =
    update_elim (AllBelow 128) (update L 1 rest) 0 _ j
      (λ e. AllBelow-append 128 (L 0) (i ∷ []) (v 0 h) (b.0, tt))
      (λ e. update_elim (AllBelow 128) L 1 rest j (λ e. b.1) (λ e. v j c))

retire_lem :
    (t : Table) (L : ℕ → List ℕ) (i : ℕ) (rest : List ℕ)
    → TableOk t L
    → L 1 ≡ i ∷ rest
    → (t' : Table) × (retire t i ≡ ok t') × TableOk t' (step_of L i rest)
retire_lem t L i rest v e =
    let r = retire-Family t L i rest v e in
    let fresh = Apart-first (L 0) i rest (
      subst (Apart (L 0)) e
        (v.family.apart 0 1 (omega arith) (omega arith) (λ q. absurd (ground (arith, q))))) in
    let task' = update t.task i (freed_task (t.task i)) in
    (
      after_retire t i r.0 r.1,
      r.2,
      record {
        family = r.3;
        idle =
            AllIdle-append task' (L 0) (i ∷ [])
              (AllIdle-update t.task i (freed_task (t.task i)) (L 0) fresh v.idle)
              (subst Idle (sym (update_self t.task i (freed_task (t.task i)))) (refl, refl), tt);
        below =
            below_step L i rest (suc (suc (suc t.num_cpu_resources))) v.below (omega arith)
              (subst (AllBelow 128) e (v.below 1 (omega arith)));
        turn = v.turn;
        generation = v.generation;
      },
    )

-- The sequences after the done list is emptied.
abbrev pub retired : (ℕ → List ℕ) → ℕ → List ℕ
retired L = update (update L 1 []) 0 (L 0 ++ L 1)

-- The lists of the cores stay as they are.
core_at :
    (L : ℕ → List ℕ) (a b : List ℕ) (j : ℕ)
    → update (update L 1 a) 0 b (suc (suc j)) ≡ L (suc (suc j))
core_at L a b j =
    update-ne (update L 1 a) 0 b (suc (suc j)) (λ q. absurd (ground (arith, q)))
    ∙ update-ne L 1 a (suc (suc j)) (λ q. absurd (ground (arith, q)))

retired_none : (L : ℕ → List ℕ) → L 1 ≡ [] → (j : ℕ) → L j ≡ retired L j
retired_none L e zero = sym (ap (λ l. L 0 ++ l) e ∙ append-nil (L 0))
retired_none L e (suc zero) = e
retired_none L e (suc (suc j)) = sym (core_at L [] (L 0 ++ L 1) j)

retired_step :
    (L : ℕ → List ℕ) (i : ℕ) (rest : List ℕ)
    → L 1 ≡ i ∷ rest
    → (j : ℕ) → retired (step_of L i rest) j ≡ retired L j
retired_step L i rest e zero = append_assoc (L 0) (i ∷ []) rest ∙ ap (λ l. L 0 ++ l) (sym e)
retired_step L i rest e (suc zero) = refl
retired_step L i rest e (suc (suc j)) =
    core_at (step_of L i rest) [] _ j
    ∙ core_at L rest (L 0 ++ i ∷ []) j
    ∙ sym (core_at L [] (L 0 ++ L 1) j)

retire_loop :
    (n : ℕ) (xs : List ℕ) (t : Table) (L : ℕ → List ℕ)
    → TableOk t L
    → L 1 ≡ xs
    → length xs < n
    → (t' : Table) × (retire_from n (first xs none) t ≡ ok t') × TableOk t' (retired L)
unfolding retire_from
retire_loop zero xs t L v e h = absurd (omega (arith, h))
retire_loop (suc n) [] t L v e h = (t, refl, subst (TableOk t) (fun_ext (retired_none L e)) v)
retire_loop (suc n) (i ∷ rest) t L v e h =
    let r = retire_lem t L i rest v e in
    let linked =
      subst (λ l. Segment t.links none l none) e (v.family.each 1 (omega arith)).linked in
    let q = retire_loop n rest r.0 (step_of L i rest) r.2 refl (omega arith) in
    (q.0, rw (r.1, linked.1) q.1, subst (TableOk q.0) (fun_ext (retired_step L i rest e)) q.2)

-- The loop over the done list ends, and every task of the list goes back to the free list, behind
-- what is there, with its step free and no identifier: an identifier that was handed out before is
-- not valid for it any more. The lists still share out the tasks of the pool.
pub retire_done-TableOk :
    (t : Table) (L : ℕ → List ℕ)
    → TableOk t L
    → (t' : Table) × (retire_done t ≡ ok t') × TableOk t' (retired L)
unfolding retire_done
retire_done-TableOk t L v =
    let few =
      length-le-sum (suc (suc (suc t.num_cpu_resources))) (λ j. length (L j)) 1 (omega arith) in
    let r = retire_loop 129 (L 1) t L v refl (omega (arith, few, v.family.all)) in
    (r.0, ap (λ h. retire_from 129 h t) (v.family.each 1 (omega arith)).at_head ∙ r.1, r.2)
