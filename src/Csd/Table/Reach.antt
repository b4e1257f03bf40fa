-- ===== src/Csd/Table/Reach.antt =====
-- Every state of the task table that the device can reach.
use flax.Base.{
  ℕ, ◌<◌, ◌≡◌, refl, sym, ap, ◌∙◌, false, none, List, [], ◌∷◌, arith, Result, ok, bug, ok-inj,
}
use mathlib.Core.Path.{subst}
use flax.Slm.Store.{Step}
use flax.Csd.Task.{TaskInfo}
use flax.Csd.Lists.Segments.{Fresh, first}
use flax.Csd.Table.{Table, put_task, is_step_free, allocate_new_task}
use flax.Csd.Table.Moves.{Command, core_of, is_too_large, dispatch, reclaim_task, retire_done}
use flax.Csd.Table.Invariant.{TableOk, AllIdle, AllIdle-update}
use flax.Csd.Table.Dispatch.{dispatch-TableOk, dispatched}
use flax.Csd.Table.Reclaim.{reclaim_task-TableOk}
use flax.Csd.Table.Retire.{retire_done-TableOk, retired}
use flax.Csd.Table.Init.{init_table, init_table-TableOk, all_free}

-- One step: the dispatcher thread submits a command whose input is not too large, reclaims, or empties the done list; another
-- thread writes a scheduled task, in any way.
pub data Move : Table → Table → Type 0 where
  submits :
      {t t' : Table} (c : Command) (gen_id : ℕ)
      → is_too_large c ≡ false
      → ◌≡◌ {A = Result (Table × ℕ)} (dispatch t c) (ok (t', gen_id))
      → Move t t'
  reclaims : {t t' : Table} → reclaim_task t ≡ ok t' → Move t t'
  retires : {t t' : Table} → retire_done t ≡ ok t' → Move t t'
  works :
      {t : Table} (i : ℕ) (task : TaskInfo)
      → (t.task i).task_step ≡ Step.schedule
      → Move t (put_task t i task)

pub data Reach (s : Table) : Table → Type 0 where
  here : Reach s s
  onward : {t u : Table} → Reach s t → Move t u → Reach s u

-- A dispatch that finds no free task is `BUG()`.
pub dispatch_full : (t : Table) (c : Command) → t.free_list.head ≡ none → dispatch t c ≡ bug
unfolding dispatch allocate_new_task
dispatch_full t c e = rw (e, dispatch) refl

bug_clash : {A : Type 0} {r : Result A} {x : A} → r ≡ bug → r ≡ ok x → ⊥
bug_clash e f = ground arith

-- A scheduled task is not on the free list.
scheduled-Fresh :
    (task : ℕ → TaskInfo) (i : ℕ) (xs : List ℕ)
    → (task i).task_step ≡ Step.schedule
    → AllIdle task xs
    → Fresh i xs
scheduled-Fresh task i [] e a = tt
scheduled-Fresh task i (x ∷ xs) e a = (
  (λ p.
      let q = sym a.0.0 ∙ ap (λ k. is_step_free (task k).task_step) (sym p) ∙ ap is_step_free e in
      absurd (ground arith)),
  scheduled-Fresh task i xs e a.1,
)

ok_same : {A : Type 0} {r : Result A} {x y : A} → r ≡ ok x → r ≡ ok y → x ≡ y
ok_same e f = ok-inj (sym e ∙ f)

submit-TableOk :
    (t t' : Table) (L : ℕ → List ℕ) (c : Command) (gen_id : ℕ) (xs : List ℕ)
    → TableOk t L
    → L 0 ≡ xs
    → is_too_large c ≡ false
    → ◌≡◌ {A = Result (Table × ℕ)} (dispatch t c) (ok (t', gen_id))
    → (M : ℕ → List ℕ) × TableOk t' M
submit-TableOk t t' L c gen_id [] v e z r =
    let head = (v.family.each 0 (omega arith)).at_head ∙ ap (λ l. first l none) e in
    absurd (bug_clash (dispatch_full t c head) r)
submit-TableOk t t' L c gen_id (i ∷ rest) v e z r =
    let q = dispatch-TableOk t L c i rest v e z in
    let M = dispatched L rest (core_of t c).0 i in
    (M, subst (λ u. TableOk u M) (ap (λ p. p.0) (ok_same q.2 r)) q.5)

-- Every step keeps the invariant.
pub Move-TableOk :
    (t t' : Table) (L : ℕ → List ℕ) → Move t t' → TableOk t L → (M : ℕ → List ℕ) × TableOk t' M
Move-TableOk t t' L (submits c gen_id z r) v = submit-TableOk t t' L c gen_id (L 0) v refl z r
Move-TableOk t t' L (reclaims r) v =
    let q = reclaim_task-TableOk t L v in (q.1, subst (λ u. TableOk u q.1) (ok_same q.2 r) q.4)
Move-TableOk t t' L (retires r) v =
    let q = retire_done-TableOk t L v in
    (retired L, subst (λ u. TableOk u (retired L)) (ok_same q.1 r) q.2)
Move-TableOk t _ L (works i task e) v = (
  L,
  record {
    family = v.family;
    idle = AllIdle-update t.task i task (L 0) (scheduled-Fresh t.task i (L 0) e v.idle) v.idle;
    below = v.below;
    turn = v.turn;
    generation = v.generation;
  },
)

-- In every state that the device reaches from its set-up, the free list, the done list and the
-- lists of the cores share out the 128 tasks of the pool: every list is well linked, its counter is
-- its length, no task is in two of them and none is lost, and the tasks of the free list are idle.
-- There is a core, and no program with an input that is too large has been submitted.
pub Reach-TableOk :
    (cores : ℕ) (task : ℕ → TaskInfo) (t : Table)
    → 0 < cores
    → Reach (init_table cores task) t
    → (L : ℕ → List ℕ) × TableOk t L
Reach-TableOk cores task t h here = (all_free, init_table-TableOk cores task h)
Reach-TableOk cores task t h (onward {t = u} r m) =
    let v = Reach-TableOk cores task u h r in Move-TableOk u t v.0 m v.1
