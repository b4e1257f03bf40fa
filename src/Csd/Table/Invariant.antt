-- ===== src/Csd/Table/Invariant.antt =====
-- The invariant of the task table: its lists share out the tasks of the pool, and the tasks of the
-- free list are idle.
use flax.Base.{
  ℕ, zero, suc, ◌+◌, ◌<◌, ◌≡◌, sym, true, Bool-cases, Option-cases, inl, inr, none, some, List, [],
  ◌∷◌, ◌++◌, ◌==◌, arith,
}
use mathlib.Core.Path.{subst}
use flax.Slm.Store.{update, task_id_none}
use flax.Csd.Task.{TaskInfo}
use flax.Csd.Lists.{TaskList, Links, cut_off}
use flax.Csd.Lists.Segments.{Fresh, update-ne, update_self}
use flax.Csd.Lists.Moves.{IsList, IsList-links, cut_off-other, cut_off-Segment, Apart-first}
use flax.Csd.Lists.Family.{Family, update_elim}
use flax.Csd.Table.{Table, list_at, lists_of, is_step_free, choose_core, find_idle}

-- A task that is not in use: its step says so, and no identifier is valid for it.
abbrev pub Idle : TaskInfo → Type 0
Idle task = (is_step_free task.task_step ≡ true) × (task.generation_id ≡ task_id_none)

abbrev pub AllIdle : (ℕ → TaskInfo) → List ℕ → Type 0
AllIdle task [] = Unit
AllIdle task (x ∷ xs) = Idle (task x) × AllIdle task xs

abbrev pub AllBelow : ℕ → List ℕ → Type 0
AllBelow n [] = Unit
AllBelow n (x ∷ xs) = (x < n) × AllBelow n xs

-- `L` says which tasks each list holds; all of them together are the 128 tasks of the pool.
pub record TableOk (t : Table) (L : ℕ → List ℕ) : Type 0 where
  pub family : Family (suc (suc (suc t.num_cpu_resources))) (list_at t) t.links L [] 128
  pub idle : AllIdle t.task (L 0)
  pub below : (j : ℕ) → j < suc (suc (suc t.num_cpu_resources)) → AllBelow 128 (L j)
  pub turn : t.compute_turn < t.num_cpu_resources
  pub generation : t.next_generation < 4294967296

-- Only what the lists are matters, not how they are stored.
pub Family-cong :
    (m : ℕ) (lists lists' : ℕ → TaskList) (k : Links) (L : ℕ → List ℕ) (held : List ℕ) (total : ℕ)
    → ((j : ℕ) → lists' j ≡ lists j)
    → Family m lists k L held total
    → Family m lists' k L held total
Family-cong m lists lists' k L held total e v = record {
  each = λ j b. subst (λ l. IsList l k (L j)) (sym (e j)) (v.each j b);
  apart = v.apart;
  out = v.out;
  out-once = v.out-once;
  out-apart = v.out-apart;
  all = v.all;
  few = v.few;
}

-- A held task may have its links reset.
pub reset-Family :
    (m : ℕ) (lists : ℕ → TaskList) (k : Links) (L : ℕ → List ℕ) (i total : ℕ)
    → Family m lists k L (i ∷ []) total
    → Family m lists (cut_off k i i) L (i ∷ []) total
reset-Family m lists k L i total v = record {
  each = λ j b.
      let f = Apart-first (L j) i [] (v.out-apart j b) in
      IsList-links (lists j) k (cut_off k i i) (L j) (v.each j b)
        (cut_off-other k none none (L j) i i f f (v.each j b).linked);
  apart = v.apart;
  out = cut_off-Segment k none none i [] v.out-once v.out;
  out-once = v.out-once;
  out-apart = v.out-apart;
  all = v.all;
  few = v.few;
}

-- A write of the free list, the done list or the list of a core, seen in the family.
pub free_at :
    (free done : TaskList) (comp : ℕ → TaskList) (l : TaskList) (j : ℕ)
    → lists_of l done comp j ≡ update (lists_of free done comp) 0 l j
free_at free done comp l zero = sym (update_self (lists_of free done comp) 0 l)
free_at free done comp l (suc zero) =
    sym (update-ne (lists_of free done comp) 0 l 1 (λ e. absurd (ground (arith, e))))
free_at free done comp l (suc (suc i)) =
    sym (update-ne (lists_of free done comp) 0 l (suc (suc i)) (λ e. absurd (ground (arith, e))))

pub done_at :
    (free done : TaskList) (comp : ℕ → TaskList) (l : TaskList) (j : ℕ)
    → lists_of free l comp j ≡ update (lists_of free done comp) 1 l j
done_at free done comp l zero =
    sym (update-ne (lists_of free done comp) 1 l 0 (λ e. absurd (ground (arith, e))))
done_at free done comp l (suc zero) = sym (update_self (lists_of free done comp) 1 l)
done_at free done comp l (suc (suc i)) =
    sym (update-ne (lists_of free done comp) 1 l (suc (suc i)) (λ e. absurd (ground (arith, e))))

pub comp_at :
    (free done : TaskList) (comp : ℕ → TaskList) (core : ℕ) (l : TaskList) (j : ℕ)
    → lists_of free done (update comp core l) j
      ≡ update (lists_of free done comp) (suc (suc core)) l j
comp_at free done comp core l zero =
    sym (update-ne (lists_of free done comp) (suc (suc core)) l 0 (λ e. absurd (ground (arith, e))))
comp_at free done comp core l (suc zero) =
    sym (update-ne (lists_of free done comp) (suc (suc core)) l 1 (λ e. absurd (ground (arith, e))))
comp_at free done comp core l (suc (suc i)) =
    let f = lists_of free done comp in
    update_elim (λ x. x ≡ update f (suc (suc core)) l (suc (suc i))) comp core l i
      (λ e.
        subst (λ k. l ≡ update f (suc (suc core)) l (suc (suc k))) e
          (sym (update_self f (suc (suc core)) l)))
      (λ n. sym (update-ne f (suc (suc core)) l (suc (suc i)) (λ e. n (ground (arith, e)))))

-- A program's core is a core.
find_idle-lt :
    (lists : ℕ → TaskList) (n i : ℕ) {core : ℕ} → find_idle lists n i ≡ some core → core < i + n
find_idle-lt lists zero i e = absurd (ground (arith, e))
find_idle-lt lists (suc n) i {core} e = elim (Bool-cases ((lists i).running == 0)) [
  | inl z ↦ ground (arith, e)
  | inr z ↦ omega (arith, find_idle-lt lists n (suc i) (rw z at e))
]

pub choose_core-lt :
    (t : Table)
    → t.compute_turn < t.num_cpu_resources
    → ((choose_core t).0 < t.num_cpu_resources) × ((choose_core t).1 < t.num_cpu_resources)
unfolding choose_core
choose_core-lt t h = elim (Option-cases (find_idle t.comp_list t.num_cpu_resources 0)) [
  | inl e ↦ rw (e, choose_core) (h, ground arith)
  | inr (core, e) ↦
      let b = find_idle-lt t.comp_list t.num_cpu_resources 0 e in
      rw (e, choose_core) (omega (arith, b), h)
]

-- A write of a task that a list does not hold is not seen in it.
pub AllIdle-update :
    (task : ℕ → TaskInfo) (i : ℕ) (v : TaskInfo) (xs : List ℕ)
    → Fresh i xs
    → AllIdle task xs
    → AllIdle (update task i v) xs
AllIdle-update task i v [] f a = tt
AllIdle-update task i v (x ∷ xs) f a =
    (subst Idle (sym (update-ne task i v x f.0)) a.0, AllIdle-update task i v xs f.1 a.1)

pub AllIdle-append :
    (task : ℕ → TaskInfo) (xs ys : List ℕ)
    → AllIdle task xs
    → AllIdle task ys
    → AllIdle task (xs ++ ys)
AllIdle-append task [] ys a b = b
AllIdle-append task (x ∷ xs) ys a b = (a.0, AllIdle-append task xs ys a.1 b)

pub AllBelow-append :
    (n : ℕ) (xs ys : List ℕ) → AllBelow n xs → AllBelow n ys → AllBelow n (xs ++ ys)
AllBelow-append n [] ys a b = b
AllBelow-append n (x ∷ xs) ys a b = (a.0, AllBelow-append n xs ys a.1 b)

pub AllBelow-split :
    (n : ℕ) (xs ys : List ℕ) → AllBelow n (xs ++ ys) → AllBelow n xs × AllBelow n ys
AllBelow-split n [] ys a = (tt, a)
AllBelow-split n (x ∷ xs) ys a = let r = AllBelow-split n xs ys a.1 in ((a.0, r.0), r.1)
