-- ===== src/Csd/Queue/Append.antt =====
-- A request that is enqueued comes last in its queue.
use flax.Base.{
  ℕ, suc, ◌+◌, ◌%◌, ◌<◌, ◌≡◌, refl, sym, ◌∙◌, false, none, some, List, [], ◌∷◌, ◌++◌, ◌==◌, arith,
  length, length-append, ok, u32, lt→ltb,
}
use flax.Csd.Lists.{TaskList, Links, set_next, set_prev}
use flax.Csd.Lists.Segments.{
  Fresh, last_of, last-last_of, Segment, Segment-append, set_next-Segment, set_prev-Segment,
  set_prev-first, set_next-last,
}
use flax.Csd.Lists.Moves.{Apart, Apart-sym, last-append, IsList, last_of-Apart, Distinct-join}
use flax.Csd.Queue.{append_req, choose_queue}

single : (i : ℕ) (xs : List ℕ) → Fresh i xs → Apart xs (i ∷ [])
single i xs f = Apart-sym (i ∷ []) xs (f, tt)

-- A request that is linked to nothing and not in the queue goes behind what the queue holds.
pub append_req-IsList :
    (list : TaskList) (k : Links) (xs : List ℕ) (i : ℕ)
    → IsList list k xs
    → Fresh i xs
    → k.prev i ≡ none
    → k.next i ≡ none
    → length xs < 4294967295
    → (after : TaskList × Links) × (append_req list k i ≡ ok after)
      × IsList after.0 after.1 (xs ++ i ∷ [])
unfolding append_req
append_req-IsList list k [] i l f p n b = (
  (record { head = some i; tail = some i; running = u32 (list.running + 1) }, k),
  rw l.at_head refl,
  record {
    at_head = refl;
    at_tail = refl;
    counted = omega (arith, l.counted);
    linked = (p, n, tt);
    once = (tt, tt);
  },
)
append_req-IsList list k (x ∷ xs) i l f p n b =
    let t = last_of x xs in
    let a = single i (x ∷ xs) f in
    let k1 = set_prev k i (some t) in
    let s1 = set_prev-Segment k i (some t) none (x ∷ xs) none f l.linked in
    let own : Segment k none (i ∷ []) none = (p, n, tt) in
    let own1 = set_prev-first k none (some t) i [] none tt own in
    (
      (
        record { head = some x; tail = some i; running = u32 (list.running + 1) },
        set_next k1 t (some i),
      ),
      rw (l.at_head, l.at_tail ∙ last-last_of x xs none) refl,
      record {
        at_head = refl;
        at_tail = sym (last-append (x ∷ xs) i [] none);
        counted = omega (arith, l.counted, b, length-append (x ∷ xs) (i ∷ []));
        linked =
            Segment-append (set_next k1 t (some i)) none (x ∷ xs) (i ∷ []) none
              (set_next-last k1 none x xs none (some i) l.once s1)
              (rw (last-last_of x xs none) (
                set_next-Segment k1 t (some i) (some t) (i ∷ []) none
                  (last_of-Apart x xs (i ∷ []) a) own1));
        once = Distinct-join (x ∷ xs) (i ∷ []) l.once (tt, tt) a;
      },
    )

-- The search for a queue stops at an empty queue without taking it: where the queue in turn is busy
-- and the next one is empty, it is the busy one that is chosen.
pub choose_queue_busy :
    (lists : ℕ → TaskList) (num n turn : ℕ)
    → 0 < (lists turn).running
    → (lists turn).running < 65535
    → (lists ((turn + 1) % num)).running ≡ 0
    → choose_queue lists num (suc (suc n)) turn 65535 turn ≡ turn
unfolding choose_queue
choose_queue_busy lists num n turn h b e =
    let z : ((lists turn).running == 0) ≡ false = ground arith in
    rw (z, lt→ltb (lists turn).running 65535 b, e) refl
