-- ===== src/Csd/Issue/Steps.antt =====
-- One turn of the loop, where the region is not a ring: it goes on, or it stops.
use flax.Base.{
  ℕ, suc, ◌+◌, ◌-◌, ◌*◌, ◌≤◌, ◌<◌, ◌≡◌, refl, sym, ap, ap₂, ◌∙◌, Bool, true, false, Option, some,
  none, List, [], ◌∷◌, ◌++◌, arith, ltb, leb, ◌==◌, if◌then◌else◌, Bool-cases, inl, inr, ◌⊎◌, run,
  take, drop, take_add, drop-drop, Result, ok, ◌>>=◌,
}
use mathlib.Core.List.{append-nil, append_assoc}
use flax.Slm.Region.{Info}
use flax.Csd.Ranges.{calculate_lba, calculate_io_size, calculate_circular_io_size}
use flax.Csd.Ranges.Bytes.{total, bytes, Addressed, left}
use flax.Csd.Ranges.Read.{Read, io_size_at, opening}
use flax.Csd.Issue.{IoReq, Job, Load, is_free, is_last, io_req_of, put_req, issue, request_size}

-- The bytes that `slm_work` copies for the requests of a queue, by their addresses.
abbrev pub copied : List (ℕ × IoReq) → List ℕ
copied [] = []
copied ((i, r) ∷ rs) = run (r.lba * 512 + r.local_offset) r.length ++ copied rs

-- Every request of the list is free.
abbrev pub AllFree : (ℕ → IoReq) → List ℕ → Type 0
AllFree io_req [] = Unit
AllFree io_req (i ∷ is) = (is_free (io_req i).io_req_status ≡ true) × AllFree io_req is

-- The ranges are addressed within the machine's words, and the first is not empty.
pub record Sound (info : Info) : Type 0 where
  pub opens : 0 < opening info.sre
  pub addressed : Addressed info.sre
  pub fits : total info.sre < 4611686018427387904

pub not_zero : (n : ℕ) → 0 < n → (n == 0) ≡ false
not_zero n h = ground arith

pub not_none : {A : Type 0} {o : Option A} {a : A} → o ≡ none → o ≡ some a → ⊥
not_none e f = ground arith

pub lt_or_ge : (a b : ℕ) → (a < b) ⊎ (b ≤ a)
lt_or_ge a b = ground arith

copied-append :
    (xs : List (ℕ × IoReq)) (i : ℕ) (r : IoReq)
    → copied (xs ++ (i, r) ∷ []) ≡ copied xs ++ run (r.lba * 512 + r.local_offset) r.length
copied-append [] i r = append-nil (run (r.lba * 512 + r.local_offset) r.length)
copied-append ((j, q) ∷ xs) i r =
    ap (λ l. run (q.lba * 512 + q.local_offset) q.length ++ l) (copied-append xs i r)
    ∙ sym (append_assoc (run (q.lba * 512 + q.local_offset) q.length) (copied xs) _)

-- The requests read the stream from `o` on, as far as the issued size says.
pub record Covered (info : Info) (o : ℕ) (s : Load) : Type 0 where
  pub in_range : o + s.total_issued_size ≤ total info.sre
  pub reads : copied s.enqueued ≡ take s.total_issued_size (drop o (bytes info.sre))

pub put_req-Covered :
    (job : Job) (s : Load) (ids : List ℕ) (o wanted i : ℕ) (last : Bool) (times : ℕ × ℕ)
    (r : Read job.slm_lba_info (o + s.total_issued_size) wanted)
    → Covered job.slm_lba_info o s
    → Covered job.slm_lba_info o (
        put_req job s ids
          (o + s.total_issued_size)
          r.length
          (i, io_req_of job s (o + s.total_issued_size) r.lba r.length last times))
put_req-Covered job s ids o wanted i last times r c = record {
  in_range = omega (arith, r.read-fits);
  reads =
      let all = bytes job.slm_lba_info.sre in
      let t = s.total_issued_size in
      copied-append s.enqueued i _
      ∙ ap₂ (λ x y. x ++ y) c.reads
          (sym (r.read-bytes r.length (omega arith)) ∙ ap (take r.length) (sym (drop-drop o t all)))
      ∙ sym (take_add t r.length (drop o all));
}

io_size_plain :
    (info : Info) (o n : ℕ)
    → info.is_circular ≡ false
    → calculate_circular_io_size (some info) o n ≡ n
unfolding calculate_circular_io_size
io_size_plain info o n e = rw e refl

-- A read that does not give all of the wanted size passes a range.
pub fewer :
    (job : Job) (o t wanted : ℕ) (r : Read job.slm_lba_info (o + t) wanted) (n : ℕ)
    → r.length < wanted
    → left job.slm_lba_info.sre (o + t) ≤ suc n
    → left job.slm_lba_info.sre (o + (t + r.length)) ≤ n
fewer job o t wanted r n h d =
    let at : o + (t + r.length) ≡ o + t + r.length = omega arith in
    rw at (ground (arith, r.read-most))

module _ (latency : ℕ → ℕ → Option (ℕ × ℕ)) (io_req : ℕ → IoReq) (job : Job) where
  request_plain :
      (o w n : ℕ)
      → calculate_io_size job.slm_lba_info o w ≡ ok n
      → job.slm_lba_info.is_circular ≡ false
      → request_size latency io_req job o w ≡ ok n
  unfolding request_size
  request_plain o w n e f = rw e (ap ok (io_size_plain job.slm_lba_info o n f))

  pub issue_step :
      (i : ℕ) (ids : List ℕ) (o w lba n : ℕ) (last : Bool) (times : ℕ × ℕ) (s : Load)
      → calculate_lba job.slm_lba_info o ≡ ok lba
      → calculate_io_size job.slm_lba_info o w ≡ ok n
      → job.slm_lba_info.is_circular ≡ false
      → (n == 0) ≡ false
      → latency lba n ≡ some times
      → is_free (io_req i).io_req_status ≡ true
      → is_last job s o n ≡ ok last
      → issue latency io_req job (i ∷ ids) o w s ≡ (
          let entry : ℕ × IoReq = (i, io_req_of job s o lba n last times) in
          let s' = put_req job s ids o n entry in
          if ltb s'.total_issued_size job.target_total_size
          then issue latency io_req job ids
              (o + n)
              (job.target_total_size - s'.total_issued_size)
              s'
          else ok s')
  unfolding issue
  issue_step i ids o w lba n last times s e1 e2 e3 e4 e5 e6 e7 =
      rw (e1, request_plain o w n e2 e3, e4, e5, e6, e7) refl

peek : (x : Result ℕ) {n : ℕ} → x ≡ ok n → (b : Bool) × ((x >>= (λ next. ok (next == 0))) ≡ ok b)
peek x {n} e = (n == 0, rw e refl)

-- The look ahead at the next size always has an answer.
pub is_last_ok :
    (job : Job) (s : Load) (o n : ℕ)
    → Sound job.slm_lba_info
    → job.target_total_size < 4611686018427387904
    → (last : Bool) × (is_last job s o n ≡ ok last)
is_last_ok job s o n v h =
    let issued = s.total_issued_size + n in
    elim (Bool-cases (leb job.target_total_size issued)) [
      | inl t ↦ (true, rw t refl)
      | inr t ↦
          let q = peek _ (
            io_size_at job.slm_lba_info (o + n) (job.target_total_size - issued) v.opens
              (omega arith)) in
          (q.0, rw t q.1)
    ]

module _ (latency : ℕ → ℕ → Option (ℕ × ℕ)) (io_req : ℕ → IoReq) (job : Job) where
  pub issue_nil : (o w : ℕ) (s : Load) → issue latency io_req job [] o w s ≡ ok s
  unfolding issue
  issue_nil o w s = refl

  pub issue_stop :
      (i : ℕ) (ids : List ℕ) (o w lba n : ℕ) (s : Load)
      → calculate_lba job.slm_lba_info o ≡ ok lba
      → calculate_io_size job.slm_lba_info o w ≡ ok n
      → job.slm_lba_info.is_circular ≡ false
      → ((n == 0) ≡ true) ⊎ (((n == 0) ≡ false) × (latency lba n ≡ none))
      → issue latency io_req job (i ∷ ids) o w s ≡ ok s
  unfolding issue
  issue_stop i ids o w lba n s e1 e2 e3 (inl z) =
      rw (e1, request_plain latency io_req job o w n e2 e3, z) refl
  issue_stop i ids o w lba n s e1 e2 e3 (inr (z, x)) =
      rw (e1, request_plain latency io_req job o w n e2 e3, z, x) refl
