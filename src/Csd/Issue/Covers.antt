-- ===== src/Csd/Issue/Covers.antt =====
-- The requests of a load read its source ranges byte for byte.
use flax.Base.{
  ℕ, ◌+◌, ◌-◌, ◌≤◌, ◌<◌, ◌≡◌, refl, ap, ◌∙◌, true, false, Option, some, List, [], ◌∷◌, length,
  arith, ltb, ltb→lt, Bool-cases, Option-cases, inl, inr, ◌⊎◌, Result, ok,
}
use flax.Csd.Ranges.Bytes.{total, left, left_zero}
use flax.Csd.Ranges.Read.{Read, read_lem, size_past, lba_at}
use flax.Csd.Issue.{IoReq, Job, Load, io_req_of, put_req, issue}
use flax.Csd.Issue.Steps.{
  Sound, AllFree, Covered, put_req-Covered, is_last_ok, fewer, not_zero, lt_or_ge, issue_nil,
  issue_stop, issue_step, not_none,
}

-- What the loop leaves: a state in which what was read is the next part of the stream.
record Outcome (job : Job) (o : ℕ) (s : Load) (ids : List ℕ) (answers : Type 0) (r : Result Load)
    : Type 0 where
  after : Load
  returns : r ≡ ok after
  covered : Covered job.slm_lba_info o after
  complete :
      answers
      → left job.slm_lba_info.sre (o + s.total_issued_size) ≤ length ids
      → (job.target_total_size ≤ after.total_issued_size)
        ⊎ (total job.slm_lba_info.sre ≤ o + after.total_issued_size)

module _ (latency : ℕ → ℕ → Option (ℕ × ℕ)) (io_req : ℕ → IoReq) (job : Job) where
  abbrev pub Answers : Type 0
  Answers = (lba n : ℕ) → (times : ℕ × ℕ) × (latency lba n ≡ some times)

  stays :
      (ids : List ℕ) (o wanted : ℕ) (s : Load)
      → Sound job.slm_lba_info
      → job.slm_lba_info.is_circular ≡ false
      → wanted < 4611686018427387904
      → Covered job.slm_lba_info o s
      → total job.slm_lba_info.sre ≤ o + s.total_issued_size
      → (i : ℕ)
      → Outcome job o s
          (i ∷ ids)
          Answers
          (issue latency io_req job (i ∷ ids) (o + s.total_issued_size) wanted s)
  stays ids o wanted s v e k c past i = record {
    after = s;
    returns =
        issue_stop latency io_req job i ids (o + s.total_issued_size) wanted _ 0 s
          (lba_at job.slm_lba_info (o + s.total_issued_size) v.opens v.addressed)
          (size_past job.slm_lba_info (o + s.total_issued_size) wanted v.opens past k) e (inl refl);
    covered = c;
    complete = λ a d. inr past;
  }

  goes_on :
      (i : ℕ) (ids : List ℕ) (o wanted : ℕ) (s : Load)
      → Sound job.slm_lba_info
      → job.slm_lba_info.is_circular ≡ false
      → AllFree io_req (i ∷ ids)
      → job.target_total_size < 4611686018427387904
      → 0 < wanted
      → job.target_total_size ≤ s.total_issued_size + wanted
      → Covered job.slm_lba_info o s
      → (times : ℕ × ℕ) → (r : Read job.slm_lba_info (o + s.total_issued_size) wanted)
      → latency r.lba r.length ≡ some times
      → ((w : ℕ) (t : Load)
          → 0 < w
          → w < 4611686018427387904
          → job.target_total_size ≤ t.total_issued_size + w
          → Covered job.slm_lba_info o t
          → Outcome job o t ids Answers
              (issue latency io_req job ids (o + t.total_issued_size) w t))
      → Outcome job o s
          (i ∷ ids)
          Answers
          (issue latency io_req job (i ∷ ids) (o + s.total_issued_size) wanted s)
  goes_on i ids o wanted s v e f b h g c times r x rest =
      let p = o + s.total_issued_size in
      let last = is_last_ok job s p r.length v b in
      let step =
        issue_step latency io_req job i ids p wanted r.lba r.length last.0 times s r.read-lba
          r.read-size e (not_zero r.length r.read-pos) x f.0 last.1 in
      let entry : ℕ × IoReq = (i, io_req_of job s p r.lba r.length last.0 times) in
      let s' = put_req job s ids p r.length entry in
      let c' = put_req-Covered job s ids o wanted i last.0 times r c in
      elim (Bool-cases (ltb s'.total_issued_size job.target_total_size)) [
        | inl more ↦
            let m : ltb (s.total_issued_size + r.length) job.target_total_size ≡ true = more in
            let w = job.target_total_size - s'.total_issued_size in
            let at : p + r.length ≡ o + s'.total_issued_size = omega arith in
            let k = ltb→lt (s.total_issued_size + r.length) job.target_total_size m in
            let g2 = rest w s' (omega arith) (omega arith) (omega arith) c' in
            record {
              after = g2.after;
              returns =
                  rw m at step ∙ ap (λ q. issue latency io_req job ids q w s') at ∙ g2.returns;
              covered = g2.covered;
              complete = λ a d.
                  g2.complete a
                    (fewer job o s.total_issued_size wanted r (length ids) (omega arith) d);
            }
        | inr enough ↦ record {
          after = s';
          returns = rw enough at step;
          covered = c';
          complete = λ a d. inl (ground arith);
        }
      ]

  issue_outcome :
      (ids : List ℕ) (o wanted : ℕ) (s : Load)
      → Sound job.slm_lba_info
      → job.slm_lba_info.is_circular ≡ false
      → AllFree io_req ids
      → job.target_total_size < 4611686018427387904
      → 0 < wanted
      → wanted < 4611686018427387904
      → job.target_total_size ≤ s.total_issued_size + wanted
      → Covered job.slm_lba_info o s
      → Outcome job o s ids Answers
          (issue latency io_req job ids (o + s.total_issued_size) wanted s)
  issue_outcome [] o wanted s v e f b h k g c = record {
    after = s;
    returns = issue_nil latency io_req job (o + s.total_issued_size) wanted s;
    covered = c;
    complete = λ a d. inr (left_zero job.slm_lba_info.sre (o + s.total_issued_size) d);
  }
  issue_outcome (i ∷ ids) o wanted s v e f b h k g c =
      let p = o + s.total_issued_size in
      let info = job.slm_lba_info in
      elim (lt_or_ge p (total info.sre)) [
        | inr past ↦ stays ids o wanted s v e k c past i
        | inl inside ↦
            let r = read_lem info p wanted v.opens v.addressed v.fits inside h k in
            elim (Option-cases (latency r.lba r.length)) [
              | inl x ↦ (record {
                after = s;
                returns =
                    issue_stop latency io_req job i ids p wanted r.lba r.length s r.read-lba
                      r.read-size e (inr (not_zero r.length r.read-pos, x));
                covered = c;
                complete = λ a d. absurd (not_none x (a r.lba r.length).1);
              })
              | inr (times, x) ↦
                  goes_on i ids o wanted s v e f b h g c times r x
                    (λ w t h' k' g' c'. issue_outcome ids o w t v e f.1 b h' k' g' c')
            ]
      ]

  -- The requests of a load read its stream byte for byte: at whatever request the loop stops, it
  -- returns, and the bytes behind the addresses of the enqueued requests are the next bytes of the
  -- ranges, as many as it counts. The first range is not empty, the region is not a ring, and the
  -- requests of the free list are free.
  pub issue-Covered :
      (ids : List ℕ) (o wanted : ℕ) (s : Load)
      → Sound job.slm_lba_info
      → job.slm_lba_info.is_circular ≡ false
      → AllFree io_req ids
      → job.target_total_size < 4611686018427387904
      → 0 < wanted
      → wanted < 4611686018427387904
      → job.target_total_size ≤ s.total_issued_size + wanted
      → Covered job.slm_lba_info o s
      → (s' : Load) × (issue latency io_req job ids (o + s.total_issued_size) wanted s ≡ ok s')
        × Covered job.slm_lba_info o s'
  issue-Covered ids o wanted s v e f b h k g c =
      let r = issue_outcome ids o wanted s v e f b h k g c in (r.after, r.returns, r.covered)

  -- With one free request for each range that is not yet passed, and a flash that answers, the loop
  -- reads all of the wanted size, or the ranges to their end.
  pub issue_complete :
      (ids : List ℕ) (o wanted : ℕ) (s : Load)
      → Sound job.slm_lba_info
      → job.slm_lba_info.is_circular ≡ false
      → AllFree io_req ids
      → job.target_total_size < 4611686018427387904
      → 0 < wanted
      → wanted < 4611686018427387904
      → job.target_total_size ≤ s.total_issued_size + wanted
      → Covered job.slm_lba_info o s
      → Answers
      → left job.slm_lba_info.sre (o + s.total_issued_size) ≤ length ids
      → (s' : Load) × (issue latency io_req job ids (o + s.total_issued_size) wanted s ≡ ok s')
        × ((job.target_total_size ≤ s'.total_issued_size)
            ⊎ (total job.slm_lba_info.sre ≤ o + s'.total_issued_size))
  issue_complete ids o wanted s v e f b h k g c a d =
      let r = issue_outcome ids o wanted s v e f b h k g c in (r.after, r.returns, r.complete a d)
