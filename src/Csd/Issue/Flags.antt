-- ===== src/Csd/Issue/Flags.antt =====
-- Which request of a load is marked as the last: what its reclaim waits for to close a demand read.
use flax.Base.{
  ℕ, ◌+◌, ◌-◌, ◌≤◌, ◌<◌, ◌≡◌, refl, ap, ◌∙◌, true, false, Option, List, [], ◌∷◌, ◌++◌, length,
  arith, ltb, leb, ◌==◌, Bool-cases, inl, inr, ok,
}
use flax.Csd.Ranges.{calculate_io_size}
use flax.Csd.Ranges.Bytes.{total, left, left_zero}
use flax.Csd.Ranges.Read.{read_lem, size_past, lba_at}
use flax.Csd.Issue.{IoReq, Job, Load, is_last, io_req_of, put_req, issue}
use flax.Csd.Issue.Steps.{
  Sound, AllFree, issue_nil, issue_stop, issue_step, not_zero, lt_or_ge, fewer,
}
use flax.Csd.Issue.Covers.{Answers}

abbrev pub Unmarked : List (ℕ × IoReq) → Type 0
Unmarked [] = Unit
Unmarked (x ∷ xs) = (x.1.last_io ≡ false) × Unmarked xs

-- The last request is marked, and it alone.
abbrev pub MarksLast : List (ℕ × IoReq) → Type 0
MarksLast [] = ⊥
MarksLast (x ∷ []) = x.1.last_io ≡ true
MarksLast (x ∷ y ∷ zs) = (x.1.last_io ≡ false) × MarksLast (y ∷ zs)

snoc-Unmarked :
    (xs : List (ℕ × IoReq)) (i : ℕ) (r : IoReq)
    → Unmarked xs
    → r.last_io ≡ false
    → Unmarked (xs ++ (i, r) ∷ [])
snoc-Unmarked [] i r u e = (e, tt)
snoc-Unmarked (x ∷ xs) i r u e = (u.0, snoc-Unmarked xs i r u.1 e)

snoc-MarksLast :
    (xs : List (ℕ × IoReq)) (i : ℕ) (r : IoReq)
    → Unmarked xs
    → r.last_io ≡ true
    → MarksLast (xs ++ (i, r) ∷ [])
snoc-MarksLast [] i r u e = e
snoc-MarksLast (x ∷ []) i r u e = (u.0, e)
snoc-MarksLast (x ∷ y ∷ zs) i r u e = (u.0, snoc-MarksLast (y ∷ zs) i r u.1 e)

leb_pos : (a b : ℕ) → leb b a ≡ false → 0 < b - a
leb_pos a b e = ground arith

ltb-leb : (a b : ℕ) → leb b a ≡ true → ltb a b ≡ false
ltb-leb a b e = ground arith

leb-ltb : (a b : ℕ) → leb b a ≡ false → ltb a b ≡ true
leb-ltb a b e = ground arith

-- The look ahead, in its three cases.
last_done :
    (job : Job) (s : Load) (o n : ℕ)
    → leb job.target_total_size (s.total_issued_size + n) ≡ true
    → is_last job s o n ≡ ok true
last_done job s o n e = rw e refl

last_peek :
    (job : Job) (s : Load) (o n m : ℕ)
    → leb job.target_total_size (s.total_issued_size + n) ≡ false
    → calculate_io_size job.slm_lba_info (o + n) (job.target_total_size - (s.total_issued_size + n))
      ≡ ok m
    → is_last job s o n ≡ ok (m == 0)
last_peek job s o n m e f = rw (e, f) refl

module _ (latency : ℕ → ℕ → Option (ℕ × ℕ)) (io_req : ℕ → IoReq) (job : Job) where
  -- Past the ranges the loop stops, whether or not a request is free.
  issue_past :
      (ids : List ℕ) (o w : ℕ) (s : Load)
      → Sound job.slm_lba_info
      → job.slm_lba_info.is_circular ≡ false
      → w < 4611686018427387904
      → total job.slm_lba_info.sre ≤ o
      → issue latency io_req job ids o w s ≡ ok s
  issue_past [] o w s v e k past = issue_nil latency io_req job o w s
  issue_past (i ∷ ids) o w s v e k past =
      issue_stop latency io_req job i ids o w _ 0 s (lba_at job.slm_lba_info o v.opens v.addressed)
        (size_past job.slm_lba_info o w v.opens past k) e (inl refl)

  pub issue-MarksLast :
      (ids : List ℕ) (o wanted : ℕ) (s : Load)
      → Sound job.slm_lba_info
      → job.slm_lba_info.is_circular ≡ false
      → AllFree io_req ids
      → job.target_total_size < 4611686018427387904
      → 0 < wanted
      → wanted < 4611686018427387904
      → job.target_total_size ≤ s.total_issued_size + wanted
      → o + s.total_issued_size < total job.slm_lba_info.sre
      → Answers latency io_req job
      → left job.slm_lba_info.sre (o + s.total_issued_size) ≤ length ids
      → Unmarked s.enqueued
      → (s' : Load) × (issue latency io_req job ids (o + s.total_issued_size) wanted s ≡ ok s')
        × MarksLast s'.enqueued
  issue-MarksLast [] o wanted s v e f b h k g inside a d u =
      absurd (omega (arith, left_zero job.slm_lba_info.sre (o + s.total_issued_size) d))
  issue-MarksLast (i ∷ ids) o wanted s v e f b h k g inside a d u =
      let p = o + s.total_issued_size in
      let info = job.slm_lba_info in
      let r = read_lem info p wanted v.opens v.addressed v.fits inside h k in
      let n = r.length in
      let issued = s.total_issued_size + n in
      let t = a r.lba n in
      let w = job.target_total_size - issued in
      let moved : p + n ≡ o + issued = omega arith in
      elim (Bool-cases (leb job.target_total_size issued)) [
        | inl all ↦ (
          put_req job s ids p n (i, io_req_of job s p r.lba n true t.0),
          rw (ltb-leb issued job.target_total_size all) at (
              issue_step latency io_req job i ids p wanted r.lba n true t.0 s r.read-lba r.read-size
                e (not_zero n r.read-pos) t.1 f.0 (last_done job s p n all)),
          snoc-MarksLast s.enqueued i (io_req_of job s p r.lba n true t.0) u refl,
        )
        | inr part ↦ elim (lt_or_ge (p + n) (total info.sre)) [
          | inr past ↦
              let s' = put_req job s ids p n (i, io_req_of job s p r.lba n true t.0) in
              (
                s',
                rw (leb-ltb issued job.target_total_size part) at (
                      issue_step latency io_req job i ids p wanted r.lba n true t.0 s r.read-lba
                        r.read-size e (not_zero n r.read-pos) t.1 f.0
                        (last_peek job s p n 0 part
                          (size_past info (p + n) w v.opens past (omega arith))))
                    ∙ issue_past ids (p + n) w s' v e (omega arith) past,
                snoc-MarksLast s.enqueued i (io_req_of job s p r.lba n true t.0) u refl,
              )
          | inl more ↦
              let left_over = leb_pos issued job.target_total_size part in
              let r2 =
                read_lem info (p + n) w v.opens v.addressed v.fits more left_over (omega arith) in
              let s' = put_req job s ids p n (i, io_req_of job s p r.lba n false t.0) in
              let look : is_last job s p n ≡ ok false =
                last_peek job s p n r2.length part r2.read-size
                ∙ ap ok (not_zero r2.length r2.read-pos) in
              let q =
                issue-MarksLast ids o w s' v e f.1 b left_over (omega arith) (omega arith)
                  (omega arith) a
                  (fewer job o s.total_issued_size wanted r (length ids) (omega arith) d)
                  (snoc-Unmarked s.enqueued i (io_req_of job s p r.lba n false t.0) u refl) in
              (
                q.0,
                rw (leb-ltb issued job.target_total_size part) at (
                      issue_step latency io_req job i ids p wanted r.lba n false t.0 s r.read-lba
                        r.read-size e (not_zero n r.read-pos) t.1 f.0 look)
                    ∙ ap (λ x. issue latency io_req job ids x w s') moved
                    ∙ q.1,
                q.2,
              )
        ]
      ]
