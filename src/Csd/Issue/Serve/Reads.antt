-- ===== src/Csd/Issue/Serve/Reads.antt =====
-- What a round of a load reads: the loop's theorems, for the state that the round starts it in.
use flax.Base.{
  ℕ, ◌+◌, ◌≤◌, ◌<◌, ◌≡◌, refl, ap, ◌∙◌, false, Option, some, List, length, arith, ◌⊎◌, ok, take,
  drop, ◌==◌, ◌>>=◌,
}
use flax.Slm.Region.{Info, minus_one}
use flax.Csd.Task.{TaskInfo}
use flax.Csd.Ranges.Bytes.{total, bytes, left}
use flax.Csd.Issue.{IoReq, Load, issue}
use flax.Csd.Issue.Steps.{Sound, AllFree, copied}
use flax.Csd.Issue.Covers.{issue-Covered, issue_complete}
use flax.Csd.Issue.Flags.{MarksLast, issue-MarksLast}
use flax.Csd.Issue.Serve.{Wanted, want, job_of, at_start, serve, after_loop}

-- The sizes of a round, far below what a machine word holds. A round that serves a demand read also
-- has its size, which is not 0; any other round does not look at it.
pub record Sizes (request_size : ℕ) (task : TaskInfo) (info : Info) (demand : ℕ) : Type 0 where
  pub request : request_size < 4611686018427387904
  pub whole : task.total_size < 4611686018427387904
  pub demanded : (demand == minus_one) ≡ false → 0 < info.demand_read_size
  pub demanded-fits : (demand == minus_one) ≡ false → info.demand_read_size < 4611686018427387904

-- What is wanted is at most the size of the first request.
pub record Bounded (w : Wanted) : Type 0 where
  pub positive : 0 < w.io_size
  pub small : w.io_size < 4611686018427387904
  pub within : w.target_total_size ≤ w.io_size

want-Bounded :
    (request_size : ℕ) (task : TaskInfo) (info : Info) (demand : ℕ) {w : Wanted}
    → Sizes request_size task info demand
    → want request_size task info demand ≡ some w
    → Bounded w
unfolding want
want-Bounded request_size task info demand z e = record {
  positive = ground (arith, z.demanded);
  small = ground (arith, z.demanded-fits, z.request);
  within = ground arith;
}

module _ (request_size : ℕ) (latency : ℕ → ℕ → Option (ℕ × ℕ)) (io_req : ℕ → IoReq)
    (task : TaskInfo) (info : Info) (demand enqueuing : ℕ) (ids : List ℕ) (w : Wanted) where
  serve-some :
      want request_size task info demand ≡ some w
      → serve request_size latency io_req task info demand enqueuing ids ≡ (
          issue latency io_req
            (job_of task info demand w)
            ids
            (w.io_offset + 0)
            w.io_size
            (at_start task enqueuing ids)
          >>= (λ s. ok (after_loop ids s)))
  unfolding serve
  serve-some e =
      let f : w.io_offset ≡ w.io_offset + 0 = omega arith in
      rw (e, serve)
        (ap
          (λ o.
            issue latency io_req (job_of task info demand w) ids o w.io_size
              (at_start task enqueuing ids)
            >>= (λ s. ok (after_loop ids s)))
          f)

  serve_returns :
      {s : Load}
      → want request_size task info demand ≡ some w
      → issue latency io_req
          (job_of task info demand w)
          ids
          (w.io_offset + 0)
          w.io_size
          (at_start task enqueuing ids)
        ≡ ok s
      → serve request_size latency io_req task info demand enqueuing ids ≡ ok (after_loop ids s)
  serve_returns e r = serve-some e ∙ ap (λ x. x >>= (λ s. ok (after_loop ids s))) r

  -- Each round reads on in the stream of the source ranges: it returns, whatever the flash answers
  -- and however few requests are free, and what is copied for its requests are the bytes of the
  -- ranges from the wanted offset on, as many as it counts, so that no byte is left out, read twice
  -- or taken from beyond a range. The region is not a ring, its first range is not empty, the ranges
  -- and sizes are below 2 ^ 62 bytes, the first sector and the length of each range add up to less
  -- than 2 ^ 54, a demand read that is served has a size that is not 0, the wanted offset lies in the
  -- ranges, and the requests of the free list are free.
  pub serve-reads :
      want request_size task info demand ≡ some w
      → Sizes request_size task info demand
      → Sound info
      → info.is_circular ≡ false
      → AllFree io_req ids
      → w.io_offset < total info.sre
      → (s : Load) × (serve request_size latency io_req task info demand enqueuing ids ≡ ok s)
        × (copied s.enqueued ≡ take s.total_issued_size (drop w.io_offset (bytes info.sre)))
  serve-reads e z v c f h =
      let b = want-Bounded request_size task info demand z e in
      let r =
        issue-Covered latency io_req (job_of task info demand w) ids w.io_offset w.io_size
          (at_start task enqueuing ids) v c f (omega (arith, b.within, b.small)) b.positive b.small
          (omega (arith, b.within)) (record { in_range = omega arith; reads = refl }) in
      (after_loop ids r.0, serve_returns e r.1, r.2.reads)

  -- A round that finds one free request for each range from the wanted offset on, and a flash that
  -- answers, issues all that it wants, or reads the ranges to their end. As before, the region is
  -- not a ring, its first range is not empty, the ranges and sizes are below 2 ^ 62 bytes, the
  -- first sector and the length of each range add up to less than 2 ^ 54, a demand read that is
  -- served has a size that is not 0, the wanted offset lies in the ranges, and the requests of the
  -- free list are free.
  pub serve_enough :
      want request_size task info demand ≡ some w
      → Sizes request_size task info demand
      → Sound info
      → info.is_circular ≡ false
      → AllFree io_req ids
      → w.io_offset < total info.sre
      → ((lba n : ℕ) → (times : ℕ × ℕ) × (latency lba n ≡ some times))
      → left info.sre w.io_offset ≤ length ids
      → (s : Load) × (serve request_size latency io_req task info demand enqueuing ids ≡ ok s)
        × ((w.target_total_size ≤ s.total_issued_size)
            ⊎ (total info.sre ≤ w.io_offset + s.total_issued_size))
  serve_enough e z v c f h a d =
      let b = want-Bounded request_size task info demand z e in
      let g : w.io_offset + 0 ≡ w.io_offset = omega arith in
      let r =
        issue_complete latency io_req (job_of task info demand w) ids w.io_offset w.io_size
          (at_start task enqueuing ids) v c f (omega (arith, b.within, b.small)) b.positive b.small
          (omega (arith, b.within)) (record { in_range = omega arith; reads = refl }) a (rw g d) in
      (after_loop ids r.0, serve_returns e r.1, r.2)

  -- Under the conditions of `serve_enough` the last request of the round is marked as the last, and
  -- no other: this is what closes a demand read.
  pub serve-MarksLast :
      want request_size task info demand ≡ some w
      → Sizes request_size task info demand
      → Sound info
      → info.is_circular ≡ false
      → AllFree io_req ids
      → w.io_offset < total info.sre
      → ((lba n : ℕ) → (times : ℕ × ℕ) × (latency lba n ≡ some times))
      → left info.sre w.io_offset ≤ length ids
      → (s : Load) × (serve request_size latency io_req task info demand enqueuing ids ≡ ok s)
        × MarksLast s.enqueued
  serve-MarksLast e z v c f h a d =
      let b = want-Bounded request_size task info demand z e in
      let g : w.io_offset + 0 ≡ w.io_offset = omega arith in
      let r =
        issue-MarksLast latency io_req (job_of task info demand w) ids w.io_offset w.io_size
          (at_start task enqueuing ids) v c f (omega (arith, b.within, b.small)) b.positive b.small
          (omega (arith, b.within)) (rw g h) a (rw g d) tt in
      (after_loop ids r.0, serve_returns e r.1, r.2)
