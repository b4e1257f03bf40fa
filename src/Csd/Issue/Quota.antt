-- ===== src/Csd/Issue/Quota.antt =====
-- csd_dispatcher.c, `__request_io`: how many rounds a load task may issue requests in, before the
-- loop of the quota.
use flax.Base.{
  ℕ, ◌+◌, ◌*◌, ◌/◌, ◌<◌, ◌≤◌, ◌≡◌, Bool, true, false, ◌&&◌, Option, some, none, arith, leb, ◌==◌,
  if◌then◌else◌, Bool-cases, inl, inr, add_size, Result, ok, ok-inj, ◌>>=◌, if-eq,
}
use flax.Slm.Region.{Info, minus_one}
use flax.Slm.Store.{Slm, Step, region_of, page_of}
use flax.Slm.Notify.{get_latest_compute_ready}
use flax.Csd.Task.{TaskInfo}
use flax.Csd.Issue.Serve.{Wanted, want}

abbrev is_scheduled : Step → Bool
is_scheduled Step.schedule = true
is_scheduled _ = false

-- Whether the page map still leads to the region `p` of the task.
abbrev is_region : Option ℕ → ℕ → Bool
is_region none p = false
is_region (some q) p = q == p

abbrev owns : Slm → ℕ → ℕ → Bool
owns s addr p = is_region (region_of s addr) p

-- Where the consumer of a ring is, in bytes.
abbrev pub consumed : Info → ℕ
consumed info = if info.use_head_tail then info.ht_tail else info.compute_logical_offset

-- `compute_caught_up`; `request_size` is IO_REQUEST_SIZE.
unfoldable pub compute_caught_up : ℕ → Slm → TaskInfo → Info → Result Bool
compute_caught_up request_size s task info =
    if info.is_circular
    then ok (leb (task.requested_io_offset / 4096) (consumed info / 4096 + request_size / 4096 + 1))
    else get_latest_compute_ready s task.input_buf_addr >>= (λ latest. ok (
        leb (page_of s (add_size task.input_buf_addr task.requested_io_offset))
          (latest + request_size / 4096)))

abbrev pub streamed : Info → Bool → ℕ
streamed info caught_up =
    if caught_up && info.stream_access then 1 else if info.random_access then 1 else 0

-- `quota`, once the task has a quota left and owns its region.
unfoldable pub quota_of : ℕ → Slm → TaskInfo → Info → ℕ → Result ℕ
quota_of request_size s task info io_quota =
    if task.requested_io_offset == 0
    then ok io_quota
    else compute_caught_up request_size s task info >>= (λ c. ok (streamed info c))

-- `task->io_quota` before the rounds: 0 where the region is no longer the task's.
abbrev owned_quota : Slm → TaskInfo → ℕ → ℕ
owned_quota s task p =
    if owns s task.input_buf_addr p
    then (if (s.regions p).random_access then 1 else task.io_quota)
    else 0

-- The number of rounds of a task that has the region `p`.
abbrev pub region_quota : ℕ → Slm → TaskInfo → ℕ → Result ℕ
region_quota request_size s task p =
    if owned_quota s task p == 0
    then ok 0
    else quota_of request_size s task (s.regions p) (owned_quota s task p)

-- The number of rounds of a task of the list of the loads, 0 where it is passed over.
unfoldable pub round_quota : ℕ → Slm → TaskInfo → Result ℕ
round_quota request_size s task =
    if is_scheduled task.task_step
    then (elim task.slm_lba_info [ none ↦ ok 0 | some p ↦ region_quota request_size s task p ])
    else ok 0

zero_clash : {n : ℕ} → ok 0 ≡ ok n → 0 < n → ⊥
zero_clash {n} e h = absurd (omega (arith, ok-inj e, h))

-- A positive number of rounds comes from the test of the quota.
round_quota_runs :
    (request_size : ℕ) (s : Slm) (task : TaskInfo) (p n : ℕ)
    → task.slm_lba_info ≡ some p
    → round_quota request_size s task ≡ ok n
    → 0 < n
    → quota_of request_size s task (s.regions p) (owned_quota s task p) ≡ ok n
unfolding round_quota
round_quota_runs request_size s task p n e r h = elim (Bool-cases (is_scheduled task.task_step)) [
  | inr z ↦ absurd (zero_clash (rw z at r) h)
  | inl z ↦
      elim (if-eq (owned_quota s task p == 0) (ok 0)
        (quota_of request_size s task (s.regions p) (owned_quota s task p)) (rw (z, e) at r)) [
          | inl (_, x) ↦ absurd (zero_clash x h)
          | inr (_, x) ↦ x
        ]
]

-- Where the plain reads of a load stand and end; a region that is read at random has none.
want_plain :
    (request_size : ℕ) (task : TaskInfo) (info : Info) {w : Wanted}
    → want request_size task info minus_one ≡ some w
    → (info.random_access ≡ false)
      × (w.io_offset ≡ task.requested_io_offset)
      × (w.target_total_size ≤ request_size + 16384)
unfolding want
want_plain request_size task info e = (ground arith, ground arith, ground arith)

-- A ring that is streamed, not read at random, gives no round to a load that is further ahead of
-- the consumer than a request and two pages.
quota_of_near :
    (request_size : ℕ) (s : Slm) (task : TaskInfo) (info : Info) (io_quota n : ℕ)
    → info.is_circular ≡ true
    → info.random_access ≡ false
    → quota_of request_size s task info io_quota ≡ ok n
    → 0 < n
    → task.requested_io_offset ≤ consumed info + request_size + 8192
unfolding quota_of compute_caught_up
quota_of_near request_size s task info io_quota n ring r e h = ground (arith, ring, r)

-- The consumer of a ring bounds its load: a round that is granted without a demand read wants no
-- byte further from what is consumed than two requests of the usual size and six pages, wherever the
-- load stands.
pub round_quota-want :
    (request_size : ℕ) (s : Slm) (task : TaskInfo) (p n : ℕ) {w : Wanted}
    → task.slm_lba_info ≡ some p
    → (s.regions p).is_circular ≡ true
    → round_quota request_size s task ≡ ok n
    → 0 < n
    → want request_size task (s.regions p) minus_one ≡ some w
    → w.io_offset + w.target_total_size ≤ consumed (s.regions p) + 2 * request_size + 24576
round_quota-want request_size s task p n e ring r h v =
    let (plain, at, most) = want_plain request_size task (s.regions p) v in
    let near =
      quota_of_near request_size s task (s.regions p) (owned_quota s task p) n ring plain
        (round_quota_runs request_size s task p n e r h) h in
    omega (arith, at, most, near)
