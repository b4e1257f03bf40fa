-- ===== src/Csd/Issue/Serve.antt =====
-- csd_dispatcher.c, one round of `__request_io` for a load task: what it wants to read, and the
-- requests that it issues for that.
pub mod Reads
use flax.Base.{
  ℕ, zero, suc, ◌+◌, ◌-◌, ◌≤◌, ◌<◌, ◌≡◌, refl, ap, ◌∙◌, Bool, true, false, ◌&&◌, not, Option, some,
  none, List, [], ◌∷◌, length, arith, ltb, leb, ◌==◌, if◌then◌else◌, Bool-cases, inl, inr, ◌⊎◌,
  Result, ok, ◌>>=◌, take, drop,
}
use flax.Slm.Region.{Info, minus_one}
use flax.Csd.Task.{TaskInfo}
use flax.Csd.Issue.{IoReq, Job, Load, issue}

-- `MIN_IO_REQUEST_SIZE`
abbrev min_io_request_size : ℕ
min_io_request_size = 16384

-- Where the round starts, the size of its first request, and the size it wants.
pub record Wanted : Type 0 where
  pub io_offset : ℕ
  pub io_size : ℕ
  pub target_total_size : ℕ

-- `remaining`, 0 where the task has asked for more than its size.
abbrev pub remaining_size : TaskInfo → ℕ
remaining_size task =
    if ltb task.total_size task.requested_io_offset
    then 0
    else task.total_size - task.requested_io_offset

-- `io_size` before a demand read: a page at first, cut to the rest and raised to the least size.
-- `request_size` is IO_REQUEST_SIZE.
abbrev pub plain_size : ℕ → TaskInfo → ℕ
plain_size request_size task =
    let asked = if task.requested_io_offset == 0 then 4096 else request_size in
    let in_rest = if ltb (remaining_size task) asked then remaining_size task else asked in
    if ltb in_rest min_io_request_size then min_io_request_size else in_rest

-- The round up to the loop, or none where it breaks off; `demand` is `demand_read_offset`.
unfoldable pub want : ℕ → TaskInfo → Info → ℕ → Option Wanted
want request_size task info demand =
    if demand == minus_one
    then (if remaining_size task == 0
        then none
        else if info.random_access
        then none
        else some (record {
          io_offset = task.requested_io_offset;
          io_size = plain_size request_size task;
          target_total_size =
              if ltb (remaining_size task) (plain_size request_size task)
              then remaining_size task
              else plain_size request_size task;
        }))
    else some (record {
      io_offset = demand;
      io_size = info.demand_read_size;
      target_total_size = info.demand_read_size;
    })

abbrev pub job_of : TaskInfo → Info → ℕ → Wanted → Job
job_of task info demand w = record {
  generation_id = task.generation_id;
  input_buf_addr = task.input_buf_addr;
  total_size = task.total_size;
  slm_lba_info = info;
  demand = not (demand == minus_one);
  target_total_size = w.target_total_size;
}

-- Before the loop: `enqueuing` bytes are under way, and the free list is `ids`.
abbrev pub at_start : TaskInfo → ℕ → List ℕ → Load
at_start task enqueuing ids = record {
  requested_io_offset = task.requested_io_offset;
  internal_io_count = task.internal_io_count;
  enqueuing_io_size = enqueuing;
  total_issued_size = 0;
  free_list = ids;
  enqueued = [];
  notified = [];
  io_quota = task.io_quota;
}

-- `task->io_quota` after a round that breaks off before the loop: 0 where all is asked for.
abbrev quota_without : TaskInfo → ℕ → ℕ
quota_without task demand =
    if remaining_size task == 0 && demand == minus_one then 0 else task.io_quota

-- After one that has a free request for the loop, and else breaks off too.
abbrev quota_with : List ℕ → ℕ → ℕ
quota_with [] quota = quota
quota_with (i ∷ ids) quota = quota - 1

abbrev pub after_loop : List ℕ → Load → Load
after_loop ids s = record s { io_quota = quota_with ids s.io_quota }

module _ (request_size : ℕ) (latency : ℕ → ℕ → Option (ℕ × ℕ)) (io_req : ℕ → IoReq) where
  -- One round of the quota.
  unfoldable pub serve : TaskInfo → Info → ℕ → ℕ → List ℕ → Result Load
  serve task info demand enqueuing ids = elim (want request_size task info demand) [
    | none ↦ ok (record (at_start task enqueuing ids) { io_quota = quota_without task demand })
    | some w ↦
        issue latency io_req (job_of task info demand w) ids w.io_offset w.io_size
          (at_start task enqueuing ids)
        >>= (λ s. ok (after_loop ids s))
  ]
