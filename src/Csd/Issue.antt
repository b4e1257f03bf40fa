-- ===== src/Csd/Issue.antt =====
-- csd_dispatcher.c, the loop of `__request_io` that issues the requests of one load: each takes a
-- free request, up to the wanted size, the end of the ranges or the last free request.
-- `csd_get_target_latency` is the parameter `latency`: when the flash starts and when it is done,
-- or none for an error.
pub mod Steps
pub mod Covers
pub mod Flags
pub mod Serve
pub mod Quota
use flax.Base.{
  ℕ, ◌+◌, ◌-◌, Bool, true, false, Option, none, some, List, [], ◌∷◌, ◌++◌, ltb, leb, ◌==◌,
  if◌then◌else◌, add_size, ◌&&◌, Result, ok, ◌>>=◌, assert,
}
use flax.Slm.Region.{Info}
use flax.Csd.Ranges.{
  calculate_lba, calculate_io_size, calculate_local_offset, calculate_circular_buf_addr,
  calculate_circular_io_size,
}

-- `enum CSD_INTERNAL_IO_REQ_STATUS`
pub data IoReqStatus : Type 0 where
  free alloc ready waiting_time done end : IoReqStatus

abbrev pub is_free : IoReqStatus → Bool
is_free IoReqStatus.free = true
is_free _ = false

-- `struct csd_internal_io_req` without its links.
pub record IoReq : Type 0 where
  pub nsecs_nand_start : ℕ
  pub nsecs_target : ℕ
  pub task_id : ℕ
  pub io_req_status : IoReqStatus
  pub lba : ℕ
  pub local_offset : ℕ
  pub buf_addr : ℕ
  pub length : ℕ
  pub stream_offset : ℕ
  pub last_io : Bool
  pub sequential_last_io : Bool
  pub demand_read : Bool

-- What the loop reads and does not change: the load task's fields, its region, whether a demand
-- read is served, and the wanted size.
pub record Job : Type 0 where
  pub generation_id : ℕ
  pub input_buf_addr : ℕ
  pub total_size : ℕ
  pub slm_lba_info : Info
  pub demand : Bool
  pub target_total_size : ℕ

-- What it changes: the task's offset, count and quota, the size that is under way, the free requests, the
-- requests that were handed to the SLM queues, and the addresses at which
-- `notify_slm_demand_read_requested` was called. `enqueued` and `notified` are in order.
pub record Load : Type 0 where
  pub requested_io_offset : ℕ
  pub internal_io_count : ℕ
  pub enqueuing_io_size : ℕ
  pub total_issued_size : ℕ
  pub free_list : List ℕ
  pub enqueued : List (ℕ × IoReq)
  pub notified : List ℕ
  pub io_quota : ℕ

-- `io_req->buf_addr`
abbrev pub target_addr : Job → Load → ℕ → ℕ
target_addr job s io_offset =
    if job.demand && job.slm_lba_info.extent_mapped
    then add_size job.slm_lba_info.demand_read_slm_target s.total_issued_size
    else calculate_circular_buf_addr (some job.slm_lba_info) job.input_buf_addr io_offset

-- The first request of a demand read notifies that it is under way.
abbrev pub notify_at : Job → Load → ℕ → List ℕ
notify_at job s demand_read_offset =
    if job.demand && s.total_issued_size == 0
    then (if job.slm_lba_info.extent_mapped
        then s.notified ++ job.input_buf_addr ∷ []
        else s.notified ++ add_size job.input_buf_addr demand_read_offset ∷ [])
    else s.notified

abbrev pub advance : Job → Load → ℕ → ℕ
advance job s io_size =
    if job.demand then s.requested_io_offset else add_size s.requested_io_offset io_size

abbrev pub logical_total : Job → ℕ
logical_total job =
    if job.slm_lba_info.is_circular then job.slm_lba_info.logical_total_size else job.total_size

-- `io_req->last_io`, with its look ahead at the size of the next request.
abbrev pub is_last : Job → Load → ℕ → ℕ → Result Bool
is_last job s io_offset io_size =
    let issued = s.total_issued_size + io_size in
    if leb job.target_total_size issued
    then ok true
    else calculate_io_size job.slm_lba_info (io_offset + io_size) (job.target_total_size - issued)
      >>= (λ next. ok (next == 0))

-- The request, as it is put on an SLM queue.
abbrev pub io_req_of : Job → Load → ℕ → ℕ → ℕ → Bool → ℕ × ℕ → IoReq
io_req_of job s io_offset lba io_size last (nand_start, target) = record {
  nsecs_nand_start = nand_start;
  nsecs_target = target;
  task_id = job.generation_id;
  io_req_status = IoReqStatus.ready;
  lba = lba;
  local_offset = calculate_local_offset job.slm_lba_info io_offset;
  buf_addr = target_addr job s io_offset;
  length = io_size;
  stream_offset = io_offset;
  last_io = last;
  sequential_last_io = leb (logical_total job) (add_size (advance job s io_size) io_size);
  demand_read = job.demand;
}

abbrev pub put_req : Job → Load → List ℕ → ℕ → ℕ → ℕ × IoReq → Load
put_req job s ids io_offset io_size entry = record {
  requested_io_offset = advance job s io_size;
  internal_io_count = s.internal_io_count + 1;
  enqueuing_io_size = add_size s.enqueuing_io_size io_size;
  total_issued_size = s.total_issued_size + io_size;
  free_list = ids;
  enqueued = s.enqueued ++ entry ∷ [];
  notified = notify_at job s io_offset;
  io_quota = s.io_quota;
}

module _ (latency : ℕ → ℕ → Option (ℕ × ℕ)) (io_req : ℕ → IoReq) (job : Job) where
  -- The size of one request, `io_size` after the two calls that cut it.
  unfoldable pub request_size : ℕ → ℕ → Result ℕ
  request_size io_offset wanted =
      calculate_io_size job.slm_lba_info io_offset wanted
      >>= (λ n. ok (calculate_circular_io_size (some job.slm_lba_info) io_offset n))

  -- The loop, from its io_offset and io_size on. `io_req` are the requests before it.
  unfoldable pub issue : List ℕ → ℕ → ℕ → Load → Result Load
  issue [] io_offset wanted s = ok s
  issue (i ∷ ids) io_offset wanted s =
      let again = issue ids in
      calculate_lba job.slm_lba_info io_offset >>= (λ lba.
        request_size io_offset wanted >>= (λ io_size.
          if io_size == 0 then ok s else elim (latency lba io_size) [
            | none ↦ ok s
            | some times ↦ assert (is_free (io_req i).io_req_status) (
                is_last job s io_offset io_size >>= (λ last.
                  let entry : ℕ × IoReq = (i, io_req_of job s io_offset lba io_size last times) in
                  let s' = put_req job s ids io_offset io_size entry in
                  if ltb s'.total_issued_size job.target_total_size
                  then again (io_offset + io_size) (job.target_total_size - s'.total_issued_size) s'
                  else ok s'))
          ]))
