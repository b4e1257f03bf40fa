-- ===== src/Csd/Tests.antt =====
-- Runs of the dispatcher's parts, and its theorems at concrete inputs.
mod Tables
use flax.Base.{
  ℕ, suc, ◌+◌, ◌*◌, ◌≡◌, ◌≢◌, ◌==◌, if◌then◌else◌, ◌≤◌, ◌<◌, ◌⊎◌, refl, ap, some, none, true, false,
  List, [], ◌∷◌, ◌++◌, Option, arith, length, ok, take, drop, run, Result,
}
use flax.Slm.Region.{Info, SourceRange, minus_one}
use flax.Slm.Memory.{alloc_slm_lba_info}
use flax.Slm.Store.{Slm, Step, region_of, get_slm_offset, task_id_none, task_pool_index}
use flax.Slm.Notify.{get_latest_compute_ready}
use flax.Buddy.{leaf, free}
use flax.Csd.Issue.Quota.{round_quota, quota_of, compute_caught_up, round_quota-want}
use flax.Csd.Task.{TaskInfo}
use flax.Csd.Ranges.{calculate_lba, calculate_io_size, calculate_local_offset, find_place}
use flax.Csd.Ranges.Bytes.{total, bytes, left}
use flax.Csd.Issue.{IoReq, IoReqStatus, Load, issue, request_size}
use flax.Csd.Issue.Steps.{Sound, copied}
use flax.Csd.Issue.Flags.{MarksLast}
use flax.Csd.Issue.Serve.{Wanted, want, serve}
use flax.Csd.Issue.Serve.Reads.{Sizes, serve-reads, serve_enough, serve-MarksLast}
use flax.Csd.Lists.{TaskList, Links, enqueue_task_multi, dequeue_task_multi}
use flax.Csd.Lists.Segments.{Segment, Distinct}
use flax.Csd.Lists.Moves.{IsList}
use flax.Csd.Lists.Enqueue.{enqueue-IsList}
use flax.Csd.Lists.Dequeue.{dequeue-IsList}
use flax.Csd.Table.{next_identifier}
use flax.Csd.Table.Identifiers.{next_identifier_lem}
use flax.Csd.Queue.{choose_queue}

-- 1000 bytes at sector 100, and 30000 bytes at sector 7.
abbrev ranges : List SourceRange
ranges = (record { saddr = 100; n_byte = 1000 }) ∷ (record { saddr = 7; n_byte = 30000 }) ∷ []

abbrev info : Info
info = alloc_slm_lba_info 0 65536 31000 128 ranges

abbrev load_task : TaskInfo
load_task = record {
  task_step = Step.schedule;
  proc_idx = 0;
  invalid = false;
  total_size = 31000;
  status = 0;
  slm_lba_info = some 1;
  requested_io_offset = 0;
  done_io_offset = 0;
  internal_io_count = 0;
  input_buf_addr = 65536;
  output_buf_addr = 65536;
  program_idx = 0;
  result = 0;
  processed_offset = 0;
  opcode = 1;
  host_id = 0;
  io_quota = 1;
  is_first_io = true;
  generation_id = 128;
}

abbrev idle_req : IoReq
idle_req = record {
  nsecs_nand_start = 0;
  nsecs_target = 0;
  task_id = 0;
  io_req_status = IoReqStatus.free;
  lba = 0;
  local_offset = 0;
  buf_addr = 0;
  length = 0;
  stream_offset = 0;
  last_io = false;
  sequential_last_io = false;
  demand_read = false;
}

abbrev reqs : ℕ → IoReq
reqs i = idle_req

abbrev latency : ℕ → ℕ → Option (ℕ × ℕ)
latency lba n = some (10, 20 + n)

-- Byte 1512 of the stream is byte 512 of the second range, its second sector.
lba_runs : calculate_lba info 1512 ≡ ok 8
unfolding calculate_lba find_place
lba_runs = refl

-- A read at 0 stops at the end of the first range.
size_runs : calculate_io_size info 0 16384 ≡ ok 1000
unfolding calculate_io_size find_place
size_runs = refl

abbrev wanted : Wanted
wanted = record { io_offset = 0; io_size = 16384; target_total_size = 16384 }

wants : want 32768 load_task info minus_one ≡ some wanted
unfolding want
wants = refl

sizes : Sizes 32768 load_task info minus_one
sizes = record {
  request = omega arith;
  whole = omega arith;
  demanded = λ e. ground arith;
  demanded-fits = λ e. omega arith;
}

sound : Sound info
sound = record {
  opens = omega arith;
  addressed = (omega arith, (omega arith, tt));
  fits = omega arith;
}

two_left : left info.sre 0 ≤ 2
unfolding left
two_left = omega arith

serve-reads_example :
    (s : Load) × (serve 32768 latency reqs load_task info minus_one 0 (3 ∷ 5 ∷ []) ≡ ok s)
    × (copied s.enqueued ≡ take s.total_issued_size (drop 0 (bytes ranges)))
serve-reads_example =
    serve-reads 32768 latency reqs load_task info minus_one 0 (3 ∷ 5 ∷ []) wanted wants sizes sound
      refl (refl, (refl, tt)) (omega arith)

serve_enough_example :
    (s : Load) × (serve 32768 latency reqs load_task info minus_one 0 (3 ∷ 5 ∷ []) ≡ ok s)
    × ((16384 ≤ s.total_issued_size) ⊎ (31000 ≤ 0 + s.total_issued_size))
serve_enough_example =
    serve_enough 32768 latency reqs load_task info minus_one 0 (3 ∷ 5 ∷ []) wanted wants sizes sound
      refl (refl, (refl, tt)) (omega arith) (λ lba n. ((10, 20 + n), refl)) two_left

serve-MarksLast_example :
    (s : Load) × (serve 32768 latency reqs load_task info minus_one 0 (3 ∷ 5 ∷ []) ≡ ok s)
    × MarksLast s.enqueued
serve-MarksLast_example =
    serve-MarksLast 32768 latency reqs load_task info minus_one 0 (3 ∷ 5 ∷ []) wanted wants sizes
      sound refl (refl, (refl, tt)) (omega arith) (λ lba n. ((10, 20 + n), refl)) two_left

-- The region of a stream whose consumer is at its third page.
abbrev streaming : Info
streaming = record info {
  stream_access = true;
  use_head_tail = true;
  is_circular = true;
  ht_tail = 8192;
}

abbrev slm : Slm
slm = record {
  start_addr = 0;
  allocator = leaf free 0 1048576 0;
  ready_info = λ page. some 1;
  regions = λ p. streaming;
  tasks = λ i. record {
    generation_id = 128;
    task_step = Step.schedule;
    program_idx = 0;
    slm_lba_info = some 1;
  };
}

abbrev asked_task : TaskInfo
asked_task = record load_task { requested_io_offset = 16384 }

quota_runs : round_quota 32768 slm asked_task ≡ ok 1
unfolding round_quota quota_of compute_caught_up get_slm_offset
quota_runs = refl

abbrev asked : Wanted
asked = record { io_offset = 16384; io_size = 16384; target_total_size = 14616 }

asks : want 32768 asked_task streaming minus_one ≡ some asked
unfolding want
asks = refl

round_quota-want_example : 16384 + 14616 ≤ 8192 + 2 * 32768 + 24576
round_quota-want_example =
    round_quota-want 32768 slm asked_task 1 1 refl refl quota_runs (omega arith) asks

next_identifier_lem_example :
    ((next_identifier 33554431 127).0 ≢ task_id_none)
    × (task_pool_index (next_identifier 33554431 127).0 ≡ 127)
    × ((next_identifier 33554431 127).0 < 4294967296)
next_identifier_lem_example = next_identifier_lem 33554431 127 (omega arith) (omega arith)

-- The identifier that means none is passed over.
identifier_runs : (next_identifier 33554431 127).0 ≡ 127
unfolding next_identifier
identifier_runs = refl

abbrev next_of : ℕ → Option ℕ
next_of i = if i == 4 then some 6 else if i == 6 then some 5 else none

abbrev prev_of : ℕ → Option ℕ
prev_of i = if i == 6 then some 4 else if i == 5 then some 6 else none

abbrev links : Links
links = record { next = next_of; prev = prev_of }

abbrev three : TaskList
three = record { head = some 4; tail = some 5; running = 3 }

differ : (a b : ℕ) → (a == b) ≡ false → a ≢ b
differ a b h e = absurd (ground arith)

three_distinct : Distinct (4 ∷ 6 ∷ 5 ∷ [])
three_distinct = ((differ 4 6 refl, (differ 4 5 refl, tt)), ((differ 6 5 refl, tt), (tt, tt)))

four_distinct : Distinct (4 ∷ 6 ∷ 5 ∷ 8 ∷ [])
four_distinct = (
  (differ 4 6 refl, (differ 4 5 refl, (differ 4 8 refl, tt))),
  ((differ 6 5 refl, (differ 6 8 refl, tt)), ((differ 5 8 refl, tt), (tt, tt))),
)

three-IsList : IsList three links (4 ∷ 6 ∷ 5 ∷ [])
three-IsList = record {
  at_head = refl;
  at_tail = refl;
  counted = refl;
  linked = (refl, refl, (refl, refl, (refl, refl, tt)));
  once = three_distinct;
}

four_follow :
    (after : TaskList × Links) × (enqueue_task_multi three links 8 8 1 ≡ ok after)
    × IsList after.0 after.1 (4 ∷ 6 ∷ 5 ∷ 8 ∷ [])
four_follow =
    enqueue-IsList three links (4 ∷ 6 ∷ 5 ∷ []) 8 [] none none three-IsList (refl, refl, tt)
      four_distinct (omega arith)

dequeue-IsList_example :
    (after : TaskList × Links) × (dequeue_task_multi three links 6 6 1 ≡ after)
    × IsList after.0 after.1 (4 ∷ 5 ∷ [])
    × Segment after.1 none (6 ∷ []) none
dequeue-IsList_example =
    dequeue-IsList three links (4 ∷ []) 6 [] (5 ∷ []) three-IsList (omega arith)

-- Five requests in the queue in turn, and none in the next.
abbrev uneven : ℕ → TaskList
uneven i =
    if i == 0
    then record { head = some 4; tail = some 5; running = 5 }
    else record { head = none; tail = none; running = 0 }

busy_is_chosen : choose_queue uneven 2 2 0 65535 0 ≡ 0
unfolding choose_queue
busy_is_chosen = refl
