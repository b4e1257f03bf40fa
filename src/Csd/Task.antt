-- ===== src/Csd/Task.antt =====
-- csd_dispatcher.h: `struct ccsd_task_info`, a task of the device.
use flax.Base.{ℕ, Bool, Option}
use flax.Slm.Store.{Step}

-- Without its links, the parameters of its program and the fields for profiling. The region it
-- points to is a number, as in the SLM's own state.
pub record TaskInfo : Type 0 where
  pub task_step : Step
  pub proc_idx : ℕ
  pub invalid : Bool
  pub total_size : ℕ
  pub status : ℕ
  pub slm_lba_info : Option ℕ
  pub requested_io_offset : ℕ
  pub done_io_offset : ℕ
  pub internal_io_count : ℕ
  pub input_buf_addr : ℕ
  pub output_buf_addr : ℕ
  pub program_idx : ℕ
  pub result : ℕ
  pub processed_offset : ℕ
  pub opcode : ℕ
  pub host_id : ℕ
  pub io_quota : ℕ
  pub is_first_io : Bool
  pub generation_id : ℕ
