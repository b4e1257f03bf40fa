-- ===== src/Csd/Latency.antt =====
-- csd_ftl.c, `csd_get_target_latency`: the flash reads that time a request of a load.
pub mod Reads
use flax.Base.{
  ℕ, zero, suc, ◌+◌, ◌-◌, ◌/◌, Option, none, some, List, [], ◌∷◌, ◌++◌, ltb, ◌==◌, if◌then◌else◌,
}

-- When the flash starts and when it is done.
pub record Times : Type 0 where
  pub nsecs_nand_start : ℕ
  pub nsecs_target : ℕ

unfoldable pub later : Times → Times → Times
later a b = record {
  nsecs_nand_start =
      if ltb a.nsecs_nand_start b.nsecs_nand_start then b.nsecs_nand_start else a.nsecs_nand_start;
  nsecs_target = if ltb a.nsecs_target b.nsecs_target then b.nsecs_target else a.nsecs_target;
}

-- `block_size`: the number of blocks less one, since the length of a command counts from 0.
abbrev pub block_size : ℕ → ℕ
block_size len = if ltb len 512 then 1 else len / 512 - 1

unfoldable pub chunk : ℕ → ℕ
chunk remain = if ltb 65535 remain then 65535 else remain

-- The loop, with a number of rounds, and the commands that it has issued. `read` is
-- `csd_proc_nvme_io_cmd` for a read of a start and a length, or none for an error.
module _ (read : ℕ → ℕ → Option Times) where
  unfoldable pub latency_loop : ℕ → ℕ → ℕ → Times → Option Times
  latency_loop zero slba remain times = none
  latency_loop (suc n) slba remain times =
      let again = latency_loop n (slba + (chunk remain + 1)) (remain - chunk remain) in
      if remain == 0
      then some times
      else elim (read slba (chunk remain)) [ none ↦ none | some t ↦ again (later times t) ]

  -- `csd_get_target_latency`
  unfoldable pub csd_get_target_latency : ℕ → ℕ → Option Times
  csd_get_target_latency slba len =
      latency_loop (suc (block_size len)) slba (block_size len)
        (record { nsecs_nand_start = 0; nsecs_target = 0 })
