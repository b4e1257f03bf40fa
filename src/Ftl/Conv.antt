-- ===== src/Ftl/Conv.antt =====
-- conv_ftl.c: `conv_write`, over the FTL instances of a namespace, less the time it takes.
pub mod Refine
use flax.Base.{
  ℕ, zero, suc, ◌+◌, ◌-◌, ◌*◌, ◌/◌, ◌%◌, Bool, true, false, ltb, leb, if◌then◌else◌, Result, ok,
  bug, ◌>>=◌, add_size, sub_size, mul_size, u32,
}
use flax.Zns.Zone.{Buffer, buffer_allocate}
use flax.Ftl.Geometry.{Params, tt_pgs}
use flax.Ftl.State.{PQueue, ConvFtl, update}
use flax.Ftl.Pages.{FtlState}
use flax.Ftl.Collect.{write_page}

-- `enum nvmev_io_status`
pub data IoStatus : Type 0 where
  io_success io_error io_deferred : IoStatus

module _ (pq : PQueue) where
  -- A `struct nvmev_ns` with its FTL instances, and the write buffer that they share.
  pub record Namespace : Type 0 where
    pub ftls : ℕ → FtlState pq
    pub nr_parts : ℕ
    pub write_buffer : Buffer

  -- The loop, for so many logical pages from one on: they take turns on the instances. No page number
  -- comes near the end of `uint64_t`, since the pages of the instances have numbers.
  unfoldable pub write_loop : ℕ → ℕ → (ℕ → FtlState pq) → ℕ → Result (ℕ → FtlState pq)
  unfolding write_page
  write_loop zero nr_parts ftls lpn = ok ftls
  write_loop (suc n) nr_parts ftls lpn =
      write_page pq (ftls (lpn % nr_parts)) (lpn / nr_parts) >>= λ s.
      write_loop n nr_parts (update ftls (lpn % nr_parts) s) (lpn + 1)

  abbrev pub start_lpn : Namespace → ℕ → ℕ
  start_lpn ns slba = slba / (ns.ftls 0).sp.secs_per_pg

  abbrev pub end_lpn : Namespace → ℕ → ℕ → ℕ
  end_lpn ns slba length = sub_size (add_size slba (length + 1)) 1 / (ns.ftls 0).sp.secs_per_pg

  unfoldable pub write_pages : Namespace → ℕ → ℕ → Buffer → Result (Namespace × IoStatus)
  unfolding write_loop
  write_pages ns slba length buf =
      write_loop (end_lpn ns slba length + 1 - start_lpn ns slba) ns.nr_parts ns.ftls
        (start_lpn ns slba)
      >>= λ ftls. ok (record ns { ftls = ftls; write_buffer = buf }, io_success)

  -- `conv_write`
  unfoldable pub conv_write : Namespace → ℕ → ℕ → Result (Namespace × IoStatus)
  unfolding write_pages
  conv_write ns slba length =
      let size = mul_size (length + 1) 512 in
      let (buf, allocated) = buffer_allocate ns.write_buffer (u32 size) in
      if leb (tt_pgs (ns.ftls 0).sp) (end_lpn ns slba length / ns.nr_parts)
      then ok (ns, io_error)
      else if ltb allocated size
      then ok (record ns { write_buffer = buf }, io_deferred)
      else write_pages ns slba length buf
