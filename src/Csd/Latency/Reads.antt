-- ===== src/Csd/Latency/Reads.antt =====
-- What the timing of a request reads.
use flax.Base.{
  ℕ, suc, ◌+◌, ◌-◌, ◌*◌, ◌≤◌, ◌<◌, ◌≡◌, refl, ap, ◌∙◌, Option, some, ◌==◌, false, arith,
}
use flax.Csd.Latency.{Times, later, block_size, chunk, latency_loop, csd_get_target_latency}

chunk_small : (remain : ℕ) → remain < 65536 → chunk remain ≡ remain
unfolding chunk
chunk_small remain h = ground arith

block_size_sectors : (sectors : ℕ) → 2 ≤ sectors → block_size (sectors * 512) ≡ suc (sectors - 2)
block_size_sectors sectors h = ground arith

module _ (read : ℕ → ℕ → Option Times) where
  loop_done : (n slba : ℕ) (t : Times) → latency_loop read (suc n) slba 0 t ≡ some t
  unfolding latency_loop
  loop_done n slba t = refl

  loop_step :
      (n slba remain : ℕ) (t u : Times)
      → (remain == 0) ≡ false
      → read slba (chunk remain) ≡ some u
      → latency_loop read (suc n) slba remain t
        ≡ latency_loop read n (slba + (chunk remain + 1)) (remain - chunk remain) (later t u)
  unfolding latency_loop
  loop_step n slba remain t u z e = rw (z, e) refl

  loop_some :
      (n slba remain : ℕ) (t u : Times)
      → 0 < remain
      → remain < 65536
      → read slba remain ≡ some u
      → latency_loop read (suc (suc n)) slba remain t ≡ some (later t u)
  loop_some n slba remain t u h b e =
      let z : (remain == 0) ≡ false = ground arith in
      let c = chunk_small remain b in
      let d : remain - remain ≡ 0 = omega arith in
      loop_step (suc n) slba remain t u z (ap (read slba) c ∙ e)
      ∙ ap (λ k. latency_loop read (suc n) (slba + (k + 1)) (remain - k) (later t u)) c
      ∙ ap (λ r. latency_loop read (suc n) (slba + (remain + 1)) r (later t u)) d
      ∙ loop_done n (slba + (remain + 1)) (later t u)

  -- A request of two to 65536 sectors is timed by one read of just these sectors, the length of the
  -- command counting from 0.
  pub csd_get_target_latency_lem :
      (slba sectors : ℕ) (u : Times)
      → 2 ≤ sectors
      → sectors ≤ 65536
      → read slba (sectors - 1) ≡ some u
      → csd_get_target_latency read slba (sectors * 512)
        ≡ some (later (record { nsecs_nand_start = 0; nsecs_target = 0 }) u)
  unfolding csd_get_target_latency
  csd_get_target_latency_lem slba sectors u h b e =
      let s : suc (sectors - 2) ≡ sectors - 1 = omega arith in
      let start : Times = record { nsecs_nand_start = 0; nsecs_target = 0 } in
      ap (λ n. latency_loop read (suc n) slba n start) (block_size_sectors sectors h)
      ∙ loop_some (sectors - 2) slba (suc (sectors - 2)) start u (omega arith) (omega arith)
          (ap (read slba) s ∙ e)

  -- A request of one sector is not read at all: its time is 0.
  pub one_sector :
      (slba : ℕ)
      → csd_get_target_latency read slba 512
        ≡ some (record { nsecs_nand_start = 0; nsecs_target = 0 })
  unfolding csd_get_target_latency
  one_sector slba = loop_done 0 slba (record { nsecs_nand_start = 0; nsecs_target = 0 })
