-- ===== src/Csd/Table/Identifiers.antt =====
-- The identifiers of tasks.
use flax.Base.{ℕ, ◌<◌, ◌≡◌, ◌≢◌, arith}
use flax.Slm.Store.{task_id_none, task_pool_index}
use flax.Csd.Table.{next_identifier}

-- An identifier is never the one that means none, its low bits are the index of the task in the
-- pool, and it fits the 32 bits of its type: whatever the generation, also where it wraps.
pub next_identifier_lem :
    (generation i : ℕ)
    → generation < 4294967296
    → i < 128
    → ((next_identifier generation i).0 ≢ task_id_none)
      × (task_pool_index (next_identifier generation i).0 ≡ i)
      × ((next_identifier generation i).0 < 4294967296)
unfolding next_identifier
next_identifier_lem generation i h b = ground arith
