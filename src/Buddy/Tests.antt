-- ===== src/Buddy/Tests.antt =====
-- Runs of the buddy allocator, and its theorems at concrete pools.
use flax.Base.{◌≡◌, refl, some, arith, true}
use flax.Buddy.{
  free, alloc, Node, leaf, split, alloc_free, buddy_alloc, buddy_free, buddy_size, buddy_act_size,
  is_done,
}
use flax.Buddy.Blocks.{blocks, Covers}
use flax.Buddy.Alloc.{Allocated, buddy_alloc-Allocated}
use flax.Buddy.Free.{without, blocks-buddy_free}
use flax.Buddy.RoundTrip.{buddy_free-buddy_alloc}

abbrev pool : Node
pool = leaf free 0 64 0

-- 20 bytes at 0 (in 32), 10 at 32 (in 16), 16 free at 48.
abbrev busy : Node
busy = split 0 64 0 (leaf alloc 0 32 20) (split 32 32 0 (leaf alloc 32 16 10) (leaf free 48 16 0))

alloc_runs : buddy_alloc pool 20 ≡ some (split 0 64 0 (leaf alloc 0 32 20) (leaf free 32 32 0), 0)
unfolding buddy_alloc alloc_free
alloc_runs = refl

alloc_right :
    buddy_alloc (split 0 64 0 (leaf alloc 0 32 20) (leaf free 32 32 0)) 10 ≡ some (busy, 32)
unfolding buddy_alloc alloc_free
alloc_right = refl

free_merges : (buddy_free busy 32).0 ≡ split 0 64 0 (leaf alloc 0 32 20) (leaf free 32 32 0)
unfolding buddy_free
free_merges = refl

size_runs : buddy_size busy 40 ≡ 8
unfolding buddy_size
size_runs = refl

-- 20 bytes were asked for at index 0, and the pool is split: the answer is the block's 32.
act_size_runs : buddy_act_size busy 0 ≡ 32
unfolding buddy_act_size
act_size_runs = refl

busy-Covers : Covers 0 64 busy
busy-Covers = ground arith

buddy_alloc-Allocated_example : Allocated 0 64 busy 12 (buddy_alloc busy 12)
buddy_alloc-Allocated_example =
    buddy_alloc-Allocated busy 0 64 12 busy-Covers (omega arith) (omega arith)

blocks-buddy_free_example : blocks (buddy_free busy 32).0 ≡ without 32 (blocks busy)
blocks-buddy_free_example = blocks-buddy_free busy 32

buddy_free-buddy_alloc_example :
    let t = split 0 64 0 (leaf alloc 0 32 20) (leaf free 32 32 0) in
    (blocks (buddy_free busy 32).0 ≡ blocks t) × (is_done (buddy_free busy 32).1 ≡ true)
buddy_free-buddy_alloc_example =
    buddy_free-buddy_alloc (split 0 64 0 (leaf alloc 0 32 20) (leaf free 32 32 0)) 0 64 10
      (ground arith) (omega arith) (omega arith) alloc_right (omega arith)
