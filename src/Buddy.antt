-- ===== src/Buddy.antt =====
-- buddy.c: the buddy allocator behind the device's SLM (subsystem-local memory).
-- A `node_t` owns its two children, so the heap of nodes is a tree: `leaf` is a node with no
-- children (FREE or ALLOC), `split` one in state SPLIT. A `size_t` is a number; `-1` is `failed`.
-- The functions return the tree that the call leaves behind beside the C result.
mod Blocks
mod Alloc
mod Free
mod Size
mod RoundTrip
mod Tests
use flax.Base.{
  ℕ, zero, suc, ◌/◌, add_size, sub_size, Bool, true, false, ◌&&◌, Option, none, some, ltb, leb,
  ◌==◌, not, if◌then◌else◌,
}

-- The states of a node without children.
pub data LeafState : Type 0 where
  free alloc : LeafState

-- `struct node_t`, with the fields idx, size and act_size.
pub data Node : Type 0 where
  leaf : LeafState → ℕ → ℕ → ℕ → Node
  split : ℕ → ℕ → ℕ → Node → Node → Node

-- `(size_t)-1`
abbrev pub failed : ℕ
failed = 18446744073709551615

-- `(int)-1`, as the value of an `int` result that is 0 or -1.
pub data Code : Type 0 where
  done missing : Code

abbrev pub is_free : Node → Bool
is_free (leaf free _ _ _) = true
is_free _ = false

abbrev pub is_done : Code → Bool
is_done done = true
is_done missing = false

-- `buddy_init`: the argument says whether `kzalloc_node` returned memory.
pub buddy_init : Bool → ℕ → Option Node
buddy_init true size = some (leaf free 0 size 0)
buddy_init false size = none

-- `_buddy_alloc` at a FREE node, with fuel for the chain of splits; `none` is out of fuel.
unfoldable pub alloc_free : ℕ → ℕ → ℕ → ℕ → ℕ → Option (Node × ℕ)
alloc_free zero idx size act req = none
alloc_free (suc fuel) idx size act req =
    let below = alloc_free fuel idx (size / 2) 0 req in
    if ltb size req
    then some (leaf free idx size act, failed)
    else if leb req (size / 2)
    then elim below [
      | none ↦ none
      | some (l, rt) ↦
          some (split idx size act l (leaf free (add_size idx (size / 2)) (size / 2) 0), rt)
    ]
    else some (leaf alloc idx size req, idx)

-- What `_buddy_alloc` does at a SPLIT node with the results of its two recursive calls; the
-- second is made only if the first one failed.
abbrev alloc_split : ℕ → ℕ → ℕ → Node → Option (Node × ℕ) → Option (Node × ℕ) → Option (Node × ℕ)
alloc_split idx size act r none right = none
alloc_split idx size act r (some (l', rt)) right =
    if not (rt == failed)
    then some (split idx size act l' r, rt)
    else elim right [ none ↦ none | some (r', rt') ↦ some (split idx size act l' r', rt') ]

-- `_buddy_alloc`. A FREE node gets one unit of fuel more than its size.
unfoldable pub buddy_alloc : Node → ℕ → Option (Node × ℕ)
buddy_alloc (split idx size act l r) req =
    alloc_split idx size act r (buddy_alloc l req) (buddy_alloc r req)
buddy_alloc (leaf free idx size act) req = alloc_free (suc size) idx size act req
buddy_alloc (leaf alloc idx size act) req = some (leaf alloc idx size act, failed)

-- The end of `_buddy_free` at a SPLIT node: merge two free buddies, and report.
abbrev free_split : ℕ → ℕ → ℕ → Node × Code → Node × Code → Node × Code
free_split idx size act (l, cl) (r, cr) = (
  if is_free l && is_free r then leaf free idx size act else split idx size act l r,
  if is_done cl then done else cr,
)

-- `_buddy_free`
pub buddy_free : Node → ℕ → Node × Code
buddy_free (split idx size act l r) i = free_split idx size act (buddy_free l i) (buddy_free r i)
buddy_free (leaf alloc idx size act) i =
    if idx == i then (leaf free idx size act, done) else (leaf alloc idx size act, missing)
buddy_free (leaf free idx size act) i = (leaf free idx size act, missing)

-- `_buddy_size`: the right child is asked first.
pub buddy_size : Node → ℕ → ℕ
buddy_size (split _ _ _ l r) i =
    let rt = buddy_size r i in let rest = buddy_size l i in if rt == failed then rest else rt
buddy_size (leaf alloc idx size act) i =
    if leb idx i && ltb i (add_size idx size) then sub_size (add_size idx size) i else failed
buddy_size (leaf free idx size act) i = failed

-- `_buddy_act_size`: below a SPLIT node it calls `_buddy_size`, as the source does.
pub buddy_act_size : Node → ℕ → ℕ
unfolding buddy_size
buddy_act_size (split _ _ _ l r) i =
    let rt = buddy_size r i in let rest = buddy_size l i in if rt == failed then rest else rt
buddy_act_size (leaf alloc idx size act) i =
    if leb idx i && ltb i (add_size idx act) then sub_size (add_size idx act) i else failed
buddy_act_size (leaf free idx size act) i = failed

-- `buddy_is_allocated`
pub buddy_is_allocated : Node → Bool
buddy_is_allocated n = not (is_free n)
