-- ===== src/Buddy/Alloc.antt =====
-- `_buddy_alloc`: it always ends, fails exactly when no free node is large enough, and otherwise
-- adds one block to the allocated ones.
use flax.Base.{
  ℕ, zero, suc, ◌+◌, ◌/◌, ◌≤◌, ◌<◌, ◌≡◌, refl, true, false, Option, some, List, [], ◌∷◌, ◌++◌,
  arith, ◌⊎◌, inl, inr, leb, Bool-cases, add_size, leb→le, ◌∙◌,
}
use flax.Buddy.{free, alloc, Node, leaf, split, failed, is_free, alloc_free, buddy_alloc}
use flax.Buddy.Blocks.{Block, blocks, largest, Covers}
use mathlib.Core.List.{append_assoc, append-nil}
use mathlib.Core.Path.{subst₂}

-- A block of `act` bytes asked for is new in `t'`, and nothing else changed.
pub record Placed (t : Node) (req : ℕ) (t' : Node) (rt : ℕ) : Type 0 where
  pub room : req ≤ largest t
  pub size : ℕ
  pub below : List Block
  pub above : List Block
  pub before : blocks t ≡ below ++ above
  pub after : blocks t' ≡ below ++ (record { idx = rt; size = size; act = req } ∷ above)
  pub valid : rt < failed
  pub used : is_free t' ≡ false

-- The two ways in which `_buddy_alloc` ends.
pub data Outcome (t : Node) (req : ℕ) (t' : Node) (rt : ℕ) : Type 0 where
  refused : t' ≡ t → rt ≡ failed → largest t < req → Outcome t req t' rt
  placed : Placed t req t' rt → Outcome t req t' rt

-- What a call leaves behind.
pub record Allocated (i n : ℕ) (t : Node) (req : ℕ) (o : Option (Node × ℕ)) : Type 0 where
  pub tree : Node
  pub rt : ℕ
  pub returns : o ≡ some (tree, rt)
  pub covers : Covers i n tree
  pub outcome : Outcome t req tree rt

-- One more split above a descent that placed the block in the left half.
Placed-split :
    (i n act req : ℕ) (l : Node) (rt : ℕ)
    → Placed (leaf free i (n / 2) 0) req l rt
    → Placed (leaf free i n act) req (split i n act l (leaf free (add_size i (n / 2)) (n / 2) 0)) rt
Placed-split i n act req l rt p = record {
  room = omega (arith, p.room);
  size = p.size;
  below = p.below;
  above = p.above;
  before = p.before;
  after = append-nil (blocks l) ∙ p.after;
  valid = p.valid;
  used = refl;
}

-- The descent from a free node that is large enough: fuel above its size is enough.
alloc_free-Placed :
    (fuel i n act req : ℕ)
    → n < fuel
    → i + n < failed
    → 0 < req
    → req ≤ n
    → (t : Node) × (rt : ℕ) × (alloc_free fuel i n act req ≡ some (t, rt))
      × Covers i n t
      × Placed (leaf free i n act) req t rt
unfolding alloc_free
alloc_free-Placed zero i n act req f b p q = absurd (omega arith)
alloc_free-Placed (suc fuel) i n act req f b p q = elim (Bool-cases (leb req (n / 2))) [
  | inr small ↦ (
    leaf alloc i n req,
    i,
    ground arith,
    ground arith,
    record {
      room = q;
      size = n;
      below = [];
      above = [];
      before = refl;
      after = refl;
      valid = omega arith;
      used = refl;
    },
  )
  | inl big ↦
      let half : req ≤ n / 2 = leb→le _ _ big in
      let (l, rt, e, c, pl) =
        alloc_free-Placed fuel i (n / 2) 0 req (omega arith) (omega arith) p half in
      (
        split i n act l (leaf free (add_size i (n / 2)) (n / 2) 0),
        rt,
        ground (arith, e),
        (refl, refl, c, (omega arith, refl), rw pl.used refl),
        Placed-split i n act req l rt pl,
      )
]

alloc_free-refused :
    (fuel i n act req : ℕ)
    → n < req
    → alloc_free (suc fuel) i n act req ≡ some (leaf free i n act, failed)
unfolding alloc_free
alloc_free-refused fuel i n act req h = ground arith

-- The three ways through a SPLIT node.
module _ (i n idx size act req : ℕ) (l r : Node) (c : Covers i n (split idx size act l r)) where
  Allocated-left :
      (a : Allocated i (n / 2) l req (buddy_alloc l req))
      → Placed l req a.tree a.rt
      → Allocated i n (split idx size act l r) req (buddy_alloc (split idx size act l r) req)
  unfolding buddy_alloc
  Allocated-left a p = record {
    tree = split idx size act a.tree r;
    rt = a.rt;
    returns = rw a.returns (ground (arith, p.valid));
    covers = (c.0, c.1, a.covers, c.3, rw p.used refl);
    outcome = placed (record {
      room = omega (arith, p.room);
      size = p.size;
      below = p.below;
      above = p.above ++ blocks r;
      before = rw (p.before, append_assoc);
      after = rw (p.after, append_assoc);
      valid = p.valid;
      used = refl;
    });
  }

  Allocated-right :
      (a : Allocated i (n / 2) l req (buddy_alloc l req))
      → a.tree ≡ l
      → a.rt ≡ failed
      → (b : Allocated (i + n / 2) (n / 2) r req (buddy_alloc r req)) → Placed r req b.tree b.rt
      → Allocated i n (split idx size act l r) req (buddy_alloc (split idx size act l r) req)
  unfolding buddy_alloc
  Allocated-right a same fail b p = record {
    tree = split idx size act l b.tree;
    rt = b.rt;
    returns = rw (a.returns, b.returns) (ground (arith, same, fail));
    covers = (c.0, c.1, c.2, b.covers, ground (arith, p.used));
    outcome = placed (record {
      room = omega (arith, p.room);
      size = p.size;
      below = blocks l ++ p.below;
      above = p.above;
      before = rw (p.before, append_assoc);
      after = rw (p.after, append_assoc);
      valid = p.valid;
      used = refl;
    });
  }

  Allocated-neither :
      (a : Allocated i (n / 2) l req (buddy_alloc l req))
      → a.tree ≡ l
      → a.rt ≡ failed
      → largest l < req
      → (b : Allocated (i + n / 2) (n / 2) r req (buddy_alloc r req)) → b.tree ≡ r
      → b.rt ≡ failed
      → largest r < req
      → Allocated i n (split idx size act l r) req (buddy_alloc (split idx size act l r) req)
  unfolding buddy_alloc
  Allocated-neither a same fail small b same' fail' small' = record {
    tree = split idx size act l r;
    rt = failed;
    returns = rw (a.returns, b.returns) (ground (arith, same, fail, same', fail'));
    covers = c;
    outcome = refused refl refl (omega arith);
  }

  Allocated-split :
      (a : Allocated i (n / 2) l req (buddy_alloc l req))
      → Outcome l req a.tree a.rt
      → (b : Allocated (i + n / 2) (n / 2) r req (buddy_alloc r req)) → Outcome r req b.tree b.rt
      → Allocated i n (split idx size act l r) req (buddy_alloc (split idx size act l r) req)
  Allocated-split a (placed p) b o = Allocated-left a p
  Allocated-split a (refused s f m) b (placed p) = Allocated-right a s f b p
  Allocated-split a (refused s f m) b (refused s' f' m') = Allocated-neither a s f m b s' f' m'

Allocated-leaf :
    (idx size act req : ℕ)
    → idx + size < failed
    → 0 < req
    → (leb req size ≡ true) ⊎ (leb req size ≡ false)
    → Allocated idx size (leaf free idx size act) req (buddy_alloc (leaf free idx size act) req)
unfolding buddy_alloc
Allocated-leaf idx size act req b p (inl big) =
    let (t, rt, e, c, pl) =
      alloc_free-Placed (suc size) idx size act req (omega arith) b p (leb→le _ _ big) in
    record { tree = t; rt = rt; returns = e; covers = c; outcome = placed pl }
Allocated-leaf idx size act req b p (inr small) = record {
  tree = leaf free idx size act;
  rt = failed;
  returns = alloc_free-refused size idx size act req (ground arith);
  covers = (refl, refl);
  outcome = refused refl refl (ground arith);
}

-- `_buddy_alloc` always returns for a request of at least one byte, keeps the tree well-formed,
-- and either finds no free node that is large enough and changes nothing, or adds one block.
pub buddy_alloc-Allocated :
    (t : Node) (i n req : ℕ)
    → Covers i n t
    → i + n < failed
    → 0 < req
    → Allocated i n t req (buddy_alloc t req)
unfolding buddy_alloc
buddy_alloc-Allocated (leaf alloc idx size act) i n req c b p = record {
  tree = leaf alloc idx size act;
  rt = failed;
  returns = refl;
  covers = c;
  outcome = refused refl refl p;
}
buddy_alloc-Allocated (leaf free idx size act) i n req c b p =
    subst₂
      (λ i' n'.
        Allocated i' n' (leaf free idx size act) req (buddy_alloc (leaf free idx size act) req))
      c.0 c.1 (Allocated-leaf idx size act req (omega arith) p (Bool-cases (leb req size)))
buddy_alloc-Allocated (split idx size act l r) i n req c b p =
    let a = buddy_alloc-Allocated l i (n / 2) req c.2 (omega arith) p in
    let a' = buddy_alloc-Allocated r (i + n / 2) (n / 2) req c.3 (omega arith) p in
    Allocated-split i n idx size act req l r c a a.outcome a' a'.outcome
