-- ===== src/Csd/Lists/Family/Put.antt =====
-- Putting what is held behind one list of the family.
use flax.Base.{ℕ, ◌<◌, ◌≡◌, sym, none, List, [], ◌∷◌, ◌++◌, arith, length, length-append, ok}
use flax.Slm.Store.{update}
use flax.Csd.Lists.{TaskList, Links, enqueue_task_multi}
use flax.Csd.Lists.Segments.{last_of}
use flax.Csd.Lists.Moves.{no_one, Apart-join, Distinct-join, IsList, IsList-links}
use flax.Csd.Lists.Enqueue.{
  enqueue_task_multi_lem, back-IsList, links_back, list_back, links_back-other,
}
use flax.Csd.Lists.Family.{Family, sum-update, length-le-sum, Apart-update, update_both}

module _ (m : ℕ) (lists : ℕ → TaskList) (k : Links) (L : ℕ → List ℕ) (total b y : ℕ)
    (ys : List ℕ) where
  abbrev after : TaskList × Links
  after = (
    list_back (lists b) (L b) y (last_of y ys) (length (y ∷ ys)),
    links_back k (L b) y (last_of y ys),
  )

  -- What is held goes behind the sequence of a list.
  pub put-Family :
      Family m lists k L (y ∷ ys) total
      → b < m
      → (enqueue_task_multi (lists b) k y (last_of y ys) (length (y ∷ ys)) ≡ ok after)
        × Family m (update lists b after.0) after.1 (update L b (L b ++ (y ∷ ys))) [] total
  put-Family v h =
      let whole = length-le-sum m (λ j. length (L j)) b h in
      let d = Distinct-join (L b) (y ∷ ys) (v.each b h).once v.out-once (v.out-apart b h) in
      (
        enqueue_task_multi_lem (lists b) k (L b) y (last_of y ys) (length (y ∷ ys)) (v.each b h),
        record {
          each = λ j c.
              update_both (λ l x. IsList l after.1 x) lists L b after.0 (L b ++ (y ∷ ys)) j
                (λ q.
                  back-IsList (lists b) k (L b) y ys none none (v.each b h) v.out d
                    (omega (arith, v.all, v.few, whole, length-append (L b) (y ∷ ys))))
                (λ n. IsList-links (lists j) k after.1 (L j) (v.each j c) (
                  links_back-other k (L b) y ys none (L j) none (v.apart j b c h (λ q. n (sym q)))
                    (v.out-apart j c) (v.each j c).linked));
          apart = Apart-update m L b (L b ++ (y ∷ ys)) v.apart (λ j c n.
              Apart-join (L j) (L b) (y ∷ ys) (v.apart j b c h (λ q. n (sym q))) (v.out-apart j c));
          out = tt;
          out-once = tt;
          out-apart = λ j c. no_one (update L b (L b ++ (y ∷ ys)) j);
          all =
              omega
                (arith, v.all, sum-update m L b (L b ++ (y ∷ ys)) h, length-append (L b) (y ∷ ys));
          few = v.few;
        },
      )
