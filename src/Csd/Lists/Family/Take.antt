-- ===== src/Csd/Lists/Family/Take.antt =====
-- Taking a segment out of one list of the family.
use flax.Base.{ℕ, ◌<◌, ◌≡◌, ◌≢◌, sym, ap, none, List, [], ◌∷◌, ◌++◌, arith, length, length-append}
use mathlib.Core.Path.{subst}
use flax.Slm.Store.{update}
use flax.Csd.Lists.{TaskList, Links, dequeue_task_multi}
use flax.Csd.Lists.Segments.{last_of}
use flax.Csd.Lists.Moves.{
  Apart, Apart-sym, Apart-split, Apart-join, Distinct-three, IsList, IsList-links,
}
use flax.Csd.Lists.Dequeue.{
  out-IsList, dequeue_task_multi_lem, links_out, list_out, links_out-other,
}
use flax.Csd.Lists.Family.{
  Family, sum-update, length-le-sum, Apart-update, update_elim, update_both,
}

module _ (m : ℕ) (lists : ℕ → TaskList) (k : Links) (L : ℕ → List ℕ) (total a : ℕ) (xs : List ℕ)
    (y : ℕ) (ys zs : List ℕ) where
  -- The lists after the call, and the sequences that they stand for.
  abbrev after : TaskList × Links
  after = (
    list_out (lists a) xs y (last_of y ys) (length (y ∷ ys)) zs,
    links_out k xs y (last_of y ys) zs,
  )

  part :
      Family m lists k L [] total
      → a < m
      → L a ≡ xs ++ ((y ∷ ys) ++ zs)
      → IsList (lists a) k (xs ++ ((y ∷ ys) ++ zs))
  part v h e = subst (λ l. IsList (lists a) k l) e (v.each a h)

  away :
      (os : List ℕ)
      → Apart os (xs ++ ((y ∷ ys) ++ zs))
      → Apart os xs × Apart os (y ∷ ys) × Apart os zs
  away os f =
      let r = Apart-split os xs ((y ∷ ys) ++ zs) f in
      let t = Apart-split os (y ∷ ys) zs r.1 in (r.0, t.0, t.1)

  others :
      Family m lists k L [] total
      → a < m
      → L a ≡ xs ++ ((y ∷ ys) ++ zs)
      → (j : ℕ) → j < m
      → a ≢ j
      → Apart (L j) xs × Apart (L j) (y ∷ ys) × Apart (L j) zs
  others v h e j b n = away (L j) (subst (Apart (L j)) e (v.apart j a b h (λ q. n (sym q))))

  -- The segment goes from its list to what is held.
  pub take-Family :
      Family m lists k L [] total
      → a < m
      → L a ≡ xs ++ ((y ∷ ys) ++ zs)
      → (dequeue_task_multi (lists a) k y (last_of y ys) (length (y ∷ ys)) ≡ after)
        × Family m (update lists a after.0) after.1 (update L a (xs ++ zs)) (y ∷ ys) total
  take-Family v h e =
      let whole = length-le-sum m (λ j. length (L j)) a h in
      let at = ap length e in
      let r =
        out-IsList (lists a) k xs y ys zs (part v h e) (omega (arith, v.all, v.few, whole, at)) in
      let (dx, dy, dz, xy, xz, yz) = Distinct-three xs (y ∷ ys) zs (part v h e).once in
      (
        dequeue_task_multi_lem (lists a) k xs y ys zs (length (y ∷ ys)) r.2,
        record {
          each = λ j b.
              update_both (λ l x. IsList l after.1 x) lists L a after.0 (xs ++ zs) j (λ q. r.0)
                (λ n. IsList-links (lists j) k after.1 (L j) (v.each j b) (
                  links_out-other k xs y ys zs none (L j) none (others v h e j b n).0
                    (others v h e j b n).1 (others v h e j b n).2 (v.each j b).linked));
          apart =
              Apart-update m L a (xs ++ zs) v.apart
                (λ j b n. Apart-join (L j) xs zs (others v h e j b n).0 (others v h e j b n).2);
          out = r.1;
          out-once = dy;
          out-apart = λ j b.
              update_elim (λ x. Apart x (y ∷ ys)) L a (xs ++ zs) j
                (λ q.
                  Apart-sym (y ∷ ys) (xs ++ zs)
                    (Apart-join (y ∷ ys) xs zs (Apart-sym xs (y ∷ ys) xy) yz))
                (λ n. (others v h e j b n).1);
          all = omega (
            arith,
            v.all,
            at,
            sum-update m L a (xs ++ zs) h,
            length-append xs ((y ∷ ys) ++ zs),
            length-append (y ∷ ys) zs,
            length-append xs zs,
          );
          few = v.few;
        },
      )
