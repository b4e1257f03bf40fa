-- ===== src/Csd/Lists/Dequeue.antt =====
-- `__dequeue_task_multi` takes a segment out of a list.
use flax.Base.{
  ℕ, ◌+◌, ◌-◌, ◌<◌, ◌≡◌, ◌≢◌, refl, sym, ap, ◌∙◌, Option, none, some, List, [], ◌∷◌, ◌++◌, ◌==◌,
  arith, length, length-append, if◌then◌else◌, false, true, u32,
}
use mathlib.Core.List.{append-nil}
use mathlib.Core.Path.{subst}
use flax.Csd.Lists.{TaskList, Links, cut_off, dequeue_task_multi, link_next, link_prev, is_at}
use flax.Csd.Lists.Segments.{
  Distinct, first, last, last_of, last-last_of, Fresh-last_of, Segment, Segment-append,
  Segment-split, set_next-Segment, set_prev-Segment, set_prev-first, set_next-last,
}
use flax.Csd.Lists.Moves.{
  Apart, Apart-sym, Distinct-join, Distinct-three, Apart-first, Apart-last_of, Distinct-split,
  last-append, IsList, cut_off-Segment, last_of-Apart, cut_off-other,
}

-- The links after `ys` is taken out between `xs` and `zs`.
abbrev pub links_out : Links → List ℕ → ℕ → ℕ → List ℕ → Links
links_out k xs start end zs =
    link_next (link_prev (cut_off k start end) (first zs none) (last xs none)) (last xs none)
      (first zs none)

abbrev pub list_out : TaskList → List ℕ → ℕ → ℕ → ℕ → List ℕ → TaskList
list_out list xs start end count zs = record {
  head = if is_at list.head start then first zs none else list.head;
  tail = if is_at list.tail end then last xs none else list.tail;
  running = u32 (list.running + 4294967296 - count);
}

same_self : (n : ℕ) → (n == n) ≡ true
same_self n = ground arith

not_same : (a b : ℕ) → a ≢ b → (a == b) ≡ false
not_same a b h = ground arith

last_of-append :
    (y : ℕ) (ys : List ℕ) (z : ℕ) (zs : List ℕ) → last_of y (ys ++ z ∷ zs) ≡ last_of z zs
last_of-append y [] z zs = refl
last_of-append y (x ∷ xs) z zs = last_of-append x xs z zs

next-last_of :
    (k : Links) (p : Option ℕ) (y : ℕ) (ys : List ℕ) (q : Option ℕ)
    → Segment k p (y ∷ ys) q
    → k.next (last_of y ys) ≡ q
next-last_of k p y [] q s = s.1
next-last_of k p y (z ∷ zs) q s = next-last_of k (some y) z zs q s.2

pub dequeue_task_multi_lem :
    (list : TaskList) (k : Links) (xs : List ℕ) (y : ℕ) (ys zs : List ℕ) (count : ℕ)
    → Segment k (last xs none) (y ∷ ys) (first zs none)
    → dequeue_task_multi list k y (last_of y ys) count
      ≡ (list_out list xs y (last_of y ys) count zs, links_out k xs y (last_of y ys) zs)
unfolding dequeue_task_multi
dequeue_task_multi_lem list k xs y ys zs count s =
    rw (s.0, next-last_of k (last xs none) y ys (first zs none) s) refl

-- The first neighbour's side, and then the other.
link_prev-Segments :
    (k : Links) (xs zs : List ℕ) (q p : Option ℕ)
    → Distinct zs
    → Apart xs zs
    → Segment k none xs q
    → Segment k p zs none
    → Segment (link_prev k (first zs none) (last xs none)) none xs q
      × Segment (link_prev k (first zs none) (last xs none)) (last xs none) zs none
link_prev-Segments k xs [] q p d a s t = (s, tt)
link_prev-Segments k xs (z ∷ zs) q p d a s t = (
  set_prev-Segment k z (last xs none) none xs q (Apart-first xs z zs a) s,
  set_prev-first k p (last xs none) z zs none d.0 t,
)

link_next-Segments :
    (k : Links) (xs zs : List ℕ) (q n : Option ℕ)
    → Distinct xs
    → Apart xs zs
    → Segment k none xs q
    → Segment k (last xs none) zs none
    → Segment (link_next k (last xs none) n) none xs n
      × Segment (link_next k (last xs none) n) (last xs none) zs none
link_next-Segments k [] zs q n d a s t = (tt, t)
link_next-Segments k (x ∷ xs) zs q n d a s t =
    subst (λ l. Segment (link_next k l n) none (x ∷ xs) n × Segment (link_next k l n) l zs none)
      (sym (last-last_of x xs none))
      (
        set_next-last k none x xs q n d s,
        set_next-Segment k (last_of x xs) n (some (last_of x xs)) zs none (last_of-Apart x xs zs a)
            (subst (λ l. Segment k l zs none) (last-last_of x xs none) t),
      )

out_head :
    (h : Option ℕ) (xs : List ℕ) (y : ℕ) (ys zs : List ℕ)
    → Distinct (xs ++ ((y ∷ ys) ++ zs))
    → h ≡ first (xs ++ ((y ∷ ys) ++ zs)) none
    → (if is_at h y then first zs none else h) ≡ first (xs ++ zs) none
out_head h [] y ys zs d e = rw (e, same_self y) refl
out_head h (x ∷ xs) y ys zs d e =
    let r = Distinct-split (x ∷ xs) ((y ∷ ys) ++ zs) d in rw (e, not_same x y (r.2.0.0)) refl

out_tail :
    (t : Option ℕ) (xs : List ℕ) (y : ℕ) (ys zs : List ℕ)
    → Distinct ((y ∷ ys) ++ zs)
    → t ≡ last (xs ++ ((y ∷ ys) ++ zs)) none
    → (if is_at t (last_of y ys) then last xs none else t) ≡ last (xs ++ zs) none
out_tail t xs y ys [] d e =
    let e' : t ≡ some (last_of y ys) =
      e ∙ last-append xs y (ys ++ []) none ∙ ap (λ l. some (last_of y l)) (append-nil ys) in
    rw (e', same_self (last_of y ys)) (ap (λ l. last l none) (sym (append-nil xs)))
out_tail t xs y ys (z ∷ zs) d e =
    let e' : t ≡ some (last_of z zs) =
      e ∙ last-append xs y (ys ++ z ∷ zs) none ∙ ap some (last_of-append y ys z zs) in
    let f : last_of z zs ≢ last_of y ys = (λ g.
      Fresh-last_of (last_of y ys) z zs
        (last_of-Apart y ys (z ∷ zs) (Distinct-split (y ∷ ys) (z ∷ zs) d).2) (sym g)) in
    rw (e', not_same (last_of z zs) (last_of y ys) f) (sym (last-append xs z zs none))

link_prev-other :
    (k : Links) (zs : List ℕ) (v p : Option ℕ) (os : List ℕ) (q : Option ℕ)
    → Apart os zs
    → Segment k p os q
    → Segment (link_prev k (first zs none) v) p os q
link_prev-other k [] v p os q a s = s
link_prev-other k (z ∷ zs) v p os q a s = set_prev-Segment k z v p os q (Apart-first os z zs a) s

link_next-other :
    (k : Links) (xs : List ℕ) (v p : Option ℕ) (os : List ℕ) (q : Option ℕ)
    → Apart os xs
    → Segment k p os q
    → Segment (link_next k (last xs none) v) p os q
link_next-other k [] v p os q a s = s
link_next-other k (x ∷ xs) v p os q a s =
    subst (λ l. Segment (link_next k l v) p os q) (sym (last-last_of x xs none))
      (set_next-Segment k (last_of x xs) v p os q (Apart-last_of os x xs a) s)

-- A list of other indices stays as it is.
pub links_out-other :
    (k : Links) (xs : List ℕ) (y : ℕ) (ys zs : List ℕ) (p : Option ℕ) (os : List ℕ) (q : Option ℕ)
    → Apart os xs
    → Apart os (y ∷ ys)
    → Apart os zs
    → Segment k p os q
    → Segment (links_out k xs y (last_of y ys) zs) p os q
links_out-other k xs y ys zs p os q a b c s =
    let end = last_of y ys in
    let k1 = cut_off k y end in
    link_next-other (link_prev k1 (first zs none) (last xs none)) xs (first zs none) p os q a (
      link_prev-other k1 zs (last xs none) p os q c
        (cut_off-other k p q os y end (Apart-first os y ys b) (Apart-last_of os y ys b) s))

-- What the call returns stands for what stood before and behind the segment.
pub out-IsList :
    (list : TaskList) (k : Links) (xs : List ℕ) (y : ℕ) (ys zs : List ℕ)
    → IsList list k (xs ++ ((y ∷ ys) ++ zs))
    → length (xs ++ ((y ∷ ys) ++ zs)) < 4294967296
    → IsList
        (list_out list xs y (last_of y ys) (length (y ∷ ys)) zs)
        (links_out k xs y (last_of y ys) zs)
        (xs ++ zs)
      × Segment (links_out k xs y (last_of y ys) zs) none (y ∷ ys) none
      × Segment k (last xs none) (y ∷ ys) (first zs none)
out-IsList list k xs y ys zs l b =
    let end = last_of y ys in
    let sx = Segment-split k none xs ((y ∷ ys) ++ zs) none l.linked in
    let sy = Segment-split k (last xs none) (y ∷ ys) zs none sx.1 in
    let (dx, dy, dz, xy, xz, yz) = Distinct-three xs (y ∷ ys) zs l.once in
    let zy = Apart-sym (y ∷ ys) zs yz in
    let k1 = cut_off k y end in
    let before = last (y ∷ ys) (last xs none) in
    let s1 =
      cut_off-other k none (some y) xs y end (Apart-first xs y ys xy) (Apart-last_of xs y ys xy)
        sx.0 in
    let z1 =
      cut_off-other k before none zs y end (Apart-first zs y ys zy) (Apart-last_of zs y ys zy)
        sy.1 in
    let y1 = cut_off-Segment k (last xs none) (first zs none) y ys dy sy.0 in
    let r2 = link_prev-Segments k1 xs zs (some y) before dz xz s1 z1 in
    let k2 = link_prev k1 (first zs none) (last xs none) in
    let r3 = link_next-Segments k2 xs zs (some y) (first zs none) dx xz r2.0 r2.1 in
    (
      record {
        at_head = out_head list.head xs y ys zs l.once l.at_head;
        at_tail = out_tail list.tail xs y ys zs (Distinct-join (y ∷ ys) zs dy dz yz) l.at_tail;
        counted = omega (
          arith,
          l.counted,
          b,
          length-append xs ((y ∷ ys) ++ zs),
          length-append (y ∷ ys) zs,
          length-append xs zs,
        );
        linked = Segment-append (links_out k xs y end zs) none xs zs none r3.0 r3.1;
        once = Distinct-join xs zs dx dz xz;
      },
      link_next-other k2 xs (first zs none) none (y ∷ ys) none (Apart-sym xs (y ∷ ys) xy)
          (link_prev-other k1 zs (last xs none) none (y ∷ ys) none yz y1),
      sy.0,
    )

-- Taking a segment out of a list leaves the list of what stood before and behind it, and the segment
-- cut off on both sides.
pub dequeue-IsList :
    (list : TaskList) (k : Links) (xs : List ℕ) (y : ℕ) (ys zs : List ℕ)
    → IsList list k (xs ++ ((y ∷ ys) ++ zs))
    → length (xs ++ ((y ∷ ys) ++ zs)) < 4294967296
    → (after : TaskList × Links) × (dequeue_task_multi list k y (last_of y ys) (length (y ∷ ys))
        ≡ after)
      × IsList after.0 after.1 (xs ++ zs)
      × Segment after.1 none (y ∷ ys) none
dequeue-IsList list k xs y ys zs l b =
    let r = out-IsList list k xs y ys zs l b in
    (_, dequeue_task_multi_lem list k xs y ys zs (length (y ∷ ys)) r.2, r.0, r.1)
