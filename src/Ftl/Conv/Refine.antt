-- ===== src/Ftl/Conv/Refine.antt =====
-- `conv_write` against what it promises: the logical pages of the command, and no others, are added
-- to those that hold data, over all instances.
use flax.Base.{
  ℕ, zero, suc, ◌+◌, ◌-◌, ◌*◌, ◌/◌, ◌%◌, ◌≤◌, ◌<◌, ◌≡◌, ◌⊎◌, refl, sym, ap, ap₂, ◌∙◌, Bool, true,
  false, ◌&&◌, ◌||◌, ltb, leb, ◌==◌, if◌then◌else◌, Result, ok, >>=-ok, if-eq, ok-inj, Bool-cases,
  arith, inl, inr, mul_size, u32,
}
use mathlib.Core.Path.{subst}
use native.Mathlib.Nat.{div-add-mod'}
use flax.Zns.Zone.{Buffer, buffer_allocate}
use flax.Ftl.Geometry.{tt_pgs}
use flax.Ftl.State.{PQueue, update}
use flax.Ftl.Pages.{FtlState}
use flax.Ftl.Pages.Marks.{core}
use flax.Ftl.Victims.{QueueLaws}
use flax.Ftl.Collect.{write_page}
use flax.Ftl.Collect.Write.{IsSound}
use flax.Ftl.Collect.Refine.{view, write_spec, write_page-refines}
use flax.Ftl.Conv.{
  IoStatus, io_success, io_error, io_deferred, Namespace, write_loop, start_lpn, end_lpn,
  write_pages, conv_write,
}

same_Bool : (a b : Bool) → (a ≡ true → b ≡ true) → (b ≡ true → a ≡ true) → a ≡ b
same_Bool true b f g = sym (f refl)
same_Bool false true f g = g refl
same_Bool false false f g = refl

-- A page of the namespace is its instance and its number there.
page_eq : (nr a b : ℕ) → a % nr ≡ b % nr → a / nr ≡ b / nr → a ≡ b
page_eq nr a b e f = omega (arith, div-add-mod' a nr, div-add-mod' b nr, ap (λ q. q * nr) f)

same_page : (nr a b : ℕ) → (a % nr == b % nr) ≡ true → (a / nr == b / nr) ≡ (a == b)
same_page nr a b e =
    same_Bool (a / nr == b / nr) (a == b)
      (λ f. let g = page_eq nr a b (ground arith) (ground arith) in ground arith)
      (λ f. let g : a / nr ≡ b / nr = ap (λ x. x / nr) (ground arith) in ground arith)

other_part : (nr a b : ℕ) → (a % nr == b % nr) ≡ false → (a == b) ≡ false
other_part nr a b e = elim (Bool-cases (a == b)) [
  | inl f ↦ let g : a % nr ≡ b % nr = ap (λ x. x % nr) (ground arith) in absurd (ground arith)
  | inr f ↦ f
]

more_range :
    (a n x : ℕ) (b : Bool)
    → (leb (a + 1) x && ltb x (a + 1 + n)) || (a == x || b) ≡ (leb a x && ltb x (a + suc n)) || b
more_range a n x b = ground arith

no_range : (a x : ℕ) (b : Bool) → (leb a x && ltb x (a + 0)) || b ≡ b
no_range a x b = ground arith

module _ (pq : PQueue) (laws : QueueLaws pq) where
  -- The abstract state of all instances: logical pages of the namespace.
  abbrev pub view_all : ℕ → (ℕ → FtlState pq) → ℕ → Bool
  view_all nr ftls x = view (core (ftls (x % nr))) (x / nr)

  -- Every instance is sound.
  abbrev pub AreSound : (ℕ → FtlState pq) → Type 0
  AreSound ftls = (i : ℕ) → IsSound pq laws (ftls i)

  -- The pages from one to another are written.
  abbrev pub write_range_spec : ℕ → ℕ → (ℕ → Bool) → ℕ → Bool
  write_range_spec first last a x = (leb first x && ltb x last) || a x

  round_view :
      (nr : ℕ) (ftls : ℕ → FtlState pq) (lpn : ℕ) (s : FtlState pq)
      → ((y : ℕ) → view (core s) y ≡ write_spec (lpn / nr) (view (core (ftls (lpn % nr)))) y)
      → (x : ℕ) → view_all nr (update ftls (lpn % nr) s) x ≡ (lpn == x) || view_all nr ftls x
  round_view nr ftls lpn s seen x = elim (Bool-cases (lpn % nr == x % nr)) [
    | inl e ↦
        ap (λ b. view (core (if b then s else ftls (x % nr))) (x / nr)) e
        ∙ (seen (x / nr)
            ∙ ap₂ (λ b i. b || view (core (ftls i)) (x / nr)) (same_page nr lpn x e) (ground arith))
    | inr e ↦
        ap (λ b. view (core (if b then s else ftls (x % nr))) (x / nr)) e
        ∙ ap (λ b. b || view_all nr ftls x) (sym (other_part nr lpn x e))
  ]

  write_loop-refines :
      (n nr : ℕ) (ftls : ℕ → FtlState pq) (lpn : ℕ) {ftls' : ℕ → FtlState pq}
      → AreSound ftls
      → write_loop pq n nr ftls lpn ≡ ok ftls'
      → AreSound ftls'
        × ((x : ℕ) → view_all nr ftls' x ≡ write_range_spec lpn (lpn + n) (view_all nr ftls) x)
  unfolding write_loop
  write_loop-refines zero nr ftls lpn h e =
      subst
        (λ f.
          AreSound f
          × ((x : ℕ) → view_all nr f x ≡ write_range_spec lpn (lpn + 0) (view_all nr ftls) x))
        (ok-inj e) (h, λ x. sym (no_range lpn x (view_all nr ftls x)))
  write_loop-refines (suc n) nr ftls lpn {ftls'} h e =
      let i = lpn % nr in
      let (s, h1, e1) =
        >>=-ok (write_page pq (ftls i) (lpn / nr))
          (λ s. write_loop pq n nr (update ftls i s) (lpn + 1)) e in
      let (sound, seen) = write_page-refines pq laws (ftls i) (lpn / nr) (h i) h1 in
      let sound' : AreSound (update ftls i s) =
        λ j. elim (Bool-cases (i == j)) [ inl b ↦ rw b sound | inr b ↦ rw b (h j) ] in
      let (sound'', seen'') = write_loop-refines n nr (update ftls i s) (lpn + 1) sound' e1 in
      (
        sound'',
        λ x.
            seen'' x
            ∙ (ap (λ b. (leb (lpn + 1) x && ltb x (lpn + 1 + n)) || b)
                  (round_view nr ftls lpn s seen x)
                ∙ more_range lpn n x (view_all nr ftls x)),
      )

  -- What the status says has happened.
  pub conv_write_spec : Namespace pq → ℕ → ℕ → IoStatus → (ℕ → Bool) → ℕ → Bool
  conv_write_spec ns slba length io_success a x =
      (leb (start_lpn pq ns slba) x && leb x (end_lpn pq ns slba length)) || a x
  conv_write_spec ns slba length io_error a x = a x
  conv_write_spec ns slba length io_deferred a x = a x

  same_range :
      (a b x : ℕ) (d : Bool) → (leb a x && ltb x (a + (b + 1 - a))) || d ≡ (leb a x && leb x b) || d
  same_range a b x d = ground arith

  record Refined (ns : Namespace pq) (slba length : ℕ) (ns' : Namespace pq) (status : IoStatus)
      : Type 0 where
    sound : AreSound ns'.ftls
    seen :
        (x : ℕ)
        → view_all ns.nr_parts ns'.ftls x
          ≡ conv_write_spec ns slba length status (view_all ns.nr_parts ns.ftls) x

  write_pages-Refined :
      (ns : Namespace pq) (slba length : ℕ) (buf : Buffer) {ns' : Namespace pq} {status : IoStatus}
      → AreSound ns.ftls
      → write_pages pq ns slba length buf ≡ ok (ns', status)
      → Refined ns slba length ns' status
  unfolding write_pages conv_write_spec
  write_pages-Refined ns slba length buf h e =
      let a = start_lpn pq ns slba in
      let b = end_lpn pq ns slba length in
      let (ftls, h1, e1) =
        >>=-ok (write_loop pq (b + 1 - a) ns.nr_parts ns.ftls a)
          (λ f. ok (record ns { ftls = f; write_buffer = buf }, io_success)) e in
      let (sound, seen) = write_loop-refines (b + 1 - a) ns.nr_parts ns.ftls a h h1 in
      subst {A = Namespace pq × IoStatus} (λ (x, st). Refined ns slba length x st) (ok-inj e1)
        (record {
          sound = sound;
          seen = λ x. seen x ∙ same_range a b x (view_all ns.nr_parts ns.ftls x);
        })

  -- A write command keeps every instance sound, and what it adds to the pages that hold data is what
  -- its status says: the pages of its range on success, and none otherwise.
  pub conv_write-refines :
      (ns : Namespace pq) (slba length : ℕ) {ns' : Namespace pq} {status : IoStatus}
      → AreSound ns.ftls
      → conv_write pq ns slba length ≡ ok (ns', status)
      → AreSound ns'.ftls
        × ((x : ℕ)
            → view_all ns.nr_parts ns'.ftls x
              ≡ conv_write_spec ns slba length status (view_all ns.nr_parts ns.ftls) x)
  unfolding conv_write conv_write_spec
  conv_write-refines ns slba length {ns'} {status} h e =
      let size = mul_size (length + 1) 512 in
      let (buf, allocated) = buffer_allocate ns.write_buffer (u32 size) in
      let r : Refined ns slba length ns' status =
        elim (if-eq (leb (tt_pgs (ns.ftls 0).sp) (end_lpn pq ns slba length / ns.nr_parts))
          (ok (ns, io_error))
          (if ltb allocated size
            then ok (record ns { write_buffer = buf }, io_deferred)
            else write_pages pq ns slba length buf)
          e) [
            | inl (_, e1) ↦ kept ns io_error refl (λ x. refl) e1
            | inr (_, e1) ↦
                elim (if-eq (ltb allocated size)
                  (ok (record ns { write_buffer = buf }, io_deferred))
                  (write_pages pq ns slba length buf) e1) [
                    | inl (_, e2) ↦
                        kept (record ns { write_buffer = buf }) io_deferred refl (λ x. refl) e2
                    | inr (_, e2) ↦ write_pages-Refined ns slba length buf h e2
                  ]
          ] in
      (r.sound, r.seen)
    where
      kept :
          (m : Namespace pq) (st : IoStatus)
          → m.ftls ≡ ns.ftls
          → ((x : ℕ)
              → view_all ns.nr_parts ns.ftls x
                ≡ conv_write_spec ns slba length st (view_all ns.nr_parts ns.ftls) x)
          → {ns' : Namespace pq} {status : IoStatus}
          → ◌≡◌ {A = Result (Namespace pq × IoStatus)} (ok (m, st)) (ok (ns', status))
          → Refined ns slba length ns' status
      kept m st k z e =
          subst {A = Namespace pq × IoStatus} (λ (x, st). Refined ns slba length x st) (ok-inj e)
            (record {
              sound = λ i. subst (IsSound pq laws) (ap (λ f. f i) (sym k)) (h i);
              seen = λ x. ap (λ f. view_all ns.nr_parts f x) k ∙ z x;
            })

  -- A command past the end of the instances, or for which the write buffer has no room, changes
  -- nothing; the first is an error, the second is to be sent again.
  pub conv_write-refused :
      (ns : Namespace pq) (slba length : ℕ)
      → length < 65536
      → (tt_pgs (ns.ftls 0).sp ≤ end_lpn pq ns slba length / ns.nr_parts)
        ⊎ (ns.write_buffer.remaining < (length + 1) * 512)
      → conv_write pq ns slba length
        ≡ ok (
          ns,
          if leb (tt_pgs (ns.ftls 0).sp) (end_lpn pq ns slba length / ns.nr_parts)
              then io_error
              else io_deferred,
        )
  unfolding conv_write
  conv_write-refused ns slba length b h = ground (arith, h)
