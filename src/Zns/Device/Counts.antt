-- ===== src/Zns/Device/Counts.antt =====
-- The books of the whole namespace: each resource's count is what the zones hold of it.
use flax.Base.{
  ◌-◌, ℕ, zero, suc, ◌+◌, ◌≤◌, ◌<◌, ◌≡◌, refl, false, Option, none, some, List, [], ◌∷◌, get_elem?,
  set, arith, Option-cases, inl, inr, ap, sym, ◌∙◌,
}
use flax.Zns.Zone.{empty, Zone, Local, Resource}
use flax.Zns.Manage.Balance.{
  open_share, active_share, zrwa_share, IsBacked, IsLocal, Paid, Balanced,
}
use flax.Zns.Write.Append.{ZrwaWrite}
use flax.Zns.Device.{Zns, local_of, put_local, on_zone}

-- The sum of the zones' shares.
abbrev pub total : (Zone → ℕ) → List Zone → ℕ
total share [] = 0
total share (z ∷ zs) = share z + total share zs

abbrev pub open_of : Zone → ℕ
open_of z = open_share z.state

abbrev pub active_of : Zone → ℕ
active_of z = active_share z.state

-- An empty zone has no random write area and nothing written.
abbrev pub Unwritten : Zone → Type 0
Unwritten z = z.state ≡ empty → (z.zrwav ≡ false) × (z.wp ≡ z.zslba)

abbrev pub AllUnwritten : List Zone → Type 0
AllUnwritten [] = Unit
AllUnwritten (z ∷ zs) = Unwritten z × AllUnwritten zs

pub record Counted (r : Resource) (n : ℕ) : Type 0 where
  pub exact : r.acquired_cnt ≡ n
  pub within : r.acquired_cnt ≤ r.total_cnt
  pub fits : r.total_cnt < 4294967296

-- The books of the namespace are right. `lost` counts the random write areas that are not with a
-- zone any more and still not given back.
pub record IsCounted (lost : ℕ) (d : Zns) : Type 0 where
  pub opened : Counted d.opened (total open_of d.zones)
  pub active : Counted d.active (total active_of d.zones)
  pub zrwa : Counted d.zrwa (total zrwa_share d.zones + lost)
  pub unwritten : AllUnwritten d.zones

total-le :
    (share : Zone → ℕ) (zs : List Zone) (i : ℕ) {z : Zone}
    → get_elem? zs i ≡ some z
    → share z ≤ total share zs
total-le share [] i e = ground arith
total-le share (x ∷ xs) zero e = ground arith
total-le share (x ∷ xs) (suc i) {z} e = omega (arith, total-le share xs i {z = z} e)

total-set :
    (share : Zone → ℕ) (zs : List Zone) (i : ℕ) (z z' : Zone)
    → get_elem? zs i ≡ some z
    → total share (set zs i z') + share z ≡ total share zs + share z'
total-set share [] i z z' e = ground arith
total-set share (x ∷ xs) zero z z' e = ground arith
total-set share (x ∷ xs) (suc i) z z' e = omega (arith, total-set share xs i z z' e)

Unwritten-at :
    (zs : List Zone) (i : ℕ) {z : Zone} → AllUnwritten zs → get_elem? zs i ≡ some z → Unwritten z
Unwritten-at [] i h e = absurd (ground arith)
Unwritten-at (x ∷ xs) zero h e = ground arith
Unwritten-at (x ∷ xs) (suc i) {z} h e = Unwritten-at xs i {z = z} h.1 e

Unwritten-set :
    (zs : List Zone) (i : ℕ) (z : Zone) → AllUnwritten zs → Unwritten z → AllUnwritten (set zs i z)
Unwritten-set [] i z h u = tt
Unwritten-set (x ∷ xs) zero z h u = (u, h.1)
Unwritten-set (x ∷ xs) (suc i) z h u = (h.0, Unwritten-set xs i z h.1 u)

pub IsCounted-IsLocal :
    (lost : ℕ) (d : Zns) (zid : ℕ) (z : Zone)
    → IsCounted lost d
    → get_elem? d.zones zid ≡ some z
    → IsLocal (local_of d z)
IsCounted-IsLocal lost d zid z c e = record {
  opened = backed open_of c.opened;
  active = backed active_of c.active;
  zrwa = record {
    held = omega (arith, total-le zrwa_share d.zones zid {z = z} e, c.zrwa.exact);
    within = c.zrwa.within;
    fits = c.zrwa.fits;
  };
  unwritten = Unwritten-at d.zones zid {z = z} c.unwritten e;
}
  where
    backed :
        {r : Resource} (share : Zone → ℕ) → Counted r (total share d.zones) → IsBacked (share z) r
    backed share k = record {
      held = omega (arith, total-le share d.zones zid {z = z} e, k.exact);
      within = k.within;
      fits = k.fits;
    }

Paid-Counted :
    (r r' : Resource) (share share' n n' : ℕ)
    → Counted r n
    → Paid r share r' share'
    → n' + share ≡ n + share'
    → Counted r' n'
Paid-Counted r r' share share' n n' c p e = ground arith

-- A balanced change of one zone keeps the books of all.
pub Balanced-IsCounted :
    (lost : ℕ) (d : Zns) (zid : ℕ) (z : Zone) (l' : Local)
    → IsCounted lost d
    → get_elem? d.zones zid ≡ some z
    → Balanced (local_of d z) l'
    → IsCounted lost (put_local d zid l')
Balanced-IsCounted lost d zid z l' c e b = record {
  opened =
      Paid-Counted d.opened l'.opened _ _ _ _ c.opened b.opened
        (total-set open_of d.zones zid z l'.zone e);
  active =
      Paid-Counted d.active l'.active _ _ _ _ c.active b.active
        (total-set active_of d.zones zid z l'.zone e);
  zrwa =
      Paid-Counted d.zrwa l'.zrwa _ _ _ _ c.zrwa b.zrwa
        (omega (arith, total-set zrwa_share d.zones zid z l'.zone e));
  unwritten = Unwritten-set d.zones zid l'.zone c.unwritten b.unwritten;
}

pub some_inj : {A : Type 0} {a b : A} → some a ≡ some b → a ≡ b
some_inj {a} e = ap (λ o. elim o [ none ↦ a | some x ↦ x ]) e

pub none-some : {A : Type 0} {o : Option A} {a : A} → o ≡ none → o ≡ some a → ⊥
none-some h e = ground arith

-- An operation that is in range acts on a zone that is there.
pub on_zone-some :
    {A : Type 0} (d : Zns) (zid : ℕ) (f : Local → Local × A) {d' : Zns} {a : A}
    → on_zone d zid f ≡ some (d', a)
    → (z : Zone) × (get_elem? d.zones zid ≡ some z)
      × (put_local d zid (f (local_of d z)).0 ≡ d')
      × ((f (local_of d z)).1 ≡ a)
on_zone-some d zid f {d'} {a} e = elim (Option-cases (get_elem? d.zones zid)) [
  | inl n ↦ absurd (ground arith)
  | inr (z, found) ↦
      let same : (put_local d zid (f (local_of d z)).0, (f (local_of d z)).1) ≡ (d', a) =
        some_inj (sym (reads z found) ∙ e) in
      (z, found, ap (λ p. p.0) same, ap (λ p. p.1) same)
]
  where
    reads :
        (z : Zone)
        → get_elem? d.zones zid ≡ some z
        → on_zone d zid f ≡ some (put_local d zid (f (local_of d z)).0, (f (local_of d z)).1)
    reads z found = rw (found, on_zone) refl

pub share_le_one : (z : Zone) → zrwa_share z ≤ 1
share_le_one z = ground arith

Lost-Counted :
    (r r' : Resource) (share share' n n' lost : ℕ)
    → Counted r (n + lost)
    → r' ≡ r
    → share' ≤ share
    → n' + share ≡ n + share'
    → Counted r' (n' + (lost + (share - share')))
Lost-Counted r r' share share' n n' lost c same le e =
    rw same (record { exact = omega (arith, c.exact); within = c.within; fits = c.fits })

-- So does a write to a random write area, but for the area itself.
pub ZrwaWrite-IsCounted :
    (lost : ℕ) (d : Zns) (zid : ℕ) (z : Zone) (l' : Local)
    → IsCounted lost d
    → get_elem? d.zones zid ≡ some z
    → ZrwaWrite (local_of d z) l'
    → IsCounted (lost + (zrwa_share z - zrwa_share l'.zone)) (put_local d zid l')
ZrwaWrite-IsCounted lost d zid z l' c e b = record {
  opened =
      Paid-Counted d.opened l'.opened _ _ _ _ c.opened b.opened
        (total-set open_of d.zones zid z l'.zone e);
  active =
      Paid-Counted d.active l'.active _ _ _ _ c.active b.active
        (total-set active_of d.zones zid z l'.zone e);
  zrwa =
      Lost-Counted d.zrwa l'.zrwa (zrwa_share z) (zrwa_share l'.zone) _ _ lost c.zrwa b.area_kept
        b.share_falls (total-set zrwa_share d.zones zid z l'.zone e);
  unwritten = Unwritten-set d.zones zid l'.zone c.unwritten b.unwritten;
}
