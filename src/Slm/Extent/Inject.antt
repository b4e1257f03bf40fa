-- ===== src/Slm/Extent/Inject.antt =====
-- Extents that are packed one behind the other: no two bytes of a file share a byte of SLM.
use flax.Base.{
  ℕ, ◌+◌, ◌-◌, ◌≤◌, ◌<◌, ◌≡◌, Bool, true, false, ◌&&◌, ◌||◌, List, [], ◌∷◌, ltb, leb, add_size,
  sub_size, size_mod, arith, Bool-cases, inl, inr, ◌∙◌, sym,
}
use flax.Slm.Region.{Extent, Info}
use flax.Slm.Frontier.{snoc}
use flax.Slm.Extent.{translate, extent_translate_addr}

-- The extents fill the SLM buffer from byte `from` to byte `to`, in order and without gaps.
abbrev pub Chain : ℕ → List Extent → ℕ → Type 0
Chain from [] to = from ≡ to
Chain from (x ∷ xs) to =
    (x.slm_offset ≡ from)
    × (x.file_offset + x.file_size < size_mod)
    × Chain (from + x.file_size) xs to

abbrev pub holds : Extent → ℕ → Bool
holds x a = leb x.file_offset a && ltb a (add_size x.file_offset x.file_size)

-- Whether an extent holds the byte of the file.
abbrev pub held : List Extent → ℕ → Bool
held [] a = false
held (x ∷ xs) a = holds x a || held xs a

pub Chain-le : (from to : ℕ) (xs : List Extent) → Chain from xs to → from ≤ to
Chain-le from to [] c = omega arith
Chain-le from to (x ∷ xs) c = omega (arith, Chain-le (from + x.file_size) to xs c.2)

pub Chain-snoc :
    (from to : ℕ) (xs : List Extent) (x : Extent)
    → Chain from xs to
    → x.slm_offset ≡ to
    → x.file_offset + x.file_size < size_mod
    → Chain from (snoc xs x) (to + x.file_size)
Chain-snoc from to [] x c e w = (e ∙ sym c, w, omega arith)
Chain-snoc from to (y ∷ ys) x c e w = (c.0, c.1, Chain-snoc (from + y.file_size) to ys x c.2 e w)

-- A held byte is translated into the part of the buffer that the extents fill.
pub translate_bounds :
    (from to start a fallback : ℕ) (xs : List Extent)
    → Chain from xs to
    → start + to < size_mod
    → held xs a ≡ true
    → (start + from ≤ translate xs start a fallback) × (translate xs start a fallback < start + to)
unfolding translate
translate_bounds from to start a fallback [] c w h = ground arith
translate_bounds from to start a fallback (x ∷ xs) c w h = elim (Bool-cases (holds x a)) [
  | inl here ↦ ground (arith, Chain-le (from + x.file_size) to xs c.2)
  | inr later ↦ ground (arith, translate_bounds (from + x.file_size) to start a fallback xs c.2 w)
]

translate_here :
    (x : Extent) (xs : List Extent) (start a fallback : ℕ)
    → holds x a ≡ true
    → x.file_offset + x.file_size < size_mod
    → start + x.slm_offset + x.file_size < size_mod
    → (translate (x ∷ xs) start a fallback ≡ start + x.slm_offset + (a - x.file_offset))
      × (x.file_offset ≤ a)
      × (a < x.file_offset + x.file_size)
unfolding translate
translate_here x xs start a fallback h w v = ground arith

translate_later :
    (x : Extent) (xs : List Extent) (start a fallback : ℕ)
    → holds x a ≡ false
    → translate (x ∷ xs) start a fallback ≡ translate xs start a fallback
unfolding translate
translate_later x xs start a fallback h = ground arith

held_later :
    (x : Extent) (xs : List Extent) (a : ℕ)
    → held (x ∷ xs) a ≡ true
    → holds x a ≡ false
    → held xs a ≡ true
held_later x xs a h k = ground arith

both_here :
    (x : Extent) (xs : List Extent) (start a b fa fb : ℕ)
    → holds x a ≡ true
    → holds x b ≡ true
    → x.file_offset + x.file_size < size_mod
    → start + x.slm_offset + x.file_size < size_mod
    → translate (x ∷ xs) start a fa ≡ translate (x ∷ xs) start b fb
    → a ≡ b
both_here x xs start a b fa fb p q w v e =
    omega (arith, translate_here x xs start a fa p w v, translate_here x xs start b fb q w v)

-- A byte in the first extent and one behind it are not translated to one byte.
apart :
    (x : Extent) (xs : List Extent) (from to start a b fa fb : ℕ)
    → Chain from (x ∷ xs) to
    → start + to < size_mod
    → holds x a ≡ true
    → held xs b ≡ true
    → holds x b ≡ false
    → translate (x ∷ xs) start a fa ≡ translate (x ∷ xs) start b fb
    → ⊥
apart x xs from to start a b fa fb c w p h q e =
    let top : from + x.file_size ≤ to = Chain-le (from + x.file_size) to xs c.2 in
    omega (
      arith,
      translate_here x xs start a fa p c.1 (omega (arith, top)),
      translate_later x xs start b fb q,
      translate_bounds (from + x.file_size) to start b fb xs c.2 w h,
    )

-- Two held bytes of the file that are translated to one byte of SLM are the same byte.
pub translate_injective :
    (from to start a b fa fb : ℕ) (xs : List Extent)
    → Chain from xs to
    → start + to < size_mod
    → held xs a ≡ true
    → held xs b ≡ true
    → translate xs start a fa ≡ translate xs start b fb
    → a ≡ b
translate_injective from to start a b fa fb [] c w ha hb e = ground arith
translate_injective from to start a b fa fb (x ∷ xs) c w ha hb e =
    let top : from + x.file_size ≤ to = Chain-le (from + x.file_size) to xs c.2 in
    elim (Bool-cases (holds x a)) [
      | inl p ↦ elim (Bool-cases (holds x b)) [
        | inl q ↦ both_here x xs start a b fa fb p q c.1 (omega (arith, top)) e
        | inr q ↦ absurd (apart x xs from to start a b fa fb c w p (held_later x xs b hb q) q e)
      ]
      | inr p ↦ elim (Bool-cases (holds x b)) [
        | inl q ↦
            absurd (apart x xs from to start b a fb fa c w q (held_later x xs a ha p) p (sym e))
        | inr q ↦
            translate_injective (from + x.file_size) to start a b fa fb xs c.2 w
              (held_later x xs a ha p) (held_later x xs b hb q)
              (sym (translate_later x xs start a fa p) ∙ (e ∙ translate_later x xs start b fb q))
      ]
    ]

-- `extent_translate_addr` sends different mapped addresses to different SLM addresses, where the
-- extents are packed and the buffer does not wrap.
pub extent_translate_addr_injective :
    (info : Info) (from to a b : ℕ)
    → Chain from info.extents to
    → info.start_addr + to < size_mod
    → held info.extents (sub_size a info.start_addr) ≡ true
    → held info.extents (sub_size b info.start_addr) ≡ true
    → a < size_mod
    → b < size_mod
    → info.start_addr ≤ a
    → info.start_addr ≤ b
    → extent_translate_addr info a ≡ extent_translate_addr info b
    → a ≡ b
unfolding extent_translate_addr
extent_translate_addr_injective info from to a b c w ha hb wa wb la lb e = omega (
  arith,
  translate_injective from to info.start_addr (sub_size a info.start_addr)
      (sub_size b info.start_addr) a b info.extents c w ha hb e,
)
