-- ===== src/Slm/Extent.antt =====
-- csd_slm.h, `extent_is_mapped` and `extent_translate_addr`: where a demanded part of a file lies
-- in SLM.
pub mod Inject
use flax.Base.{
  ℕ, ◌+◌, Bool, true, false, ◌&&◌, List, [], ◌∷◌, ltb, leb, if◌then◌else◌, add_size, sub_size,
}
use flax.Slm.Region.{Extent, Info}

unfoldable pub extents_cover : List Extent → ℕ → ℕ → Bool
extents_cover [] file_offset len = false
extents_cover (x ∷ xs) file_offset len =
    let rest = extents_cover xs file_offset len in
    if leb x.file_offset file_offset
      && leb (add_size file_offset len) (add_size x.file_offset x.file_size)
    then true
    else rest

-- `extent_is_mapped`
unfoldable pub extent_is_mapped : Info → ℕ → ℕ → Bool
unfolding extents_cover
extent_is_mapped info logical_addr len =
    extents_cover info.extents (sub_size logical_addr info.start_addr) len

-- The scan of `extent_translate_addr`; `fallback` is returned where no extent holds the offset.
pub translate : List Extent → ℕ → ℕ → ℕ → ℕ
translate [] start_addr file_offset fallback = fallback
translate (x ∷ xs) start_addr file_offset fallback =
    let rest = translate xs start_addr file_offset fallback in
    if leb x.file_offset file_offset && ltb file_offset (add_size x.file_offset x.file_size)
    then add_size (add_size start_addr x.slm_offset) (sub_size file_offset x.file_offset)
    else rest

-- `extent_translate_addr`
unfoldable pub extent_translate_addr : Info → ℕ → ℕ
unfolding translate
extent_translate_addr info logical_addr =
    translate info.extents info.start_addr (sub_size logical_addr info.start_addr) logical_addr
