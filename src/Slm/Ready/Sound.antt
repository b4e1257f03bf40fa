-- ===== src/Slm/Ready/Sound.antt =====
-- What the checks promise: a probe that is answered with true lies in pages that the producer has
-- reached, a range that is wholly produced is ready, and a failed check changes nothing.
use flax.Base.{ℕ, ◌+◌, ◌*◌, ◌/◌, ◌%◌, ◌≤◌, ◌<◌, ◌≡◌, true, arith, sub_size, if◌then◌else◌, size_mod}
use flax.Slm.Region.{Info, page_size}
use flax.Slm.Ready.{head_ready, check_region, pass_by}

-- A probe of one page must start at a page, since only its first page is looked at.
abbrev pub Probe : ℕ → ℕ → Type 0
Probe rel len = (0 < len) × (rel + len < size_mod) × (len ≡ 4096 → rel % 4096 ≡ 0)

-- If the head/tail check passes, then the frontier has reached the page of every byte that was
-- asked for. The probe is not empty and does not wrap, one of exactly a page starts at a page, and
-- the frontier is not within a page of 2 ^ 64.
pub head_ready_sound :
    (info : Info) (rel len b : ℕ)
    → Probe rel len
    → info.ht_head + page_size < size_mod
    → head_ready info rel len ≡ true
    → rel ≤ b
    → b < rel + len
    → b / 4096 * 4096 < info.ht_head
unfolding head_ready
head_ready_sound info rel len b p w h lo hi = ground arith

-- A range of some bytes that lies wholly below the frontier is ready: a consumer does not wait for
-- it. The frontier is not within a page of 2 ^ 64.
pub head_ready_complete :
    (info : Info) (rel len : ℕ)
    → 0 < len
    → rel + len ≤ info.ht_head
    → info.ht_head + page_size < size_mod
    → head_ready info rel len ≡ true
unfolding head_ready
head_ready_complete info rel len p h w = ground arith

-- A check that fails changes nothing, and one that passes moves only the expected next address of
-- an input region, to the end of the probe.
check_region_frame :
    (info : Info) (addr len : ℕ)
    → let (info', ready) = check_region info addr len in
      info' ≡ (if ready then pass_by info (sub_size addr info.start_addr) len else info)
unfolding check_region
check_region_frame info addr len = ground arith
