-- ===== src/Slm/Notify/Laws.antt =====
-- From the producer's report to the consumer's check, and the host's readout of an output.
use flax.Base.{
  ℕ, ◌+◌, ◌-◌, ◌≤◌, ◌<◌, ◌≡◌, true, false, none, some, arith, add_size, sub_size, size_mod, min,
  Option-cases, inl, inr, ap, sym, ◌∙◌,
}
use flax.Slm.Region.{Info, page_size}
use flax.Slm.Store.{Slm, region_of, ok, bug, put_region}
use flax.Slm.Frontier.{ht_advance_head}
use mathlib.Core.Path.{subst}
use native.Mathlib.Nat.{mod-eq_of_lt}
use flax.Slm.Frontier.Frame.{ht_advance_head_frame, ht_advance_head_reaches}
use flax.Slm.Ready.{check_region, check_slm_data_ready, check_output_linear, check_output_ring}
use flax.Slm.Ready.Sound.{head_ready_complete}
use flax.Slm.Notify.{is_linear, notify_slm_data_ready, consume_output, finalize_region}

-- The check of a linear region whose frontier has passed the probe.
check_region_linear :
    (info : Info) (addr len : ℕ)
    → is_linear info ≡ true
    → 0 < len
    → sub_size addr info.start_addr + len ≤ info.ht_head
    → info.ht_head + page_size < size_mod
    → (check_region info addr len).1 ≡ true
unfolding check_region
check_region_linear info addr len linear p le w =
    ground (arith, head_ready_complete info (sub_size addr info.start_addr) len p le w)

advance-check :
    (info : Info) (addr len : ℕ) {info' : Info}
    → is_linear info ≡ true
    → sub_size addr info.start_addr ≤ info.ht_head
    → 0 < len
    → sub_size addr info.start_addr + len < size_mod
    → ht_advance_head info
        (sub_size addr info.start_addr)
        (add_size (sub_size addr info.start_addr) len)
      ≡ some info'
    → info'.ht_head + page_size < size_mod
    → (check_region info' addr len).1 ≡ true
advance-check info addr len {info'} linear near p fits e w =
    let same = ht_advance_head_frame info _ _ e in
    let base : info'.start_addr ≡ info.start_addr = ap (λ (i : Info). i.start_addr) same in
    let reach = ht_advance_head_reaches info _ _ near e in
    check_region_linear info' addr len (ap is_linear same ∙ linear) p
      (rw base (omega (arith, reach, mod-eq_of_lt fits))) w

-- The two ways through `notify_slm_data_ready` for an unfinished linear region.
module _ (s : Slm) (p addr len : ℕ) where
  notify_fault :
      region_of s addr ≡ some p
      → is_linear (s.regions p) ≡ true
      → (s.regions p).ht_producer_done ≡ false
      → ht_advance_head
          (s.regions p)
          (sub_size addr (s.regions p).start_addr)
          (add_size (sub_size addr (s.regions p).start_addr) len)
        ≡ none
      → notify_slm_data_ready s addr len ≡ bug
  unfolding notify_slm_data_ready
  notify_fault found linear unfinished e = ground arith

  notify_moves :
      (info' : Info)
      → region_of s addr ≡ some p
      → is_linear (s.regions p) ≡ true
      → (s.regions p).ht_producer_done ≡ false
      → ht_advance_head
          (s.regions p)
          (sub_size addr (s.regions p).start_addr)
          (add_size (sub_size addr (s.regions p).start_addr) len)
        ≡ some info'
      → notify_slm_data_ready s addr len ≡ ok (put_region s p info')
  unfolding notify_slm_data_ready
  notify_moves info' found linear unfinished e = ground arith

  check_put :
      (info' : Info)
      → region_of s addr ≡ some p
      → (check_region info' addr len).1 ≡ true
      → (check_slm_data_ready (put_region s p info') addr len).1 ≡ true
  unfolding check_slm_data_ready
  check_put info' found ready = ground arith

there : (s s' : Slm) (p : ℕ) (info' : Info) → put_region s p info' ≡ s' → s'.regions p ≡ info'
there s s' p info' e = rw (← e) (ground arith)

-- In a linear region, which tracks its head and tail and is in neither ring nor extent mode, and
-- whose producer is not done, a range of some bytes that is reported as
-- produced, and that starts at or below the frontier, is ready for the consumer at once. No
-- address is so near 2 ^ 64 that it wraps.
pub notify-check :
    (s : Slm) (p addr len : ℕ) {s' : Slm}
    → region_of s addr ≡ some p
    → is_linear (s.regions p) ≡ true
    → (s.regions p).ht_producer_done ≡ false
    → sub_size addr (s.regions p).start_addr ≤ (s.regions p).ht_head
    → 0 < len
    → sub_size addr (s.regions p).start_addr + len < size_mod
    → notify_slm_data_ready s addr len ≡ ok s'
    → (s'.regions p).ht_head + page_size < size_mod
    → (check_slm_data_ready s' addr len).1 ≡ true
notify-check s p addr len {s'} found linear unfinished near some_bytes fits e w =
    elim (Option-cases (
      ht_advance_head (s.regions p) (sub_size addr (s.regions p).start_addr)
        (add_size (sub_size addr (s.regions p).start_addr) len))) [
          | inl fault ↦
              absurd (not_ok (sym (notify_fault s p addr len found linear unfinished fault) ∙ e))
          | inr (info', moved) ↦
              let same : put_region s p info' ≡ s' =
                cc (notify_moves s p addr len info' found linear unfinished moved, e) in
              subst (λ t. (check_slm_data_ready t addr len).1 ≡ true) same
                (check_put s p addr len info' found (
                  advance-check (s.regions p) addr len linear near some_bytes fits moved
                    (subst (λ i. i.ht_head + page_size < size_mod) (there s s' p info' same) w)))
        ]
  where
    not_ok : bug ≡ ok s' → ⊥
    not_ok h = cc

-- After finalization of a linear head/tail region, whose output is no ring, the host reads exactly
-- the output: every read of some bytes is answered at once, with the length cut off at the end of
-- the output, and 0 behind it.
-- No address or length is so near 2 ^ 64 that it wraps.
pub check_output_finalized :
    (page output_len rel len : ℕ) (info : Info)
    → info.use_head_tail ≡ true
    → 0 < len
    → rel + len < size_mod
    → output_len + 8192 < size_mod
    → info.ht_head + page_size < size_mod
    → check_output_linear (finalize_region page info output_len) rel len
      ≡ (true, min len (output_len - rel))
unfolding check_output_linear finalize_region
check_output_finalized page output_len rel len info ht p w w' w'' = ground arith

-- A host that has not passed the writer of an output ring, and takes only what the check granted,
-- does not pass it. The offsets do not wrap.
pub consume_output-le-head :
    (info : Info) (len n : ℕ)
    → info.output_is_circular ≡ true
    → info.host_consumed_logical_offset ≤ info.ht_head
    → info.ht_head < size_mod
    → info.host_consumed_logical_offset + len < size_mod
    → check_output_ring info len ≡ (true, n)
    → (n ≤ len)
      × ((consume_output info n).host_consumed_logical_offset
          ≡ info.host_consumed_logical_offset + n)
      × (info.host_consumed_logical_offset + n ≤ info.ht_head)
unfolding check_output_ring consume_output
consume_output-le-head info len n c le w w' e = ground arith
