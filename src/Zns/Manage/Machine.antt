-- ===== src/Zns/Manage/Machine.antt =====
-- The zone state machine of the management commands, against the table of the Zoned Namespace
-- Command Set.
use flax.Base.{if◌then◌else◌, ℕ, ◌≤◌, ◌≡◌, ◌≢◌, Option, none, some, arith, ◌==◌}
use flax.Zns.Zone.{
  State, empty, opened_impl, opened_expl, closed, read_only, full, offline, Local, Params, success,
}
use flax.Zns.Manage.{zmgmt_send}
use flax.Zns.Manage.Balance.{IsLocal}

-- Where a command takes a zone; `none` where it is refused in the zone's state.
abbrev pub close_target : State → Option State
close_target opened_impl = some closed
close_target opened_expl = some closed
close_target closed = some closed
close_target _ = none

abbrev pub finish_target : State → Option State
finish_target read_only = none
finish_target offline = none
finish_target _ = some full

abbrev pub open_target : State → Option State
open_target read_only = none
open_target offline = none
open_target full = none
open_target _ = some opened_expl

abbrev pub reset_target : State → Option State
reset_target read_only = none
reset_target offline = none
reset_target _ = some empty

abbrev pub offline_target : State → Option State
offline_target read_only = some offline
offline_target offline = some offline
offline_target _ = none

-- By the number of the action.
abbrev pub target : ℕ → State → Option State
target action s =
    if action == 1
    then close_target s
    else if action == 2
    then finish_target s
    else if action == 3
    then open_target s
    else if action == 4
    then reset_target s
    else if action == 5
    then offline_target s
    else none

-- A close, finish, open, reset or offline command that succeeds takes the zone where the table
-- says.
pub zmgmt_send-target :
    (zp : Params) (zid : ℕ) (l : Local) (slba action option : ℕ) {l' : Local}
    → action ≤ 5
    → zmgmt_send zp zid l slba action option ≡ (l', some success)
    → target action l.zone.state ≡ some l'.zone.state
unfolding zmgmt_send
zmgmt_send-target zp zid l slba action option h e = ground arith

-- Only opening can be refused in a state that the table allows, for want of a resource: each of
-- the other four commands succeeds there.
zmgmt_send-succeeds :
    (zp : Params) (zid : ℕ) (l : Local) (slba action option : ℕ) {s : State}
    → action ≢ 3
    → target action l.zone.state ≡ some s
    → (zmgmt_send zp zid l slba action option).1 ≡ some success
unfolding zmgmt_send
zmgmt_send-succeeds zp zid l slba action option h e = ground arith

-- A command that does not succeed changes nothing, where the zone's shares are counted.
pub zmgmt_send-failed :
    (zp : Params) (zid : ℕ) (l : Local) (slba action option : ℕ)
    → IsLocal l
    → (zmgmt_send zp zid l slba action option).1 ≢ some success
    → (zmgmt_send zp zid l slba action option).0 ≡ l
unfolding zmgmt_send
zmgmt_send-failed zp zid l slba action option h e = ground arith
