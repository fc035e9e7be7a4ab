-- ===== src/Chan/Usable.antt =====
-- Which transceivers, timeslots and lchans are usable: trx_is_usable(), ts_is_usable() and
-- nm_is_running() of src/osmo-bsc/gsm_data.c, lchan_state_is() of lchan_fsm.h, the loop macros of
-- gsm_data.h, and ts_usable_as_pchan() with its helpers of src/osmo-bsc/timeslot_fsm.c.
use osmo_bsc.Base.{
  ℕ, ◌+◌, Bool, true, false, not, ◌&&◌, ◌||◌, Option, none, some, List, [], ◌∷◌, ltb, if◌then◌else◌,
}
use osmo_bsc.Chan.Types.{
  Pchan, LchanState, unused, wait_ts_ready, TsState, ts_not_initialized, ts_in_use, ts_borken,
  NmState, Lchan, Ts, Trx, Bts,
}
use osmo_bsc.Chan.Kinds.{pchan_eq, pchan_subslots, gsm_pchan_by_lchan_type, capable_of_pchan}

-- nm_is_running()
unfoldable pub nm_is_running : NmState → Bool
nm_is_running s = s.enabled && (s.avail_ok || s.avail_unset)

-- trx_is_usable(); the BTS of the transceiver is an argument.
unfoldable pub trx_is_usable : Bts → Trx → Bool
unfolding nm_is_running
trx_is_usable bts trx =
    if bts.is_ipaccess then nm_is_running trx.mo && nm_is_running trx.bb_transc else true

-- lchan->fi->state == LCHAN_ST_UNUSED, and likewise WAIT_TS_READY
abbrev pub is_unused : LchanState → Bool
is_unused unused = true
is_unused _ = false

abbrev pub is_waiting : LchanState → Bool
is_waiting wait_ts_ready = true
is_waiting _ = false

abbrev ts_state_usable : TsState → Bool
ts_state_usable ts_not_initialized = false
ts_state_usable ts_borken = false
ts_state_usable _ = true

abbrev ts_fi_usable : Option TsState → Bool
ts_fi_usable none = false
ts_fi_usable (some st) = ts_state_usable st

-- ts_is_usable()
unfoldable pub ts_is_usable : Bts → Trx → Ts → Bool
unfolding trx_is_usable
ts_is_usable bts trx ts = if trx_is_usable bts trx then ts_fi_usable ts.fi else false

-- The loop test of ts_as_pchan_for_each_lchan(), of the lchan's FSM instance and number.
abbrev visits : Pchan → ℕ → Option LchanState → Bool
unfolding pchan_subslots
visits as_pchan nr none = false
visits as_pchan nr (some st) = ltb nr (pchan_subslots as_pchan)

-- lchan->fi->state, where `fi` is known not to be NULL.
abbrev lchan_state : Option LchanState → LchanState
lchan_state none = unused
lchan_state (some st) = st

-- The lchans that ts_as_pchan_for_each_lchan() visits, with their positions from `i` on and their
-- states: as long as an FSM is allocated and `nr` is a subslot of `as_pchan`.
unfoldable pub lchans_as_pchan : Pchan → ℕ → List Lchan → List (ℕ × Lchan × LchanState)
unfolding visits
lchans_as_pchan as_pchan i [] = []
lchans_as_pchan as_pchan i (l ∷ ls) =
    if visits as_pchan l.nr l.fi
    then (i, l, lchan_state l.fi) ∷ lchans_as_pchan as_pchan (i + 1) ls
    else []

-- ts_is_lchan_waiting_for_pchan(): the kind that the first waiting lchan waits for.
waiting_pchan : List (ℕ × Lchan × LchanState) → Option Pchan
unfolding gsm_pchan_by_lchan_type
waiting_pchan [] = none
waiting_pchan ((i, l, st) ∷ ls) =
    if is_waiting st then some (gsm_pchan_by_lchan_type l.chan_type) else waiting_pchan ls

unfoldable pub ts_is_lchan_waiting_for_pchan : Ts → Option Pchan
unfolding waiting_pchan lchans_as_pchan
ts_is_lchan_waiting_for_pchan ts = waiting_pchan (lchans_as_pchan ts.pchan_on_init 0 ts.lchans)

abbrev is_in_use : Option TsState → Bool
is_in_use (some ts_in_use) = true
is_in_use _ = false

-- The end of ts_usable_as_pchan(): the kind waited for, or else what the timeslot is capable of.
abbrev switch_allows : Pchan → Pchan → Option Pchan → Bool
unfolding capable_of_pchan pchan_eq
switch_allows on_init as_pchan (some target) = pchan_eq target as_pchan
switch_allows on_init as_pchan none = capable_of_pchan on_init as_pchan

-- ts_usable_as_pchan()
unfoldable pub ts_usable_as_pchan : Bts → Trx → Ts → Pchan → Bool
unfolding switch_allows
ts_usable_as_pchan bts trx ts as_pchan =
    if not (ts_is_usable bts trx ts)
    then false
    else if is_in_use ts.fi
    then pchan_eq ts.pchan_is as_pchan
    else switch_allows ts.pchan_on_init as_pchan (ts_is_lchan_waiting_for_pchan ts)
