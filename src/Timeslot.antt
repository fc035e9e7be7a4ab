-- ===== src/Timeslot.antt =====
-- The FSM of a timeslot, src/osmo-bsc/timeslot_fsm.c, and of src/osmo-bsc/lchan_fsm.c what an lchan does
-- with the two events that a timeslot sends it. The two call each other: an lchan that becomes unused
-- tells its timeslot, also in the middle of the timeslot's own actions.
pub mod Lchans
pub mod Enter
pub mod Handlers
pub mod Calm
pub mod Quiet
pub mod Told
pub mod Unused
pub mod InUse
pub mod Actions
pub mod States
pub mod Dispatch
pub mod Steps
pub mod Errors
pub mod Depth
mod Tests
use osmo_bsc.Base.{
  ℕ, ◌+◌, Bool, true, false, not, ◌&&◌, Option, none, some, List, [], ◌∷◌, ltb, ◌==◌, if◌then◌else◌,
}
use osmo_bsc.Chan.Types.{
  Pchan, pchan_none, tch_f_pdch, tch_f_tch_h_pdch, ChanType, lchan_none, LchanState, unused, cbch,
  wait_ts_ready, wait_activ_ack, wait_rll_rtp_establish, established, wait_rll_rtp_released,
  wait_before_rf_release, wait_rf_release_ack, wait_after_error, borken, TsState,
  ts_not_initialized, ts_unused, ts_wait_pdch_act, ts_pdch, ts_wait_pdch_deact, ts_in_use,
  ts_borken,
}
use osmo_bsc.Chan.Kinds.{pchan_subslots}
use osmo_bsc.Chan.Usable.{is_unused, is_waiting}

-- What the timeslot sends: PDCH ACT and DEACT to the BTS, updates to the PCU, and of its lchans the
-- activation of one.
pub data TsSent : Type 0 where
  pdch_act pdch_deact pcu_update : TsSent
  chan_activ : ℕ → TsSent

-- struct gsm_lchan, as far as the timeslot reads or changes it; `fi` is the state of its FSM instance.
pub record TsLchan : Type 0 where
  pub chan_type : ChanType
  pub fi : Option LchanState
  pub release_requested : Bool

-- struct gsm_bts_trx_ts, with the state of its FSM instance. The array of lchans is a function of the
-- index, which is also the lchan's number. `sent` has the newest message first.
pub record TsFsm : Type 0 where
  pub state : TsState
  pub pchan_from_config : Pchan
  pub pchan_on_init : Pchan
  pub pchan_is : Pchan
  pub pdch_act_allowed : Bool
  pub is_oml_ready : Bool
  pub is_rsl_ready : Bool
  pub lchan : ℕ → TsLchan
  pub sent : List TsSent

-- What stays the same while the FSM runs: whether bts->gprs.mode is BTS_GPRS_NONE, and whether
-- rsl_tx_dyn_ts_pdch_act_deact() and rsl_tx_chan_activ() succeed.
pub record TsEnv : Type 0 where
  pub gprs_none : Bool
  pub tx_pdch_ok : Bool → Bool
  pub tx_chan_activ_ok : ℕ → Bool

-- enum ts_fsm_event; an lchan is given by its index.
pub data TsEvent : Type 0 where
  oml_ready oml_down rsl_ready rsl_down : TsEvent
  lchan_requested : ℕ → TsEvent
  lchan_unused pdch_act_ack pdch_act_nack pdch_deact_ack pdch_deact_nack : TsEvent

-- The events that a timeslot sends to an lchan: LCHAN_EV_TS_READY and LCHAN_EV_TS_ERROR.
pub data LchanEvent : Type 0 where
  ts_ready ts_error : LchanEvent

-- out_state_mask of ts_fsm_states[]
unfoldable pub ts_out_state_mask : TsState → TsState → Bool
ts_out_state_mask ts_not_initialized ts_unused = true
ts_out_state_mask ts_not_initialized ts_borken = true
ts_out_state_mask ts_unused ts_wait_pdch_act = true
ts_out_state_mask ts_unused ts_in_use = true
ts_out_state_mask ts_unused ts_not_initialized = true
ts_out_state_mask ts_unused ts_borken = true
ts_out_state_mask ts_wait_pdch_act ts_pdch = true
ts_out_state_mask ts_wait_pdch_act ts_unused = true
ts_out_state_mask ts_wait_pdch_act ts_borken = true
ts_out_state_mask ts_wait_pdch_act ts_not_initialized = true
ts_out_state_mask ts_pdch ts_wait_pdch_deact = true
ts_out_state_mask ts_pdch ts_not_initialized = true
ts_out_state_mask ts_pdch ts_borken = true
ts_out_state_mask ts_wait_pdch_deact ts_in_use = true
ts_out_state_mask ts_wait_pdch_deact ts_unused = true
ts_out_state_mask ts_wait_pdch_deact ts_borken = true
ts_out_state_mask ts_wait_pdch_deact ts_not_initialized = true
ts_out_state_mask ts_in_use ts_unused = true
ts_out_state_mask ts_in_use ts_not_initialized = true
ts_out_state_mask ts_in_use ts_borken = true
ts_out_state_mask ts_borken ts_not_initialized = true
ts_out_state_mask _ _ = false

-- in_event_mask of ts_fsm_states[]
unfoldable pub ts_in_event_mask : TsState → TsEvent → Bool
ts_in_event_mask _ (lchan_requested i) = true
ts_in_event_mask _ lchan_unused = true
ts_in_event_mask ts_not_initialized oml_ready = true
ts_in_event_mask ts_not_initialized rsl_ready = true
ts_in_event_mask ts_wait_pdch_act pdch_act_ack = true
ts_in_event_mask ts_wait_pdch_act pdch_act_nack = true
ts_in_event_mask ts_wait_pdch_deact pdch_deact_ack = true
ts_in_event_mask ts_wait_pdch_deact pdch_deact_nack = true
ts_in_event_mask _ _ = false

-- allstate_event_mask of ts_fsm
unfoldable pub ts_allstate_event_mask : TsEvent → Bool
ts_allstate_event_mask oml_down = true
ts_allstate_event_mask rsl_down = true
ts_allstate_event_mask _ = false

-- out_state_mask of lchan_fsm_states[]
unfoldable pub lchan_out_state_mask : LchanState → LchanState → Bool
lchan_out_state_mask unused wait_ts_ready = true
lchan_out_state_mask unused cbch = true
lchan_out_state_mask unused borken = true
lchan_out_state_mask unused _ = false
lchan_out_state_mask _ unused = true
lchan_out_state_mask wait_ts_ready wait_activ_ack = true
lchan_out_state_mask wait_ts_ready wait_rll_rtp_released = true
lchan_out_state_mask wait_activ_ack wait_rll_rtp_establish = true
lchan_out_state_mask wait_activ_ack borken = true
lchan_out_state_mask wait_activ_ack wait_rf_release_ack = true
lchan_out_state_mask wait_rll_rtp_establish established = true
lchan_out_state_mask wait_rll_rtp_establish wait_rf_release_ack = true
lchan_out_state_mask wait_rll_rtp_establish wait_rll_rtp_released = true
lchan_out_state_mask established wait_rll_rtp_released = true
lchan_out_state_mask established wait_before_rf_release = true
lchan_out_state_mask established wait_rf_release_ack = true
lchan_out_state_mask wait_rll_rtp_released wait_before_rf_release = true
lchan_out_state_mask wait_rll_rtp_released wait_rf_release_ack = true
lchan_out_state_mask wait_before_rf_release wait_rf_release_ack = true
lchan_out_state_mask wait_rf_release_ack wait_after_error = true
lchan_out_state_mask wait_rf_release_ack borken = true
lchan_out_state_mask borken wait_after_error = true
lchan_out_state_mask _ _ = false

-- in_event_mask of lchan_fsm_states[] and allstate_event_mask of lchan_fsm, for these events.
unfoldable pub lchan_in_event_mask : LchanState → LchanEvent → Bool
lchan_in_event_mask wait_ts_ready ts_ready = true
lchan_in_event_mask _ _ = false

unfoldable pub lchan_allstate_event_mask : LchanEvent → Bool
lchan_allstate_event_mask ts_error = true
lchan_allstate_event_mask ts_ready = false

-- `==` on states of a timeslot
abbrev pub ts_state_eq : TsState → TsState → Bool
ts_state_eq ts_not_initialized ts_not_initialized = true
ts_state_eq ts_unused ts_unused = true
ts_state_eq ts_wait_pdch_act ts_wait_pdch_act = true
ts_state_eq ts_pdch ts_pdch = true
ts_state_eq ts_wait_pdch_deact ts_wait_pdch_deact = true
ts_state_eq ts_in_use ts_in_use = true
ts_state_eq ts_borken ts_borken = true
ts_state_eq _ _ = false

-- lchan->fi->state, which is LCHAN_ST_UNUSED, 0, of no instance in lchan_state_is().
abbrev pub state_or_unused : Option LchanState → LchanState
state_or_unused none = unused
state_or_unused (some st) = st

abbrev pub has_fi : Option LchanState → Bool
has_fi none = false
has_fi (some st) = true

abbrev pub lchan_state : ℕ → TsFsm → LchanState
lchan_state i ts = state_or_unused (ts.lchan i).fi

-- ts->lchan[i] = l
abbrev pub set_lchan : ℕ → TsLchan → TsFsm → TsFsm
set_lchan i l ts = record ts { lchan = λ j. if i == j then l else ts.lchan j }

abbrev pub set_lchan_state : ℕ → LchanState → TsFsm → TsFsm
set_lchan_state i st ts = set_lchan i (record (ts.lchan i) { fi = some st }) ts

abbrev pub set_state : TsState → TsFsm → TsFsm
set_state st ts = record ts { state = st }

-- The indices of the array of lchans, and the test of the loop macros: an lchan with an instance, that
-- is a subslot of `as_pchan`.
abbrev pub slots : List ℕ
slots = 0 ∷ 1 ∷ 2 ∷ 3 ∷ 4 ∷ 5 ∷ 6 ∷ 7 ∷ []

unfoldable pub visits : Pchan → ℕ → TsFsm → Bool
visits as_pchan i ts = has_fi (ts.lchan i).fi && ltb i (pchan_subslots as_pchan)

-- ts_for_each_potential_lchan() with a body that changes the timeslot.
unfoldable pub for_each_potential : (ℕ → TsFsm → TsFsm) → List ℕ → TsFsm → TsFsm
for_each_potential body [] ts = ts
for_each_potential body (i ∷ is) ts =
    if visits ts.pchan_on_init i ts then for_each_potential body is (body i ts) else ts

-- How many of the visited lchans are in a state that the test tells.
unfoldable pub count_lchans : Pchan → (LchanState → Bool) → List ℕ → TsFsm → ℕ
count_lchans as_pchan test [] ts = 0
count_lchans as_pchan test (i ∷ is) ts =
    let rest = count_lchans as_pchan test is ts in
    if visits as_pchan i ts then (if test (lchan_state i ts) then rest + 1 else rest) else 0

-- ts_count_active_lchans() and ts_lchans_waiting()
unfoldable pub ts_count_active_lchans : TsFsm → ℕ
ts_count_active_lchans ts = count_lchans ts.pchan_is (λ st. not (is_unused st)) slots ts

unfoldable pub ts_lchans_waiting : TsFsm → ℕ
ts_lchans_waiting ts = count_lchans ts.pchan_on_init is_waiting slots ts
