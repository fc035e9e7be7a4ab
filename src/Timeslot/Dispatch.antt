-- ===== src/Timeslot/Dispatch.antt =====
-- What an event of src/osmo-bsc/timeslot_fsm.c, dispatched in any state, does to the lchans that wait.
use osmo_bsc.Base.{ℕ, true, false, List, [], ◌∷◌, ◌≡◌, inl, inr, refl, ap, ◌∙◌, arith, Bool-cases}
use osmo_bsc.Chan.Types.{pchan_none, TsState, ts_not_initialized}
use osmo_bsc.Fsm.{documented}
use osmo_bsc.Timeslot.{
  TsFsm, TsEnv, TsEvent, oml_ready, oml_down, rsl_ready, rsl_down, lchan_requested, lchan_unused,
  pdch_act_ack, pdch_act_nack, pdch_deact_ack, pdch_deact_nack, ts_error, slots, visits,
  ts_out_state_mask, ts_in_event_mask, ts_allstate_event_mask, ts_state_eq, for_each_potential,
}
use osmo_bsc.Timeslot.Handlers.{
  ts_onenter, ts_state_chg, to_not_initialized, ts_fsm_allstate, ts_terminate_lchan_fsms,
  lchan_fsm_cleanup, ts_dispatch,
}
use osmo_bsc.Timeslot.Told.{is_in_use, dispatch_all_state}
use osmo_bsc.Timeslot.Unused.{is_pending, Done}
use osmo_bsc.Timeslot.Actions.{tell-Told}
use osmo_bsc.Timeslot.States.{Before, action-Done}

terminate_state :
    (is : List ℕ) (ts : TsFsm) → (for_each_potential lchan_fsm_cleanup is ts).state ≡ ts.state
unfolding for_each_potential lchan_fsm_cleanup
terminate_state [] ts = refl
terminate_state (i ∷ is) ts = elim (Bool-cases (visits ts.pchan_on_init i ts)) [
  | inl v ↦ rw v (terminate_state is (lchan_fsm_cleanup i ts))
  | inr v ↦ rw v refl
]

to_start :
    (st : TsState)
    → ts_state_eq st ts_not_initialized ≡ false
    → ts_out_state_mask st ts_not_initialized ≡ true
unfolding ts_out_state_mask
to_start st h = ground arith

at_start : (st : TsState) → ts_state_eq st ts_not_initialized ≡ true → st ≡ ts_not_initialized
at_start st h = ground arith

not_initialized_state :
    (env : TsEnv) (ts : TsFsm) → (to_not_initialized documented env ts).state ≡ ts_not_initialized
unfolding to_not_initialized ts_state_chg ts_onenter
not_initialized_state env ts = elim (Bool-cases (ts_state_eq ts.state ts_not_initialized)) [
  | inl e ↦ rw e (at_start _ e)
  | inr e ↦ rw (e, to_start _ e) refl
]

allstate-Done :
    (env : TsEnv) (ev : TsEvent) (ts : TsFsm)
    → ts_allstate_event_mask ev ≡ true
    → Done (ts_fsm_allstate documented env ev ts)
unfolding ts_fsm_allstate ts_terminate_lchan_fsms ts_allstate_event_mask
allstate-Done env oml_down ts m = inl (
    ap is_pending
      (terminate_state slots _ ∙ not_initialized_state env (record ts { is_oml_ready = false })))
allstate-Done env rsl_down ts m =
    let down = to_not_initialized documented env (record ts { is_rsl_ready = false }) in
    let s : down.state ≡ ts_not_initialized =
      not_initialized_state env (record ts { is_rsl_ready = false }) in
    inl (
      ap is_pending (
        dispatch_all_state (tell-Told env) env ts_error (record down { pchan_is = pchan_none })
          (ap is_in_use s)
        ∙ s))
allstate-Done env oml_ready ts m = absurd (ground arith)
allstate-Done env rsl_ready ts m = absurd (ground arith)
allstate-Done env (lchan_requested i) ts m = absurd (ground arith)
allstate-Done env lchan_unused ts m = absurd (ground arith)
allstate-Done env pdch_act_ack ts m = absurd (ground arith)
allstate-Done env pdch_act_nack ts m = absurd (ground arith)
allstate-Done env pdch_deact_ack ts m = absurd (ground arith)
allstate-Done env pdch_deact_nack ts m = absurd (ground arith)

refused-Done :
    (ev : TsEvent) (ts : TsFsm) → ts_in_event_mask ts.state ev ≡ false → Before ev ts → Done ts
unfolding ts_in_event_mask
refused-Done (lchan_requested i) ts m b = absurd (ground arith)
refused-Done oml_ready ts m b = b
refused-Done oml_down ts m b = b
refused-Done rsl_ready ts m b = b
refused-Done rsl_down ts m b = b
refused-Done lchan_unused ts m b = b
refused-Done pdch_act_ack ts m b = b
refused-Done pdch_act_nack ts m b = b
refused-Done pdch_deact_ack ts m b = b
refused-Done pdch_deact_nack ts m b = b

pub dispatch-Done :
    (env : TsEnv) (ev : TsEvent) (ts : TsFsm)
    → Before ev ts
    → Done (ts_dispatch documented env ev ts)
unfolding ts_dispatch
dispatch-Done env ev ts b = elim (Bool-cases (ts_allstate_event_mask ev)) [
  | inl a ↦ rw a (allstate-Done env ev ts a)
  | inr a ↦ elim (Bool-cases (ts_in_event_mask ts.state ev)) [
    | inl m ↦ rw (a, m) (action-Done env ts.state ev ts refl b)
    | inr m ↦ rw (a, m) (refused-Done ev ts m b)
  ]
]
