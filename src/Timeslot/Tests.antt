-- ===== src/Timeslot/Tests.antt =====
-- A dynamic timeslot: switched to PDCH, then away from it for an lchan.
use osmo_bsc.Base.{true, false, none, [], ◌≡◌, inl, refl}
use osmo_bsc.Chan.Types.{
  pchan_none, tch_f_tch_h_pdch, ChanType, lchan_none, lchan_tch_f, lchan_tch_h, LchanState, unused,
  wait_ts_ready, wait_activ_ack, TsState, ts_not_initialized, ts_unused, ts_wait_pdch_act, ts_pdch,
  ts_wait_pdch_deact, ts_in_use, ts_borken, pdch, tch_f,
}
use osmo_bsc.Fsm.{documented, documented-IsDocumented}
use osmo_bsc.Timeslot.{
  TsFsm, TsLchan, TsEnv, TsEvent, oml_ready, rsl_ready, lchan_requested, pdch_act_ack,
  pdch_deact_ack, pdch_act, pdch_deact, pcu_update, chan_activ, lchan_state, has_fi,
  ts_lchans_waiting,
}
use osmo_bsc.Timeslot.Enter.{unused_by, unused_event}
use osmo_bsc.Timeslot.Handlers.{ts_dispatch, ts_fsm_timer_cb, tell_unused}
use osmo_bsc.Timeslot.Steps.{Settled, ask, TsRun, event, requests, begins, goes_on, run-Settled}
use osmo_bsc.Timeslot.Errors.{timer_cb_lem}
use osmo_bsc.Timeslot.Depth.{tell_unused-IsUnusedHandler, only_unused_handler}

abbrev env : TsEnv
env = record { gprs_none = false; tx_pdch_ok = λ activate. true; tx_chan_activ_ok = λ i. true }

abbrev no_lchan : TsLchan
no_lchan = record { chan_type = lchan_none; fi = none; release_requested = false }

abbrev start : TsFsm
start = record {
  state = ts_not_initialized;
  pchan_from_config = tch_f_tch_h_pdch;
  pchan_on_init = pchan_none;
  pchan_is = pchan_none;
  pdch_act_allowed = false;
  is_oml_ready = false;
  is_rsl_ready = false;
  lchan = λ i. no_lchan;
  sent = [];
}

abbrev told : TsEvent → TsFsm → TsFsm
told ev ts = ts_dispatch documented env ev ts

abbrev up : TsFsm
up = told pdch_act_ack (told rsl_ready (told oml_ready start))

abbrev one : TsFsm
one = told pdch_deact_ack (told (lchan_requested 0) (ask 0 lchan_tch_f up))

abbrev mixed : TsFsm
mixed =
    told pdch_deact_ack (
      told (lchan_requested 1)
        (ask 1 lchan_tch_h (told (lchan_requested 0) (ask 0 lchan_tch_f up))))

-- Two lchans of different types wait while PDCH is switched off: the timeslot breaks.
mixed_breaks : mixed.state ≡ ts_borken
unfolding ts_dispatch osmo_bsc.Timeslot.ts_allstate_event_mask osmo_bsc.Timeslot.ts_in_event_mask
    osmo_bsc.Timeslot.Handlers.ts_action osmo_bsc.Timeslot.Handlers.ts_fsm_not_initialized
    osmo_bsc.Timeslot.Handlers.ts_fsm_not_initialized_ready
    osmo_bsc.Timeslot.Handlers.ts_setup_lchans osmo_bsc.Timeslot.Handlers.ts_state_chg
    osmo_bsc.Timeslot.ts_out_state_mask osmo_bsc.Timeslot.Handlers.ts_onenter
    osmo_bsc.Timeslot.Enter.enter_unused ts_lchans_waiting osmo_bsc.Timeslot.count_lchans
    osmo_bsc.Timeslot.visits osmo_bsc.Chan.Kinds.pchan_subslots
    osmo_bsc.Timeslot.Enter.enter_wait_pdch_act osmo_bsc.Timeslot.Enter.tx_pdch
    osmo_bsc.Timeslot.Handlers.ts_fsm_wait_pdch_act osmo_bsc.Timeslot.Enter.enter_pdch
    osmo_bsc.Chan.Kinds.pchan_eq osmo_bsc.Chan.Types.Pchan-discrete mathlib.Core.Bool.decide
    osmo_bsc.Chan.Kinds.capable_of_lchant osmo_bsc.Chan.Kinds.gsm_lchan_type_by_pchan
    osmo_bsc.Chan.Kinds.gsm_pchan_by_lchan_type osmo_bsc.Timeslot.Enter.check_lchan
    osmo_bsc.Timeslot.Enter.check_lchans osmo_bsc.Timeslot.Enter.enter_in_use
    osmo_bsc.Timeslot.Enter.enter_wait_pdch_deact osmo_bsc.Timeslot.Enter.on_lchan_unused
    osmo_bsc.Timeslot.Enter.ts_fsm_pdch_deact unused_event unused_by osmo_bsc.Timeslot.Enter.use_as
    osmo_bsc.Timeslot.Handlers.deact_ack osmo_bsc.Timeslot.Handlers.error_borken
    osmo_bsc.Timeslot.Handlers.is_lchan_sane osmo_bsc.Timeslot.Handlers.lchan_error
    osmo_bsc.Timeslot.Handlers.request_in_use osmo_bsc.Timeslot.Handlers.request_pdch
    osmo_bsc.Timeslot.Handlers.request_unused osmo_bsc.Timeslot.Handlers.request_wait_act
    osmo_bsc.Timeslot.Handlers.request_wait_deact tell_unused
    osmo_bsc.Timeslot.Handlers.ts_fsm_in_use osmo_bsc.Timeslot.Handlers.ts_fsm_pdch
    osmo_bsc.Timeslot.Handlers.ts_fsm_unused osmo_bsc.Timeslot.Handlers.ts_fsm_wait_pdch_deact
    osmo_bsc.Timeslot.Lchans.lchan_action osmo_bsc.Timeslot.Lchans.lchan_dispatch
    osmo_bsc.Timeslot.Lchans.lchan_enter_unused osmo_bsc.Timeslot.Lchans.lchan_enter_wait_activ_ack
    osmo_bsc.Timeslot.Lchans.lchan_fail_to_unused osmo_bsc.Timeslot.Lchans.lchan_fsm_allstate_action
    osmo_bsc.Timeslot.Lchans.lchan_reset osmo_bsc.Timeslot.Lchans.ts_fsm_error
    osmo_bsc.Timeslot.Lchans.ts_fsm_error_borken osmo_bsc.Timeslot.Lchans.ts_lchans_dispatch_waiting
    osmo_bsc.Timeslot.for_each_potential osmo_bsc.Timeslot.lchan_allstate_event_mask
    osmo_bsc.Timeslot.lchan_in_event_mask osmo_bsc.Timeslot.lchan_out_state_mask
    osmo_bsc.Timeslot.ts_count_active_lchans
mixed_breaks = refl

up_fi : has_fi (up.lchan 0).fi ≡ true
unfolding ts_dispatch osmo_bsc.Timeslot.ts_allstate_event_mask osmo_bsc.Timeslot.ts_in_event_mask
    osmo_bsc.Timeslot.Handlers.ts_action osmo_bsc.Timeslot.Handlers.ts_fsm_not_initialized
    osmo_bsc.Timeslot.Handlers.ts_fsm_not_initialized_ready
    osmo_bsc.Timeslot.Handlers.ts_setup_lchans osmo_bsc.Timeslot.Handlers.ts_state_chg
    osmo_bsc.Timeslot.ts_out_state_mask osmo_bsc.Timeslot.Handlers.ts_onenter
    osmo_bsc.Timeslot.Enter.enter_unused ts_lchans_waiting osmo_bsc.Timeslot.count_lchans
    osmo_bsc.Timeslot.visits osmo_bsc.Chan.Kinds.pchan_subslots
    osmo_bsc.Timeslot.Enter.enter_wait_pdch_act osmo_bsc.Timeslot.Enter.tx_pdch
    osmo_bsc.Timeslot.Handlers.ts_fsm_wait_pdch_act osmo_bsc.Timeslot.Enter.enter_pdch
    osmo_bsc.Chan.Kinds.pchan_eq osmo_bsc.Chan.Types.Pchan-discrete mathlib.Core.Bool.decide
up_fi = refl

abbrev run : TsRun documented start one
run =
    goes_on
      (goes_on
        (goes_on (goes_on (goes_on begins (event env oml_ready)) (event env rsl_ready))
          (event env pdch_act_ack))
        (requests env 0 lchan_tch_f up_fi))
      (event env pdch_deact_ack)

run-Settled_example : Settled one
run-Settled_example = run-Settled documented start one documented-IsDocumented run (inl refl)

timer_cb_lem_example :
    ((ts_fsm_timer_cb documented env up).state ≡ ts_borken)
    × (ts_lchans_waiting (ts_fsm_timer_cb documented env up) ≡ 0)
timer_cb_lem_example = timer_cb_lem documented env up documented-IsDocumented

abbrev half : TsFsm
half = told oml_ready start

only_unused_handler_example : unused_event documented env 2 one ≡ tell_unused documented env one
unfolding tell_unused
only_unused_handler_example =
    only_unused_handler documented env documented-IsDocumented (unused_event documented env 2)
      (tell_unused-IsUnusedHandler documented env documented-IsDocumented) one
