-- ===== src/Timeslot/Handlers.antt =====
-- The actions of the states, the timer and the events of every state, in src/osmo-bsc/timeslot_fsm.c.
use osmo_bsc.Base.{◌∷◌, ℕ, Bool, true, false, not, ◌&&◌, Option, none, some, ltb, if◌then◌else◌}
use osmo_bsc.Chan.Types.{
  Pchan, pchan_none, tch_f, tch_f_pdch, tch_f_tch_h_pdch, ChanType, lchan_none, lchan_tch_f,
  lchan_tch_h, unused, TsState, ts_not_initialized, ts_unused, ts_wait_pdch_act, ts_pdch,
  ts_wait_pdch_deact, ts_in_use, ts_borken,
}
use osmo_bsc.Chan.Kinds.{pchan_subslots, gsm_lchan_type_by_pchan}
use osmo_bsc.Fsm.{OsmoFsm}
use osmo_bsc.Timeslot.{
  TsFsm, TsLchan, TsEnv, TsEvent, oml_ready, oml_down, rsl_ready, rsl_down, lchan_requested,
  lchan_unused, pdch_act_ack, pdch_act_nack, pdch_deact_ack, pdch_deact_nack, ts_ready, ts_error,
  pcu_update, set_lchan, set_state, slots, ts_out_state_mask, ts_in_event_mask,
  ts_allstate_event_mask, for_each_potential, has_fi, ts_state_eq,
}
use osmo_bsc.Timeslot.Lchans.{
  lchan_dispatch, ts_lchans_dispatch_all, ts_fsm_error, ts_fsm_error_borken,
}
use osmo_bsc.Timeslot.Enter.{
  enter_unused, enter_in_use, enter_pdch, enter_wait_pdch_act, enter_wait_pdch_deact,
  ts_fsm_pdch_deact, unused_event, on_lchan_unused, same_type,
}

-- enum lchan_sanity
pub data LchanSanity : Type 0 where
  is_insane is_ready_to_go needs_pchan_change : LchanSanity

abbrev is_type_of : ChanType → Option ChanType → Bool
is_type_of type none = false
is_type_of type (some of) = same_type type of

abbrev changes_pchan : Pchan → ChanType → LchanSanity
changes_pchan tch_f_tch_h_pdch lchan_tch_h = needs_pchan_change
changes_pchan tch_f_tch_h_pdch lchan_tch_f = needs_pchan_change
changes_pchan tch_f_pdch lchan_tch_f = needs_pchan_change
changes_pchan _ _ = is_insane

-- is_lchan_sane(), of an lchan of this timeslot.
unfoldable pub is_lchan_sane : TsFsm → ℕ → LchanSanity
is_lchan_sane ts i =
    if not (has_fi (ts.lchan i).fi)
    then is_insane
    else if is_type_of (ts.lchan i).chan_type (gsm_lchan_type_by_pchan ts.pchan_is)
    then is_ready_to_go
    else changes_pchan ts.pchan_on_init (ts.lchan i).chan_type

-- lchan_fsm_alloc() of the lchans of ts_setup_lchans() that have no instance.
abbrev alloc_lchans : ℕ → (ℕ → TsLchan) → ℕ → TsLchan
alloc_lchans max lchan i =
    if ltb i max && not (has_fi (lchan i).fi)
    then record (lchan i) { fi = some unused }
    else lchan i

abbrev pchan_at_start : Pchan → Pchan
pchan_at_start tch_f_tch_h_pdch = pchan_none
pchan_at_start tch_f_pdch = tch_f
pchan_at_start pchan = pchan

-- ts_setup_lchans()
unfoldable pub ts_setup_lchans : TsFsm → TsFsm
ts_setup_lchans ts = record ts {
  pchan_on_init = ts.pchan_from_config;
  lchan = alloc_lchans (pchan_subslots ts.pchan_from_config) ts.lchan;
  pchan_is = pchan_at_start ts.pchan_from_config;
}

-- lchan_fsm_cleanup(), by osmo_fsm_inst_term() in ts_terminate_lchan_fsms().
unfoldable pub lchan_fsm_cleanup : ℕ → TsFsm → TsFsm
lchan_fsm_cleanup i ts =
    set_lchan i (record { chan_type = lchan_none; fi = none; release_requested = false }) ts

unfoldable pub ts_terminate_lchan_fsms : TsFsm → TsFsm
ts_terminate_lchan_fsms ts = for_each_potential lchan_fsm_cleanup slots ts

module _ (osmo : OsmoFsm) (env : TsEnv) where
  -- osmo_fsm_inst_dispatch(ts->fi, TS_EV_LCHAN_UNUSED, …); two such events inside one another are all
  -- that there can be.
  unfoldable pub tell_unused : TsFsm → TsFsm
  tell_unused ts = unused_event osmo env 2 ts

  -- What entering a state does.
  unfoldable pub ts_onenter : TsState → TsFsm → TsFsm
  ts_onenter ts_unused ts = enter_unused osmo env tell_unused ts_unused ts
  ts_onenter ts_wait_pdch_act ts = enter_wait_pdch_act osmo env tell_unused ts_wait_pdch_act ts
  ts_onenter ts_pdch ts = enter_pdch osmo env tell_unused ts_pdch ts
  ts_onenter ts_wait_pdch_deact ts =
      enter_wait_pdch_deact osmo env tell_unused ts_wait_pdch_deact ts
  ts_onenter ts_in_use ts = enter_in_use osmo env tell_unused ts_in_use ts
  ts_onenter st ts = set_state st ts

  -- osmo_fsm_inst_state_chg(ts->fi, …)
  unfoldable pub ts_state_chg : TsState → TsFsm → TsFsm
  ts_state_chg st ts =
      osmo.state_chg TsFsm TsState (λ q. q.state) ts_out_state_mask ts_onenter ts st

  unfoldable pub lchan_error : ℕ → TsFsm → TsFsm
  lchan_error i ts = lchan_dispatch osmo env tell_unused ts_error i ts

  unfoldable pub error_borken : TsFsm → TsFsm
  error_borken ts = ts_fsm_error_borken osmo env tell_unused ts

  -- ts_fsm_not_initialized(), but for the request of an lchan.
  unfoldable pub ts_fsm_not_initialized_ready : TsState → TsEvent → TsFsm → TsFsm
  ts_fsm_not_initialized_ready st oml_ready ts =
      let ts' = ts_setup_lchans (record ts { pdch_act_allowed = true; is_oml_ready = true }) in
      if not ts'.is_rsl_ready then ts' else ts_state_chg ts_unused ts'
  ts_fsm_not_initialized_ready st rsl_ready ts =
      let ts' = record ts { pdch_act_allowed = true; is_rsl_ready = true } in
      if not ts'.is_oml_ready then ts' else ts_state_chg ts_unused ts'
  ts_fsm_not_initialized_ready st _ ts = ts

  -- ts_fsm_not_initialized(). LCHAN_EV_TS_ERROR, 2, is dispatched to the timeslot's own instance, which
  -- reads 2 as TS_EV_RSL_READY.
  unfoldable pub ts_fsm_not_initialized : TsEvent → TsFsm → TsFsm
  ts_fsm_not_initialized (lchan_requested i) ts =
      if has_fi (ts.lchan i).fi
      then osmo.dispatch TsFsm TsState TsEvent (λ q. q.state) ts_allstate_event_mask (λ ev q. q)
          ts_in_event_mask ts_fsm_not_initialized_ready ts rsl_ready
      else ts
  ts_fsm_not_initialized ev ts = ts_fsm_not_initialized_ready ts_not_initialized ev ts

  unfoldable pub request_unused : ℕ → LchanSanity → TsFsm → TsFsm
  request_unused i is_insane ts = lchan_error i ts
  request_unused i _ ts = ts_state_chg ts_in_use ts

  unfoldable pub request_wait_act : ℕ → LchanSanity → TsFsm → TsFsm
  request_wait_act i is_insane ts = lchan_error i ts
  request_wait_act i _ ts = ts

  unfoldable pub request_pdch : ℕ → LchanSanity → TsFsm → TsFsm
  request_pdch i needs_pchan_change ts = ts_fsm_pdch_deact osmo env tell_unused ts
  request_pdch i is_ready_to_go ts = error_borken ts
  request_pdch i is_insane ts = lchan_error i ts

  unfoldable pub request_wait_deact : ℕ → LchanSanity → TsFsm → TsFsm
  request_wait_deact i needs_pchan_change ts = ts
  request_wait_deact i is_ready_to_go ts = error_borken ts
  request_wait_deact i is_insane ts = lchan_error i ts

  unfoldable pub request_in_use : ℕ → LchanSanity → TsFsm → TsFsm
  request_in_use i is_ready_to_go ts = lchan_dispatch osmo env tell_unused ts_ready i ts
  request_in_use i _ ts = lchan_error i ts

  -- ts_fsm_unused(), ts_fsm_wait_pdch_act(), ts_fsm_pdch(), ts_fsm_wait_pdch_deact(), ts_fsm_in_use() and
  -- ts_fsm_borken()
  unfoldable pub ts_fsm_unused : TsEvent → TsFsm → TsFsm
  ts_fsm_unused (lchan_requested i) ts = request_unused i (is_lchan_sane ts i) ts
  ts_fsm_unused _ ts = ts

  unfoldable pub ts_fsm_wait_pdch_act : TsEvent → TsFsm → TsFsm
  ts_fsm_wait_pdch_act pdch_act_ack ts = ts_state_chg ts_pdch ts
  ts_fsm_wait_pdch_act pdch_act_nack ts =
      ts_fsm_error osmo env tell_unused ts_onenter ts_unused
        (record ts { pdch_act_allowed = false })
  ts_fsm_wait_pdch_act (lchan_requested i) ts = request_wait_act i (is_lchan_sane ts i) ts
  ts_fsm_wait_pdch_act _ ts = ts

  unfoldable pub ts_fsm_pdch : TsEvent → TsFsm → TsFsm
  ts_fsm_pdch (lchan_requested i) ts = request_pdch i (is_lchan_sane ts i) ts
  ts_fsm_pdch _ ts = ts

  -- The switch of TS_EV_PDCH_DEACT_ACK, and what follows it.
  unfoldable pub deact_ack : Pchan → TsFsm → TsFsm
  deact_ack tch_f_tch_h_pdch ts =
      let ts' = ts_state_chg ts_in_use (record ts { pchan_is = pchan_none }) in
      record ts' { sent = pcu_update ∷ ts'.sent }
  deact_ack tch_f_pdch ts =
      let ts' = ts_state_chg ts_in_use (record ts { pchan_is = tch_f }) in
      record ts' { sent = pcu_update ∷ ts'.sent }
  deact_ack _ ts = error_borken ts

  unfoldable pub ts_fsm_wait_pdch_deact : TsEvent → TsFsm → TsFsm
  ts_fsm_wait_pdch_deact pdch_deact_ack ts = deact_ack ts.pchan_on_init ts
  ts_fsm_wait_pdch_deact pdch_deact_nack ts = error_borken ts
  ts_fsm_wait_pdch_deact (lchan_requested i) ts = request_wait_deact i (is_lchan_sane ts i) ts
  ts_fsm_wait_pdch_deact _ ts = ts

  unfoldable pub ts_fsm_in_use : TsEvent → TsFsm → TsFsm
  ts_fsm_in_use lchan_unused ts = on_lchan_unused osmo env tell_unused ts_in_use lchan_unused ts
  ts_fsm_in_use (lchan_requested i) ts = request_in_use i (is_lchan_sane ts i) ts
  ts_fsm_in_use _ ts = ts

  unfoldable pub ts_fsm_borken : TsEvent → TsFsm → TsFsm
  ts_fsm_borken (lchan_requested i) ts = lchan_error i ts
  ts_fsm_borken _ ts = ts

  -- The actions of ts_fsm_states[]
  unfoldable pub ts_action : TsState → TsEvent → TsFsm → TsFsm
  ts_action ts_not_initialized ev ts = ts_fsm_not_initialized ev ts
  ts_action ts_unused ev ts = ts_fsm_unused ev ts
  ts_action ts_wait_pdch_act ev ts = ts_fsm_wait_pdch_act ev ts
  ts_action ts_pdch ev ts = ts_fsm_pdch ev ts
  ts_action ts_wait_pdch_deact ev ts = ts_fsm_wait_pdch_deact ev ts
  ts_action ts_in_use ev ts = ts_fsm_in_use ev ts
  ts_action ts_borken ev ts = ts_fsm_borken ev ts

  -- The change to TS_ST_NOT_INITIALIZED in ts_fsm_allstate(), if that is not the state.
  unfoldable pub to_not_initialized : TsFsm → TsFsm
  to_not_initialized ts =
      if ts_state_eq ts.state ts_not_initialized then ts else ts_state_chg ts_not_initialized ts

  -- ts_fsm_allstate()
  unfoldable pub ts_fsm_allstate : TsEvent → TsFsm → TsFsm
  ts_fsm_allstate oml_down ts =
      let ts' = ts_terminate_lchan_fsms (to_not_initialized (record ts { is_oml_ready = false })) in
      record ts' { pchan_is = pchan_none; pchan_on_init = pchan_none }
  ts_fsm_allstate rsl_down ts =
      let ts' = to_not_initialized (record ts { is_rsl_ready = false }) in
      ts_lchans_dispatch_all osmo env tell_unused ts_error (record ts' { pchan_is = pchan_none })
  ts_fsm_allstate _ ts = ts

  -- ts_fsm_timer_cb()
  unfoldable pub ts_fsm_timer_cb : TsFsm → TsFsm
  ts_fsm_timer_cb ts = error_borken ts

  -- osmo_fsm_inst_dispatch(ts->fi, …)
  unfoldable pub ts_dispatch : TsEvent → TsFsm → TsFsm
  ts_dispatch ev ts =
      osmo.dispatch TsFsm TsState TsEvent (λ q. q.state) ts_allstate_event_mask ts_fsm_allstate
        ts_in_event_mask ts_action ts ev
