-- ===== src/Timeslot/States.antt =====
-- What the states and the events of src/osmo-bsc/timeslot_fsm.c do to the lchans that wait.
use osmo_bsc.Base.{either, List, true, false, ◌≡◌, ◌⊎◌, inl, inr, ap}
use osmo_bsc.Chan.Types.{
  Pchan, pchan_none, ccch, ccch_sdcch4, tch_h, sdcch8, pdch, pchan_unknown, ccch_sdcch4_cbch,
  sdcch8_cbch, tch_f, tch_f_pdch, tch_f_tch_h_pdch, TsState, ts_not_initialized, ts_unused,
  ts_wait_pdch_act, ts_pdch, ts_wait_pdch_deact, ts_in_use, ts_borken,
}
use osmo_bsc.Fsm.{documented}
use osmo_bsc.Timeslot.{
  TsFsm, TsSent, TsEnv, TsEvent, oml_ready, oml_down, rsl_ready, rsl_down, lchan_requested,
  lchan_unused, pdch_act_ack, pdch_act_nack, pdch_deact_ack, pdch_deact_nack, ts_error, slots,
  visits, ts_out_state_mask, ts_state_eq,
}
use osmo_bsc.Timeslot.Lchans.{ts_lchans_dispatch_waiting, ts_fsm_error}
use osmo_bsc.Timeslot.Handlers.{
  is_lchan_sane, tell_unused, ts_onenter, ts_state_chg, ts_fsm_unused, ts_fsm_wait_pdch_act,
  ts_fsm_pdch, ts_fsm_wait_pdch_deact, ts_fsm_in_use, ts_fsm_borken, ts_action, deact_ack,
}
use osmo_bsc.Timeslot.Quiet.{Quiet}
use osmo_bsc.Timeslot.Told.{dispatch_waiting-Quiet}
use osmo_bsc.Timeslot.Unused.{is_pending, Done, enter_unused-Done, on_unused-cases}
use osmo_bsc.Timeslot.InUse.{enter_pdch-Done}
use osmo_bsc.Timeslot.Actions.{
  only, tell-Told, permitted, to_in_use-Done, broken-Done, insane-Done, not_initialized-Done,
  request_unused-Done, request_pdch-Done, request_wait_act-Done, request_wait_deact-Done,
  request_in_use-Done,
}

-- What is known when an event arrives: the lchan that a request is for may wait.
abbrev pub Before : TsEvent → TsFsm → Type 0
Before (lchan_requested i) ts = (is_pending ts.state ≡ true) ⊎ Quiet (only i) slots ts
Before _ ts = Done ts

sent-Done : (x : List TsSent) (ts : TsFsm) → Done ts → Done (record ts { sent = x })
unfolding visits
sent-Done x ts (inl p) = inl p
sent-Done x ts (inr q) = inr q

module _ (env : TsEnv) where
  unused-Done :
      (ev : TsEvent) (ts : TsFsm)
      → ts.state ≡ ts_unused
      → Before ev ts
      → Done (ts_fsm_unused documented env ev ts)
  unfolding ts_fsm_unused
  unused-Done (lchan_requested i) ts s b = request_unused-Done env i (is_lchan_sane ts i) ts s b
  unused-Done oml_ready ts s b = b
  unused-Done oml_down ts s b = b
  unused-Done rsl_ready ts s b = b
  unused-Done rsl_down ts s b = b
  unused-Done lchan_unused ts s b = b
  unused-Done pdch_act_ack ts s b = b
  unused-Done pdch_act_nack ts s b = b
  unused-Done pdch_deact_ack ts s b = b
  unused-Done pdch_deact_nack ts s b = b

  -- The error that TS_EV_PDCH_ACT_NACK is.
  nack-Done :
      (ts : TsFsm)
      → Done (
          ts_fsm_error documented env
            (tell_unused documented env)
            (ts_onenter documented env)
            ts_unused
            ts)
  unfolding ts_fsm_error ts_onenter
  nack-Done ts =
      let ts' =
        ts_lchans_dispatch_waiting documented env (tell_unused documented env) ts_error ts in
      let q : Done ts' = inr (dispatch_waiting-Quiet (tell-Told env) env ts_error ts) in
      either Done (ts_state_eq ts'.state ts_unused) q (
        either Done (ts_out_state_mask ts'.state ts_unused)
          (enter_unused-Done env (tell-Told env) ts') q)

  ack-Done :
      (ts : TsFsm) → ts.state ≡ ts_wait_pdch_act → Done (ts_state_chg documented env ts_pdch ts)
  unfolding ts_onenter ts_out_state_mask
  ack-Done ts s =
      permitted env Done ts_pdch ts (ap (λ st. ts_out_state_mask st ts_pdch) s)
        (enter_pdch-Done env (tell-Told env) ts)

  wait_pdch_act-Done :
      (ev : TsEvent) (ts : TsFsm)
      → ts.state ≡ ts_wait_pdch_act
      → Done (ts_fsm_wait_pdch_act documented env ev ts)
  unfolding ts_fsm_wait_pdch_act
  wait_pdch_act-Done (lchan_requested i) ts s =
      request_wait_act-Done env i (is_lchan_sane ts i) ts (ap is_pending s)
  wait_pdch_act-Done pdch_act_ack ts s = ack-Done ts s
  wait_pdch_act-Done pdch_act_nack ts s = nack-Done (record ts { pdch_act_allowed = false })
  wait_pdch_act-Done oml_ready ts s = inl (ap is_pending s)
  wait_pdch_act-Done oml_down ts s = inl (ap is_pending s)
  wait_pdch_act-Done rsl_ready ts s = inl (ap is_pending s)
  wait_pdch_act-Done rsl_down ts s = inl (ap is_pending s)
  wait_pdch_act-Done lchan_unused ts s = inl (ap is_pending s)
  wait_pdch_act-Done pdch_deact_ack ts s = inl (ap is_pending s)
  wait_pdch_act-Done pdch_deact_nack ts s = inl (ap is_pending s)

  pdch-Done :
      (ev : TsEvent) (ts : TsFsm)
      → ts.state ≡ ts_pdch
      → Before ev ts
      → Done (ts_fsm_pdch documented env ev ts)
  unfolding ts_fsm_pdch
  pdch-Done (lchan_requested i) ts s b = request_pdch-Done env i (is_lchan_sane ts i) ts s b
  pdch-Done oml_ready ts s b = b
  pdch-Done oml_down ts s b = b
  pdch-Done rsl_ready ts s b = b
  pdch-Done rsl_down ts s b = b
  pdch-Done lchan_unused ts s b = b
  pdch-Done pdch_act_ack ts s b = b
  pdch-Done pdch_act_nack ts s b = b
  pdch-Done pdch_deact_ack ts s b = b
  pdch-Done pdch_deact_nack ts s b = b

  deact_ack-Done :
      (pchan : Pchan) (ts : TsFsm)
      → ts.state ≡ ts_wait_pdch_deact
      → Done (deact_ack documented env pchan ts)
  unfolding deact_ack ts_out_state_mask
  deact_ack-Done tch_f_tch_h_pdch ts s = sent-Done _ _ (
      to_in_use-Done env (record ts { pchan_is = pchan_none })
        (ap (λ st. ts_out_state_mask st ts_in_use) s))
  deact_ack-Done tch_f_pdch ts s = sent-Done _ _ (
      to_in_use-Done env (record ts { pchan_is = tch_f })
        (ap (λ st. ts_out_state_mask st ts_in_use) s))
  deact_ack-Done pchan_none ts s = broken-Done env ts
  deact_ack-Done ccch ts s = broken-Done env ts
  deact_ack-Done ccch_sdcch4 ts s = broken-Done env ts
  deact_ack-Done tch_f ts s = broken-Done env ts
  deact_ack-Done tch_h ts s = broken-Done env ts
  deact_ack-Done sdcch8 ts s = broken-Done env ts
  deact_ack-Done pdch ts s = broken-Done env ts
  deact_ack-Done pchan_unknown ts s = broken-Done env ts
  deact_ack-Done ccch_sdcch4_cbch ts s = broken-Done env ts
  deact_ack-Done sdcch8_cbch ts s = broken-Done env ts

  wait_pdch_deact-Done :
      (ev : TsEvent) (ts : TsFsm)
      → ts.state ≡ ts_wait_pdch_deact
      → Done (ts_fsm_wait_pdch_deact documented env ev ts)
  unfolding ts_fsm_wait_pdch_deact
  wait_pdch_deact-Done (lchan_requested i) ts s =
      request_wait_deact-Done env i (is_lchan_sane ts i) ts (ap is_pending s)
  wait_pdch_deact-Done pdch_deact_ack ts s = deact_ack-Done ts.pchan_on_init ts s
  wait_pdch_deact-Done pdch_deact_nack ts s = broken-Done env ts
  wait_pdch_deact-Done oml_ready ts s = inl (ap is_pending s)
  wait_pdch_deact-Done oml_down ts s = inl (ap is_pending s)
  wait_pdch_deact-Done rsl_ready ts s = inl (ap is_pending s)
  wait_pdch_deact-Done rsl_down ts s = inl (ap is_pending s)
  wait_pdch_deact-Done lchan_unused ts s = inl (ap is_pending s)
  wait_pdch_deact-Done pdch_act_ack ts s = inl (ap is_pending s)
  wait_pdch_deact-Done pdch_act_nack ts s = inl (ap is_pending s)

  in_use-Done :
      (ev : TsEvent) (ts : TsFsm) → Before ev ts → Done (ts_fsm_in_use documented env ev ts)
  unfolding ts_fsm_in_use
  in_use-Done (lchan_requested i) ts b = request_in_use-Done env i (is_lchan_sane ts i) ts b
  in_use-Done lchan_unused ts b =
      on_unused-cases env (tell_unused documented env) Done ts_in_use ts b
        (enter_unused-Done env (tell-Told env) ts)
  in_use-Done oml_ready ts b = b
  in_use-Done oml_down ts b = b
  in_use-Done rsl_ready ts b = b
  in_use-Done rsl_down ts b = b
  in_use-Done pdch_act_ack ts b = b
  in_use-Done pdch_act_nack ts b = b
  in_use-Done pdch_deact_ack ts b = b
  in_use-Done pdch_deact_nack ts b = b

  borken-Done :
      (ev : TsEvent) (ts : TsFsm) → Before ev ts → Done (ts_fsm_borken documented env ev ts)
  unfolding ts_fsm_borken
  borken-Done (lchan_requested i) ts b = insane-Done env i ts b
  borken-Done oml_ready ts b = b
  borken-Done oml_down ts b = b
  borken-Done rsl_ready ts b = b
  borken-Done rsl_down ts b = b
  borken-Done lchan_unused ts b = b
  borken-Done pdch_act_ack ts b = b
  borken-Done pdch_act_nack ts b = b
  borken-Done pdch_deact_ack ts b = b
  borken-Done pdch_deact_nack ts b = b

  pub action-Done :
      (st : TsState) (ev : TsEvent) (ts : TsFsm)
      → ts.state ≡ st
      → Before ev ts
      → Done (ts_action documented env st ev ts)
  unfolding ts_action
  action-Done ts_not_initialized ev ts s b = not_initialized-Done env ev ts s
  action-Done ts_unused ev ts s b = unused-Done ev ts s b
  action-Done ts_wait_pdch_act ev ts s b = wait_pdch_act-Done ev ts s
  action-Done ts_pdch ev ts s b = pdch-Done ev ts s b
  action-Done ts_wait_pdch_deact ev ts s b = wait_pdch_deact-Done ev ts s
  action-Done ts_in_use ev ts s b = in_use-Done ev ts b
  action-Done ts_borken ev ts s b = borken-Done ev ts b
