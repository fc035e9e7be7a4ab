-- ===== src/Timeslot/Enter.antt =====
-- What entering a state does, in src/osmo-bsc/timeslot_fsm.c.
use osmo_bsc.Base.{
  ◌||◌, ℕ, zero, suc, Bool, true, false, not, ◌&&◌, List, [], ◌∷◌, ◌==◌, if◌then◌else◌,
}
use osmo_bsc.Chan.Types.{
  Pchan, pdch, tch_f_pdch, tch_f_tch_h_pdch, ccch_sdcch4_cbch, sdcch8_cbch, ChanType, lchan_none,
  lchan_cbch, lchan_sdcch, lchan_tch_f, lchan_tch_h, LchanState, cbch, TsState, ts_unused,
  ts_wait_pdch_act, ts_wait_pdch_deact, ts_in_use,
}
use osmo_bsc.Chan.Kinds.{pchan_eq, capable_of_lchant, gsm_pchan_by_lchan_type}
use osmo_bsc.Chan.Usable.{is_unused, is_waiting}
use osmo_bsc.Fsm.{OsmoFsm}
use osmo_bsc.Timeslot.{
  TsFsm, TsEnv, TsEvent, lchan_unused, ts_ready, ts_error, pdch_act, pdch_deact, pcu_update,
  lchan_out_state_mask, lchan_state, has_fi, set_lchan, set_lchan_state, set_state, slots, visits,
  ts_out_state_mask, ts_in_event_mask, ts_allstate_event_mask, ts_count_active_lchans,
  ts_lchans_waiting,
}
use osmo_bsc.Timeslot.Lchans.{lchan_dispatch, ts_lchans_dispatch_waiting, ts_fsm_error_borken}

-- GSM_PCHAN_TCH_F_TCH_H_PDCH and GSM_PCHAN_TCH_F_PDCH
abbrev pub is_dyn : Pchan → Bool
is_dyn tch_f_tch_h_pdch = true
is_dyn tch_f_pdch = true
is_dyn _ = false

abbrev pub has_cbch : Pchan → Bool
has_cbch ccch_sdcch4_cbch = true
has_cbch sdcch8_cbch = true
has_cbch _ = false

-- The types that an lchan of a timeslot in use may have.
abbrev pub activates : ChanType → Bool
activates lchan_tch_h = true
activates lchan_tch_f = true
activates lchan_sdcch = true
activates _ = false

abbrev pub is_none_type : ChanType → Bool
is_none_type lchan_none = true
is_none_type _ = false

abbrev pub same_type : ChanType → ChanType → Bool
same_type lchan_tch_h lchan_tch_h = true
same_type lchan_tch_f lchan_tch_f = true
same_type lchan_sdcch lchan_sdcch = true
same_type _ _ = false

module _ (osmo : OsmoFsm) (env : TsEnv) where
  -- rsl_tx_dyn_ts_pdch_act_deact(), and the error if it fails.
  unfoldable pub tx_pdch : (TsFsm → TsFsm) → Bool → TsFsm → TsFsm
  tx_pdch unused_event activate ts =
      if env.tx_pdch_ok activate
      then record ts { sent = (if activate then pdch_act else pdch_deact) ∷ ts.sent }
      else ts_fsm_error_borken osmo env unused_event ts

  -- ts_fsm_wait_pdch_act_onenter() and ts_fsm_wait_pdch_deact_onenter(), after the state is set.
  unfoldable pub enter_wait_pdch_act : (TsFsm → TsFsm) → TsState → TsFsm → TsFsm
  enter_wait_pdch_act unused_event st ts = tx_pdch unused_event true (set_state st ts)

  unfoldable pub enter_wait_pdch_deact : (TsFsm → TsFsm) → TsState → TsFsm → TsFsm
  enter_wait_pdch_deact unused_event st ts = tx_pdch unused_event false (set_state st ts)

  -- The CBCH lchan of ts_fsm_unused_onenter(); that it has an instance is asserted.
  unfoldable pub reserve_cbch : TsFsm → TsFsm
  reserve_cbch ts =
      if not (has_fi (ts.lchan 2).fi)
      then ts
      else osmo.state_chg TsFsm LchanState (lchan_state 2) lchan_out_state_mask (set_lchan_state 2)
          (set_lchan 2 (record (ts.lchan 2) { chan_type = lchan_cbch }) ts) cbch

  -- ts_fsm_unused_onenter(), after the state is set.
  unfoldable pub enter_unused : (TsFsm → TsFsm) → TsState → TsFsm → TsFsm
  enter_unused unused_event st ts =
      let ts' = set_state st ts in
      if not (ts_lchans_waiting ts' == 0)
      then ts_fsm_error_borken osmo env unused_event ts'
      else if is_dyn ts'.pchan_on_init
      then (if env.gprs_none
          then ts'
          else if not ts'.pdch_act_allowed
          then ts'
          else osmo.state_chg TsFsm TsState (λ q. q.state) ts_out_state_mask
              (enter_wait_pdch_act unused_event) ts' ts_wait_pdch_act)
      else if has_cbch ts'.pchan_on_init
      then reserve_cbch ts'
      else ts'

  -- The handlers of TS_EV_LCHAN_UNUSED: ts_fsm_in_use(), and the others, which ignore it.
  unfoldable pub on_lchan_unused : (TsFsm → TsFsm) → TsState → TsEvent → TsFsm → TsFsm
  on_lchan_unused unused_event ts_in_use lchan_unused ts =
      if ts_count_active_lchans ts == 0
      then osmo.state_chg TsFsm TsState (λ q. q.state) ts_out_state_mask (enter_unused unused_event)
          ts ts_unused
      else ts
  on_lchan_unused unused_event _ _ ts = ts

  -- osmo_fsm_inst_dispatch(ts->fi, TS_EV_LCHAN_UNUSED, …), of what the lchans do that become unused meanwhile.
  unfoldable pub unused_by : (TsFsm → TsFsm) → TsFsm → TsFsm
  unused_by unused_event ts =
      osmo.dispatch TsFsm TsState TsEvent (λ q. q.state) ts_allstate_event_mask (λ ev q. q)
        ts_in_event_mask (on_lchan_unused unused_event) ts lchan_unused

  -- The same with at most `depth` such events inside one another.
  unfoldable pub unused_event : ℕ → TsFsm → TsFsm
  unused_event zero ts = ts
  unused_event (suc depth) ts = unused_by (unused_event depth) ts

  -- One round of the loop of ts_fsm_in_use_onenter(), with activating_type.
  unfoldable pub check_lchan : (TsFsm → TsFsm) → ℕ → ChanType × TsFsm → ChanType × TsFsm
  check_lchan unused_event i (activating, ts) =
      let type = (ts.lchan i).chan_type in
      let ok = activates type && capable_of_lchant ts.pchan_on_init type in
      if is_unused (lchan_state i ts)
      then (activating, ts)
      else if not ok
      then (
        activating,
        if is_waiting (lchan_state i ts)
            then lchan_dispatch osmo env unused_event ts_error i ts
            else ts,
      )
      else if is_none_type activating
      then (type, ts)
      else if same_type activating type
      then (activating, ts)
      else (activating, lchan_dispatch osmo env unused_event ts_error i ts)

  unfoldable pub check_lchans : (TsFsm → TsFsm) → List ℕ → ChanType × TsFsm → ChanType × TsFsm
  check_lchans unused_event [] (activating, ts) = (activating, ts)
  check_lchans unused_event (i ∷ is) (activating, ts) =
      if visits ts.pchan_on_init i ts
      then check_lchans unused_event is (check_lchan unused_event i (activating, ts))
      else (activating, ts)

  -- The rest of ts_fsm_in_use_onenter(), for the type found; it is one of those that `activates` tells,
  -- or none.
  unfoldable pub use_as : (TsFsm → TsFsm) → ChanType × TsFsm → TsFsm
  use_as unused_event (activating, ts) =
      let ts' =
        if activates activating || is_none_type activating
        then ts
        else ts_lchans_dispatch_waiting osmo env unused_event ts_error ts in
      if not (activates activating && capable_of_lchant ts'.pchan_on_init activating)
      then osmo.state_chg TsFsm TsState (λ q. q.state) ts_out_state_mask (enter_unused unused_event)
          ts' ts_unused
      else ts_lchans_dispatch_waiting osmo env unused_event ts_ready (
          if pchan_eq ts'.pchan_on_init tch_f_tch_h_pdch
          then record ts' { pchan_is = gsm_pchan_by_lchan_type activating }
          else ts')

  -- ts_fsm_in_use_onenter(), after the state is set.
  unfoldable pub enter_in_use : (TsFsm → TsFsm) → TsState → TsFsm → TsFsm
  enter_in_use unused_event st ts = use_as unused_event (
      check_lchans unused_event slots
        (lchan_none, record (set_state st ts) { pdch_act_allowed = true }))

  -- ts_fsm_pdch_deact()
  unfoldable pub ts_fsm_pdch_deact : (TsFsm → TsFsm) → TsFsm → TsFsm
  ts_fsm_pdch_deact unused_event ts =
      osmo.state_chg TsFsm TsState (λ q. q.state) ts_out_state_mask
        (enter_wait_pdch_deact unused_event) ts ts_wait_pdch_deact

  -- ts_fsm_pdch_onenter(), after the state is set.
  unfoldable pub enter_pdch : (TsFsm → TsFsm) → TsState → TsFsm → TsFsm
  enter_pdch unused_event st ts =
      let ts' = set_state st ts in
      let ts'' = record ts' { pchan_is = pdch; sent = pcu_update ∷ ts'.sent } in
      if is_dyn ts'.pchan_on_init || pchan_eq ts'.pchan_on_init pdch
      then (if ts_lchans_waiting ts'' == 0 then ts'' else ts_fsm_pdch_deact unused_event ts'')
      else ts_fsm_error_borken osmo env unused_event ts'
