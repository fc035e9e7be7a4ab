-- ===== src/Timeslot/Lchans.antt =====
-- What an lchan does with an event of its timeslot: of src/osmo-bsc/lchan_fsm.c the actions on
-- LCHAN_EV_TS_READY and LCHAN_EV_TS_ERROR, and of src/osmo-bsc/timeslot_fsm.c lchan_dispatch() and
-- ts_lchans_dispatch(). What lchan_on_activation_failure() tells other FSMs is left out. `unused_event`
-- is what the timeslot does when it is told TS_EV_LCHAN_UNUSED.
use osmo_bsc.Base.{ℕ, false, ◌∷◌, if◌then◌else◌}
use osmo_bsc.Chan.Types.{
  lchan_none, LchanState, unused, wait_activ_ack, wait_ts_ready, TsState, ts_borken,
}
use osmo_bsc.Chan.Usable.{is_unused, is_waiting}
use osmo_bsc.Fsm.{OsmoFsm}
use osmo_bsc.Timeslot.{
  TsFsm, TsEnv, LchanEvent, ts_ready, ts_error, chan_activ, lchan_out_state_mask,
  lchan_in_event_mask, lchan_allstate_event_mask, lchan_state, set_lchan, set_lchan_state,
  set_state, slots, has_fi, for_each_potential, ts_state_eq, ts_out_state_mask,
}

-- lchan_reset(), of an lchan with an instance.
unfoldable pub lchan_reset : ℕ → TsFsm → TsFsm
lchan_reset i ts =
    set_lchan i (record { chan_type = lchan_none; fi = (ts.lchan i).fi; release_requested = false })
      ts

module _ (osmo : OsmoFsm) (env : TsEnv) (unused_event : TsFsm → TsFsm) where
  -- lchan_fsm_unused_onenter(), after the state is set.
  unfoldable pub lchan_enter_unused : ℕ → LchanState → TsFsm → TsFsm
  lchan_enter_unused i st ts = unused_event (lchan_reset i (set_lchan_state i st ts))

  -- lchan_fail_to(LCHAN_ST_UNUSED, …)
  unfoldable pub lchan_fail_to_unused : ℕ → TsFsm → TsFsm
  lchan_fail_to_unused i ts =
      if is_unused (lchan_state i ts)
      then ts
      else osmo.state_chg TsFsm LchanState (lchan_state i) lchan_out_state_mask
          (lchan_enter_unused i) ts unused

  -- lchan_fsm_wait_activ_ack_onenter(), after the state is set.
  unfoldable pub lchan_enter_wait_activ_ack : ℕ → LchanState → TsFsm → TsFsm
  lchan_enter_wait_activ_ack i st ts =
      let ts' = set_lchan_state i st ts in
      if (ts'.lchan i).release_requested
      then lchan_fail_to_unused i ts'
      else if env.tx_chan_activ_ok i
      then record ts' { sent = chan_activ i ∷ ts'.sent }
      else lchan_fail_to_unused i ts'

  -- lchan_fsm_allstate_action() and lchan_fsm_wait_ts_ready(), for these events.
  unfoldable pub lchan_fsm_allstate_action : ℕ → LchanEvent → TsFsm → TsFsm
  lchan_fsm_allstate_action i ts_error ts = lchan_fail_to_unused i ts
  lchan_fsm_allstate_action i ts_ready ts = ts

  unfoldable pub lchan_action : ℕ → LchanState → LchanEvent → TsFsm → TsFsm
  lchan_action i wait_ts_ready ts_ready ts =
      osmo.state_chg TsFsm LchanState (lchan_state i) lchan_out_state_mask
        (lchan_enter_wait_activ_ack i) ts wait_activ_ack
  lchan_action i _ _ ts = ts

  -- lchan_dispatch()
  unfoldable pub lchan_dispatch : LchanEvent → ℕ → TsFsm → TsFsm
  lchan_dispatch ev i ts =
      if has_fi (ts.lchan i).fi
      then osmo.dispatch TsFsm LchanState LchanEvent (lchan_state i) lchan_allstate_event_mask
          (lchan_fsm_allstate_action i) lchan_in_event_mask (lchan_action i) ts ev
      else ts

  -- ts_lchans_dispatch(), for the lchans that wait and, where lchan_state is -1, for all.
  unfoldable pub ts_lchans_dispatch_waiting : LchanEvent → TsFsm → TsFsm
  ts_lchans_dispatch_waiting ev ts =
      for_each_potential (λ i q. if is_waiting (lchan_state i q) then lchan_dispatch ev i q else q)
        slots ts

  unfoldable pub ts_lchans_dispatch_all : LchanEvent → TsFsm → TsFsm
  ts_lchans_dispatch_all ev ts = for_each_potential (lchan_dispatch ev) slots ts

  -- ts_fsm_error(), for a state that is entered by `enter`.
  unfoldable pub ts_fsm_error : (TsState → TsFsm → TsFsm) → TsState → TsFsm → TsFsm
  ts_fsm_error enter st ts =
      let ts' = ts_lchans_dispatch_waiting ts_error ts in
      if ts_state_eq ts'.state st
      then ts'
      else osmo.state_chg TsFsm TsState (λ q. q.state) ts_out_state_mask enter ts' st

  -- ts_fsm_error(fi, TS_ST_BORKEN, …); nothing is done on entering that state.
  unfoldable pub ts_fsm_error_borken : TsFsm → TsFsm
  ts_fsm_error_borken ts = ts_fsm_error set_state ts_borken ts
