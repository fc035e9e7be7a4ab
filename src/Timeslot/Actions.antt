-- ===== src/Timeslot/Actions.antt =====
-- What the actions of the states of src/osmo-bsc/timeslot_fsm.c do to the lchans that wait.
use osmo_bsc.Base.{
  either, ℕ, Bool, true, false, not, ◌≡◌, ◌⊎◌, inl, inr, ap, ◌∙◌, arith, Bool-cases, ◌==◌,
}
use osmo_bsc.Chan.Types.{TsState, ts_not_initialized, ts_unused, ts_pdch, ts_in_use}
use osmo_bsc.Fsm.{documented}
use osmo_bsc.Timeslot.{
  TsFsm, TsEnv, TsEvent, oml_ready, oml_down, rsl_ready, rsl_down, lchan_requested, lchan_unused,
  pdch_act_ack, pdch_act_nack, pdch_deact_ack, pdch_deact_nack, ts_ready, ts_error, LchanEvent,
  has_fi, slots, ts_out_state_mask, ts_in_event_mask, ts_allstate_event_mask,
}
use osmo_bsc.Timeslot.Lchans.{lchan_dispatch}
use osmo_bsc.Timeslot.Handlers.{
  LchanSanity, is_insane, is_ready_to_go, needs_pchan_change, tell_unused, ts_onenter, ts_state_chg,
  lchan_error, error_borken, ts_setup_lchans, ts_fsm_not_initialized_ready, ts_fsm_not_initialized,
  request_unused, request_pdch, request_wait_act, request_wait_deact, request_in_use,
}
use osmo_bsc.Timeslot.Quiet.{Quiet, Quiet-Calm, Quiet-all}
use osmo_bsc.Timeslot.Told.{
  is_in_use, Told, Answer-Calm, Answer-waits, Answer-state, dispatch-Answer, error_borken-Quiet,
}
use osmo_bsc.Timeslot.Unused.{is_pending, Done, enter_unused-Done, unused_event-Told}
use osmo_bsc.Timeslot.InUse.{enter_in_use-Done, pdch_deact-Done}

abbrev pub only : ℕ → ℕ → Bool
only i j = i == j

module _ (env : TsEnv) where
  pub tell-Told : Told (tell_unused documented env)
  unfolding tell_unused
  tell-Told = unused_event-Told env 2

  pub permitted :
      (P : TsFsm → Type 0) (st : TsState) (ts : TsFsm)
      → ts_out_state_mask ts.state st ≡ true
      → P (ts_onenter documented env st ts)
      → P (ts_state_chg documented env st ts)
  unfolding ts_state_chg
  permitted P st ts o p = rw o p

  pub to_unused-Done : (ts : TsFsm) → Done ts → Done (ts_state_chg documented env ts_unused ts)
  unfolding ts_state_chg ts_onenter
  to_unused-Done ts d = elim (Bool-cases (ts_out_state_mask ts.state ts_unused)) [
    | inl o ↦ rw o (enter_unused-Done env tell-Told ts)
    | inr o ↦ rw o d
  ]

  pub to_in_use-Done :
      (ts : TsFsm)
      → ts_out_state_mask ts.state ts_in_use ≡ true
      → Done (ts_state_chg documented env ts_in_use ts)
  unfolding ts_onenter
  to_in_use-Done ts o = permitted Done ts_in_use ts o (enter_in_use-Done env tell-Told ts)

  pub broken-Done : (ts : TsFsm) → Done (error_borken documented env ts)
  unfolding error_borken
  broken-Done ts = inr (error_borken-Quiet tell-Told env ts)

  -- An event to the one lchan that may wait.
  answered-Done :
      (ev : LchanEvent) (i : ℕ) (ts : TsFsm)
      → (is_pending ts.state ≡ true) ⊎ Quiet (only i) slots ts
      → Done (lchan_dispatch documented env (tell_unused documented env) ev i ts)
  answered-Done ev i ts (inl p) =
      let u : is_in_use ts.state ≡ false = ground arith in
      inl (ap is_pending (Answer-state tell-Told (dispatch-Answer tell-Told env ev i ts) u) ∙ p)
  answered-Done ev i ts (inr q) =
      let a = dispatch-Answer tell-Told env ev i ts in
      inr (
        Quiet-all _ i slots (Answer-waits tell-Told a)
          (Quiet-Calm (only i) slots (Answer-Calm tell-Told a) q))

  oml_ready-Done :
      (st : TsState) (ts : TsFsm)
      → ts.state ≡ ts_not_initialized
      → Done (ts_fsm_not_initialized_ready documented env st oml_ready ts)
  unfolding ts_fsm_not_initialized_ready ts_setup_lchans
  oml_ready-Done st ts s =
      let ts' = ts_setup_lchans (record ts { pdch_act_allowed = true; is_oml_ready = true }) in
      let p : Done ts' = inl (ap is_pending s) in
      either Done (not ts.is_rsl_ready) p (to_unused-Done ts' p)

  rsl_ready-Done :
      (st : TsState) (ts : TsFsm)
      → ts.state ≡ ts_not_initialized
      → Done (ts_fsm_not_initialized_ready documented env st rsl_ready ts)
  unfolding ts_fsm_not_initialized_ready
  rsl_ready-Done st ts s =
      let ts' = record ts { pdch_act_allowed = true; is_rsl_ready = true } in
      let p : Done ts' = inl (ap is_pending s) in
      either Done (not ts.is_oml_ready) p (to_unused-Done ts' p)

  pub not_initialized-Done :
      (ev : TsEvent) (ts : TsFsm)
      → ts.state ≡ ts_not_initialized
      → Done (ts_fsm_not_initialized documented env ev ts)
  unfolding ts_fsm_not_initialized ts_fsm_not_initialized_ready ts_allstate_event_mask
  not_initialized-Done oml_ready ts s = oml_ready-Done ts_not_initialized ts s
  not_initialized-Done rsl_ready ts s = rsl_ready-Done ts_not_initialized ts s
  not_initialized-Done (lchan_requested i) ts s =
      let p : Done ts = inl (ap is_pending s) in
      either Done (has_fi (ts.lchan i).fi)
        (either Done (ts_in_event_mask ts.state rsl_ready) (rsl_ready-Done ts.state ts s) p) p
  not_initialized-Done oml_down ts s = inl (ap is_pending s)
  not_initialized-Done rsl_down ts s = inl (ap is_pending s)
  not_initialized-Done lchan_unused ts s = inl (ap is_pending s)
  not_initialized-Done pdch_act_ack ts s = inl (ap is_pending s)
  not_initialized-Done pdch_act_nack ts s = inl (ap is_pending s)
  not_initialized-Done pdch_deact_ack ts s = inl (ap is_pending s)
  not_initialized-Done pdch_deact_nack ts s = inl (ap is_pending s)

  pub insane-Done :
      (i : ℕ) (ts : TsFsm)
      → (is_pending ts.state ≡ true) ⊎ Quiet (only i) slots ts
      → Done (lchan_error documented env i ts)
  unfolding lchan_error
  insane-Done i ts b = answered-Done ts_error i ts b

  pub request_unused-Done :
      (i : ℕ) (sane : LchanSanity) (ts : TsFsm)
      → ts.state ≡ ts_unused
      → (is_pending ts.state ≡ true) ⊎ Quiet (only i) slots ts
      → Done (request_unused documented env i sane ts)
  unfolding request_unused ts_out_state_mask
  request_unused-Done i is_insane ts s b = insane-Done i ts b
  request_unused-Done i is_ready_to_go ts s b =
      to_in_use-Done ts (ap (λ st. ts_out_state_mask st ts_in_use) s)
  request_unused-Done i needs_pchan_change ts s b =
      to_in_use-Done ts (ap (λ st. ts_out_state_mask st ts_in_use) s)

  pub request_pdch-Done :
      (i : ℕ) (sane : LchanSanity) (ts : TsFsm)
      → ts.state ≡ ts_pdch
      → (is_pending ts.state ≡ true) ⊎ Quiet (only i) slots ts
      → Done (request_pdch documented env i sane ts)
  unfolding request_pdch
  request_pdch-Done i is_insane ts s b = insane-Done i ts b
  request_pdch-Done i is_ready_to_go ts s b = broken-Done ts
  request_pdch-Done i needs_pchan_change ts s b = pdch_deact-Done env tell-Told ts s

  pub request_wait_act-Done :
      (i : ℕ) (sane : LchanSanity) (ts : TsFsm)
      → is_pending ts.state ≡ true
      → Done (request_wait_act documented env i sane ts)
  unfolding request_wait_act
  request_wait_act-Done i is_insane ts p = insane-Done i ts (inl p)
  request_wait_act-Done i is_ready_to_go ts p = inl p
  request_wait_act-Done i needs_pchan_change ts p = inl p

  pub request_wait_deact-Done :
      (i : ℕ) (sane : LchanSanity) (ts : TsFsm)
      → is_pending ts.state ≡ true
      → Done (request_wait_deact documented env i sane ts)
  unfolding request_wait_deact
  request_wait_deact-Done i is_insane ts p = insane-Done i ts (inl p)
  request_wait_deact-Done i is_ready_to_go ts p = broken-Done ts
  request_wait_deact-Done i needs_pchan_change ts p = inl p

  pub request_in_use-Done :
      (i : ℕ) (sane : LchanSanity) (ts : TsFsm)
      → (is_pending ts.state ≡ true) ⊎ Quiet (only i) slots ts
      → Done (request_in_use documented env i sane ts)
  unfolding request_in_use
  request_in_use-Done i is_insane ts b = insane-Done i ts b
  request_in_use-Done i is_ready_to_go ts b = answered-Done ts_ready i ts b
  request_in_use-Done i needs_pchan_change ts b = insane-Done i ts b
