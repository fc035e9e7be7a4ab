-- ===== src/Timeslot/Depth.antt =====
-- How deep the events TS_EV_LCHAN_UNUSED of src/osmo-bsc/timeslot_fsm.c can stand inside one another.
use osmo_bsc.Base.{
  ℕ, true, false, not, List, [], ◌∷◌, ◌≡◌, inl, inr, refl, sym, ap, ◌∙◌, Bool-cases, ◌==◌,
  if◌then◌else◌,
}
use osmo_bsc.Chan.Types.{
  unused, TsState, ts_not_initialized, ts_unused, ts_wait_pdch_act, ts_pdch, ts_wait_pdch_deact,
  ts_in_use, ts_borken,
}
use osmo_bsc.Chan.Usable.{is_unused, is_waiting}
use osmo_bsc.Fsm.{OsmoFsm, IsDocumented, documented, by_documentation}
use osmo_bsc.Timeslot.{
  TsFsm, TsEnv, lchan_unused, ts_error, pdch_act, has_fi, lchan_state, set_lchan_state, set_state,
  slots, visits, for_each_potential, lchan_out_state_mask, lchan_allstate_event_mask,
  ts_out_state_mask, ts_in_event_mask, ts_allstate_event_mask, ts_state_eq, ts_lchans_waiting,
  ts_count_active_lchans,
}
use osmo_bsc.Timeslot.Lchans.{
  lchan_reset, lchan_enter_unused, lchan_fail_to_unused, lchan_fsm_allstate_action, lchan_dispatch,
  ts_lchans_dispatch_waiting, ts_fsm_error, ts_fsm_error_borken,
}
use osmo_bsc.Timeslot.Enter.{
  is_dyn, has_cbch, tx_pdch, enter_wait_pdch_act, reserve_cbch, enter_unused, on_lchan_unused,
  unused_by, unused_event,
}
use osmo_bsc.Timeslot.Handlers.{tell_unused}
use osmo_bsc.Timeslot.Told.{is_in_use, Told, Answer-state, body-Answer}
use osmo_bsc.Timeslot.Unused.{not_in_use_idle}
use osmo_bsc.Timeslot.Calm.{Calm-refl}

abbrev stay : TsFsm → TsFsm
stay ts = ts

stay-Told : Told stay
stay-Told = record { calm = Calm-refl; idle = λ ts u. refl; rest = λ ts h. h }

-- What a handler does that ignores the event in each state but IN_USE.
module _ (env : TsEnv) (k : TsFsm → TsFsm)
    (idle : (ts : TsFsm) → is_in_use ts.state ≡ false → k ts ≡ ts) where
  fail_stays :
      (i : ℕ) (ts : TsFsm)
      → is_in_use ts.state ≡ false
      → lchan_fail_to_unused documented env k i ts ≡ lchan_fail_to_unused documented env stay i ts
  unfolding lchan_fail_to_unused lchan_enter_unused lchan_reset
  fail_stays i ts u =
      ap
        (λ q.
          if is_unused (lchan_state i ts)
          then ts
          else if lchan_out_state_mask (lchan_state i ts) unused
          then q
          else ts)
        (idle (lchan_reset i (set_lchan_state i unused ts)) u)

  round_stays :
      (i : ℕ) (ts : TsFsm)
      → is_in_use ts.state ≡ false
      → (if is_waiting (lchan_state i ts)
          then lchan_dispatch documented env k ts_error i ts
          else ts)
        ≡ (if is_waiting (lchan_state i ts)
            then lchan_dispatch documented env stay ts_error i ts
            else ts)
  unfolding lchan_dispatch lchan_allstate_event_mask lchan_fsm_allstate_action
  round_stays i ts u =
      ap
        (λ q.
          if is_waiting (lchan_state i ts) then (if has_fi (ts.lchan i).fi then q else ts) else ts)
        (fail_stays i ts u)

  loop_stays :
      (is : List ℕ) (ts : TsFsm)
      → is_in_use ts.state ≡ false
      → for_each_potential
          (λ i q.
            if is_waiting (lchan_state i q)
            then lchan_dispatch documented env k ts_error i q
            else q)
          is
          ts
        ≡ for_each_potential
            (λ i q.
              if is_waiting (lchan_state i q)
              then lchan_dispatch documented env stay ts_error i q
              else q)
            is
            ts
  unfolding for_each_potential
  loop_stays [] ts u = refl
  loop_stays (i ∷ is) ts u =
      let s = Answer-state stay-Told (body-Answer stay-Told env ts_error i ts) u in
      elim (Bool-cases (visits ts.pchan_on_init i ts)) [
        | inl v ↦ rw v (
            ap
              (for_each_potential
                (λ j q.
                  if is_waiting (lchan_state j q)
                  then lchan_dispatch documented env k ts_error j q
                  else q)
                is)
              (round_stays i ts u)
            ∙ loop_stays is _ (ap is_in_use s ∙ u))
        | inr v ↦ rw v refl
      ]

  error_stays :
      (ts : TsFsm)
      → is_in_use ts.state ≡ false
      → ts_fsm_error_borken documented env k ts ≡ ts_fsm_error_borken documented env stay ts
  unfolding ts_fsm_error_borken ts_fsm_error ts_lchans_dispatch_waiting
  error_stays ts u =
      ap
        (λ q.
          if ts_state_eq q.state ts_borken
          then q
          else documented.state_chg TsFsm TsState (λ p. p.state) ts_out_state_mask set_state q
              ts_borken)
        (loop_stays slots ts u)

  -- Entering UNUSED, the timeslot is told of unused lchans only in states that ignore it.
  enter_stays :
      (ts : TsFsm)
      → enter_unused documented env k ts_unused ts ≡ enter_unused documented env stay ts_unused ts
  unfolding enter_unused enter_wait_pdch_act tx_pdch ts_out_state_mask
  enter_stays ts =
      let ts' = set_state ts_unused ts in
      let waiting = set_state ts_wait_pdch_act ts' in
      let shape : TsFsm → TsFsm → TsFsm = λ e f.
        if not (ts_lchans_waiting ts' == 0)
        then e
        else if is_dyn ts.pchan_on_init
        then (if env.gprs_none
            then ts'
            else if not ts.pdch_act_allowed
            then ts'
            else if env.tx_pdch_ok true
            then record waiting { sent = pdch_act ∷ ts.sent }
            else f)
        else if has_cbch ts.pchan_on_init
        then reserve_cbch documented env ts'
        else ts' in
      ap (λ e. shape e (ts_fsm_error_borken documented env k waiting)) (error_stays ts' refl)
      ∙ ap (λ f. shape (ts_fsm_error_borken documented env stay ts') f) (error_stays waiting refl)

  unused_stays :
      (st : TsState) (ts : TsFsm)
      → on_lchan_unused documented env k st lchan_unused ts
        ≡ on_lchan_unused documented env stay st lchan_unused ts
  unfolding on_lchan_unused
  unused_stays ts_in_use ts =
      ap
        (λ q.
          if ts_count_active_lchans ts == 0
          then (if ts_out_state_mask ts.state ts_unused then q else ts)
          else ts)
        (enter_stays ts)
  unused_stays ts_not_initialized ts = refl
  unused_stays ts_unused ts = refl
  unused_stays ts_wait_pdch_act ts = refl
  unused_stays ts_pdch ts = refl
  unused_stays ts_wait_pdch_deact ts = refl
  unused_stays ts_borken ts = refl

-- The code's recursion: the lchans that become unused while the event is handled tell the timeslot by that
-- same event.
abbrev pub IsUnusedHandler : OsmoFsm → TsEnv → (TsFsm → TsFsm) → Type 0
IsUnusedHandler osmo env handler = (ts : TsFsm) → handler ts ≡ unused_by osmo env handler ts

module _ (env : TsEnv) (k : TsFsm → TsFsm) where
  step_idle : (ts : TsFsm) → is_in_use ts.state ≡ false → unused_by documented env k ts ≡ ts
  unfolding unused_by ts_allstate_event_mask ts_in_event_mask
  step_idle ts u = not_in_use_idle env k ts.state ts u

  step_stays :
      ((ts : TsFsm) → is_in_use ts.state ≡ false → k ts ≡ ts)
      → (ts : TsFsm) → unused_by documented env k ts ≡ unused_by documented env stay ts
  unfolding unused_by ts_allstate_event_mask ts_in_event_mask
  step_stays idle ts = unused_stays env k idle ts.state ts

tell_stays :
    (env : TsEnv) (ts : TsFsm) → tell_unused documented env ts ≡ unused_by documented env stay ts
unfolding tell_unused unused_event
tell_stays env ts = step_stays env (unused_by documented env stay) (step_idle env stay) ts

tell_idle :
    (env : TsEnv) (ts : TsFsm) → is_in_use ts.state ≡ false → tell_unused documented env ts ≡ ts
tell_idle env ts u = tell_stays env ts ∙ step_idle env stay ts u

tell-IsUnusedHandler : (env : TsEnv) → IsUnusedHandler documented env (tell_unused documented env)
tell-IsUnusedHandler env ts =
    tell_stays env ts ∙ sym (step_stays env (tell_unused documented env) (tell_idle env) ts)

-- With the FSM library's functions as documented, tell_unused solves the code's recursion.
pub tell_unused-IsUnusedHandler :
    (osmo : OsmoFsm) (env : TsEnv)
    → IsDocumented osmo
    → IsUnusedHandler osmo env (tell_unused osmo env)
tell_unused-IsUnusedHandler osmo env doc =
    by_documentation (λ o. IsUnusedHandler o env (tell_unused o env)) osmo doc
      (tell-IsUnusedHandler env)

handler-tell_unused :
    (env : TsEnv) (handler : TsFsm → TsFsm)
    → IsUnusedHandler documented env handler
    → (ts : TsFsm) → handler ts ≡ tell_unused documented env ts
handler-tell_unused env handler s ts =
    let idle : (q : TsFsm) → is_in_use q.state ≡ false → handler q ≡ q =
      λ q u. s q ∙ step_idle env handler q u in
    s ts ∙ step_stays env handler idle ts ∙ sym (tell_stays env ts)

-- With the FSM library's functions as documented: a function that handles TS_EV_LCHAN_UNUSED as the timeslot's
-- states do, where each lchan that becomes unused meanwhile sends the event to that same function, with
-- no bound on how often, does to each timeslot what the bounded handler of the model does.
pub only_unused_handler :
    (osmo : OsmoFsm) (env : TsEnv)
    → IsDocumented osmo
    → (handler : TsFsm → TsFsm) → IsUnusedHandler osmo env handler
    → (ts : TsFsm) → handler ts ≡ tell_unused osmo env ts
only_unused_handler osmo env doc handler s ts =
    by_documentation (λ o. IsUnusedHandler o env handler → handler ts ≡ tell_unused o env ts) osmo
      doc (λ h. handler-tell_unused env handler h ts) s
