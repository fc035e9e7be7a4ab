-- ===== src/Timeslot/Errors.antt =====
-- The timeouts of src/osmo-bsc/timeslot_fsm.c.
use osmo_bsc.Base.{true, false, ◌≡◌, inl, inr, refl, arith, Bool-cases}
use osmo_bsc.Chan.Types.{TsState, ts_borken}
use osmo_bsc.Fsm.{OsmoFsm, IsDocumented, documented, by_documentation}
use osmo_bsc.Timeslot.{TsFsm, TsEnv, ts_error, ts_out_state_mask, ts_state_eq, ts_lchans_waiting}
use osmo_bsc.Timeslot.Lchans.{ts_lchans_dispatch_waiting, ts_fsm_error, ts_fsm_error_borken}
use osmo_bsc.Timeslot.Handlers.{tell_unused, ts_fsm_timer_cb, error_borken}
use osmo_bsc.Timeslot.Quiet.{Quiet-ts_lchans_waiting}
use osmo_bsc.Timeslot.Told.{error_borken-Quiet}
use osmo_bsc.Timeslot.Actions.{tell-Told}

to_borken :
    (st : TsState) → ts_state_eq st ts_borken ≡ false → ts_out_state_mask st ts_borken ≡ true
unfolding ts_out_state_mask
to_borken st h = ground arith

at_borken : (st : TsState) → ts_state_eq st ts_borken ≡ true → st ≡ ts_borken
at_borken st h = ground arith

borken_state :
    (env : TsEnv) (k : TsFsm → TsFsm) (ts : TsFsm)
    → (ts_fsm_error_borken documented env k ts).state ≡ ts_borken
unfolding ts_fsm_error_borken ts_fsm_error
borken_state env k ts =
    let ts' = ts_lchans_dispatch_waiting documented env k ts_error ts in
    elim (Bool-cases (ts_state_eq ts'.state ts_borken)) [
      | inl e ↦ rw e (at_borken _ e)
      | inr e ↦ rw (e, to_borken _ e) refl
    ]

timeout_documented :
    (env : TsEnv) (ts : TsFsm)
    → ((ts_fsm_timer_cb documented env ts).state ≡ ts_borken)
      × (ts_lchans_waiting (ts_fsm_timer_cb documented env ts) ≡ 0)
unfolding ts_fsm_timer_cb error_borken
timeout_documented env ts = (
  borken_state env (tell_unused documented env) ts,
  Quiet-ts_lchans_waiting _ (error_borken-Quiet (tell-Told env) env ts),
)

-- When the timer of a timeslot runs out, in whatever state and whatever its lchans answer in the middle
-- of it, the timeslot is BORKEN and no lchan waits for it any more. This holds of any osmo_fsm that does
-- what is documented.
pub timer_cb_lem :
    (osmo : OsmoFsm) (env : TsEnv) (ts : TsFsm)
    → IsDocumented osmo
    → ((ts_fsm_timer_cb osmo env ts).state ≡ ts_borken)
      × (ts_lchans_waiting (ts_fsm_timer_cb osmo env ts) ≡ 0)
timer_cb_lem osmo env ts h =
    by_documentation
      (λ o.
        ((ts_fsm_timer_cb o env ts).state ≡ ts_borken)
        × (ts_lchans_waiting (ts_fsm_timer_cb o env ts) ≡ 0))
      osmo h (timeout_documented env ts)
