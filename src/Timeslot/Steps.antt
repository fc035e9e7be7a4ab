-- ===== src/Timeslot/Steps.antt =====
-- Runs of a timeslot and its lchans: the events of src/osmo-bsc/timeslot_fsm.c in any order, the requests
-- of the lchans, and what the lchans do by themselves.
use Prim.{tt}
use osmo_bsc.Base.{
  ℕ, true, false, ◌&&◌, ltb, List, [], ◌∷◌, some, ◌≡◌, ◌⊎◌, inl, inr, refl, sym, ap, ◌∙◌, arith,
  Bool-cases, ◌==◌,
}
use osmo_bsc.Chan.Types.{ChanType, wait_ts_ready}
use osmo_bsc.Chan.Kinds.{pchan_subslots}
use osmo_bsc.Chan.Usable.{is_waiting}
use osmo_bsc.Fsm.{OsmoFsm, IsDocumented, documented, by_documentation}
use osmo_bsc.Timeslot.{
  TsFsm, TsLchan, TsEnv, TsEvent, oml_ready, oml_down, rsl_ready, rsl_down, lchan_requested,
  lchan_unused, pdch_act_ack, pdch_act_nack, pdch_deact_ack, pdch_deact_nack, has_fi, slots,
  set_lchan, state_or_unused, visits, ts_lchans_waiting,
}
use osmo_bsc.Timeslot.Handlers.{ts_fsm_timer_cb, ts_dispatch}
use osmo_bsc.Timeslot.Calm.{waits, Calm-set_lchan}
use osmo_bsc.Timeslot.Quiet.{
  Quiet, nobody, Quiet-Calm, Quiet-ts_lchans_waiting, ts_lchans_waiting-Quiet,
}
use osmo_bsc.Timeslot.Unused.{is_pending, Done}
use osmo_bsc.Timeslot.Actions.{only, broken-Done}
use osmo_bsc.Timeslot.Dispatch.{dispatch-Done}
use osmo_bsc.Timeslot.States.{Before}

-- No lchan waits for the timeslot, unless the timeslot waits for something itself.
abbrev pub Settled : TsFsm → Type 0
Settled ts = (is_pending ts.state ≡ true) ⊎ (ts_lchans_waiting ts ≡ 0)

-- The lchan enters LCHAN_ST_WAIT_TS_READY, for a channel of the type.
abbrev pub ask : ℕ → ChanType → TsFsm → TsFsm
ask i type ts = set_lchan i (record (ts.lchan i) { chan_type = type; fi = some wait_ts_ready }) ts

-- One step: an event or a timeout of the timeslot; an lchan with an instance begins to wait and
-- dispatches TS_EV_LCHAN_REQUESTED; or the lchan's own FSM moves it to another state than that. What is
-- sent may succeed in one step and fail in the next.
pub data TsStep (osmo : OsmoFsm) (ts : TsFsm) : TsFsm → Type 0 where
  event : (env : TsEnv) (ev : TsEvent) → TsStep osmo ts (ts_dispatch osmo env ev ts)
  timeout : (env : TsEnv) → TsStep osmo ts (ts_fsm_timer_cb osmo env ts)
  requests :
      (env : TsEnv) (i : ℕ) (type : ChanType)
      → has_fi (ts.lchan i).fi ≡ true
      → TsStep osmo ts (ts_dispatch osmo env (lchan_requested i) (ask i type ts))
  lchan_moves :
      (i : ℕ) (l : TsLchan)
      → is_waiting (state_or_unused l.fi) ≡ false
      → has_fi l.fi ≡ has_fi (ts.lchan i).fi
      → TsStep osmo ts (set_lchan i l ts)

pub data TsRun (osmo : OsmoFsm) (ts : TsFsm) : TsFsm → Type 0 where
  begins : TsRun osmo ts ts
  goes_on : {a b : TsFsm} → TsRun osmo ts a → TsStep osmo a b → TsRun osmo ts b

Quiet-only : (i : ℕ) (is : List ℕ) (ts : TsFsm) → Quiet nobody is ts → Quiet (only i) is ts
Quiet-only i [] ts q = tt
Quiet-only i (j ∷ is) ts (inl v) = inl v
Quiet-only i (j ∷ is) ts (inr (inl e, q)) = cc
Quiet-only i (j ∷ is) ts (inr (inr w, q)) = inr (inr w, Quiet-only i is ts q)

Done-Before : (ev : TsEvent) (ts : TsFsm) → Done ts → Before ev ts
Done-Before (lchan_requested i) ts (inl p) = inl p
Done-Before (lchan_requested i) ts (inr q) = inr (Quiet-only i slots ts q)
Done-Before oml_ready ts d = d
Done-Before oml_down ts d = d
Done-Before rsl_ready ts d = d
Done-Before rsl_down ts d = d
Done-Before lchan_unused ts d = d
Done-Before pdch_act_ack ts d = d
Done-Before pdch_act_nack ts d = d
Done-Before pdch_deact_ack ts d = d
Done-Before pdch_deact_nack ts d = d

ask_fi :
    (i : ℕ) (type : ChanType) (j : ℕ) (ts : TsFsm)
    → has_fi (ts.lchan i).fi ≡ true
    → has_fi ((ask i type ts).lchan j).fi ≡ has_fi (ts.lchan j).fi
ask_fi i type j ts f = elim (Bool-cases (i == j)) [
  | inl e ↦ let same : i ≡ j = ground arith in rw e (sym f ∙ ap (λ n. has_fi (ts.lchan n).fi) same)
  | inr e ↦ rw e refl
]

waits-ask :
    (i : ℕ) (type : ChanType) (j : ℕ) (ts : TsFsm)
    → (i == j) ≡ false
    → waits j (ask i type ts) ≡ waits j ts
waits-ask i type j ts e = rw e refl

-- An lchan that asks is then the only one that waits.
ask-Quiet :
    (i : ℕ) (type : ChanType) (is : List ℕ) (ts : TsFsm)
    → has_fi (ts.lchan i).fi ≡ true
    → Quiet nobody is ts
    → Quiet (only i) is (ask i type ts)
unfolding visits
ask-Quiet i type [] ts f q = tt
ask-Quiet i type (j ∷ is) ts f (inl v) =
    inl (ap (λ b. b && ltb j (pchan_subslots ts.pchan_on_init)) (ask_fi i type j ts f) ∙ v)
ask-Quiet i type (j ∷ is) ts f (inr (inl e, q)) = cc
ask-Quiet i type (j ∷ is) ts f (inr (inr w, q)) =
    let rest = ask-Quiet i type is ts f q in
    elim (Bool-cases (i == j)) [
      | inl e ↦ inr (inl e, rest)
      | inr e ↦ inr (inr (waits-ask i type j ts e ∙ w), rest)
    ]

Done-Settled : (ts : TsFsm) → Done ts → Settled ts
Done-Settled ts (inl p) = inl p
Done-Settled ts (inr q) = inr (Quiet-ts_lchans_waiting ts q)

Settled-Done : (ts : TsFsm) → Settled ts → Done ts
Settled-Done ts (inl p) = inl p
Settled-Done ts (inr w) = inr (ts_lchans_waiting-Quiet ts w)

ask-Before :
    (i : ℕ) (type : ChanType) (ts : TsFsm)
    → has_fi (ts.lchan i).fi ≡ true
    → Done ts
    → Before (lchan_requested i) (ask i type ts)
ask-Before i type ts f (inl p) = inl p
ask-Before i type ts f (inr q) = inr (ask-Quiet i type slots ts f q)

step-Done : (ts ts' : TsFsm) → TsStep documented ts ts' → Done ts → Done ts'
unfolding ts_fsm_timer_cb
step-Done ts _ (event env ev) d = dispatch-Done env ev ts (Done-Before ev ts d)
step-Done ts _ (timeout env) d = broken-Done env ts
step-Done ts _ (requests env i type f) d =
    dispatch-Done env (lchan_requested i) (ask i type ts) (ask-Before i type ts f d)
step-Done ts _ (lchan_moves i l w f) (inl p) = inl p
step-Done ts _ (lchan_moves i l w f) (inr q) =
    inr (Quiet-Calm nobody slots (Calm-set_lchan i l ts w f) q)

run-Done : {ts ts' : TsFsm} → TsRun documented ts ts' → Done ts → Done ts'
run-Done begins d = d
run-Done (goes_on r s) d = step-Done _ _ s (run-Done r d)

-- Whatever the events, their order, what the lchans do and which messages can be sent: after every step
-- of a run no lchan waits for the timeslot, unless the timeslot is not initialised or waits itself for
-- PDCH to be switched on or off. This holds of any osmo_fsm that does what is documented, of a run that
-- starts at such a timeslot.
pub run-Settled :
    (osmo : OsmoFsm) (ts ts' : TsFsm)
    → IsDocumented osmo
    → TsRun osmo ts ts'
    → Settled ts
    → Settled ts'
run-Settled osmo ts ts' h =
    by_documentation (λ o. TsRun o ts ts' → Settled ts → Settled ts') osmo h
      (λ r d. Done-Settled ts' (run-Done r (Settled-Done ts d)))
