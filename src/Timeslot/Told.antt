-- ===== src/Timeslot/Told.antt =====
-- What TS_EV_LCHAN_UNUSED may do to a timeslot, also in the middle of its loops.
use osmo_bsc.Base.{
  ℕ, Bool, true, false, List, [], ◌∷◌, ◌≡◌, ◌⊎◌, inl, inr, refl, ap, ◌∙◌, arith, Bool-cases,
  if◌then◌else◌,
}
use osmo_bsc.Chan.Types.{TsState, ts_unused, ts_pdch, ts_in_use, ts_borken}
use osmo_bsc.Chan.Usable.{is_waiting}
use osmo_bsc.Fsm.{documented}
use osmo_bsc.Timeslot.{
  TsFsm, TsEnv, LchanEvent, ts_ready, ts_error, lchan_state, slots, for_each_potential, visits,
  ts_state_eq, ts_out_state_mask,
}
use osmo_bsc.Timeslot.Lchans.{
  lchan_dispatch, ts_lchans_dispatch_waiting, ts_lchans_dispatch_all, ts_fsm_error,
  ts_fsm_error_borken,
}
use osmo_bsc.Timeslot.Calm.{
  waits, Calm, Calm-refl, Calm-trans, set_state-Calm, Answer, ignored, moved, told, error-Answer,
  ready-Answer,
}
use osmo_bsc.Timeslot.Quiet.{Quiet, nobody, Quiet-Calm, for_each-Calm, for_each-Quiet}

abbrev pub is_in_use : TsState → Bool
is_in_use ts_in_use = true
is_in_use _ = false

-- The states in which nothing is under way, so that no lchan may wait.
abbrev pub is_resting : TsState → Bool
is_resting ts_unused = true
is_resting ts_pdch = true
is_resting ts_borken = true
is_resting _ = false

abbrev pub Rest : TsFsm → Type 0
Rest ts = (is_resting ts.state ≡ false) ⊎ Quiet nobody slots ts

-- What the handler of TS_EV_LCHAN_UNUSED is known to do.
pub record Told (unused_event : TsFsm → TsFsm) : Type 0 where
  pub calm : (ts : TsFsm) → Calm ts (unused_event ts)
  pub idle : (ts : TsFsm) → is_in_use ts.state ≡ false → unused_event ts ≡ ts
  pub rest : (ts : TsFsm) → Rest ts → Rest (unused_event ts)

Rest-Calm : {ts ts' : TsFsm} → Calm ts ts' → ts'.state ≡ ts.state → Rest ts → Rest ts'
Rest-Calm c s (inl r) = inl (ap is_resting s ∙ r)
Rest-Calm c s (inr q) = inr (Quiet-Calm nobody slots c q)

module _ {unused_event : TsFsm → TsFsm} (k : Told unused_event) where
  pub Answer-Calm : {i : ℕ} {ts r : TsFsm} → Answer unused_event i ts r → Calm ts r
  Answer-Calm (ignored w) = Calm-refl _
  Answer-Calm (moved m a) = a.calm
  Answer-Calm (told m a) = Calm-trans a.calm (k.calm m)

  pub Answer-waits : {i : ℕ} {ts r : TsFsm} → Answer unused_event i ts r → waits i r ≡ false
  Answer-waits (ignored w) = w
  Answer-waits (moved m a) = a.waits_not
  Answer-waits {i = i} (told m a) = elim (Bool-cases (waits i (unused_event m))) [
    | inl e ↦ let c = k.calm m in let e' = c.waits_less i e in let n = a.waits_not in ground arith
    | inr e ↦ e
  ]

  pub Answer-state :
      {i : ℕ} {ts r : TsFsm}
      → Answer unused_event i ts r
      → is_in_use ts.state ≡ false
      → r.state ≡ ts.state
  Answer-state (ignored w) u = refl
  Answer-state (moved m a) u = a.same_state
  Answer-state (told m a) u =
      ap (λ q. q.state) (k.idle m (ap is_in_use a.same_state ∙ u)) ∙ a.same_state

  pub Answer-Rest : {i : ℕ} {ts r : TsFsm} → Answer unused_event i ts r → Rest ts → Rest r
  Answer-Rest (ignored w) h = h
  Answer-Rest (moved m a) h = Rest-Calm a.calm a.same_state h
  Answer-Rest (told m a) h = k.rest m (Rest-Calm a.calm a.same_state h)

  -- Loops over the lchans whose every round is an answer of its lchan.
  module _ (body : ℕ → TsFsm → TsFsm)
      (a : (i : ℕ) (q : TsFsm) → Answer unused_event i q (body i q)) where
    pub loop-Calm : (ts : TsFsm) → Calm ts (for_each_potential body slots ts)
    loop-Calm ts = for_each-Calm body slots ts (λ i q. Answer-Calm (a i q))

    pub loop-Quiet : (ts : TsFsm) → Quiet nobody slots (for_each_potential body slots ts)
    loop-Quiet ts =
        for_each-Quiet body slots ts (λ i q. Answer-Calm (a i q)) (λ i q. Answer-waits (a i q))

    loop_state_from :
        (is : List ℕ) (ts : TsFsm)
        → is_in_use ts.state ≡ false
        → (for_each_potential body is ts).state ≡ ts.state
    unfolding for_each_potential
    loop_state_from [] ts u = refl
    loop_state_from (i ∷ is) ts u = elim (Bool-cases (visits ts.pchan_on_init i ts)) [
      | inl v ↦
          let s = Answer-state (a i ts) u in
          rw v (loop_state_from is (body i ts) (ap is_in_use s ∙ u) ∙ s)
      | inr v ↦ rw v refl
    ]

    pub loop_state :
        (ts : TsFsm)
        → is_in_use ts.state ≡ false
        → (for_each_potential body slots ts).state ≡ ts.state
    loop_state ts u = loop_state_from slots ts u

  module _ (env : TsEnv) where
    pub dispatch-Answer :
        (ev : LchanEvent) (i : ℕ) (ts : TsFsm)
        → Answer unused_event i ts (lchan_dispatch documented env unused_event ev i ts)
    dispatch-Answer ts_error i ts = error-Answer env unused_event i ts
    dispatch-Answer ts_ready i ts = ready-Answer env unused_event i ts

    pub body-Answer :
        (ev : LchanEvent) (i : ℕ) (ts : TsFsm)
        → Answer unused_event i ts (
            if is_waiting (lchan_state i ts)
            then lchan_dispatch documented env unused_event ev i ts
            else ts)
    body-Answer ev i ts = elim (Bool-cases (waits i ts)) [
      | inl w ↦ rw w (dispatch-Answer ev i ts)
      | inr w ↦ rw w (ignored w)
    ]

    pub dispatch_waiting-Calm :
        (ev : LchanEvent) (ts : TsFsm)
        → Calm ts (ts_lchans_dispatch_waiting documented env unused_event ev ts)
    unfolding ts_lchans_dispatch_waiting
    dispatch_waiting-Calm ev ts = loop-Calm _ (body-Answer ev) ts

    pub dispatch_waiting-Quiet :
        (ev : LchanEvent) (ts : TsFsm)
        → Quiet nobody slots (ts_lchans_dispatch_waiting documented env unused_event ev ts)
    unfolding ts_lchans_dispatch_waiting
    dispatch_waiting-Quiet ev ts = loop-Quiet _ (body-Answer ev) ts

    pub dispatch_waiting_state :
        (ev : LchanEvent) (ts : TsFsm)
        → is_in_use ts.state ≡ false
        → (ts_lchans_dispatch_waiting documented env unused_event ev ts).state ≡ ts.state
    unfolding ts_lchans_dispatch_waiting
    dispatch_waiting_state ev ts u = loop_state _ (body-Answer ev) ts u

    pub dispatch_all_state :
        (ev : LchanEvent) (ts : TsFsm)
        → is_in_use ts.state ≡ false
        → (ts_lchans_dispatch_all documented env unused_event ev ts).state ≡ ts.state
    unfolding ts_lchans_dispatch_all
    dispatch_all_state ev ts u = loop_state _ (dispatch-Answer ev) ts u

    pub error_borken-Calm :
        (ts : TsFsm) → Calm ts (ts_fsm_error_borken documented env unused_event ts)
    unfolding ts_fsm_error_borken ts_fsm_error
    error_borken-Calm ts =
        let ts' = ts_lchans_dispatch_waiting documented env unused_event ts_error ts in
        let c = dispatch_waiting-Calm ts_error ts in
        elim (Bool-cases (ts_state_eq ts'.state ts_borken)) [
          | inl e ↦ rw e c
          | inr e ↦ elim (Bool-cases (ts_out_state_mask ts'.state ts_borken)) [
            | inl o ↦ rw (e, o) (Calm-trans c (set_state-Calm ts_borken ts'))
            | inr o ↦ rw (e, o) c
          ]
        ]

    -- After an error that leaves a broken timeslot no lchan waits.
    pub error_borken-Quiet :
        (ts : TsFsm) → Quiet nobody slots (ts_fsm_error_borken documented env unused_event ts)
    unfolding ts_fsm_error_borken ts_fsm_error
    error_borken-Quiet ts =
        let ts' = ts_lchans_dispatch_waiting documented env unused_event ts_error ts in
        let q = dispatch_waiting-Quiet ts_error ts in
        elim (Bool-cases (ts_state_eq ts'.state ts_borken)) [
          | inl e ↦ rw e q
          | inr e ↦ elim (Bool-cases (ts_out_state_mask ts'.state ts_borken)) [
            | inl o ↦ rw (e, o) (Quiet-Calm nobody slots (set_state-Calm ts_borken ts') q)
            | inr o ↦ rw (e, o) q
          ]
        ]
