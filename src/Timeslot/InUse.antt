-- ===== src/Timeslot/InUse.antt =====
-- What entering IN_USE and PDCH does to the lchans that wait, in src/osmo-bsc/timeslot_fsm.c.
use osmo_bsc.Base.{
  ℕ, true, false, ◌&&◌, ◌||◌, List, [], ◌∷◌, ◌≡◌, inl, inr, refl, ap, arith, Bool-cases, ◌==◌,
}
use osmo_bsc.Chan.Types.{ChanType, pdch, TsState, ts_unused, ts_pdch, ts_wait_pdch_deact, ts_in_use}
use osmo_bsc.Chan.Kinds.{pchan_eq, capable_of_lchant}
use osmo_bsc.Chan.Usable.{is_unused, is_waiting}
use osmo_bsc.Fsm.{documented}
use osmo_bsc.Timeslot.{
  TsFsm, TsEnv, ts_ready, ts_error, lchan_state, set_state, slots, visits, ts_out_state_mask,
  ts_lchans_waiting, pcu_update,
}
use osmo_bsc.Timeslot.Lchans.{lchan_dispatch, ts_lchans_dispatch_waiting}
use osmo_bsc.Timeslot.Enter.{
  is_dyn, activates, is_none_type, same_type, check_lchan, check_lchans, use_as, enter_in_use,
  enter_pdch, enter_unused, enter_wait_pdch_deact, ts_fsm_pdch_deact,
}
use osmo_bsc.Timeslot.Quiet.{Quiet, nobody, ts_lchans_waiting-Quiet}
use osmo_bsc.Timeslot.Told.{
  is_resting, Rest, Told, Answer-Rest, dispatch-Answer, dispatch_waiting-Quiet, error_borken-Quiet,
}
use osmo_bsc.Timeslot.Unused.{Done, tx-Done, enter_unused-Done}

refused_unused : (st : TsState) → ts_out_state_mask st ts_unused ≡ false → is_resting st ≡ true
unfolding ts_out_state_mask
refused_unused st h = ground arith

resting-Quiet : (ts : TsFsm) → is_resting ts.state ≡ true → Rest ts → Quiet nobody slots ts
resting-Quiet ts r (inl n) = absurd (ground arith)
resting-Quiet ts r (inr q) = q

module _ (env : TsEnv) {k : TsFsm → TsFsm} (told : Told k) where
  check_lchan-Rest :
      (i : ℕ) (a : ChanType) (ts : TsFsm)
      → Rest ts
      → Rest ((check_lchan documented env k i (a, ts)).1)
  unfolding check_lchan
  check_lchan-Rest i a ts h =
      let error : Rest (lchan_dispatch documented env k ts_error i ts) =
        Answer-Rest told (dispatch-Answer told env ts_error i ts) h in
      let type = (ts.lchan i).chan_type in
      elim (Bool-cases (is_unused (lchan_state i ts))) [
        | inl u ↦ rw u h
        | inr u ↦ elim (Bool-cases (activates type && capable_of_lchant ts.pchan_on_init type)) [
          | inr o ↦ elim (Bool-cases (is_waiting (lchan_state i ts))) [
            | inl w ↦ rw (u, o, w) error
            | inr w ↦ rw (u, o, w) h
          ]
          | inl o ↦ elim (Bool-cases (is_none_type a)) [
            | inl n ↦ rw (u, o, n) h
            | inr n ↦ elim (Bool-cases (same_type a type)) [
              | inl s ↦ rw (u, o, n, s) h
              | inr s ↦ rw (u, o, n, s) error
            ]
          ]
        ]
      ]

  check_lchans-Rest :
      (is : List ℕ) (p : ChanType × TsFsm)
      → Rest p.1
      → Rest ((check_lchans documented env k is p).1)
  unfolding check_lchans
  check_lchans-Rest [] (a, ts) h = h
  check_lchans-Rest (i ∷ is) (a, ts) h = elim (Bool-cases (visits ts.pchan_on_init i ts)) [
    | inl v ↦ rw v (check_lchans-Rest is _ (check_lchan-Rest i a ts h))
    | inr v ↦ rw v h
  ]

  -- A change to UNUSED leaves no lchan waiting, permitted or not.
  to_unused-Done :
      (ts : TsFsm)
      → Rest ts
      → Done (
          documented.state_chg TsFsm TsState
            (λ q. q.state)
            ts_out_state_mask
            (enter_unused documented env k)
            ts
            ts_unused)
  to_unused-Done ts h = elim (Bool-cases (ts_out_state_mask ts.state ts_unused)) [
    | inl o ↦ rw o (enter_unused-Done env told ts)
    | inr o ↦ rw o (inr (resting-Quiet ts (refused_unused _ o) h))
  ]

  error_waiting-Rest : (ts : TsFsm) → Rest (ts_lchans_dispatch_waiting documented env k ts_error ts)
  error_waiting-Rest ts = inr (dispatch_waiting-Quiet told env ts_error ts)

  use_as-Done : (p : ChanType × TsFsm) → Rest p.1 → Done (use_as documented env k p)
  unfolding use_as
  use_as-Done (a, ts) h =
      let error = ts_lchans_dispatch_waiting documented env k ts_error ts in
      elim (Bool-cases (activates a || is_none_type a)) [
        | inl n ↦ elim (Bool-cases (activates a && capable_of_lchant ts.pchan_on_init a)) [
          | inl c ↦ rw (n, c) (inr (dispatch_waiting-Quiet told env ts_ready _))
          | inr c ↦ rw (n, c) (to_unused-Done ts h)
        ]
        | inr n ↦ elim (Bool-cases (activates a && capable_of_lchant error.pchan_on_init a)) [
          | inl c ↦ rw (n, c) (inr (dispatch_waiting-Quiet told env ts_ready _))
          | inr c ↦ rw (n, c) (to_unused-Done error (error_waiting-Rest ts))
        ]
      ]

  -- Entering IN_USE activates or refuses every lchan that waits.
  pub enter_in_use-Done : (ts : TsFsm) → Done (enter_in_use documented env k ts_in_use ts)
  unfolding enter_in_use
  enter_in_use-Done ts = use_as-Done _ (check_lchans-Rest slots _ (inl refl))

  pub pdch_deact-Done :
      (ts : TsFsm) → ts.state ≡ ts_pdch → Done (ts_fsm_pdch_deact documented env k ts)
  unfolding ts_fsm_pdch_deact enter_wait_pdch_deact ts_out_state_mask
  pdch_deact-Done ts s =
      let o : ts_out_state_mask ts.state ts_wait_pdch_deact ≡ true =
        ap (λ st. ts_out_state_mask st ts_wait_pdch_deact) s in
      rw o (tx-Done env told false ts_wait_pdch_deact ts refl)

  pub enter_pdch-Done : (ts : TsFsm) → Done (enter_pdch documented env k ts_pdch ts)
  unfolding enter_pdch
  enter_pdch-Done ts =
      let ts' = record ts { state = ts_pdch; pchan_is = pdch; sent = pcu_update ∷ ts.sent } in
      elim (Bool-cases (is_dyn ts.pchan_on_init || pchan_eq ts.pchan_on_init pdch)) [
        | inl d ↦ elim (Bool-cases (ts_lchans_waiting ts' == 0)) [
          | inl w ↦ rw (d, w) (inr (ts_lchans_waiting-Quiet ts' (ground arith)))
          | inr w ↦ rw (d, w) (pdch_deact-Done ts' refl)
        ]
        | inr d ↦ rw d (inr (error_borken-Quiet told env (set_state ts_pdch ts)))
      ]
