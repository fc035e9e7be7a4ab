-- ===== src/Timeslot/Unused.antt =====
-- What entering UNUSED and TS_EV_LCHAN_UNUSED do to a timeslot in src/osmo-bsc/timeslot_fsm.c.
use osmo_bsc.Base.{
  ℕ, zero, suc, Bool, true, false, not, some, ◌≡◌, ◌⊎◌, inl, inr, refl, sym, arith, Bool-cases,
  ◌==◌, if◌then◌else◌,
}
use osmo_bsc.Chan.Types.{
  TsState, ts_not_initialized, ts_unused, ts_wait_pdch_act, ts_pdch, ts_wait_pdch_deact, ts_in_use,
  ts_borken, lchan_cbch, cbch,
}
use osmo_bsc.Fsm.{documented}
use osmo_bsc.Timeslot.{
  TsFsm, TsLchan, TsEnv, lchan_unused, lchan_state, has_fi, slots, set_lchan, set_state,
  ts_out_state_mask, lchan_out_state_mask, ts_lchans_waiting, ts_in_event_mask,
  ts_allstate_event_mask, ts_count_active_lchans,
}
use osmo_bsc.Timeslot.Lchans.{ts_fsm_error_borken}
use osmo_bsc.Timeslot.Enter.{
  is_dyn, has_cbch, tx_pdch, enter_wait_pdch_act, reserve_cbch, enter_unused, on_lchan_unused,
  unused_by, unused_event,
}
use osmo_bsc.Timeslot.Calm.{
  Calm, Calm-refl, Calm-trans, Calm-set_lchan, Calm-same_fi, set_state-Calm,
}
use osmo_bsc.Timeslot.Quiet.{Quiet, nobody, Quiet-Calm, ts_lchans_waiting-Quiet}
use osmo_bsc.Timeslot.Told.{is_in_use, Rest, Told, error_borken-Calm, error_borken-Quiet}

-- The states in which a timeslot waits for something itself, so that lchans may wait for it.
abbrev pub is_pending : TsState → Bool
is_pending ts_not_initialized = true
is_pending ts_wait_pdch_act = true
is_pending ts_wait_pdch_deact = true
is_pending _ = false

abbrev pub Done : TsFsm → Type 0
Done ts = (is_pending ts.state ≡ true) ⊎ Quiet nobody slots ts

pub Done-Rest : (ts : TsFsm) → Done ts → Rest ts
Done-Rest ts (inl p) = inl (ground arith)
Done-Rest ts (inr q) = inr q

module _ (env : TsEnv) {k : TsFsm → TsFsm} (told : Told k) where
  pub tx-Done :
      (activate : Bool) (st : TsState) (ts : TsFsm)
      → is_pending st ≡ true
      → Done (tx_pdch documented env k activate (set_state st ts))
  unfolding tx_pdch
  tx-Done activate st ts p = elim (Bool-cases (env.tx_pdch_ok activate)) [
    | inl e ↦ rw e (inl p)
    | inr e ↦ rw e (inr (error_borken-Quiet told env (set_state st ts)))
  ]

  tx-Calm :
      (activate : Bool) (st : TsState) (ts : TsFsm)
      → Calm ts (tx_pdch documented env k activate (set_state st ts))
  unfolding tx_pdch
  tx-Calm activate st ts = elim (Bool-cases (env.tx_pdch_ok activate)) [
    | inl e ↦ rw e (record { waits_less = λ j h. h; same_on_init = refl; same_fi = λ j. refl })
    | inr e ↦
        rw e (Calm-trans (set_state-Calm st ts) (error_borken-Calm told env (set_state st ts)))
  ]

reserve-Calm : (env : TsEnv) (ts : TsFsm) → Calm ts (reserve_cbch documented env ts)
unfolding reserve_cbch
reserve-Calm env ts =
    let l : TsLchan = record (ts.lchan 2) { chan_type = lchan_cbch } in
    let q = set_lchan 2 l ts in
    let typed = Calm-same_fi 2 l ts refl in
    elim (Bool-cases (has_fi (ts.lchan 2).fi)) [
      | inl f ↦ elim (Bool-cases (lchan_out_state_mask (lchan_state 2 ts) cbch)) [
        | inl o ↦
            rw (f, o)
              (Calm-trans typed
                (Calm-set_lchan 2 (record (q.lchan 2) { fi = some cbch }) q refl (sym f)))
        | inr o ↦ rw (f, o) typed
      ]
      | inr f ↦ rw f (Calm-refl ts)
    ]

branch-of :
    {A : Type 0} (P : A → Type 0) (dyn none allowed cbch_ : Bool) (stays acts reserves : A)
    → P stays
    → P acts
    → P reserves
    → P (
        if dyn
        then (if none then stays else if not allowed then stays else acts)
        else if cbch_
        then reserves
        else stays)
branch-of P true true a c stays acts reserves s t r = s
branch-of P true false true c stays acts reserves s t r = t
branch-of P true false false c stays acts reserves s t r = s
branch-of P false n a true stays acts reserves s t r = r
branch-of P false n a false stays acts reserves s t r = s

-- The branches of ts_fsm_unused_onenter().
enter_unused-cases :
    (env : TsEnv) (k : TsFsm → TsFsm) (P : TsFsm → Type 0) (ts : TsFsm)
    → P (ts_fsm_error_borken documented env k (set_state ts_unused ts))
    → (ts_lchans_waiting (set_state ts_unused ts) ≡ 0
        → P (set_state ts_unused ts)
          × P (enter_wait_pdch_act documented env k ts_wait_pdch_act (set_state ts_unused ts))
          × P (reserve_cbch documented env (set_state ts_unused ts)))
    → P (enter_unused documented env k ts_unused ts)
unfolding enter_unused ts_out_state_mask
enter_unused-cases env k P ts error rest =
    let ts' = set_state ts_unused ts in
    elim (Bool-cases (ts_lchans_waiting ts' == 0)) [
      | inr w ↦ rw w error
      | inl w ↦
          let (stays, acts, reserves) = rest (ground arith) in
          rw w (
            branch-of P (is_dyn ts.pchan_on_init) env.gprs_none ts.pdch_act_allowed
              (has_cbch ts.pchan_on_init) _ _ _ stays acts reserves)
    ]

module _ (env : TsEnv) {k : TsFsm → TsFsm} (told : Told k) where
  -- Entering UNUSED either goes on to wait for the PDCH or leaves no lchan waiting.
  pub enter_unused-Done : (ts : TsFsm) → Done (enter_unused documented env k ts_unused ts)
  unfolding enter_wait_pdch_act
  enter_unused-Done ts =
      let ts' = set_state ts_unused ts in
      enter_unused-cases env k Done ts (inr (error_borken-Quiet told env ts')) (λ w.
        let quiet = ts_lchans_waiting-Quiet ts' w in
        (
          inr quiet,
          tx-Done env told true ts_wait_pdch_act ts' refl,
          inr (Quiet-Calm nobody slots (reserve-Calm env ts') quiet),
        ))

  pub enter_unused-Calm : (ts : TsFsm) → Calm ts (enter_unused documented env k ts_unused ts)
  unfolding enter_wait_pdch_act
  enter_unused-Calm ts =
      let ts' = set_state ts_unused ts in
      let c = set_state-Calm ts_unused ts in
      enter_unused-cases env k (Calm ts) ts (Calm-trans c (error_borken-Calm told env ts')) (λ w. (
        c,
        Calm-trans c (tx-Calm env told true ts_wait_pdch_act ts'),
        Calm-trans c (reserve-Calm env ts'),
      ))

-- The branches of ts_fsm_in_use() on TS_EV_LCHAN_UNUSED; elsewhere it is ignored.
pub on_unused-cases :
    (env : TsEnv) (k : TsFsm → TsFsm) (P : TsFsm → Type 0) (st : TsState) (ts : TsFsm)
    → P ts
    → P (enter_unused documented env k ts_unused ts)
    → P (on_lchan_unused documented env k st lchan_unused ts)
unfolding on_lchan_unused
on_unused-cases env k P ts_in_use ts same entered =
    elim (Bool-cases (ts_count_active_lchans ts == 0)) [
      | inl c ↦ elim (Bool-cases (ts_out_state_mask ts.state ts_unused)) [
        | inl o ↦ rw (c, o) entered
        | inr o ↦ rw (c, o) same
      ]
      | inr c ↦ rw c same
    ]
on_unused-cases env k P ts_not_initialized ts same entered = same
on_unused-cases env k P ts_unused ts same entered = same
on_unused-cases env k P ts_wait_pdch_act ts same entered = same
on_unused-cases env k P ts_pdch ts same entered = same
on_unused-cases env k P ts_wait_pdch_deact ts same entered = same
on_unused-cases env k P ts_borken ts same entered = same

pub not_in_use_idle :
    (env : TsEnv) (k : TsFsm → TsFsm) (st : TsState) (ts : TsFsm)
    → is_in_use st ≡ false
    → on_lchan_unused documented env k st lchan_unused ts ≡ ts
unfolding on_lchan_unused
not_in_use_idle env k ts_in_use ts u = absurd (ground arith)
not_in_use_idle env k ts_not_initialized ts u = refl
not_in_use_idle env k ts_unused ts u = refl
not_in_use_idle env k ts_wait_pdch_act ts u = refl
not_in_use_idle env k ts_pdch ts u = refl
not_in_use_idle env k ts_wait_pdch_deact ts u = refl
not_in_use_idle env k ts_borken ts u = refl

pub unused_event-Told : (env : TsEnv) (depth : ℕ) → Told (unused_event documented env depth)
unfolding unused_event unused_by ts_allstate_event_mask ts_in_event_mask
unused_event-Told env zero = record { calm = Calm-refl; idle = λ ts u. refl; rest = λ ts h. h }
unused_event-Told env (suc depth) =
    let inner = unused_event-Told env depth in
    let k = unused_event documented env depth in
    record {
      calm = λ ts.
          on_unused-cases env k (Calm ts) ts.state ts (Calm-refl ts)
            (enter_unused-Calm env inner ts);
      idle = λ ts u. not_in_use_idle env k ts.state ts u;
      rest = λ ts h.
          on_unused-cases env k Rest ts.state ts h (Done-Rest _ (enter_unused-Done env inner ts));
    }
