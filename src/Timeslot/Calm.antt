-- ===== src/Timeslot/Calm.antt =====
-- What a timeslot's event to an lchan, and the lchan's answer, can change.
use osmo_bsc.Base.{
  ℕ, Bool, true, false, Option, some, ◌≡◌, inl, inr, refl, sym, ap, ◌∙◌, arith, Bool-cases, ◌==◌,
}
use osmo_bsc.Chan.Types.{TsState, LchanState, unused, wait_ts_ready, wait_activ_ack}
use osmo_bsc.Chan.Usable.{is_unused, is_waiting}
use osmo_bsc.Fsm.{documented}
use osmo_bsc.Timeslot.{
  TsFsm, TsLchan, TsEnv, ts_ready, ts_error, lchan_out_state_mask, lchan_in_event_mask,
  lchan_allstate_event_mask, lchan_state, set_lchan, set_lchan_state, set_state, state_or_unused,
  has_fi,
}
use osmo_bsc.Timeslot.Lchans.{
  lchan_reset, lchan_enter_unused, lchan_fail_to_unused, lchan_enter_wait_activ_ack,
  lchan_fsm_allstate_action, lchan_action, lchan_dispatch,
}

abbrev pub waits : ℕ → TsFsm → Bool
waits i ts = is_waiting (lchan_state i ts)

-- No lchan begins to wait, and none gains or loses its instance.
pub record Calm (ts ts' : TsFsm) : Type 0 where
  pub waits_less : (j : ℕ) → waits j ts' ≡ true → waits j ts ≡ true
  pub same_on_init : ts'.pchan_on_init ≡ ts.pchan_on_init
  pub same_fi : (j : ℕ) → has_fi (ts'.lchan j).fi ≡ has_fi (ts.lchan j).fi

pub Calm-refl : (ts : TsFsm) → Calm ts ts
Calm-refl ts = record { waits_less = λ j h. h; same_on_init = refl; same_fi = λ j. refl }

pub Calm-trans : {a b c : TsFsm} → Calm a b → Calm b c → Calm a c
Calm-trans p q = record {
  waits_less = λ j h. p.waits_less j (q.waits_less j h);
  same_on_init = q.same_on_init ∙ p.same_on_init;
  same_fi = λ j. q.same_fi j ∙ p.same_fi j;
}

pub set_state-Calm : (st : TsState) (ts : TsFsm) → Calm ts (set_state st ts)
set_state-Calm st ts = record { waits_less = λ j h. h; same_on_init = refl; same_fi = λ j. refl }

-- An lchan is written whose instance stays as it was.
pub Calm-same_fi :
    (i : ℕ) (l : TsLchan) (ts : TsFsm) → l.fi ≡ (ts.lchan i).fi → Calm ts (set_lchan i l ts)
Calm-same_fi i l ts f =
    let at : (j : ℕ) → ((set_lchan i l ts).lchan j).fi ≡ (ts.lchan j).fi = λ j.
      elim (Bool-cases (i == j)) [
        | inl e ↦ let same : i ≡ j = ground arith in rw e (f ∙ ap (λ n. (ts.lchan n).fi) same)
        | inr e ↦ rw e refl
      ] in
    record {
      waits_less = λ j h. sym (ap (λ o. is_waiting (state_or_unused o)) (at j)) ∙ h;
      same_on_init = refl;
      same_fi = λ j. ap has_fi (at j);
    }

-- An lchan is written that does not wait afterwards.
pub Calm-set_lchan :
    (i : ℕ) (l : TsLchan) (ts : TsFsm)
    → is_waiting (state_or_unused l.fi) ≡ false
    → has_fi l.fi ≡ has_fi (ts.lchan i).fi
    → Calm ts (set_lchan i l ts)
Calm-set_lchan i l ts w f = record {
  waits_less = λ j h. elim (Bool-cases (i == j)) [
    | inl e ↦ let h' = simp e at h in ground arith
    | inr e ↦ let h' = simp e at h in h'
  ];
  same_on_init = refl;
  same_fi = λ j. elim (Bool-cases (i == j)) [
    | inl e ↦ let same : i ≡ j = ground arith in rw e (f ∙ ap (λ k. has_fi (ts.lchan k).fi) same)
    | inr e ↦ rw e refl
  ];
}

-- The lchan moved on: it does not wait any more, and all else is calm.
pub record Moved (i : ℕ) (ts ts' : TsFsm) : Type 0 where
  pub calm : Calm ts ts'
  pub waits_not : waits i ts' ≡ false
  pub same_state : ts'.state ≡ ts.state

self_eq : (i : ℕ) → (i == i) ≡ true
self_eq i = ground arith

set_same : (i : ℕ) (l : TsLchan) (ts : TsFsm) → (set_lchan i l ts).lchan i ≡ l
set_same i l ts = rw (self_eq i) refl

-- The lchan is written so that it does not wait.
set-Moved :
    (i : ℕ) (l : TsLchan) (ts : TsFsm)
    → is_waiting (state_or_unused l.fi) ≡ false
    → has_fi l.fi ≡ has_fi (ts.lchan i).fi
    → Moved i ts (set_lchan i l ts)
set-Moved i l ts w f = record {
  calm = Calm-set_lchan i l ts w f;
  waits_not = ap (λ q. is_waiting (state_or_unused q.fi)) (set_same i l ts) ∙ w;
  same_state = refl;
}

Moved-trans : {i : ℕ} {a b c : TsFsm} → Calm a b → b.state ≡ a.state → Moved i b c → Moved i a c
Moved-trans p s m = record {
  calm = Calm-trans p m.calm;
  waits_not = m.waits_not;
  same_state = m.same_state ∙ s;
}

-- The lchan after lchan_reset(), in state UNUSED.
abbrev pub gone : ℕ → TsFsm → TsFsm
unfolding lchan_reset
gone i ts = lchan_reset i (set_lchan_state i unused ts)

gone-Moved : (i : ℕ) (ts : TsFsm) → has_fi (ts.lchan i).fi ≡ true → Moved i ts (gone i ts)
unfolding lchan_reset gone
gone-Moved i ts f =
    let l : TsLchan = record (ts.lchan i) { fi = some unused } in
    let q = set_lchan i l ts in
    Moved-trans (Calm-set_lchan i l ts refl (sym f)) refl
      (set-Moved i _ q (ap (λ c. is_waiting (state_or_unused c.fi)) (set_same i l ts)) refl)

may_become_unused : (st : LchanState) → is_unused st ≡ false → lchan_out_state_mask st unused ≡ true
unfolding lchan_out_state_mask
may_become_unused st h = ground arith

unused_waits_not : (st : LchanState) → is_unused st ≡ true → is_waiting st ≡ false
unused_waits_not st h = ground arith

waiting_is : (st : LchanState) → is_waiting st ≡ true → st ≡ wait_ts_ready
waiting_is st h = ground arith

takes_ready : (st : LchanState) → lchan_in_event_mask st ts_ready ≡ is_waiting st
unfolding lchan_in_event_mask
takes_ready st = ground arith

no_fi_waits_not :
    (o : Option LchanState) → has_fi o ≡ false → is_waiting (state_or_unused o) ≡ false
no_fi_waits_not o h = ground arith

-- What an event to an lchan comes to: nothing, for an lchan that does not wait, or the lchan moves on,
-- and may then tell the timeslot that it is unused.
pub data Answer (unused_event : TsFsm → TsFsm) (i : ℕ) (ts : TsFsm) : TsFsm → Type 0 where
  ignored : waits i ts ≡ false → Answer unused_event i ts ts
  moved : (m : TsFsm) → Moved i ts m → Answer unused_event i ts m
  told : (m : TsFsm) → Moved i ts m → Answer unused_event i ts (unused_event m)

module _ (env : TsEnv) (unused_event : TsFsm → TsFsm) where
  fail-Answer :
      (i : ℕ) (ts : TsFsm)
      → has_fi (ts.lchan i).fi ≡ true
      → Answer unused_event i ts (lchan_fail_to_unused documented env unused_event i ts)
  unfolding lchan_fail_to_unused lchan_enter_unused gone lchan_reset
  fail-Answer i ts f = elim (Bool-cases (is_unused (lchan_state i ts))) [
    | inl e ↦ rw e (ignored (unused_waits_not _ e))
    | inr e ↦ rw (e, may_become_unused _ e) (told (gone i ts) (gone-Moved i ts f))
  ]

  pub error-Answer :
      (i : ℕ) (ts : TsFsm)
      → Answer unused_event i ts (lchan_dispatch documented env unused_event ts_error i ts)
  unfolding lchan_dispatch lchan_allstate_event_mask lchan_fsm_allstate_action
  error-Answer i ts = elim (Bool-cases (has_fi (ts.lchan i).fi)) [
    | inl f ↦ rw f (fail-Answer i ts f)
    | inr f ↦ rw f (ignored (no_fi_waits_not _ f))
  ]

  Answer-after :
      {i : ℕ} {ts q r : TsFsm}
      → Moved i ts q
      → Answer unused_event i q r
      → Answer unused_event i ts r
  Answer-after p (ignored w) = moved _ p
  Answer-after p (moved m a) = moved m (Moved-trans p.calm p.same_state a)
  Answer-after p (told m a) = told m (Moved-trans p.calm p.same_state a)

  activ_ack-Answer :
      (i : ℕ) (ts : TsFsm)
      → has_fi (ts.lchan i).fi ≡ true
      → Answer unused_event i ts
          (lchan_enter_wait_activ_ack documented env unused_event i wait_activ_ack ts)
  unfolding lchan_enter_wait_activ_ack
  activ_ack-Answer i ts f =
      let l : TsLchan = record (ts.lchan i) { fi = some wait_activ_ack } in
      let q = set_lchan i l ts in
      let here : Moved i ts q = set-Moved i l ts refl (sym f) in
      let alive : has_fi (q.lchan i).fi ≡ true = ap (λ c. has_fi c.fi) (set_same i l ts) in
      let failed = Answer-after here (fail-Answer i q alive) in
      elim (Bool-cases (q.lchan i).release_requested) [
        | inl e ↦ rw e failed
        | inr e ↦ elim (Bool-cases (env.tx_chan_activ_ok i)) [
          | inl t ↦
              rw (e, t)
                (moved _ (record {
                  calm = record {
                    waits_less = here.calm.waits_less;
                    same_on_init = refl;
                    same_fi = here.calm.same_fi;
                  };
                  waits_not = here.waits_not;
                  same_state = refl;
                }))
          | inr t ↦ rw (e, t) failed
        ]
      ]

  waiting-Answer :
      (i : ℕ) (ts : TsFsm)
      → has_fi (ts.lchan i).fi ≡ true
      → lchan_state i ts ≡ wait_ts_ready
      → Answer unused_event i ts
          (lchan_action documented env unused_event i wait_ts_ready ts_ready ts)
  unfolding lchan_action lchan_out_state_mask
  waiting-Answer i ts f st = rw st (activ_ack-Answer i ts f)

  pub ready-Answer :
      (i : ℕ) (ts : TsFsm)
      → Answer unused_event i ts (lchan_dispatch documented env unused_event ts_ready i ts)
  unfolding lchan_dispatch lchan_allstate_event_mask
  ready-Answer i ts = elim (Bool-cases (has_fi (ts.lchan i).fi)) [
    | inr f ↦ rw f (ignored (no_fi_waits_not _ f))
    | inl f ↦ elim (Bool-cases (waits i ts)) [
      | inl w ↦
          let in_ : lchan_in_event_mask (lchan_state i ts) ts_ready ≡ true = takes_ready _ ∙ w in
          rw (f, in_) (rw (waiting_is _ w) (waiting-Answer i ts f (waiting_is _ w)))
      | inr w ↦
          let out : lchan_in_event_mask (lchan_state i ts) ts_ready ≡ false = takes_ready _ ∙ w in
          rw (f, out) (ignored w)
    ]
  ]
