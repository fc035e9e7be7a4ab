-- ===== src/AccRamp/Ramp.antt =====
-- A ramp as a whole: its steps, how it is triggered, and where it ends.
use osmo_bsc.Base.{
  ℕ, zero, suc, ◌*◌, ◌≤◌, Bool, true, false, not, ◌||◌, none, some, List, [], ◌∷◌, ◌≡◌, ◌≢◌, refl,
  ◌∙◌, ap, arith, inl, inr, Bool-cases, sym, if◌then◌else◌, ◌==◌, All, drop, length, length-drop,
}
use osmo_bsc.AccRamp.{
  AccRamp, accs, step_size_max, acc_is_permanently_barred, allow_loop, allow_accs, allow_all_accs,
  barr_all_accs, acc_ramp_trigger, acc_ramp_abort, do_acc_ramping_step, schedule_step,
  set_system_infos, get_next_step_interval, scaled_interval, get_barred_t2, get_barred_t3,
}
use osmo_bsc.AccRamp.Classes.{barred_among, bytes_zero}
use osmo_bsc.AccRamp.Steps.{
  Available, available, in_accs, allowed_among, barred_available, available-All, allow_loop-drop,
  allow_loop_blocked,
}

length-barred_among : (x : ℕ) (ks : List ℕ) → length (barred_among x ks) ≤ length ks
length-barred_among x [] = omega arith
length-barred_among x (k ∷ ks) = ground (arith, length-barred_among x ks)

drop_all : (n : ℕ) (ks : List ℕ) → length ks ≤ n → drop n ks ≡ []
drop_all zero [] h = refl
drop_all zero (k ∷ ks) h = absurd (omega arith)
drop_all (suc n) [] h = refl
drop_all (suc n) (k ∷ ks) h = drop_all n ks (omega arith)

step_mask :
    (r : AccRamp)
    → (do_acc_ramping_step r).barred_accs ≡ (
        if r.step_size == step_size_max
        then allow_accs r.bts accs r.barred_accs
        else allow_loop r.bts r.step_size r.barred_accs)
unfolding do_acc_ramping_step schedule_step allow_all_accs
step_mask r = ground arith

-- A step allows the lowest step_size classes that the ramp bars, all of them where there are fewer, if
-- none of them is permanently barred.
pub step-drop :
    (r : AccRamp)
    → Available r.bts r.barred_accs
    → barred_among (do_acc_ramping_step r).barred_accs accs
      ≡ drop r.step_size (barred_among r.barred_accs accs)
step-drop r a = elim (Bool-cases (r.step_size == step_size_max)) [
  | inl e ↦
      let ten : r.step_size ≡ 10 = ground arith in
      let few : length (barred_among r.barred_accs accs) ≤ r.step_size =
        rw ten (length-barred_among r.barred_accs accs) in
      rw (step_mask r, e)
        (allowed_among r.bts r.barred_accs accs in_accs a ∙ sym (drop_all r.step_size _ few))
  | inr e ↦ rw (step_mask r, e) (allow_loop-drop r.bts r.step_size r.barred_accs _ refl a)
]

-- The timer expires, and its callback runs.
abbrev pub tick : AccRamp → AccRamp
tick r = do_acc_ramping_step (record r { step_timer = none })

abbrev pub ticks : ℕ → AccRamp → AccRamp
ticks zero r = r
ticks (suc n) r = ticks n (tick r)

tick_frame : (r : AccRamp) → ((tick r).bts ≡ r.bts) × ((tick r).step_size ≡ r.step_size)
unfolding do_acc_ramping_step schedule_step allow_all_accs
tick_frame r = ground arith

drop-All : (P : ℕ → Type 0) (n : ℕ) (ks : List ℕ) → All P ks → All P (drop n ks)
drop-All P zero ks a = a
drop-All P (suc n) [] a = a
drop-All P (suc n) (k ∷ ks) (p, a) = drop-All P n ks a

tick-Available :
    (r : AccRamp) → Available r.bts r.barred_accs → Available (tick r).bts (tick r).barred_accs
tick-Available r a =
    let (b, s) = tick_frame r in
    rw (b, step-drop (record r { step_timer = none }) a) (drop-All _ r.step_size _ a)

timer_off :
    (r : AccRamp)
    → barred_among r.barred_accs accs ≡ []
    → (schedule_step r).step_timer ≡ r.step_timer
unfolding schedule_step
timer_off r h = rw ((bytes_zero r.barred_accs).1 h) refl

timer_on :
    (r : AccRamp)
    → barred_among r.barred_accs accs ≢ []
    → (schedule_step r).step_timer ≡ some (get_next_step_interval r)
unfolding schedule_step
timer_on r h =
    elim (Bool-cases
      (not (get_barred_t2 r.barred_accs == 0) || not (get_barred_t3 r.barred_accs == 0))) [
        | inl e ↦ rw e refl
        | inr e ↦ absurd (h ((bytes_zero r.barred_accs).0 e))
      ]

abbrev stepped : AccRamp → AccRamp
stepped r =
    set_system_infos
      (record r { step_timer = none; barred_accs = allow_loop r.bts r.step_size r.barred_accs })

tick_eq :
    (r : AccRamp) → (r.step_size == step_size_max) ≡ false → tick r ≡ schedule_step (stepped r)
unfolding do_acc_ramping_step
tick_eq r e = rw e refl

schedule_mask : (r : AccRamp) → (schedule_step r).barred_accs ≡ r.barred_accs
unfolding schedule_step
schedule_mask r = ground arith

tick_max : (r : AccRamp) → (r.step_size == step_size_max) ≡ true → (tick r).step_timer ≡ none
unfolding do_acc_ramping_step allow_all_accs
tick_max r e = rw e refl

tick-timer :
    (r : AccRamp) → barred_among (tick r).barred_accs accs ≡ [] → (tick r).step_timer ≡ none
tick-timer r h = elim (Bool-cases (r.step_size == step_size_max)) [
  | inl e ↦ tick_max r e
  | inr e ↦
      let h' : barred_among (schedule_step (stepped r)).barred_accs accs ≡ [] =
        ap (λ q. barred_among q.barred_accs accs) (sym (tick_eq r e)) ∙ h in
      let h'' = ap (λ x. barred_among x accs) (sym (schedule_mask (stepped r))) ∙ h' in
      ap (λ q. q.step_timer) (tick_eq r e) ∙ timer_off (stepped r) h''
]

-- As many steps as classes are barred allow them all, and leave no timer.
ticks_finish :
    (n : ℕ) (r : AccRamp)
    → Available r.bts r.barred_accs
    → 1 ≤ r.step_size
    → length (barred_among r.barred_accs accs) ≤ suc n
    → (barred_among (ticks (suc n) r).barred_accs accs ≡ []) × ((ticks (suc n) r).step_timer ≡ none)
ticks_finish zero r a some_ few =
    let empty : barred_among (tick r).barred_accs accs ≡ [] =
      step-drop (record r { step_timer = none }) a ∙ drop_all r.step_size _ (omega arith) in
    (empty, tick-timer r empty)
ticks_finish (suc n) r a some_ few =
    let (b, s) = tick_frame r in
    let fewer : length (barred_among (tick r).barred_accs accs) ≤ suc n =
      rw (step-drop (record r { step_timer = none }) a)
        (omega (arith, length-drop r.step_size (barred_among r.barred_accs accs))) in
    ticks_finish n (tick r) (tick-Available r a) (rw s some_) fewer

-- A ramp ends: after ten expiries of its timer, whatever the step size from 1 on, no class is barred by
-- it and the timer is not scheduled, if no class that it bars is permanently barred.
pub ramp_ends :
    (r : AccRamp)
    → Available r.bts r.barred_accs
    → 1 ≤ r.step_size
    → (barred_among (ticks 10 r).barred_accs accs ≡ []) × ((ticks 10 r).step_timer ≡ none)
ramp_ends r a some_ = ticks_finish 9 r a some_ (length-barred_among r.barred_accs accs)

-- If the lowest class that a ramp bars has become permanently barred, a step short of the largest allows
-- no class at all and schedules the next one.
pub step_blocked :
    (r : AccRamp) (k : ℕ) (ks : List ℕ)
    → r.step_size ≢ step_size_max
    → barred_among r.barred_accs accs ≡ k ∷ ks
    → acc_is_permanently_barred r.bts k ≡ true
    → ((tick r).barred_accs ≡ r.barred_accs) × ((tick r).step_timer ≢ none)
step_blocked r k ks ne h p =
    let e : (r.step_size == step_size_max) ≡ false = ground arith in
    let same = allow_loop_blocked r.bts r.step_size r.barred_accs k ks h p in
    let left : barred_among (stepped r).barred_accs accs ≢ [] =
      λ z. ground (arith, h, ap (λ x. barred_among x accs) same, z) in
    let on = ap (λ q. q.step_timer) (tick_eq r e) ∙ timer_on (stepped r) left in
    (ap (λ q. q.barred_accs) (tick_eq r e) ∙ schedule_mask (stepped r) ∙ same, λ z. cc)

abort_mask : (r : AccRamp) → (acc_ramp_abort r).barred_accs ≡ allow_accs r.bts accs r.barred_accs
unfolding acc_ramp_abort allow_all_accs
abort_mask r = refl

trigger_on :
    (r : AccRamp)
    → r.acc_ramping_enabled ≡ true
    → acc_ramp_trigger r ≡ do_acc_ramping_step (barr_all_accs (acc_ramp_abort r))
unfolding acc_ramp_trigger
trigger_on r e = rw e refl

trigger_off : (r : AccRamp) → r.acc_ramping_enabled ≡ false → acc_ramp_trigger r ≡ acc_ramp_abort r
unfolding acc_ramp_trigger
trigger_off r e = rw e refl

full_mask :
    (r : AccRamp)
    → Available r.bts r.barred_accs
    → barred_among (barr_all_accs (acc_ramp_abort r)).barred_accs accs ≡ available r.bts accs
unfolding barr_all_accs acc_ramp_abort allow_all_accs
full_mask r a =
    barred_available r.bts _ accs in_accs (allowed_among r.bts r.barred_accs accs in_accs a)

full_frame :
    (r : AccRamp)
    → ((barr_all_accs (acc_ramp_abort r)).bts ≡ r.bts)
      × ((barr_all_accs (acc_ramp_abort r)).step_size ≡ r.step_size)
unfolding barr_all_accs acc_ramp_abort allow_all_accs
full_frame r = (refl, refl)

full_step :
    (r : AccRamp)
    → Available r.bts r.barred_accs
    → barred_among (do_acc_ramping_step (barr_all_accs (acc_ramp_abort r))).barred_accs accs
      ≡ drop r.step_size (available r.bts accs)
unfolding barr_all_accs acc_ramp_abort allow_all_accs
full_step r a =
    step-drop (barr_all_accs (acc_ramp_abort r)) (rw (full_mask r a) (available-All r.bts accs))
    ∙ ap (drop r.step_size) (full_mask r a)

-- Triggering an enabled ramp bars all classes that are not permanently barred but for the lowest
-- step_size of them; triggering a disabled one bars none. No class that is barred before may be
-- permanently barred.
pub trigger-drop :
    (r : AccRamp)
    → Available r.bts r.barred_accs
    → barred_among (acc_ramp_trigger r).barred_accs accs
      ≡ (if r.acc_ramping_enabled then drop r.step_size (available r.bts accs) else [])
trigger-drop r a =
    let result : Bool → List ℕ = λ b. if b then drop r.step_size (available r.bts accs) else [] in
    elim (Bool-cases r.acc_ramping_enabled) [
      | inl e ↦
          ap (λ q. barred_among q.barred_accs accs) (trigger_on r e)
          ∙ full_step r a
          ∙ ap result (sym e)
      | inr e ↦
          ap (λ q. barred_among q.barred_accs accs) (trigger_off r e)
          ∙ ap (λ x. barred_among x accs) (abort_mask r)
          ∙ allowed_among r.bts r.barred_accs accs in_accs a
          ∙ ap result (sym e)
    ]

scaled-load : (load : ℕ) → load ≤ 100 → scaled_interval load ≡ 6 * load
unfolding scaled_interval
scaled-load load l = omega arith

-- For a load of at most 100 percent, the dynamic interval between steps is six seconds for each percent,
-- and 30 seconds without load.
pub interval-load :
    (r : AccRamp)
    → r.step_interval_is_fixed ≡ false
    → r.bts.chan_load_avg ≤ 100
    → get_next_step_interval r ≡ (if r.bts.chan_load_avg == 0 then 30 else 6 * r.bts.chan_load_avg)
unfolding get_next_step_interval
interval-load r d l =
    let scaled = scaled-load r.bts.chan_load_avg l in rw (d, scaled) (ground arith)
