-- ===== src/AccRamp/Signal.antt =====
-- acc_ramp_nm_sig_cb() of src/osmo-bsc/acc_ramp.c: a change of the state of the first transceiver starts
-- or stops a ramp.
use osmo_bsc.Base.{
  ℕ, Bool, true, false, not, ◌&&◌, ◌||◌, ◌==◌, ◌≡◌, refl, arith, if◌then◌else◌, Bool-cases, inl,
  inr,
}
use osmo_bsc.AccRamp.{AccRamp, acc_ramp_trigger, acc_ramp_abort}

-- The signals of subsystem SS_NM: S_NM_STATECHG_ADM, S_NM_STATECHG_OPER, and the others.
pub data NmSignal : Type 0 where
  statechg_adm statechg_oper other_signal : NmSignal

-- enum abis_nm_adm_state, with the values that it does not name
pub data AdmState : Type 0 where
  adm_locked adm_unlocked adm_shutdown adm_null adm_unknown : AdmState

-- enum abis_nm_op_state, with the values that it does not name
pub data OpState : Type 0 where
  op_disabled op_enabled op_null op_unknown : OpState

pub record NmStates : Type 0 where
  pub administrative : AdmState
  pub operational : OpState

-- struct nm_statechg_signal_data, with what the callback reads of the transceiver: its number, whether
-- it has an RSL link, trx_is_usable() and its administrative state.
pub record StateChange : Type 0 where
  pub is_radio_carrier : Bool
  pub old_state : NmStates
  pub new_state : NmStates
  pub trx_nr : ℕ
  pub has_rsl_link : Bool
  pub trx_usable : Bool
  pub trx_administrative : AdmState

abbrev pub adm_eq : AdmState → AdmState → Bool
adm_eq adm_locked adm_locked = true
adm_eq adm_unlocked adm_unlocked = true
adm_eq adm_shutdown adm_shutdown = true
adm_eq adm_null adm_null = true
adm_eq adm_unknown adm_unknown = true
adm_eq _ _ = false

abbrev pub op_eq : OpState → OpState → Bool
op_eq op_disabled op_disabled = true
op_eq op_enabled op_enabled = true
op_eq op_null op_null = true
op_eq op_unknown op_unknown = true
op_eq _ _ = false

-- What the switch on the new administrative state sets: trigger_ramping and abort_ramping.
unfoldable pub on_administrative : StateChange → Bool × Bool
on_administrative nsd =
    if adm_eq nsd.new_state.administrative adm_unlocked
    then (if not (op_eq nsd.old_state.operational nsd.new_state.operational)
        then (op_eq nsd.new_state.operational op_enabled, false)
        else (nsd.trx_usable, false))
    else if adm_eq nsd.new_state.administrative adm_locked
        || adm_eq nsd.new_state.administrative adm_shutdown
    then (false, true)
    else (false, false)

-- The same of the switch on the new operational state.
unfoldable pub on_operational : StateChange → Bool × Bool
on_operational nsd =
    if op_eq nsd.new_state.operational op_enabled
    then (if not (adm_eq nsd.old_state.administrative nsd.new_state.administrative)
        then (adm_eq nsd.new_state.administrative adm_unlocked, false)
        else (adm_eq nsd.trx_administrative adm_unlocked, false))
    else if op_eq nsd.new_state.operational op_disabled
    then (false, true)
    else (false, false)

-- The early returns of acc_ramp_nm_sig_cb()
unfoldable pub is_handled : NmSignal → StateChange → Bool
is_handled other_signal nsd = false
is_handled statechg_adm nsd = nsd.is_radio_carrier && (nsd.trx_nr == 0) && nsd.has_rsl_link
is_handled statechg_oper nsd = nsd.is_radio_carrier && (nsd.trx_nr == 0) && nsd.has_rsl_link

-- The two flags, after both switches.
unfoldable pub ramping_flags : StateChange → Bool × Bool
ramping_flags nsd =
    let (t, a) =
      if not (adm_eq nsd.old_state.administrative nsd.new_state.administrative)
      then on_administrative nsd
      else (false, false) in
    let (t', a') =
      if not (op_eq nsd.old_state.operational nsd.new_state.operational)
      then on_operational nsd
      else (false, false) in
    (t || t', a || a')

-- acc_ramp_nm_sig_cb()
unfoldable pub acc_ramp_nm_sig_cb : NmSignal → StateChange → AccRamp → AccRamp
acc_ramp_nm_sig_cb signal nsd r =
    if not (is_handled signal nsd)
    then r
    else if (ramping_flags nsd).0
    then acc_ramp_trigger r
    else if (ramping_flags nsd).1
    then acc_ramp_abort r
    else r

abbrev pub same_states : NmStates → NmStates → Bool
same_states a b = adm_eq a.administrative b.administrative && op_eq a.operational b.operational

-- Whether the transceiver is unlocked and in service, with the change: where a state changes, the new one counts,
-- and where it does not, what the transceiver itself says.
abbrev pub comes_up : StateChange → Bool
comes_up nsd =
    let adm =
      if adm_eq nsd.old_state.administrative nsd.new_state.administrative
      then nsd.trx_administrative
      else nsd.new_state.administrative in
    let in_service =
      if op_eq nsd.old_state.operational nsd.new_state.operational
      then nsd.trx_usable
      else op_eq nsd.new_state.operational op_enabled in
    adm_eq adm adm_unlocked && in_service

abbrev pub stops : NmStates → NmStates → Bool
stops a b =
    (not (adm_eq a.administrative b.administrative)
      && (adm_eq b.administrative adm_locked || adm_eq b.administrative adm_shutdown))
    || (not (op_eq a.operational b.operational) && op_eq b.operational op_disabled)

adm_excludes :
    (a : AdmState)
    → adm_eq a adm_unlocked ≡ true
    → (adm_eq a adm_locked || adm_eq a adm_shutdown) ≡ false
adm_excludes a h = ground arith

op_excludes : (a : OpState) → op_eq a op_enabled ≡ true → op_eq a op_disabled ≡ false
op_excludes a h = ground arith

trigger_flag :
    (nsd : StateChange)
    → (ramping_flags nsd).0 ≡ (not (same_states nsd.old_state nsd.new_state) && comes_up nsd)
unfolding ramping_flags on_administrative on_operational
trigger_flag nsd =
    elim (Bool-cases (adm_eq nsd.old_state.administrative nsd.new_state.administrative)) [
      | inl e ↦ elim (Bool-cases (op_eq nsd.old_state.operational nsd.new_state.operational)) [
        | inl f ↦ rw (e, f) refl
        | inr f ↦ rw (e, f) (ground arith)
      ]
      | inr e ↦ elim (Bool-cases (op_eq nsd.old_state.operational nsd.new_state.operational)) [
        | inl f ↦ rw (e, f) (ground arith)
        | inr f ↦ rw (e, f) (ground arith)
      ]
    ]

abort_flag : (nsd : StateChange) → (ramping_flags nsd).1 ≡ stops nsd.old_state nsd.new_state
unfolding ramping_flags on_administrative on_operational
abort_flag nsd =
    let adm = adm_excludes nsd.new_state.administrative in
    let op = op_excludes nsd.new_state.operational in
    elim (Bool-cases (adm_eq nsd.old_state.administrative nsd.new_state.administrative)) [
      | inl e ↦ rw e (ground arith)
      | inr e ↦ rw e (ground arith)
    ]

-- For a signal that is handled, a ramp is triggered just if the states change and the transceiver comes up: it is
-- unlocked, after the change or, if the administrative state does not change, by its own record, and its
-- new operational state is enabled or, if the operational state does not change, trx_is_usable() holds.
-- Otherwise the ramp is aborted if the transceiver becomes locked, shut down or disabled, and left alone
-- if not.
pub sig_cb_comes_up :
    (signal : NmSignal) (nsd : StateChange) (r : AccRamp)
    → is_handled signal nsd ≡ true
    → acc_ramp_nm_sig_cb signal nsd r ≡ (
        if not (same_states nsd.old_state nsd.new_state) && comes_up nsd
        then acc_ramp_trigger r
        else if stops nsd.old_state nsd.new_state
        then acc_ramp_abort r
        else r)
unfolding acc_ramp_nm_sig_cb
sig_cb_comes_up signal nsd r h = rw (h, trigger_flag nsd, abort_flag nsd) refl
