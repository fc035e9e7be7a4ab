-- ===== src/AccRamp/Tests.antt =====
-- A ramp of a cell whose class 3 is permanently barred.
use Prim.{tt}
use osmo_bsc.Base.{
  ℕ, ◌*◌, true, false, not, ◌&&◌, none, List, [], ◌∷◌, ◌≡◌, ◌≢◌, refl, arith, drop, if◌then◌else◌,
  ◌==◌,
}
use osmo_bsc.Base.Bits.{bit}
use osmo_bsc.AccRamp.{
  RachBts, AccRamp, accs, acc_is_permanently_barred, acc_ramp_trigger, acc_ramp_abort,
  do_acc_ramping_step, get_next_step_interval,
}
use osmo_bsc.AccRamp.Classes.{barred_among}
use osmo_bsc.AccRamp.Steps.{Available}
use osmo_bsc.AccRamp.Ramp.{tick, ticks, step-drop, ramp_ends, step_blocked, interval-load}
use osmo_bsc.AccRamp.Signal.{
  statechg_adm, adm_locked, adm_unlocked, op_enabled, StateChange, is_handled, acc_ramp_nm_sig_cb,
  sig_cb_comes_up, same_states, comes_up, stops,
}

-- t3 = 0x08; the mask of the ramp bars classes 2, 5 and 9.
abbrev cell : RachBts
cell = record { t2 = 0; t3 = 8; chan_load_avg = 1 }

abbrev ramp : AccRamp
ramp = record {
  bts = cell;
  acc_ramping_enabled = true;
  barred_accs = 548;
  step_size = 2;
  step_interval_sec = 30;
  step_interval_is_fixed = false;
  step_timer = none;
  system_infos = 0;
}

abbrev classes : List ℕ
classes = 2 ∷ 5 ∷ 9 ∷ []

classes_barred : barred_among ramp.barred_accs accs ≡ classes
unfolding bit
classes_barred = refl

ramp-Available : Available cell 548
unfolding bit acc_is_permanently_barred
ramp-Available = (refl, (refl, (refl, tt)))

step-drop_example :
    barred_among (do_acc_ramping_step ramp).barred_accs accs
    ≡ drop ramp.step_size (barred_among ramp.barred_accs accs)
step-drop_example = step-drop ramp ramp-Available

ramp_ends_example :
    (barred_among (ticks 10 ramp).barred_accs accs ≡ []) × ((ticks 10 ramp).step_timer ≡ none)
ramp_ends_example = ramp_ends ramp ramp-Available (omega arith)

-- Class 2 becomes permanently barred while the ramp runs.
abbrev stuck : AccRamp
stuck = record ramp { bts = record cell { t3 = 12 } }

two : acc_is_permanently_barred stuck.bts 2 ≡ true
unfolding bit acc_is_permanently_barred
two = refl

two_first : barred_among stuck.barred_accs accs ≡ 2 ∷ drop 1 classes
unfolding bit
two_first = refl

step_blocked_example :
    ((tick stuck).barred_accs ≡ stuck.barred_accs) × ((tick stuck).step_timer ≢ none)
step_blocked_example = step_blocked stuck 2 (drop 1 classes) (omega arith) two_first two

interval-load_example :
    get_next_step_interval ramp
    ≡ (if ramp.bts.chan_load_avg == 0 then 30 else 6 * ramp.bts.chan_load_avg)
interval-load_example = interval-load ramp refl (omega arith)

abbrev unlocking : StateChange
unlocking = record {
  is_radio_carrier = true;
  old_state = record { administrative = adm_locked; operational = op_enabled };
  new_state = record { administrative = adm_unlocked; operational = op_enabled };
  trx_nr = 0;
  has_rsl_link = true;
  trx_usable = true;
  trx_administrative = adm_locked;
}

unlocking_handled : is_handled statechg_adm unlocking ≡ true
unfolding is_handled
unlocking_handled = refl

sig_cb_comes_up_example : acc_ramp_nm_sig_cb statechg_adm unlocking ramp ≡ (
    if not (same_states unlocking.old_state unlocking.new_state) && comes_up unlocking
    then acc_ramp_trigger ramp
    else if stops unlocking.old_state unlocking.new_state
    then acc_ramp_abort ramp
    else ramp)
sig_cb_comes_up_example = sig_cb_comes_up statechg_adm unlocking ramp unlocking_handled
