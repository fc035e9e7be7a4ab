-- ===== src/AccRamp.antt =====
-- Access control class ramping, src/osmo-bsc/acc_ramp.c with include/osmocom/bsc/acc_ramp.h: the mask of
-- barred classes, the steps that allow them, and the signals that start and stop a ramp.
pub mod Signal
pub mod Classes
pub mod Steps
pub mod Ramp
mod Tests
use osmo_bsc.Base.{
  ℕ, zero, suc, ◌+◌, ◌-◌, ◌*◌, ◌/◌, ◌%◌, ◌^◌, Bool, true, false, not, ◌&&◌, ◌||◌, Option, none,
  some, List, [], ◌∷◌, ltb, ◌==◌, if◌then◌else◌, first_some,
}
use osmo_bsc.Base.Bits.{bit, set_bit, clear_bit}

-- ACC_RAMP_STEP_SIZE_MIN, _MAX, ACC_RAMP_STEP_INTERVAL_MIN and _MAX
abbrev pub step_size_min : ℕ
step_size_min = 1

abbrev pub step_size_max : ℕ
step_size_max = 10

abbrev pub step_interval_min : ℕ
step_interval_min = 30

abbrev pub step_interval_max : ℕ
step_interval_max = 600

-- What ramping reads of struct gsm_bts: octets 2 and 3 of the RACH control and the load.
pub record RachBts : Type 0 where
  pub t2 : ℕ
  pub t3 : ℕ
  pub chan_load_avg : ℕ

-- struct acc_ramp with its BTS; `step_timer` is the time for which the timer is scheduled, if it is,
-- and `system_infos` counts the calls of gsm_bts_set_system_infos().
pub record AccRamp : Type 0 where
  pub bts : RachBts
  pub acc_ramping_enabled : Bool
  pub barred_accs : ℕ
  pub step_size : ℕ
  pub step_interval_sec : ℕ
  pub step_interval_is_fixed : Bool
  pub step_timer : Option ℕ
  pub system_infos : ℕ

-- acc_is_permanently_barred()
unfoldable pub acc_is_permanently_barred : RachBts → ℕ → Bool
acc_is_permanently_barred bts acc =
    if (acc == 8) || (acc == 9) then bit bts.t2 (acc - 8) else bit bts.t3 acc

-- allow_one_acc() and barr_one_acc(), on the mask.
unfoldable pub allow_one_acc : ℕ → ℕ → ℕ
allow_one_acc barred acc = clear_bit barred acc

unfoldable pub barr_one_acc : ℕ → ℕ → ℕ
barr_one_acc barred acc = set_bit barred acc

-- The class is allowed unless it is permanently barred, as loops here do it.
unfoldable pub allow_available : RachBts → ℕ → ℕ → ℕ
unfolding allow_one_acc
allow_available bts acc barred =
    if not (acc_is_permanently_barred bts acc) then allow_one_acc barred acc else barred

abbrev pub accs : List ℕ
accs = 0 ∷ 1 ∷ 2 ∷ 3 ∷ 4 ∷ 5 ∷ 6 ∷ 7 ∷ 8 ∷ 9 ∷ []

-- The loops of barr_all_accs() and allow_all_accs(), on the mask.
unfoldable pub barr_accs : RachBts → List ℕ → ℕ → ℕ
unfolding barr_one_acc
barr_accs bts [] barred = barred
barr_accs bts (acc ∷ more) barred =
    barr_accs bts more
      (if not (acc_is_permanently_barred bts acc) then barr_one_acc barred acc else barred)

unfoldable pub allow_accs : RachBts → List ℕ → ℕ → ℕ
allow_accs bts [] barred = barred
allow_accs bts (acc ∷ more) barred = allow_accs bts more (allow_available bts acc barred)

-- barr_all_accs()
unfoldable pub barr_all_accs : AccRamp → AccRamp
barr_all_accs r = record r { barred_accs = barr_accs r.bts accs r.barred_accs }

-- allow_all_accs()
unfoldable pub allow_all_accs : AccRamp → AccRamp
allow_all_accs r = record r { barred_accs = allow_accs r.bts accs r.barred_accs }

-- acc_ramp_get_barred_t2() and acc_ramp_get_barred_t3(), of the mask.
unfoldable pub get_barred_t2 : ℕ → ℕ
get_barred_t2 barred = (barred / 256) % 4

unfoldable pub get_barred_t3 : ℕ → ℕ
get_barred_t3 barred = barred % 256

abbrev pub octet : List ℕ
octet = 0 ∷ 1 ∷ 2 ∷ 3 ∷ 4 ∷ 5 ∷ 6 ∷ 7 ∷ []

abbrev pub number : Option ℕ → ℕ
number none = 0
number (some n) = n

-- The positions in a list whose bit is set, first the lowest, from 1 on.
abbrev pub set_at : ℕ → ℕ → Option ℕ
set_at x k = if bit x k then some (suc k) else none

-- ffs() of a value below 2 ^ 8: the number of the lowest bit that is set, from 1 on, or 0.
unfoldable pub ffs : ℕ → ℕ
ffs x = number (first_some (set_at x) octet)

-- The 64-bit load in fixed point, scaled to the longest interval, in get_next_step_interval().
unfoldable pub scaled_interval : ℕ → ℕ
scaled_interval load = ((load * 256 * step_interval_max) % 2 ^ 64 / 100 / 256) % 2 ^ 32

-- get_next_step_interval()
unfoldable pub get_next_step_interval : AccRamp → ℕ
unfolding scaled_interval
get_next_step_interval r =
    if r.step_interval_is_fixed
    then r.step_interval_sec
    else if ltb (scaled_interval r.bts.chan_load_avg) step_size_min
    then step_interval_min
    else if ltb step_interval_max (scaled_interval r.bts.chan_load_avg)
    then step_interval_max
    else scaled_interval r.bts.chan_load_avg

-- The body of the loop of do_acc_ramping_step(), on the mask; `none` is its break.
unfoldable pub allow_next : RachBts → ℕ → Option ℕ
allow_next bts barred =
    if ltb 0 (ffs (get_barred_t3 barred))
    then some (allow_available bts (ffs (get_barred_t3 barred) - 1) barred)
    else if (ffs (get_barred_t2 barred) == 1) || (ffs (get_barred_t2 barred) == 2)
    then some (allow_available bts (ffs (get_barred_t2 barred) - 1 + 8) barred)
    else none

-- The loop of do_acc_ramping_step(), with the number of its rounds.
unfoldable pub allow_loop : RachBts → ℕ → ℕ → ℕ
allow_loop bts zero barred = barred
allow_loop bts (suc i) barred = elim (allow_next bts barred) [
  | none ↦ barred
  | some barred' ↦ allow_loop bts i barred'
]

-- gsm_bts_set_system_infos()
abbrev pub set_system_infos : AccRamp → AccRamp
set_system_infos r = record r { system_infos = r.system_infos + 1 }

-- How do_acc_ramping_step() ends: the timer is scheduled while a class is barred.
unfoldable pub schedule_step : AccRamp → AccRamp
schedule_step r =
    if not (get_barred_t2 r.barred_accs == 0) || not (get_barred_t3 r.barred_accs == 0)
    then record r {
      step_interval_sec = get_next_step_interval r;
      step_timer = some (get_next_step_interval r);
    }
    else r

-- do_acc_ramping_step()
unfoldable pub do_acc_ramping_step : AccRamp → AccRamp
do_acc_ramping_step r =
    if r.step_size == step_size_max
    then set_system_infos (allow_all_accs r)
    else schedule_step
        (set_system_infos (record r { barred_accs = allow_loop r.bts r.step_size r.barred_accs }))

-- acc_ramp_init(), for a structure that may hold anything, and with the timer that is set up.
unfoldable pub acc_ramp_init : AccRamp → RachBts → AccRamp
acc_ramp_init r bts = allow_all_accs (record r {
  bts = bts;
  acc_ramping_enabled = false;
  step_size = step_size_min;
  step_interval_sec = step_interval_min;
  step_interval_is_fixed = false;
})

-- acc_ramp_set_step_size(); `none` is -ERANGE.
unfoldable pub acc_ramp_set_step_size : AccRamp → ℕ → Option AccRamp
acc_ramp_set_step_size r step_size =
    if ltb step_size step_size_min || ltb step_size_max step_size
    then none
    else some (record r { step_size = step_size })

-- acc_ramp_set_step_interval()
unfoldable pub acc_ramp_set_step_interval : AccRamp → ℕ → Option AccRamp
acc_ramp_set_step_interval r step_interval =
    if ltb step_interval step_interval_min || ltb step_interval_max step_interval
    then none
    else some (record r { step_interval_sec = step_interval; step_interval_is_fixed = true })

-- acc_ramp_set_step_interval_dynamic()
unfoldable pub acc_ramp_set_step_interval_dynamic : AccRamp → AccRamp
acc_ramp_set_step_interval_dynamic r = record r { step_interval_is_fixed = false }

-- acc_ramp_abort()
unfoldable pub acc_ramp_abort : AccRamp → AccRamp
acc_ramp_abort r = allow_all_accs (record r { step_timer = none })

-- acc_ramp_trigger()
unfoldable pub acc_ramp_trigger : AccRamp → AccRamp
acc_ramp_trigger r =
    if r.acc_ramping_enabled
    then do_acc_ramping_step (barr_all_accs (acc_ramp_abort r))
    else acc_ramp_abort r
