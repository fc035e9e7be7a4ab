-- ===== src/Penalty/Tests.antt =====
-- Penalties for two cells.
use osmo_bsc.Base.{max, [], ◌∷◌, ◌≡◌, refl, arith, ◌==◌, if◌then◌else◌}
use osmo_bsc.Penalty.{
  PenaltyTimers, penalty_timers_init, penalty_timers_add, penalty_timers_remaining,
  penalty_timers_clear, raise,
}
use osmo_bsc.Penalty.Deadlines.{IsMap, add, run_call, run_call-IsMap, remaining-add}

abbrev timers : PenaltyTimers
timers = record { for_object = 1; timeout = 105 } ∷ record { for_object = 2; timeout = 130 } ∷ []

built : penalty_timers_add 100 (penalty_timers_add 100 penalty_timers_init 1 5) 2 30 ≡ timers
unfolding penalty_timers_add raise
built = refl

not_shortened : penalty_timers_add 103 timers 1 1 ≡ timers
unfolding penalty_timers_add raise
not_shortened = refl

timers-IsMap : IsMap timers
timers-IsMap = omega arith

run_call-IsMap_example : IsMap (run_call timers (add 100 3 20))
run_call-IsMap_example = run_call-IsMap timers (add 100 3 20) timers-IsMap

remaining-add_example : penalty_timers_remaining 101 (penalty_timers_add 101 timers 1 60) 1 ≡ (
    if 1 == 1
    then max (penalty_timers_remaining 101 timers 1) 60
    else penalty_timers_remaining 101 timers 1)
remaining-add_example = remaining-add 101 timers 1 60 1 timers-IsMap (omega arith)

cleared_all : penalty_timers_clear timers 0 ≡ []
unfolding penalty_timers_clear
cleared_all = refl
