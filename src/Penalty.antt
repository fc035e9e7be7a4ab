-- ===== src/Penalty.antt =====
-- Penalty timers, src/osmo-bsc/penalty_timers.c: until when a handover to some object is to be
-- avoided. Time is an argument, the value of time_now() in the call; an object is known by its address,
-- a number, and 0 is NULL. Allocation succeeds.
pub mod Deadlines
mod Tests
use osmo_bsc.Base.{
  ℕ, zero, suc, ◌+◌, ◌-◌, ◌%◌, ◌^◌, Bool, true, false, not, ◌&&◌, List, [], ◌∷◌, ltb, leb, ◌==◌,
  if◌then◌else◌,
}

-- struct penalty_timer
pub record PenaltyTimer : Type 0 where
  pub for_object : ℕ
  pub timeout : ℕ

-- The list of struct penalty_timers, oldest entry first.
abbrev pub PenaltyTimers : Type 0
PenaltyTimers = List PenaltyTimer

-- penalty_timers_init()
abbrev pub penalty_timers_init : PenaltyTimers
penalty_timers_init = []

-- The loop of penalty_timers_add(), and the new entry at the end of the list.
unfoldable pub raise : ℕ → ℕ → PenaltyTimers → PenaltyTimers
raise obj end [] = record { for_object = obj; timeout = end } ∷ []
raise obj end (t ∷ ts) =
    if t.for_object == obj
    then (if ltb t.timeout end then record t { timeout = end } else t) ∷ ts
    else t ∷ raise obj end ts

-- penalty_timers_add(); a timeout of 0 stands for every timeout <= 0. The end is an unsigned int.
unfoldable pub penalty_timers_add : ℕ → PenaltyTimers → ℕ → ℕ → PenaltyTimers
penalty_timers_add now pt obj timeout =
    if timeout == 0 then pt else raise obj ((now + timeout) % 2 ^ 32) pt

-- The loop of penalty_timers_remaining().
unfoldable pub max_remaining : ℕ → ℕ → PenaltyTimers → ℕ → ℕ
max_remaining now obj [] most = most
max_remaining now obj (t ∷ ts) most = max_remaining now obj ts (
    if not (t.for_object == obj)
    then most
    else if leb t.timeout now
    then most
    else if ltb most (t.timeout - now)
    then t.timeout - now
    else most)

-- penalty_timers_remaining()
unfoldable pub penalty_timers_remaining : ℕ → PenaltyTimers → ℕ → ℕ
unfolding max_remaining
penalty_timers_remaining now pt obj = max_remaining now obj pt 0

-- penalty_timers_clear(); NULL clears the timers of every object.
unfoldable pub penalty_timers_clear : PenaltyTimers → ℕ → PenaltyTimers
penalty_timers_clear [] obj = []
penalty_timers_clear (t ∷ ts) obj =
    let rest = penalty_timers_clear ts obj in
    if not (obj == 0) && not (t.for_object == obj) then t ∷ rest else rest
