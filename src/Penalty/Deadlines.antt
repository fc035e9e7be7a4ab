-- ===== src/Penalty/Deadlines.antt =====
-- The list of penalty timers is a map from objects to deadlines.
use osmo_bsc.Base.{
  ℕ, ◌+◌, ◌-◌, ◌%◌, ◌^◌, ◌<◌, max, true, false, [], ◌∷◌, ◌≡◌, ◌≢◌, refl, ap, ◌∙◌, arith, All, ◌==◌,
  if◌then◌else◌, Bool-cases, inl, inr,
}
use osmo_bsc.Penalty.{
  PenaltyTimers, raise, penalty_timers_add, max_remaining, penalty_timers_remaining,
  penalty_timers_clear,
}

-- The deadline of an object, 0 where it has none.
abbrev pub deadline : PenaltyTimers → ℕ → ℕ
deadline [] obj = 0
deadline (t ∷ ts) obj = if t.for_object == obj then t.timeout else deadline ts obj

-- No object has two timers.
abbrev pub IsAbsent : ℕ → PenaltyTimers → Type 0
IsAbsent obj = All (λ t. t.for_object ≢ obj)

abbrev pub IsMap : PenaltyTimers → Type 0
IsMap [] = Unit
IsMap (t ∷ ts) = IsAbsent t.for_object ts × IsMap ts

raise-IsAbsent :
    (o obj end : ℕ) (ts : PenaltyTimers) → obj ≢ o → IsAbsent o ts → IsAbsent o (raise obj end ts)
unfolding raise
raise-IsAbsent o obj end [] ne a = (ne, tt)
raise-IsAbsent o obj end (t ∷ ts) ne a = ground (arith, raise-IsAbsent o obj end ts ne a.1)

raise-IsMap : (obj end : ℕ) (ts : PenaltyTimers) → IsMap ts → IsMap (raise obj end ts)
unfolding raise
raise-IsMap obj end [] m = (tt, tt)
raise-IsMap obj end (t ∷ ts) m =
    ground (arith, raise-IsAbsent t.for_object obj end ts, raise-IsMap obj end ts m.1)

deadline-raise :
    (obj end : ℕ) (ts : PenaltyTimers) (o : ℕ)
    → deadline (raise obj end ts) o ≡ (if obj == o then max (deadline ts o) end else deadline ts o)
unfolding raise
deadline-raise obj end [] o = ground arith
deadline-raise obj end (t ∷ ts) o = elim (Bool-cases (t.for_object == obj)) [
  | inl e ↦ elim (Bool-cases (t.for_object == o)) [
    | inl f ↦ let g : (obj == o) ≡ true = ground arith in simp (e, f, g) (ground arith)
    | inr f ↦ let g : (obj == o) ≡ false = ground arith in simp (e, f, g) (ground arith)
  ]
  | inr e ↦ elim (Bool-cases (t.for_object == o)) [
    | inl f ↦ let g : (obj == o) ≡ false = ground arith in simp (e, f, g)
    | inr f ↦ simp (e, f) (deadline-raise obj end ts o)
  ]
]

max_remaining_absent :
    (now obj : ℕ) (ts : PenaltyTimers) (most : ℕ)
    → IsAbsent obj ts
    → max_remaining now obj ts most ≡ most
unfolding max_remaining
max_remaining_absent now obj [] most a = refl
max_remaining_absent now obj (t ∷ ts) most a =
    ground (arith, max_remaining_absent now obj ts most a.1)

max_remaining-deadline :
    (now obj : ℕ) (ts : PenaltyTimers)
    → IsMap ts
    → max_remaining now obj ts 0 ≡ deadline ts obj - now
unfolding max_remaining
max_remaining-deadline now obj [] m = omega arith
max_remaining-deadline now obj (t ∷ ts) m = elim (Bool-cases (t.for_object == obj)) [
  | inl e ↦
      let same : t.for_object ≡ obj = ground arith in
      let absent = rw same at m.0 in
      simp e (max_remaining_absent now obj ts _ absent ∙ ground arith)
  | inr e ↦ simp e (max_remaining-deadline now obj ts m.1)
]

clear-deadline :
    (obj : ℕ) (ts : PenaltyTimers) (o : ℕ)
    → obj ≢ 0
    → deadline (penalty_timers_clear ts obj) o ≡ (if obj == o then 0 else deadline ts o)
unfolding penalty_timers_clear
clear-deadline obj [] o ne = ground arith
clear-deadline obj (t ∷ ts) o ne =
    let some_object : (obj == 0) ≡ false = ground arith in
    elim (Bool-cases (t.for_object == obj)) [
      | inl e ↦ elim (Bool-cases (t.for_object == o)) [
        | inl f ↦
            let g : (obj == o) ≡ true = ground arith in
            simp (some_object, e, g) (clear-deadline obj ts o ne ∙ simp g)
        | inr f ↦
            let g : (obj == o) ≡ false = ground arith in
            simp (some_object, e, f, g) (clear-deadline obj ts o ne ∙ simp g)
      ]
      | inr e ↦ elim (Bool-cases (t.for_object == o)) [
        | inl f ↦ let g : (obj == o) ≡ false = ground arith in simp (some_object, e, f, g)
        | inr f ↦ simp (some_object, e, f) (clear-deadline obj ts o ne)
      ]
    ]

clear-IsAbsent :
    (o obj : ℕ) (ts : PenaltyTimers) → IsAbsent o ts → IsAbsent o (penalty_timers_clear ts obj)
unfolding penalty_timers_clear
clear-IsAbsent o obj [] a = tt
clear-IsAbsent o obj (t ∷ ts) a = ground (arith, clear-IsAbsent o obj ts a.1)

clear-IsMap : (obj : ℕ) (ts : PenaltyTimers) → IsMap ts → IsMap (penalty_timers_clear ts obj)
unfolding penalty_timers_clear
clear-IsMap obj [] m = tt
clear-IsMap obj (t ∷ ts) m =
    ground (arith, clear-IsAbsent t.for_object obj ts m.0, clear-IsMap obj ts m.1)

-- A call of the interface that changes the timers.
pub data Call : Type 0 where
  add : ℕ → ℕ → ℕ → Call  -- at a time, for an object, with a timeout
  clear : ℕ → Call

abbrev pub run_call : PenaltyTimers → Call → PenaltyTimers
run_call pt (add now obj timeout) = penalty_timers_add now pt obj timeout
run_call pt (clear obj) = penalty_timers_clear pt obj

-- Every call keeps the list free of a second timer for an object.
pub run_call-IsMap : (pt : PenaltyTimers) (c : Call) → IsMap pt → IsMap (run_call pt c)
unfolding penalty_timers_add
run_call-IsMap pt (add now obj timeout) m = elim (Bool-cases (timeout == 0)) [
  | inl e ↦ rw e m
  | inr e ↦ rw e (raise-IsMap obj ((now + timeout) % 2 ^ 32) pt m)
]
run_call-IsMap pt (clear obj) m = clear-IsMap obj pt m

-- In a list without a second timer for an object, penalty_timers_remaining() is the time that is left
-- until the object's deadline, 0 once that has passed.
pub remaining-deadline :
    (now : ℕ) (pt : PenaltyTimers) (obj : ℕ)
    → IsMap pt
    → penalty_timers_remaining now pt obj ≡ deadline pt obj - now
unfolding penalty_timers_remaining
remaining-deadline now pt obj m = max_remaining-deadline now obj pt m

-- After penalty_timers_add() the time that remains is the timeout or what remained before, whichever is
-- longer, and nothing changes for any other object, as long as the end of the timeout fits in 32 bits.
pub remaining-add :
    (now : ℕ) (pt : PenaltyTimers) (obj timeout o : ℕ)
    → IsMap pt
    → now + timeout < 2 ^ 32
    → penalty_timers_remaining now (penalty_timers_add now pt obj timeout) o ≡ (
        if obj == o
        then max (penalty_timers_remaining now pt o) timeout
        else penalty_timers_remaining now pt o)
unfolding penalty_timers_add
remaining-add now pt obj timeout o m fits =
    let end = (now + timeout) % 2 ^ 32 in
    let same : end ≡ now + timeout = omega arith in
    elim (Bool-cases (timeout == 0)) [
      | inl e ↦ simp e (ground arith)
      | inr e ↦
          let left = remaining-deadline now (raise obj end pt) o (raise-IsMap obj end pt m) in
          simp e (
            left
            ∙ ap (λ d. d - now) (deadline-raise obj end pt o)
            ∙ ground (arith, remaining-deadline now pt o m))
    ]

-- penalty_timers_clear() for an object ends its penalty at once and leaves those of the others.
pub remaining-clear :
    (now : ℕ) (pt : PenaltyTimers) (obj o : ℕ)
    → IsMap pt
    → obj ≢ 0
    → penalty_timers_remaining now (penalty_timers_clear pt obj) o
      ≡ (if obj == o then 0 else penalty_timers_remaining now pt o)
remaining-clear now pt obj o m ne =
    simp
      (
        remaining-deadline now (penalty_timers_clear pt obj) o (clear-IsMap obj pt m),
        clear-deadline obj pt o ne,
        remaining-deadline now pt o m,
      )
      (ground arith)

-- penalty_timers_clear() for NULL, as penalty_timers_free() calls it, leaves no timer.
pub clear_null : (pt : PenaltyTimers) → penalty_timers_clear pt 0 ≡ []
unfolding penalty_timers_clear
clear_null [] = refl
clear_null (t ∷ ts) = ground (arith, clear_null ts)
