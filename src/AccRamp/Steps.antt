-- ===== src/AccRamp/Steps.antt =====
-- What the loops over classes do to the list of barred classes.
use Prim.{tt}
use osmo_bsc.Base.{
  ℕ, zero, suc, Bool, true, false, not, ◌&&◌, ◌||◌, none, some, List, [], ◌∷◌, ◌≡◌, refl, ◌∙◌, ap,
  arith, inl, inr, Bool-cases, sym, if◌then◌else◌, ◌==◌, All, drop,
}
use osmo_bsc.Base.Bits.{bit, clear_bit, bit-set_bit, bit-clear_bit}
use osmo_bsc.AccRamp.{
  RachBts, accs, acc_is_permanently_barred, allow_one_acc, allow_next, allow_available, allow_loop,
  allow_accs, barr_accs,
}
use osmo_bsc.AccRamp.Classes.{barred_among, barred_among_agree, allow_next_lowest, allow_next-none}

-- Whether a number is not in a list, and whether no number is twice in one.
abbrev absent : ℕ → List ℕ → Bool
absent k [] = true
absent k (j ∷ js) = not (k == j) && absent k js

abbrev nodup : List ℕ → Bool
nodup [] = true
nodup (k ∷ ks) = absent k ks && nodup ks

clear_others :
    (x k : ℕ) (ks : List ℕ) → absent k ks ≡ true → All (λ j. bit (clear_bit x k) j ≡ bit x j) ks
clear_others x k [] h = tt
clear_others x k (j ∷ js) h =
    ((bit-clear_bit x k j ∙ ground arith), clear_others x k js (ground arith))

-- Clearing the lowest bit of a mask takes the head off the list of its classes.
clear_head :
    (x k : ℕ) (ks js : List ℕ)
    → nodup js ≡ true
    → barred_among x js ≡ k ∷ ks
    → barred_among (clear_bit x k) js ≡ ks
clear_head x k ks [] n h = cc
clear_head x k ks (j ∷ js) n h = elim (Bool-cases (bit x j)) [
  | inl e ↦
      let h' = simp e at h in
      let same : j ≡ k = ground arith in
      let rest : barred_among x js ≡ ks = ground arith in
      let gone : bit (clear_bit x k) j ≡ false = bit-clear_bit x k j ∙ ground arith in
      rw gone
        (barred_among_agree _ _ js (clear_others x k js (rw (sym same) (ground arith))) ∙ rest)
  | inr e ↦
      let h' = simp e at h in
      let still : bit (clear_bit x k) j ≡ false = bit-clear_bit x k j ∙ ground arith in
      rw still (clear_head x k ks js (ground arith) h')
]

-- No class that the ramp bars is permanently barred.
abbrev pub Available : RachBts → ℕ → Type 0
Available bts x = All (λ k. acc_is_permanently_barred bts k ≡ false) (barred_among x accs)

loop-next :
    (bts : RachBts) (n x : ℕ) {y : ℕ}
    → allow_next bts x ≡ some y
    → allow_loop bts (suc n) x ≡ allow_loop bts n y
unfolding allow_loop
loop-next bts n x e = rw (allow_loop, e) refl

loop-break : (bts : RachBts) (n x : ℕ) → allow_next bts x ≡ none → allow_loop bts (suc n) x ≡ x
unfolding allow_loop
loop-break bts n x e = rw (allow_loop, e) refl

allow_head :
    (bts : RachBts) (x k : ℕ) (ks : List ℕ)
    → barred_among x accs ≡ k ∷ ks
    → acc_is_permanently_barred bts k ≡ false
    → barred_among (allow_available bts k x) accs ≡ ks
unfolding allow_available allow_one_acc
allow_head bts x k ks h p = rw p (clear_head x k ks accs refl h)

-- Every round of the loop allows the lowest class that is barred.
pub allow_loop-drop :
    (bts : RachBts) (n : ℕ) (x : ℕ) (ks : List ℕ)
    → barred_among x accs ≡ ks
    → All (λ k. acc_is_permanently_barred bts k ≡ false) ks
    → barred_among (allow_loop bts n x) accs ≡ drop n ks
unfolding allow_loop
allow_loop-drop bts zero x ks h a = h
allow_loop-drop bts (suc n) x [] h a = rw (loop-break bts n x (allow_next-none bts x h)) h
allow_loop-drop bts (suc n) x (k ∷ ks) h (p, a) =
    rw (loop-next bts n x (allow_next_lowest bts x k ks h))
      (allow_loop-drop bts n (allow_available bts k x) ks (allow_head bts x k ks h p) a)

pub allow_loop_blocked :
    (bts : RachBts) (n x k : ℕ) (ks : List ℕ)
    → barred_among x accs ≡ k ∷ ks
    → acc_is_permanently_barred bts k ≡ true
    → allow_loop bts n x ≡ x
unfolding allow_available allow_loop
allow_loop_blocked bts zero x k ks h p = refl
allow_loop_blocked bts (suc n) x k ks h p =
    let same : allow_available bts k x ≡ x = rw p refl in
    loop-next bts n x (allow_next_lowest bts x k ks h ∙ ap some same)
    ∙ allow_loop_blocked bts n x k ks h p

allow_accs-bit :
    (bts : RachBts) (ks : List ℕ) (x j : ℕ)
    → bit (allow_accs bts ks x) j ≡ (bit x j && (acc_is_permanently_barred bts j || absent j ks))
unfolding allow_accs allow_available allow_one_acc
allow_accs-bit bts [] x j = ground arith
allow_accs-bit bts (k ∷ ks) x j =
    allow_accs-bit bts ks (allow_available bts k x) j
    ∙ elim (Bool-cases (acc_is_permanently_barred bts k)) [
      | inl e ↦ rw e (ground arith)
      | inr e ↦ rw e (ground (arith, bit-clear_bit x k j))
    ]

barr_accs-bit :
    (bts : RachBts) (ks : List ℕ) (x j : ℕ)
    → bit (barr_accs bts ks x) j
      ≡ (bit x j || (not (acc_is_permanently_barred bts j) && not (absent j ks)))
unfolding barr_accs
barr_accs-bit bts [] x j = ground arith
barr_accs-bit bts (k ∷ ks) x j =
    barr_accs-bit bts ks _ j ∙ elim (Bool-cases (acc_is_permanently_barred bts k)) [
      | inl e ↦ rw e (ground arith)
      | inr e ↦ rw e (ground (arith, bit-set_bit x k j))
    ]

-- The classes of a list that are not permanently barred.
abbrev pub available : RachBts → List ℕ → List ℕ
available bts [] = []
available bts (k ∷ ks) =
    if acc_is_permanently_barred bts k then available bts ks else k ∷ available bts ks

pub in_accs : All (λ j. absent j accs ≡ false) accs
in_accs = (refl, (refl, (refl, (refl, (refl, (refl, (refl, (refl, (refl, (refl, tt))))))))))

pub allowed_among :
    (bts : RachBts) (x : ℕ) (js : List ℕ)
    → All (λ j. absent j accs ≡ false) js
    → All (λ k. acc_is_permanently_barred bts k ≡ false) (barred_among x js)
    → barred_among (allow_accs bts accs x) js ≡ []
allowed_among bts x [] i a = refl
allowed_among bts x (j ∷ js) (i, is) a = elim (Bool-cases (bit x j)) [
  | inl e ↦
      let (p, a') = simp e at a in
      let off : bit (allow_accs bts accs x) j ≡ false =
        allow_accs-bit bts accs x j ∙ rw (p, i) (ground arith) in
      rw off (allowed_among bts x js is a')
  | inr e ↦
      let a' = simp e at a in
      let off : bit (allow_accs bts accs x) j ≡ false = allow_accs-bit bts accs x j ∙ rw e refl in
      rw off (allowed_among bts x js is a')
]

pub barred_available :
    (bts : RachBts) (x : ℕ) (js : List ℕ)
    → All (λ j. absent j accs ≡ false) js
    → barred_among x js ≡ []
    → barred_among (barr_accs bts accs x) js ≡ available bts js
barred_available bts x [] i h = refl
barred_available bts x (j ∷ js) (i, is) h = elim (Bool-cases (bit x j)) [
  | inl e ↦ let h' = simp e at h in cc
  | inr e ↦
      let h' = simp e at h in
      let b : bit (barr_accs bts accs x) j ≡ not (acc_is_permanently_barred bts j) =
        barr_accs-bit bts accs x j ∙ rw (e, i) (ground arith) in
      rw (b, barred_available bts x js is h') (ground arith)
]

pub available-All :
    (bts : RachBts) (js : List ℕ)
    → All (λ k. acc_is_permanently_barred bts k ≡ false) (available bts js)
available-All bts [] = tt
available-All bts (j ∷ js) = elim (Bool-cases (acc_is_permanently_barred bts j)) [
  | inl e ↦ rw e (available-All bts js)
  | inr e ↦ rw e (e, available-All bts js)
]
