-- ===== src/Meas/Report/History.antt =====
-- The averages and counts of meas_rep.c against the history of measurement results received.
use native.Mathlib.Nat.{zero-add}
use osmo_bsc.Base.{
  ℕ, zero, suc, ◌+◌, ◌≤◌, ◌<◌, false, Option, none, some, List, [], ◌∷◌, get_or, set, take, length,
  ◌≡◌, refl, ap, ◌∙◌, arith, leb, ltb, if◌then◌else◌, Option-cases, inl, inr,
}
use osmo_bsc.Meas.Ring.Recent.{size, Holds, write-Holds, oldest_first, read_from_recent}
use osmo_bsc.Meas.Report.{
  MeasRep, Field, get_field, zero_rep, Cache, lchan_next_meas_rep, Outcome, accepted, rejected,
  rx_meas_res, avg_loop, quotient, get_meas_rep_avg, reaches, n_out_of_m_loop,
  meas_rep_n_out_of_m_be,
}

-- The sum of `f` over a list.
abbrev pub sum_by {ℓ} : {A : Type ℓ} → (A → ℕ) → List A → ℕ
sum_by f [] = 0
sum_by f (x ∷ xs) = f x + sum_by f xs

sum_by-take-suc {ℓ} :
    {A : Type ℓ} (d : A) (f : A → ℕ) (xs : List A) (n : ℕ)
    → n < length xs
    → sum_by f (take (suc n) xs) ≡ f (get_or xs n d) + sum_by f (take n xs)
sum_by-take-suc d f [] n h = elim h [ ]
sum_by-take-suc d f (x ∷ xs) zero h = refl
sum_by-take-suc d f (x ∷ xs) (suc n) h = omega (arith, sum_by-take-suc d f xs n (omega arith))

-- The order of the samples does not matter to a sum.
pub sum_by-oldest_first {ℓ} :
    {A : Type ℓ} (d : A) (f : A → ℕ) (hist : List A) (n : ℕ)
    → n ≤ length hist
    → sum_by f (oldest_first d hist n) ≡ sum_by f (take n hist)
unfolding oldest_first
sum_by-oldest_first d f hist zero h = refl
sum_by-oldest_first d f hist (suc n) h =
    omega (
      arith,
      sum_by-oldest_first d f hist n (omega arith),
      sum_by-take-suc d f hist n (omega arith),
    )

-- What a report adds to the sum and to the number of valid values of a field.
abbrev pub value_of : Option ℕ → ℕ
value_of none = 0
value_of (some v) = v

abbrev pub one_if_valid : Option ℕ → ℕ
one_if_valid none = 0
one_if_valid (some v) = 1

abbrev pub sum_of : Field → List MeasRep → ℕ
sum_of field = sum_by (λ r. value_of (get_field r field))

abbrev pub valid_of : Field → List MeasRep → ℕ
valid_of field = sum_by (λ r. one_if_valid (get_field r field))

-- How many reports have a valid value of the field that is at least `be`.
abbrev pub reaching : Field → ℕ → List MeasRep → ℕ
reaching field be = sum_by (λ r. if reaches be (get_field r field) then 1 else 0)

avg_loop-eq :
    (field : Field) (rs : List MeasRep) (a n : ℕ)
    → avg_loop field rs (a, n) ≡ (a + sum_of field rs, n + valid_of field rs)
unfolding avg_loop
avg_loop-eq field [] a n = ground arith
avg_loop-eq field (r ∷ rs) a n = elim (Option-cases (get_field r field)) [
  | inl e ↦ rw e (avg_loop-eq field rs a n ∙ (ground arith))
  | inr (v, e) ↦ rw e (avg_loop-eq field rs (a + v) (n + 1) ∙ (ground arith))
]

n_out_of_m_loop-eq :
    (field : Field) (n be : ℕ) (r : MeasRep) (rs : List MeasRep) (count : ℕ)
    → n_out_of_m_loop field n be (r ∷ rs) count ≡ leb n (count + reaching field be (r ∷ rs))
unfolding n_out_of_m_loop
n_out_of_m_loop-eq field n be r [] count = ground arith
n_out_of_m_loop-eq field n be r (s ∷ rs) count =
    let count' = if reaches be (get_field r field) then count + 1 else count in
    ground (arith, n_out_of_m_loop-eq field n be s rs count')

set-set {ℓ} : {A : Type ℓ} (xs : List A) (i : ℕ) (u v : A) → set (set xs i u) i v ≡ set xs i v
set-set [] i u v = refl
set-set (x ∷ xs) zero u v = refl
set-set (x ∷ xs) (suc i) u v = ap (λ ys. x ∷ ys) (set-set xs i u v)

-- The reports of an lchan hold the newest measurement results received on it, whatever became of
-- them, and count at most as many as were received.
pub record IsHistory (c : Cache) (hist : List MeasRep) : Type 0 where
  pub holds : Holds zero_rep c.meas_rep c.meas_rep_idx hist
  pub counted : c.meas_rep_count ≤ length hist

abbrev pub left_behind : Outcome → MeasRep
left_behind (accepted r) = r
left_behind (rejected r) = r

-- Every measurement result that arrives becomes the newest of the history, also one that
-- rsl_rx_meas_res() rejects; only an accepted one is counted.
pub rx_meas_res-IsHistory :
    (c : Cache) (hist : List MeasRep) (o : Outcome)
    → IsHistory c hist
    → IsHistory (rx_meas_res c o) (left_behind o ∷ hist)
unfolding rx_meas_res lchan_next_meas_rep
rx_meas_res-IsHistory c hist (accepted r) h = record {
  holds =
      rw (set-set c.meas_rep c.meas_rep_idx zero_rep r)
        (write-Holds zero_rep c.meas_rep c.meas_rep_idx hist r h.holds);
  counted = omega (arith, h.counted);
}
rx_meas_res-IsHistory c hist (rejected r) h = record {
  holds =
      rw (set-set c.meas_rep c.meas_rep_idx zero_rep r)
        (write-Holds zero_rep c.meas_rep c.meas_rep_idx hist r h.holds);
  counted = omega (arith, h.counted);
}

-- get_meas_rep_avg() over 1 to 10 reports that have been counted is the rounded down mean of the valid
-- values of the field among the newest ones, and an error where none of them is valid.
pub get_meas_rep_avg_mean :
    (c : Cache) (hist : List MeasRep) (field : Field) (num : ℕ)
    → IsHistory c hist
    → 1 ≤ num
    → num ≤ size
    → num ≤ c.meas_rep_count
    → get_meas_rep_avg c field num
      ≡ quotient (sum_of field (take num hist), valid_of field (take num hist))
unfolding get_meas_rep_avg
get_meas_rep_avg_mean c hist field num h a b n =
    let le : num ≤ length hist = omega (arith, h.counted) in
    let here = read_from_recent zero_rep c.meas_rep c.meas_rep_idx hist num h.holds b le in
    let rs = oldest_first zero_rep hist num in
    let s = sum_by-oldest_first zero_rep (λ r. value_of (get_field r field)) hist num le in
    let v = sum_by-oldest_first zero_rep (λ r. one_if_valid (get_field r field)) hist num le in
    let e1 : ltb num 1 ≡ false = ground arith in
    let e2 : ltb c.meas_rep_count num ≡ false = ground arith in
    simp (e1, e2, here, avg_loop-eq, s, v) (ground arith)

-- meas_rep_n_out_of_m_be() over the last 1 to 10 reports received says whether at least `n` of them
-- have a valid value of the field that is at least `be`.
pub n_out_of_m_counts :
    (c : Cache) (hist : List MeasRep) (field : Field) (n m be : ℕ)
    → IsHistory c hist
    → 1 ≤ m
    → m ≤ size
    → m ≤ length hist
    → meas_rep_n_out_of_m_be c field n m be ≡ leb n (reaching field be (take m hist))
unfolding meas_rep_n_out_of_m_be oldest_first
n_out_of_m_counts c hist field n zero be h a b le = absurd (omega arith)
n_out_of_m_counts c hist field n (suc m) be h a b le =
    let here = read_from_recent zero_rep c.meas_rep c.meas_rep_idx hist (suc m) h.holds b le in
    let count : MeasRep → ℕ = λ r. if reaches be (get_field r field) then 1 else 0 in
    rw here (
      n_out_of_m_loop-eq field n be (get_or hist m zero_rep) (oldest_first zero_rep hist m) 0
      ∙ ap (leb n) (zero-add _ ∙ sum_by-oldest_first zero_rep count hist (suc m) le))
