-- ===== src/Timeslot/Quiet.antt =====
-- Which lchans of a timeslot wait, through the loops over them.
use Prim.{tt}
use osmo_bsc.Base.{
  ℕ, Bool, true, false, List, [], ◌∷◌, ◌≡◌, ◌⊎◌, inl, inr, refl, sym, ap, ◌∙◌, arith, Bool-cases,
  ◌==◌,
}
use osmo_bsc.Chan.Usable.{is_waiting}
use osmo_bsc.Timeslot.{TsFsm, slots, visits, for_each_potential, count_lchans, ts_lchans_waiting}
use osmo_bsc.Timeslot.Calm.{waits, Calm, Calm-refl, Calm-trans}

-- Of the lchans that a loop over `is` visits, none waits but those that `except` tells.
abbrev pub Quiet : (ℕ → Bool) → List ℕ → TsFsm → Type 0
Quiet except [] ts = Unit
Quiet except (i ∷ is) ts =
    (visits ts.pchan_on_init i ts ≡ false)
    ⊎ (((except i ≡ true) ⊎ (waits i ts ≡ false)) × Quiet except is ts)

abbrev pub nobody : ℕ → Bool
nobody i = false

visits-Calm :
    {ts ts' : TsFsm} (i : ℕ)
    → Calm ts ts'
    → visits ts'.pchan_on_init i ts' ≡ visits ts.pchan_on_init i ts
unfolding visits
visits-Calm {ts = ts} {ts' = ts'} i c = rw (c.same_on_init, c.same_fi i) refl

waits-Calm : {ts ts' : TsFsm} (i : ℕ) → Calm ts ts' → waits i ts ≡ false → waits i ts' ≡ false
waits-Calm {ts = ts} {ts' = ts'} i c w = elim (Bool-cases (waits i ts')) [
  | inl e ↦ let e' = c.waits_less i e in ground arith
  | inr e ↦ e
]

pub Quiet-Calm :
    (except : ℕ → Bool) {ts ts' : TsFsm} (is : List ℕ)
    → Calm ts ts'
    → Quiet except is ts
    → Quiet except is ts'
Quiet-Calm ex [] c q = tt
Quiet-Calm ex (i ∷ is) c (inl v) = inl (visits-Calm i c ∙ v)
Quiet-Calm ex (i ∷ is) c (inr (inl e, q)) = inr (inl e, Quiet-Calm ex is c q)
Quiet-Calm ex (i ∷ is) c (inr (inr w, q)) = inr (inr (waits-Calm i c w), Quiet-Calm ex is c q)

-- If the excepted lchan does not wait either, there is no exception.
pub Quiet-all :
    (ts : TsFsm) (k : ℕ) (is : List ℕ)
    → waits k ts ≡ false
    → Quiet (λ i. k == i) is ts
    → Quiet nobody is ts
Quiet-all ts k [] w q = tt
Quiet-all ts k (i ∷ is) w (inl v) = inl v
Quiet-all ts k (i ∷ is) w (inr (inl e, q)) =
    let same : k ≡ i = ground arith in
    inr (inr (ap (λ j. waits j ts) (sym same) ∙ w), Quiet-all ts k is w q)
Quiet-all ts k (i ∷ is) w (inr (inr e, q)) = inr (inr e, Quiet-all ts k is w q)

Quiet-count :
    (is : List ℕ) (ts : TsFsm)
    → Quiet nobody is ts
    → count_lchans ts.pchan_on_init is_waiting is ts ≡ 0
unfolding count_lchans
Quiet-count [] ts q = refl
Quiet-count (i ∷ is) ts (inl v) = rw v refl
Quiet-count (i ∷ is) ts (inr (inl e, q)) = cc
Quiet-count (i ∷ is) ts (inr (inr w, q)) = ground (arith, Quiet-count is ts q)

count-Quiet :
    (is : List ℕ) (ts : TsFsm)
    → count_lchans ts.pchan_on_init is_waiting is ts ≡ 0
    → Quiet nobody is ts
unfolding count_lchans
count-Quiet [] ts c = tt
count-Quiet (i ∷ is) ts c = elim (Bool-cases (visits ts.pchan_on_init i ts)) [
  | inl v ↦ elim (Bool-cases (waits i ts)) [
    | inl w ↦ absurd (ground arith)
    | inr w ↦ inr (inr w, count-Quiet is ts (ground arith))
  ]
  | inr v ↦ inl v
]

pub Quiet-ts_lchans_waiting : (ts : TsFsm) → Quiet nobody slots ts → ts_lchans_waiting ts ≡ 0
unfolding ts_lchans_waiting
Quiet-ts_lchans_waiting ts q = Quiet-count slots ts q

pub ts_lchans_waiting-Quiet : (ts : TsFsm) → ts_lchans_waiting ts ≡ 0 → Quiet nobody slots ts
unfolding ts_lchans_waiting
ts_lchans_waiting-Quiet ts c = count-Quiet slots ts c

-- A loop whose every round is calm and leaves its lchan not waiting.
pub for_each-Calm :
    (body : ℕ → TsFsm → TsFsm) (is : List ℕ) (ts : TsFsm)
    → ((i : ℕ) (q : TsFsm) → Calm q (body i q))
    → Calm ts (for_each_potential body is ts)
unfolding for_each_potential
for_each-Calm body [] ts c = Calm-refl ts
for_each-Calm body (i ∷ is) ts c = elim (Bool-cases (visits ts.pchan_on_init i ts)) [
  | inl v ↦ rw v (Calm-trans (c i ts) (for_each-Calm body is (body i ts) c))
  | inr v ↦ rw v (Calm-refl ts)
]

pub for_each-Quiet :
    (body : ℕ → TsFsm → TsFsm) (is : List ℕ) (ts : TsFsm)
    → ((i : ℕ) (q : TsFsm) → Calm q (body i q))
    → ((i : ℕ) (q : TsFsm) → waits i (body i q) ≡ false)
    → Quiet nobody is (for_each_potential body is ts)
unfolding for_each_potential
for_each-Quiet body [] ts c s = tt
for_each-Quiet body (i ∷ is) ts c s = elim (Bool-cases (visits ts.pchan_on_init i ts)) [
  | inl v ↦ rw v (
      inr (
        inr (waits-Calm i (for_each-Calm body is (body i ts) c) (s i ts)),
        for_each-Quiet body is (body i ts) c s,
      ))
  | inr v ↦ rw v (inl v)
]
