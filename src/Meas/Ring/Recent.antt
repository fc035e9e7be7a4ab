-- ===== src/Meas/Ring/Recent.antt =====
-- Reading the last samples of a ring gives what was written last.
use osmo_bsc.Base.{
  ℕ, zero, suc, ◌+◌, ◌-◌, ◌%◌, ◌≤◌, ◌<◌, List, [], ◌∷◌, get_or, set, length, ◌≡◌, ◌≢◌, refl, ap,
  ◌∙◌, arith, length-set,
}
use mathlib.Core.Path.{ap₂}
use osmo_bsc.Meas.Ring.{calc_initial_idx, read_from}

-- The sizes of the arrays: MAX_MEAS_REP and MAX_WIN_NEIGH_AVG.
abbrev pub size : ℕ
size = 10

-- The index of the sample written `k` writes before the last one, in a ring that writes next at
-- `idx`.
abbrev pub index_of : ℕ → ℕ → ℕ
index_of idx k = (idx + size - 1 - k) % size

-- The ring holds the newest elements of a history, newest first, as many as fit.
pub record Holds {ℓ} {A : Type ℓ} (d : A) (buf : List A) (idx : ℕ) (hist : List A) : Type ℓ where
  pub full : length buf ≡ size
  pub inside : idx < size
  pub recent :
      (k : ℕ) → k < size → k < length hist → get_or buf (index_of idx k) d ≡ get_or hist k d

module _ {ℓ} {A : Type ℓ} (d : A) where
  get_or-set : (xs : List A) (i j : ℕ) (v : A) → i ≢ j → get_or (set xs i v) j d ≡ get_or xs j d
  get_or-set [] i j v h = refl
  get_or-set (x ∷ xs) zero zero v h = absurd (h refl)
  get_or-set (x ∷ xs) zero (suc j) v h = refl
  get_or-set (x ∷ xs) (suc i) zero v h = refl
  get_or-set (x ∷ xs) (suc i) (suc j) v h = get_or-set xs i j v (λ e. h (omega arith))

  get_or-set_self : (xs : List A) (i : ℕ) (v : A) → i < length xs → get_or (set xs i v) i d ≡ v
  get_or-set_self [] i v h = elim h [ ]
  get_or-set_self (x ∷ xs) zero v h = refl
  get_or-set_self (x ∷ xs) (suc i) v h = get_or-set_self xs i v (omega arith)

  write_recent :
      (buf : List A) (idx : ℕ) (hist : List A) (v : A) (k : ℕ)
      → Holds d buf idx hist
      → k < size
      → k < length (v ∷ hist)
      → get_or (set buf idx v) (index_of ((idx + 1) % size) k) d ≡ get_or (v ∷ hist) k d
  write_recent buf idx hist v zero h a b =
      let e : index_of ((idx + 1) % size) 0 ≡ idx = omega (arith, h.inside) in
      rw e (get_or-set_self buf idx v (omega (arith, h.inside, h.full)))
  write_recent buf idx hist v (suc k) h a b =
      let e : index_of ((idx + 1) % size) (suc k) ≡ index_of idx k = omega (arith, h.inside) in
      rw e (
        get_or-set buf idx (index_of idx k) v (λ q. omega (arith, h.inside))
        ∙ h.recent k (omega arith) (omega arith))

  -- A write at the index, which then goes on by one, puts the sample in front of the history.
  pub write-Holds :
      (buf : List A) (idx : ℕ) (hist : List A) (v : A)
      → Holds d buf idx hist
      → Holds d (set buf idx v) ((idx + 1) % size) (v ∷ hist)
  write-Holds buf idx hist v h = record {
    full = length-set buf idx v ∙ h.full;
    inside = omega arith;
    recent = λ k a b. write_recent buf idx hist v k h a b;
  }

  -- The elements of a history from the `n`-th newest one to the newest, in the order of their writes.
  unfoldable pub oldest_first : List A → ℕ → List A
  oldest_first hist zero = []
  oldest_first hist (suc n) = get_or hist n d ∷ oldest_first hist n

  read_step :
      (idx num i : ℕ)
      → idx < size
      → num ≤ size
      → i < num
      → (calc_initial_idx size idx num + i) % size ≡ index_of idx (num - i - 1)
  unfolding calc_initial_idx
  read_step idx num i a b c = ground arith

  read_from-oldest_first :
      (buf : List A) (idx : ℕ) (hist : List A) (num i n : ℕ)
      → Holds d buf idx hist
      → num ≤ size
      → num ≤ length hist
      → i + n ≡ num
      → read_from d buf size (calc_initial_idx size idx num) i n ≡ oldest_first hist n
  unfolding read_from oldest_first
  read_from-oldest_first buf idx hist num i zero h a b c = refl
  read_from-oldest_first buf idx hist num i (suc n) h a b c =
      let e : num - i - 1 ≡ n = omega arith in
      let here = rw e at (read_step idx num i h.inside a (omega arith)) in
      ap₂ ◌∷◌ (ap (λ j. get_or buf j d) here ∙ h.recent n (omega arith) (omega arith))
        (read_from-oldest_first buf idx hist num (i + 1) n h a b (omega arith))

  -- The loops of meas_rep.c over the last `num` samples read the `num` newest ones, oldest first.
  pub read_from_recent :
      (buf : List A) (idx : ℕ) (hist : List A) (num : ℕ)
      → Holds d buf idx hist
      → num ≤ size
      → num ≤ length hist
      → read_from d buf size (calc_initial_idx size idx num) 0 num ≡ oldest_first hist num
  read_from_recent buf idx hist num h a b =
      read_from-oldest_first buf idx hist num 0 num h a b (omega arith)
