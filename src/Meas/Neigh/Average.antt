-- ===== src/Meas/Neigh/Average.antt =====
-- The average of a neighbour's levels against the levels reported for it since its entry was taken.
use osmo_bsc.Base.{
  ℕ, ◌+◌, ◌/◌, ◌%◌, ◌≤◌, Option, none, some, List, [], ◌∷◌, take, length, ◌≡◌, refl, sym, ◌∙◌,
  arith, ◌==◌, if◌then◌else◌, min,
}
use osmo_bsc.Meas.Ring.{calc_initial_idx, read_from}
use osmo_bsc.Meas.Ring.Recent.{size, Holds, write-Holds, oldest_first, read_from_recent}
use osmo_bsc.Meas.Report.History.{sum_by, sum_by-oldest_first}
use osmo_bsc.Meas.Neigh.{
  NeighMeas, RepCell, sum, neigh_meas_avg, push_sample, update_entry, reuse_entry,
}

-- The entry has taken exactly these samples, newest first, and its ring holds the newest of them.
pub record IsSampled (nmp : NeighMeas) (hist : List ℕ) : Type 0 where
  pub holds : Holds 0 nmp.rxlev (nmp.rxlev_cnt % size) hist
  pub counted : nmp.rxlev_cnt ≡ length hist

-- The ring of an entry is an array of its size, used or not.
abbrev pub HasRing : NeighMeas → Type 0
HasRing nmp = length nmp.rxlev ≡ size

push_sample-IsSampled :
    (nmp : NeighMeas) (hist : List ℕ) (lev : ℕ)
    → IsSampled nmp hist
    → IsSampled (push_sample nmp lev) (lev ∷ hist)
push_sample-IsSampled nmp hist lev s =
    let e : (nmp.rxlev_cnt + 1) % size ≡ (nmp.rxlev_cnt % size + 1) % size = omega arith in
    record {
      holds = rw e (write-Holds 0 nmp.rxlev (nmp.rxlev_cnt % size) hist lev s.holds);
      counted = omega (arith, s.counted);
    }

abbrev pub sample_of : Option ℕ → ℕ
sample_of none = 0
sample_of (some lev) = lev

-- A report adds its level for the cell to the samples of the entry, and 0 if it has none.
pub update_entry-IsSampled :
    (nmp : NeighMeas) (hist : List ℕ) (nr : ℕ) (lev : Option ℕ)
    → IsSampled nmp hist
    → IsSampled (update_entry nmp nr lev) (sample_of lev ∷ hist)
update_entry-IsSampled nmp hist nr none s = push_sample-IsSampled nmp hist 0 s
update_entry-IsSampled nmp hist nr (some lev) s =
    push_sample-IsSampled (record nmp { last_seen_nr = nr }) hist lev
      (record { holds = s.holds; counted = s.counted })

-- A reused entry starts with the reported level as its only sample: what the ring still holds of the
-- evicted cell is never averaged.
pub reuse_entry-IsSampled :
    (nr : ℕ) (c : RepCell) (nmp : NeighMeas)
    → HasRing nmp
    → IsSampled (reuse_entry nr c nmp) (c.rxlev ∷ [])
reuse_entry-IsSampled nr c nmp full =
    push_sample-IsSampled
      (record nmp { arfcn = c.arfcn; bsic = c.bsic; rxlev_cnt = 0; last_seen_nr = nr }) [] c.rxlev
      (record {
        holds = record { full = full; inside = omega arith; recent = λ k a b. elim b [ ] };
        counted = refl;
      })

sum-sum_by : (xs : List ℕ) → sum xs ≡ sum_by (λ x. x) xs
sum-sum_by [] = refl
sum-sum_by (x ∷ xs) = omega (arith, sum-sum_by xs)

avg_at :
    (nmp : NeighMeas) (hist : List ℕ) (window : ℕ)
    → IsSampled nmp hist
    → window ≤ size
    → window ≤ length hist
    → sum
        (read_from 0 nmp.rxlev size (calc_initial_idx size (nmp.rxlev_cnt % size) window) 0 window)
      ≡ sum (take window hist)
avg_at nmp hist window s a b =
    rw (read_from_recent 0 nmp.rxlev (nmp.rxlev_cnt % size) hist window s.holds a b) (
      sum-sum_by (oldest_first 0 hist window)
      ∙ sum_by-oldest_first 0 (λ x. x) hist window b
      ∙ sym (sum-sum_by (take window hist)))

-- neigh_meas_avg() with a window of at most 10 is the rounded down mean of the newest samples of the
-- entry, as many as the window asks for and there are; without a sample or a window it is 0.
pub neigh_meas_avg_mean :
    (nmp : NeighMeas) (hist : List ℕ) (window : ℕ)
    → IsSampled nmp hist
    → window ≤ size
    → neigh_meas_avg nmp window ≡ (
        if min window (length hist) == 0
        then 0
        else sum (take (min window (length hist)) hist) / min window (length hist))
unfolding neigh_meas_avg
neigh_meas_avg_mean nmp hist window s a =
    ground (arith, avg_at nmp hist window s a, avg_at nmp hist (length hist) s)
