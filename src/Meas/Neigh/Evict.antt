-- ===== src/Meas/Neigh/Evict.antt =====
-- Which entry a newly reported cell takes, and what the table keeps.
use osmo_bsc.Base.{
  ℕ, zero, suc, ◌+◌, ◌≤◌, ◌<◌, none, some, List, [], ◌∷◌, get_or, length, ◌≡◌, ◌≢◌, ◌⊎◌, refl, inl,
  inr, arith, ltb, ◌==◌, Bool-cases, Option-cases, sym,
}
use osmo_bsc.Meas.Ring.Recent.{size}
use osmo_bsc.Meas.Neigh.{
  NeighMeas, neigh_meas_avg, find_empty, worse, find_worst, find_evict_neigh, no_entry,
}

find_empty-hit :
    (ns : List NeighMeas) (j k : ℕ)
    → find_empty ns j ≡ some k
    → (i : ℕ) × (k ≡ j + i) × (i < length ns) × ((get_or ns i no_entry).arfcn ≡ 0)
unfolding find_empty
find_empty-hit [] j k h = ground arith
find_empty-hit (nmp ∷ ns) j k h = elim (Bool-cases (nmp.arfcn == 0)) [
  | inl e ↦ (0, ground arith, omega arith, ground arith)
  | inr e ↦
      let (i, a, b, c) = find_empty-hit ns (j + 1) k (ground arith) in
      (suc i, omega arith, omega arith, c)
]

find_empty-miss :
    (ns : List NeighMeas) (j i : ℕ)
    → find_empty ns j ≡ none
    → i < length ns
    → (get_or ns i no_entry).arfcn ≢ 0
unfolding find_empty
find_empty-miss [] j i h a = elim a [ ]
find_empty-miss (nmp ∷ ns) j zero h a = ground arith
find_empty-miss (nmp ∷ ns) j (suc i) h a = find_empty-miss ns (j + 1) i (ground arith) (omega arith)

abbrev avg_of : NeighMeas → ℕ
avg_of nmp = neigh_meas_avg nmp size

-- The result of the second loop, started at position `j` with the entry `k0` of average `low0`: an
-- entry of the list or the one that it started with, and no entry has a lower average.
record IsWorst (ns : List NeighMeas) (j k0 low0 k low : ℕ) : Type 0 where
  found :
      ((k ≡ k0) × (low ≡ low0))
      ⊎ ((i : ℕ) × (k ≡ j + i) × (i < length ns) × (avg_of (get_or ns i no_entry) ≡ low))
  lowest : (i : ℕ) → i < length ns → low ≤ avg_of (get_or ns i no_entry)
  start : low ≤ low0

lowest-cons :
    (nmp : NeighMeas) (ns : List NeighMeas) (low : ℕ)
    → low ≤ avg_of nmp
    → ((i : ℕ) → i < length ns → low ≤ avg_of (get_or ns i no_entry))
    → (i : ℕ) → i < length (nmp ∷ ns)
    → low ≤ avg_of (get_or (nmp ∷ ns) i no_entry)
lowest-cons nmp ns low h rest zero a = h
lowest-cons nmp ns low h rest (suc i) a = rest i (omega arith)

find_worst-IsWorst :
    (ns : List NeighMeas) (j k0 low0 k low : ℕ)
    → find_worst ns j (some (k0, low0)) ≡ some (k, low)
    → IsWorst ns j k0 low0 k low
unfolding find_worst
find_worst-IsWorst [] j k0 low0 k low h = record {
  found = inl (ground arith, ground arith);
  lowest = λ i a. elim a [ ];
  start = ground arith;
}
find_worst-IsWorst (nmp ∷ ns) j k0 low0 k low h = elim (Bool-cases (ltb (avg_of nmp) low0)) [
  | inl e ↦
      let w = find_worst-IsWorst ns (j + 1) j (avg_of nmp) k low (rw e at h) in
      record {
        found = elim w.found [
          | inl (a, b) ↦ inr (0, omega arith, omega arith, sym b)
          | inr (i, a, b, c) ↦ inr (suc i, omega arith, omega arith, c)
        ];
        lowest = λ i a. lowest-cons nmp ns low w.start w.lowest i a;
        start = ground (arith, w.start);
      }
  | inr e ↦
      let w = find_worst-IsWorst ns (j + 1) k0 low0 k low (rw e at h) in
      record {
        found = elim w.found [
          | inl (a, b) ↦ inl (a, b)
          | inr (i, a, b, c) ↦ inr (suc i, omega arith, omega arith, c)
        ];
        lowest = λ i a. lowest-cons nmp ns low (ground (arith, w.start)) w.lowest i a;
        start = w.start;
      }
]

find_worst-some :
    (ns : List NeighMeas) (j k0 low0 : ℕ)
    → (k : ℕ) × (low : ℕ) × (find_worst ns j (some (k0, low0)) ≡ some (k, low))
unfolding find_worst
find_worst-some [] j k0 low0 = (k0, low0, refl)
find_worst-some (nmp ∷ ns) j k0 low0 =
    let (k1, low1) = worse j (avg_of nmp) (some (k0, low0)) in find_worst-some ns (j + 1) k1 low1

IsWorst-at :
    (nmp : NeighMeas) (ns : List NeighMeas) (k low : ℕ)
    → IsWorst ns 1 0 (avg_of nmp) k low
    → (k < length (nmp ∷ ns)) × (avg_of (get_or (nmp ∷ ns) k no_entry) ≡ low)
IsWorst-at nmp ns k low w = elim w.found [
  | inl (a, b) ↦ (omega arith, rw a (sym b))
  | inr (i, a, b, c) ↦ (omega arith, let e : k ≡ suc i = omega arith in rw e c)
]

-- The entry that a new cell takes is one of the table. It is unused, or else no entry is unused and
-- none has a lower average over its last ten samples.
pub find_evict_neigh_worst :
    (ns : List NeighMeas) (k : ℕ)
    → find_evict_neigh ns ≡ some k
    → (k < length ns)
      × (((get_or ns k no_entry).arfcn ≡ 0)
          ⊎ ((i : ℕ)
              → i < length ns
              → ((get_or ns i no_entry).arfcn ≢ 0)
                × (neigh_meas_avg (get_or ns k no_entry) size
                    ≤ neigh_meas_avg (get_or ns i no_entry) size)))
unfolding find_evict_neigh find_worst
find_evict_neigh_worst [] k h = ground (arith, find_empty-hit [] 0 k)
find_evict_neigh_worst (nmp ∷ ns) k h = elim (Option-cases (find_empty (nmp ∷ ns) 0)) [
  | inr (j, e) ↦
      let (i, a, b, c) = find_empty-hit (nmp ∷ ns) 0 j e in
      let same : k ≡ i = ground arith in (omega arith, inl (rw same c))
  | inl e ↦
      let (k', low, f) = find_worst-some ns 1 0 (avg_of nmp) in
      let w = find_worst-IsWorst ns 1 0 (avg_of nmp) k' low f in
      let (inside, at) = IsWorst-at nmp ns k' low w in
      let same : k ≡ k' = ground arith in
      (
        rw same inside,
        inr λ i a. (
          find_empty-miss (nmp ∷ ns) 0 i e a,
          rw (same, at) (lowest-cons nmp ns low w.start w.lowest i a),
        ),
      )
]

pub find_evict_neigh_total :
    (ns : List NeighMeas) → 0 < length ns → (k : ℕ) × (find_evict_neigh ns ≡ some k)
unfolding find_evict_neigh find_worst
find_evict_neigh_total [] h = elim h [ ]
find_evict_neigh_total (nmp ∷ ns) h = elim (Option-cases (find_empty (nmp ∷ ns) 0)) [
  | inr (j, e) ↦ (j, ground arith)
  | inl e ↦ let (k, low, f) = find_worst-some ns 1 0 (avg_of nmp) in (k, ground arith)
]
