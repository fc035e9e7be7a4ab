-- ===== src/Meas/Neigh/Enter.antt =====
-- process_meas_neigh(): the reported cells that the table of neighbours does not know yet.
use osmo_bsc.Base.{
  ℕ, zero, suc, ◌+◌, ◌<◌, ◌≤◌, Bool, true, false, ◌&&◌, ◌||◌, some, List, [], ◌∷◌, get_or, set,
  length, ◌≡◌, ◌≢◌, ◌⊎◌, refl, inl, inr, arith, ◌==◌, if◌then◌else◌, All, Bool-cases, ap, ◌∙◌, sym,
}
use osmo_bsc.Meas.Ring.Recent.{size}
use osmo_bsc.Meas.Neigh.{
  NeighMeas, RepCell, find_empty, find_evict_neigh, update_known, add_new, reuse_at, reuse_entry,
  process_meas_neigh, no_entry,
}
use osmo_bsc.Meas.Neigh.Average.{HasRing}
use Prim.{tt}
use mathlib.Core.Path.{subst}
use osmo_bsc.Meas.Neigh.Process.{HasRings, reuse_at_keeps, update_known_keeps}

-- The entry of a cell that was new in this report: its level is the one sample.
abbrev pub is_entry : ℕ → RepCell → NeighMeas → Bool
is_entry nr c nmp =
    (nmp.arfcn == c.arfcn)
    && ((nmp.bsic == c.bsic)
        && ((nmp.rxlev_cnt == 1)
            && ((get_or nmp.rxlev 0 0 == c.rxlev) && (nmp.last_seen_nr == nr))))

abbrev pub has_entry : ℕ → RepCell → List NeighMeas → Bool
has_entry nr c [] = false
has_entry nr c (nmp ∷ ns) = is_entry nr c nmp || has_entry nr c ns

-- How many entries are unused, and how many cells are not known.
abbrev pub room : List NeighMeas → ℕ
room [] = 0
room (nmp ∷ ns) = (if nmp.arfcn == 0 then 1 else 0) + room ns

abbrev pub unknown : List RepCell → ℕ
unknown [] = 0
unknown (c ∷ cs) = (if c.processed then 0 else 1) + unknown cs

find_empty-room :
    (ns : List NeighMeas) (j : ℕ)
    → 1 ≤ room ns
    → (i : ℕ) × ((find_empty ns j ≡ some (j + i))
        × ((i < length ns) × ((get_or ns i no_entry).arfcn ≡ 0)))
unfolding find_empty
find_empty-room [] j h = absurd (omega arith)
find_empty-room (nmp ∷ ns) j h = elim (Bool-cases (nmp.arfcn == 0)) [
  | inl e ↦
      let at : j ≡ j + 0 = omega arith in (0, (rw e (ap some at), (omega arith, ground arith)))
  | inr e ↦
      let less : 1 ≤ room ns = ground arith in
      let (i, (found, (inside, unused))) = find_empty-room ns (j + 1) less in
      let at : j + 1 + i ≡ j + suc i = omega arith in
      (suc i, (rw e (found ∙ ap some at), (omega arith, unused)))
]

first_value : (xs : List ℕ) (v : ℕ) → length xs ≡ size → get_or (set xs 0 v) 0 0 ≡ v
first_value [] v h = absurd (omega arith)
first_value (x ∷ xs) v h = refl

same_number : (m n : ℕ) → m ≡ n → (m == n) ≡ true
same_number m n e = ground arith

or_right : (a b : Bool) → b ≡ true → (a || b) ≡ true
or_right true b e = refl
or_right false b e = e

reuse-is_entry :
    (nr : ℕ) (c : RepCell) (nmp : NeighMeas)
    → HasRing nmp
    → is_entry nr c (reuse_entry nr c nmp) ≡ true
reuse-is_entry nr c nmp h =
    rw
      (
        same_number c.arfcn c.arfcn refl,
        same_number c.bsic c.bsic refl,
        same_number _ _ (first_value nmp.rxlev c.rxlev h),
        same_number nr nr refl,
      )
      refl

set-has_entry :
    (nr : ℕ) (c : RepCell) (ns : List NeighMeas) (i : ℕ)
    → HasRings ns
    → i < length ns
    → has_entry nr c (set ns i (reuse_entry nr c (get_or ns i no_entry))) ≡ true
set-has_entry nr c [] i h lt = absurd (omega arith)
set-has_entry nr c (nmp ∷ ns) zero h lt = rw (reuse-is_entry nr c nmp h.0) refl
set-has_entry nr c (nmp ∷ ns) (suc i) h lt =
    or_right _ _ (set-has_entry nr c ns i h.1 (omega arith))

-- An entry is not lost to an unused one.
set_keeps :
    (nr : ℕ) (d : RepCell) (ns : List NeighMeas) (i : ℕ) (v : NeighMeas)
    → (get_or ns i no_entry).arfcn ≡ 0
    → d.arfcn ≢ 0
    → has_entry nr d ns ≡ true
    → has_entry nr d (set ns i v) ≡ true
set_keeps nr d [] i v z ne h = h
set_keeps nr d (nmp ∷ ns) zero v z ne h =
    let other : (nmp.arfcn == d.arfcn) ≡ false = ground arith in or_right _ _ (simp other at h)
set_keeps nr d (nmp ∷ ns) (suc i) v z ne h = elim (Bool-cases (is_entry nr d nmp)) [
  | inl e ↦ rw e refl
  | inr e ↦ or_right _ _ (set_keeps nr d ns i v z ne (simp e at h))
]

set-room : (ns : List NeighMeas) (i : ℕ) (v : NeighMeas) → room ns ≤ room (set ns i v) + 1
set-room [] i v = omega arith
set-room (nmp ∷ ns) zero v = ground arith
set-room (nmp ∷ ns) (suc i) v = let rest = set-room ns i v in omega arith

-- What the place of a new cell is, where there is room.
record Place (nr : ℕ) (c : RepCell) (ns : List NeighMeas) : Type 0 where
  at : ℕ
  inside : at < length ns
  unused : (get_or ns at no_entry).arfcn ≡ 0
  reused :
      reuse_at nr c ns (find_evict_neigh ns) ≡ set ns at (reuse_entry nr c (get_or ns at no_entry))

place_lem : (nr : ℕ) (c : RepCell) (ns : List NeighMeas) → 1 ≤ room ns → Place nr c ns
unfolding find_evict_neigh reuse_at
place_lem nr c ns h =
    let (i, (found, (inside, unused))) = find_empty-room ns 0 h in
    let found' : find_empty ns 0 ≡ some i = found ∙ ap some (omega arith) in
    record { at = i; inside = inside; unused = unused; reused = rw found' refl }

-- The cell enters, no entry is lost, and one unused entry at most is taken.
module _ (nr : ℕ) (c : RepCell) (ns : List NeighMeas) (h : 1 ≤ room ns) where
  reused_enters : HasRings ns → has_entry nr c (reuse_at nr c ns (find_evict_neigh ns)) ≡ true
  reused_enters rings =
      let p = place_lem nr c ns h in rw p.reused (set-has_entry nr c ns p.at rings p.inside)

  reused_keeps :
      (d : RepCell)
      → d.arfcn ≢ 0
      → has_entry nr d ns ≡ true
      → has_entry nr d (reuse_at nr c ns (find_evict_neigh ns)) ≡ true
  reused_keeps d ne e =
      let p = place_lem nr c ns h in rw p.reused (set_keeps nr d ns p.at _ p.unused ne e)

  reused_room : room ns ≤ room (reuse_at nr c ns (find_evict_neigh ns)) + 1
  reused_room = let p = place_lem nr c ns h in rw p.reused (set-room ns p.at _)

add_new_holds :
    (nr : ℕ) (d : RepCell) (ns : List NeighMeas) (cells : List RepCell)
    → d.arfcn ≢ 0
    → unknown cells ≤ room ns
    → has_entry nr d ns ≡ true
    → has_entry nr d (add_new nr ns cells).0 ≡ true
unfolding add_new
add_new_holds nr d ns [] ne le h = h
add_new_holds nr d ns (c ∷ cs) ne le h = elim (Bool-cases c.processed) [
  | inl e ↦
      let less : unknown cs ≤ room ns = ground arith in simp e (add_new_holds nr d ns cs ne less h)
  | inr e ↦
      let some_room : 1 ≤ room ns = ground arith in
      let left = reused_room nr c ns some_room in
      let less : unknown cs ≤ room (reuse_at nr c ns (find_evict_neigh ns)) = ground arith in
      simp e (
        add_new_holds nr d (reuse_at nr c ns (find_evict_neigh ns)) cs ne less
          (reused_keeps nr c ns some_room d ne h))
]

abbrev pub Entered : ℕ → List NeighMeas → RepCell → Type 0
Entered nr ns c = (c.processed ≡ true) ⊎ (has_entry nr c ns ≡ true)

-- The table after the first cell is done.
after_first :
    (nr : ℕ) (ns : List NeighMeas) (c : RepCell) (cs : List RepCell) (b : Bool)
    → c.processed ≡ b
    → (add_new nr ns (c ∷ cs)).0
      ≡ (add_new nr (if b then ns else reuse_at nr c ns (find_evict_neigh ns)) cs).0
unfolding add_new
after_first nr ns c cs b e =
    ap (λ q. (add_new nr (if q then ns else reuse_at nr c ns (find_evict_neigh ns)) cs).0) e

add_new_enters :
    (nr : ℕ) (ns : List NeighMeas) (cells : List RepCell)
    → HasRings ns
    → All (λ c. c.arfcn ≢ 0) cells
    → unknown cells ≤ room ns
    → All (Entered nr (add_new nr ns cells).0) cells
add_new_enters nr ns [] rings ne le = tt
add_new_enters nr ns (c ∷ cs) rings ne le = elim (Bool-cases c.processed) [
  | inl e ↦
      let less : unknown cs ≤ room ns = ground arith in
      (
        inl e,
        subst (λ t. All (Entered nr t) cs) (sym (after_first nr ns c cs true e))
            (add_new_enters nr ns cs rings ne.1 less),
      )
  | inr e ↦
      let some_room : 1 ≤ room ns = ground arith in
      let left = reused_room nr c ns some_room in
      let ns' = reuse_at nr c ns (find_evict_neigh ns) in
      let less : unknown cs ≤ room ns' = ground arith in
      let rings' = (reuse_at_keeps nr c ns (find_evict_neigh ns) rings refl).0 in
      (
        inr (
            ap (has_entry nr c) (after_first nr ns c cs false e)
            ∙ add_new_holds nr c ns' cs ne.0 less (reused_enters nr c ns some_room rings)),
        subst (λ t. All (Entered nr t) cs) (sym (after_first nr ns c cs false e))
            (add_new_enters nr ns' cs rings' ne.1 less),
      )
]

-- Let every entry of the table have its ring of ten samples, and let `known` and `cells'` be what the first loop of
-- process_meas_neigh() makes of the table and of the reported cells, which have an ARFCN other than 0. If
-- at least as many entries of `known` are unused as cells in `cells'` are not processed, then each of
-- these cells has an entry in the final table: with its ARFCN and BSIC, its level as the one sample, last
-- seen in this report.
pub process_meas_neigh_enters :
    (nr : ℕ) (ns : List NeighMeas) (cells : List RepCell)
    → HasRings ns
    → All (λ c. c.arfcn ≢ 0) (update_known nr ns cells).1
    → unknown (update_known nr ns cells).1 ≤ room (update_known nr ns cells).0
    → All (Entered nr (process_meas_neigh nr ns cells).0) (update_known nr ns cells).1
unfolding process_meas_neigh
process_meas_neigh_enters nr ns cells rings ne le =
    add_new_enters nr (update_known nr ns cells).0 (update_known nr ns cells).1
      (update_known_keeps nr ns cells rings).0 ne le
