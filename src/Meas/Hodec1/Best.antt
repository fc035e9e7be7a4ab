-- ===== src/Meas/Hodec1/Best.antt =====
-- attempt_handover() picks the strongest neighbour that passes the hysteresis.
use osmo_bsc.Base.{
  ℕ, ◌+◌, ◌-◌, ◌≤◌, ◌<◌, true, Option, none, some, List, [], ◌∷◌, ◌≡◌, ◌≢◌, ◌⊎◌, refl, ap, ◌∙◌, inl,
  inr, arith, Memᴰ,
}
use mathlib.Core.Path.{subst}
use native.Mathlib.Decide.{dec_lt}
use osmo_bsc.Meas.Neigh.{NeighMeas, neigh_meas_avg}
use osmo_bsc.Meas.Hodec1.{HoCfg, consider, best_of, attempt_handover}

module _ (cfg : HoCfg) (rx_lev : ℕ) where
  abbrev pub avg_of : NeighMeas → ℕ
  avg_of nmp = neigh_meas_avg nmp cfg.rxlev_neigh_avg_win

  -- A used entry whose average reaches the serving level plus the hysteresis, and is above that level.
  pub record IsCandidate (nmp : NeighMeas) : Type 0 where
    pub used : nmp.arfcn ≢ 0
    pub hysteresis : rx_lev + cfg.pwr_hysteresis ≤ avg_of nmp
    pub better : rx_lev < avg_of nmp

  -- The state of the loop over the entries of `seen`.
  abbrev Sound : Option NeighMeas × ℕ → Type 0
  Sound (none, db) = db ≡ 0
  Sound (some nmp, db) = IsCandidate nmp × (db ≡ avg_of nmp - rx_lev)

  consider-Sound :
      (nmp : NeighMeas) (best : Option NeighMeas) (db : ℕ)
      → Sound (best, db)
      → Sound (consider cfg rx_lev nmp (best, db)) × (db ≤ (consider cfg rx_lev nmp (best, db)).1)
  unfolding consider
  consider-Sound nmp none db s = ground arith
  consider-Sound nmp (some b) db s = ground arith

  candidate_considered :
      (nmp : NeighMeas) (best : Option NeighMeas) (db : ℕ)
      → IsCandidate nmp
      → avg_of nmp - rx_lev ≤ (consider cfg rx_lev nmp (best, db)).1
  unfolding consider
  candidate_considered nmp best db c = ground arith

  best_of-Sound :
      (ns : List NeighMeas) (best : Option NeighMeas) (db : ℕ)
      → Sound (best, db)
      → Sound (best_of cfg rx_lev ns (best, db)) × (db ≤ (best_of cfg rx_lev ns (best, db)).1)
  unfolding best_of
  best_of-Sound [] best db s = (s, omega arith)
  best_of-Sound (nmp ∷ ns) best db s =
      let (s', le) = consider-Sound nmp best db s in
      let (best', db') = consider cfg rx_lev nmp (best, db) in
      let (s'', le') = best_of-Sound ns best' db' s' in (s'', omega arith)

  best_of_max :
      (ns : List NeighMeas) (best : Option NeighMeas) (db : ℕ) (nmp : NeighMeas)
      → Sound (best, db)
      → Memᴰ nmp ns
      → IsCandidate nmp
      → avg_of nmp - rx_lev ≤ (best_of cfg rx_lev ns (best, db)).1
  unfolding best_of
  best_of_max [] best db nmp s m c = elim m [ ]
  best_of_max (n ∷ ns) best db nmp s (Memᴰ.head e) c =
      let (best', db') = consider cfg rx_lev n (best, db) in
      let here = rw e at (candidate_considered nmp best db c) in
      let (s'', le) = best_of-Sound ns best' db' (consider-Sound n best db s).0 in
      rw e (omega arith)
  best_of_max (n ∷ ns) best db nmp s (Memᴰ.tail m) c =
      let (best', db') = consider cfg rx_lev n (best, db) in
      best_of_max ns best' db' nmp (consider-Sound n best db s).0 m c

  consider-mem :
      (n nmp : NeighMeas) (best : Option NeighMeas) (db : ℕ)
      → (consider cfg rx_lev n (best, db)).0 ≡ some nmp
      → (best ≡ some nmp) ⊎ (nmp ≡ n)
  unfolding consider
  consider-mem n nmp best db h = ground arith

  best_of-mem :
      (ns : List NeighMeas) (best : Option NeighMeas) (db : ℕ) (nmp : NeighMeas)
      → (best_of cfg rx_lev ns (best, db)).0 ≡ some nmp
      → (best ≡ some nmp) ⊎ Memᴰ nmp ns
  unfolding best_of
  best_of-mem [] best db nmp h = inl h
  best_of-mem (n ∷ ns) best db nmp h =
      let (best', db') = consider cfg rx_lev n (best, db) in
      elim (best_of-mem ns best' db' nmp h) [
        | inr m ↦ inr (Memᴰ.tail m)
        | inl e ↦ elim (consider-mem n nmp best db e) [ inl a ↦ inl a | inr b ↦ inr (Memᴰ.head b) ]
      ]

  best-IsCandidate :
      (r : Option NeighMeas) (db : ℕ) (nmp : NeighMeas)
      → Sound (r, db)
      → r ≡ some nmp
      → IsCandidate nmp × (db ≡ avg_of nmp - rx_lev)
  best-IsCandidate none db nmp s e = ground arith
  best-IsCandidate (some b) db nmp s e =
      let e' : b ≡ nmp = ground arith in
      (subst IsCandidate e' s.0, s.1 ∙ ap (λ n. avg_of n - rx_lev) e')

  not_stronger :
      (other nmp : NeighMeas)
      → other.arfcn ≢ 0
      → IsCandidate nmp
      → (IsCandidate other → avg_of other - rx_lev ≤ avg_of nmp - rx_lev)
      → avg_of other ≤ avg_of nmp
  not_stronger other nmp used c max = elim (dec_lt (avg_of nmp) (avg_of other)) [
    | no le ↦ omega arith
    | yes lt ↦ omega (
      arith,
      max (record {
        used = used;
        hysteresis = omega (arith, c.hysteresis);
        better = omega (arith, c.better);
      }),
      c.better,
    )
  ]

  -- The requested target is an entry of the table that passes the hysteresis and is stronger than the
  -- serving cell, and no used entry has a higher average.
  pub attempt_handover_best :
      (ns : List NeighMeas) (nmp : NeighMeas)
      → attempt_handover cfg rx_lev ns ≡ some nmp
      → Memᴰ nmp ns
        × IsCandidate nmp
        × ((other : NeighMeas) → Memᴰ other ns → other.arfcn ≢ 0 → avg_of other ≤ avg_of nmp)
  unfolding attempt_handover
  attempt_handover_best ns nmp h =
      let e : (best_of cfg rx_lev ns (none, 0)).0 ≡ some nmp = ground arith in
      let (s, _) = best_of-Sound ns none 0 refl in
      let (c, db) =
        best-IsCandidate (best_of cfg rx_lev ns (none, 0)).0 (best_of cfg rx_lev ns (none, 0)).1 nmp
          s e in
      (
        elim (best_of-mem ns none 0 nmp e) [ inl x ↦ ground arith | inr m ↦ m ],
        c,
        λ other m used.
            not_stronger other nmp used c λ k. rw (← db) (best_of_max ns none 0 other refl m k),
      )

  -- With handover enabled, no request means that no entry of the table is a candidate.
  pub attempt_handover-none :
      (ns : List NeighMeas) (nmp : NeighMeas)
      → cfg.ho_active ≡ true
      → attempt_handover cfg rx_lev ns ≡ none
      → Memᴰ nmp ns
      → ¬ IsCandidate nmp
  unfolding attempt_handover
  attempt_handover-none ns nmp on h m c =
      let (s, _) = best_of-Sound ns none 0 refl in
      ground (arith, best_of_max ns none 0 nmp refl m c)
