-- ===== src/Meas/Neigh/Process.antt =====
-- process_meas_neigh(): what its two loops do to the rings of the table of neighbours.
use osmo_bsc.Base.{
  ℕ, zero, suc, ◌%◌, ◌<◌, Option, none, some, List, [], ◌∷◌, get_or, set, length, ◌≡◌, refl, inl,
  inr, arith, ◌==◌, if◌then◌else◌, All, length-set, Bool-cases, ap, ◌∙◌,
}
use osmo_bsc.Meas.Ring.Recent.{size}
use osmo_bsc.Meas.Neigh.{
  NeighMeas, RepCell, find_evict_neigh, update_entry, update_known, reuse_at, reuse_entry, no_entry,
  rxlev_for_cell_in_rep,
}
use osmo_bsc.Meas.Neigh.Average.{HasRing}
use osmo_bsc.Meas.Neigh.Evict.{find_evict_neigh_worst}

-- Every entry of the table has its ring.
abbrev pub HasRings : List NeighMeas → Type 0
HasRings = All HasRing

pub HasRings-set :
    (ns : List NeighMeas) (i : ℕ) (v : NeighMeas) → HasRings ns → HasRing v → HasRings (set ns i v)
HasRings-set [] i v h hv = tt
HasRings-set (n ∷ ns) zero v h hv = (hv, h.1)
HasRings-set (n ∷ ns) (suc i) v h hv = (h.0, HasRings-set ns i v h.1 hv)

HasRings-get_or :
    (ns : List NeighMeas) (i : ℕ) → HasRings ns → i < length ns → HasRing (get_or ns i no_entry)
HasRings-get_or [] i h a = elim a [ ]
HasRings-get_or (n ∷ ns) zero h a = h.0
HasRings-get_or (n ∷ ns) (suc i) h a = HasRings-get_or ns i h.1 (omega arith)

update_entry-HasRing :
    (nmp : NeighMeas) (nr : ℕ) (lev : Option ℕ) → HasRing nmp → HasRing (update_entry nmp nr lev)
update_entry-HasRing nmp nr none h = length-set nmp.rxlev (nmp.rxlev_cnt % size) 0 ∙ h
update_entry-HasRing nmp nr (some lev) h = length-set nmp.rxlev (nmp.rxlev_cnt % size) lev ∙ h

pub update_known_keeps :
    (nr : ℕ) (ns : List NeighMeas) (cells : List RepCell)
    → HasRings ns
    → HasRings (update_known nr ns cells).0 × (length (update_known nr ns cells).0 ≡ length ns)
unfolding update_known
update_known_keeps nr [] cells h = (tt, refl)
update_known_keeps nr (nmp ∷ ns) cells h =
    let (lev, marked) = rxlev_for_cell_in_rep cells nmp.arfcn nmp.bsic in
    let (a, b) = update_known_keeps nr ns (if nmp.arfcn == 0 then cells else marked) h.1 in
    elim (Bool-cases (nmp.arfcn == 0)) [
      | inl e ↦ ((rw e h.0, a), ap suc b)
      | inr e ↦ ((rw e (update_entry-HasRing nmp nr lev h.0), a), ap suc b)
    ]

pub reuse_at_keeps :
    (nr : ℕ) (c : RepCell) (ns : List NeighMeas) (k : Option ℕ)
    → HasRings ns
    → find_evict_neigh ns ≡ k
    → HasRings (reuse_at nr c ns k) × (length (reuse_at nr c ns k) ≡ length ns)
unfolding reuse_at
reuse_at_keeps nr c ns none h e = (h, refl)
reuse_at_keeps nr c ns (some j) h e =
    let (inside, _) = find_evict_neigh_worst ns j e in
    let old = get_or ns j no_entry in
    (
      HasRings-set ns j (reuse_entry nr c old) h
          (length-set old.rxlev 0 c.rxlev ∙ HasRings-get_or ns j h inside),
      length-set ns j (reuse_entry nr c old),
    )
