-- ===== src/Meas/Neigh.antt =====
-- The neighbour measurements of an lchan, src/osmo-bsc/handover_decision.c: what a measurement report
-- does to the table, and the averages that the decision reads.
pub mod Average
pub mod Evict
pub mod Process
pub mod Enter
use osmo_bsc.Base.{
  ℕ, zero, suc, ◌+◌, ◌/◌, ◌%◌, Bool, true, false, ◌&&◌, Option, none, some, List, [], ◌∷◌, set,
  get_or, ltb, ◌==◌, if◌then◌else◌,
}
use osmo_bsc.Meas.Ring.{calc_initial_idx, read_from}
use osmo_bsc.Meas.Ring.Recent.{size}

-- struct neigh_meas_proc; an entry with arfcn 0 is unused.
pub record NeighMeas : Type 0 where
  pub arfcn : ℕ
  pub bsic : ℕ
  pub rxlev : List ℕ
  pub rxlev_cnt : ℕ
  pub last_seen_nr : ℕ

-- struct gsm_meas_rep_cell; `processed` is the flag MRC_F_PROCESSED.
pub record RepCell : Type 0 where
  pub arfcn : ℕ
  pub bsic : ℕ
  pub rxlev : ℕ
  pub processed : Bool

-- rxlev_for_cell_in_rep(): the level of the first cell that matches, which is marked.
unfoldable pub rxlev_for_cell_in_rep : List RepCell → ℕ → ℕ → Option ℕ × List RepCell
rxlev_for_cell_in_rep [] arfcn bsic = (none, [])
rxlev_for_cell_in_rep (c ∷ cs) arfcn bsic =
    let (r, cs') = rxlev_for_cell_in_rep cs arfcn bsic in
    if (c.arfcn == arfcn) && (c.bsic == bsic)
    then (some c.rxlev, record c { processed = true } ∷ cs)
    else (r, c ∷ cs')

abbrev pub sum : List ℕ → ℕ
sum [] = 0
sum (x ∷ xs) = x + sum xs

-- neigh_meas_avg(); the window is not negative.
unfoldable pub neigh_meas_avg : NeighMeas → ℕ → ℕ
neigh_meas_avg nmp window =
    let window' = if ltb nmp.rxlev_cnt window then nmp.rxlev_cnt else window in
    if window' == 0
    then 0
    else sum (
        read_from 0 nmp.rxlev size (calc_initial_idx size (nmp.rxlev_cnt % size) window') 0 window')
      / window'

-- The first loop of find_evict_neigh(): the first unused entry, from position `j` on.
unfoldable pub find_empty : List NeighMeas → ℕ → Option ℕ
find_empty [] j = none
find_empty (nmp ∷ ns) j = if nmp.arfcn == 0 then some j else find_empty ns (j + 1)

-- if (!nmp_worst || avg < worst) { worst = avg; nmp_worst = nmp; }
abbrev pub worse : ℕ → ℕ → Option (ℕ × ℕ) → ℕ × ℕ
worse j avg none = (j, avg)
worse j avg (some (k, lowest)) = if ltb avg lowest then (j, avg) else (k, lowest)

-- The second loop: the position of the entry with the lowest average, with that average.
unfoldable pub find_worst : List NeighMeas → ℕ → Option (ℕ × ℕ) → Option (ℕ × ℕ)
find_worst [] j worst = worst
find_worst (nmp ∷ ns) j worst =
    find_worst ns (j + 1) (some (worse j (neigh_meas_avg nmp size) worst))

abbrev fst_or : Option ℕ → Option (ℕ × ℕ) → Option ℕ
fst_or (some j) worst = some j
fst_or none none = none
fst_or none (some (k, avg)) = some k

-- find_evict_neigh(): the position of the entry to use, `none` for NULL.
unfoldable pub find_evict_neigh : List NeighMeas → Option ℕ
find_evict_neigh ns = fst_or (find_empty ns 0) (find_worst ns 0 none)

-- A sample written at rxlev_cnt % ARRAY_SIZE(rxlev), and rxlev_cnt++.
abbrev pub push_sample : NeighMeas → ℕ → NeighMeas
push_sample nmp lev = record nmp {
  rxlev = set nmp.rxlev (nmp.rxlev_cnt % size) lev;
  rxlev_cnt = nmp.rxlev_cnt + 1;
}

abbrev pub update_entry : NeighMeas → ℕ → Option ℕ → NeighMeas
update_entry nmp nr (some lev) = push_sample (record nmp { last_seen_nr = nr }) lev
update_entry nmp nr none = push_sample nmp 0

-- The first loop of process_meas_neigh(): a used entry gets the level that the report has for its
-- cell, or 0.
unfoldable pub update_known : ℕ → List NeighMeas → List RepCell → List NeighMeas × List RepCell
unfolding rxlev_for_cell_in_rep
update_known nr [] cells = ([], cells)
update_known nr (nmp ∷ ns) cells =
    let (lev, marked) = rxlev_for_cell_in_rep cells nmp.arfcn nmp.bsic in
    let (rest, cells') = update_known nr ns (if nmp.arfcn == 0 then cells else marked) in
    ((if nmp.arfcn == 0 then nmp else update_entry nmp nr lev) ∷ rest, cells')

-- What the second loop makes of the entry that it reuses; the array keeps its old samples.
abbrev pub reuse_entry : ℕ → RepCell → NeighMeas → NeighMeas
reuse_entry nr c nmp =
    push_sample (record nmp { arfcn = c.arfcn; bsic = c.bsic; rxlev_cnt = 0; last_seen_nr = nr })
      c.rxlev

abbrev pub no_entry : NeighMeas
no_entry = record { arfcn = 0; bsic = 0; rxlev = []; rxlev_cnt = 0; last_seen_nr = 0 }

pub reuse_at : ℕ → RepCell → List NeighMeas → Option ℕ → List NeighMeas
reuse_at nr c ns none = ns
reuse_at nr c ns (some j) = set ns j (reuse_entry nr c (get_or ns j no_entry))

-- The second loop of process_meas_neigh(), over the reported cells.
unfoldable pub add_new : ℕ → List NeighMeas → List RepCell → List NeighMeas × List RepCell
unfolding find_evict_neigh reuse_at
add_new nr ns [] = (ns, [])
add_new nr ns (c ∷ cs) =
    let next = if c.processed then ns else reuse_at nr c ns (find_evict_neigh ns) in
    let (ns', cs') = add_new nr next cs in (ns', record c { processed = true } ∷ cs')

-- process_meas_neigh()
unfoldable pub process_meas_neigh :
    ℕ → List NeighMeas → List RepCell → List NeighMeas × List RepCell
unfolding update_known add_new
process_meas_neigh nr ns cells =
    let (ns', cells') = update_known nr ns cells in add_new nr ns' cells'
