-- ===== src/Meas/Hodec1.antt =====
-- Handover algorithm 1, src/osmo-bsc/handover_decision.c: when a measurement report leads to a
-- handover request, and to which cell. The configuration values are those that the ho_get_*()
-- functions return for the BTS.
pub mod Best
pub mod Decide
mod Tests
use osmo_bsc.Base.{
  ℕ, ◌+◌, ◌-◌, ◌%◌, Bool, true, false, not, ◌&&◌, ◌||◌, Option, none, some, List, [], ◌∷◌, ltb, leb,
  ◌==◌, if◌then◌else◌, length,
}
use osmo_bsc.Base.Int.{ℤ, pos, negsuc, ltb_ℤ, leb_ℤ}
use osmo_bsc.Chan.Types.{ChanType, lchan_tch_f, lchan_tch_h}
use osmo_bsc.Meas.Report.{
  MeasRep, Field, dl_rxlev_full, dl_rxlev_sub, dl_rxqual_full, dl_rxqual_sub, Cache,
  get_meas_rep_avg, meas_rep_n_out_of_m_be,
}
use osmo_bsc.Meas.Neigh.{NeighMeas, RepCell, neigh_meas_avg, process_meas_neigh}

-- The handover configuration of the BTS that algorithm 1 reads.
pub record HoCfg : Type 0 where
  pub algorithm : ℕ
  pub ho_active : Bool
  pub rxlev_avg_win : ℕ
  pub rxlev_neigh_avg_win : ℕ
  pub pwr_interval : ℕ
  pub pwr_hysteresis : ℕ
  pub max_distance : ℕ

-- One round of the loop of attempt_handover(): the best cell so far and by how much it is better.
-- `better` is not negative where it is computed.
unfoldable pub consider : HoCfg → ℕ → NeighMeas → Option NeighMeas × ℕ → Option NeighMeas × ℕ
consider cfg rx_lev nmp (best_cell, best_better_db) =
    let avg = neigh_meas_avg nmp cfg.rxlev_neigh_avg_win in
    if nmp.arfcn == 0
    then (best_cell, best_better_db)
    else if ltb avg (rx_lev + cfg.pwr_hysteresis)
    then (best_cell, best_better_db)
    else if ltb best_better_db (avg - rx_lev)
    then (some nmp, avg - rx_lev)
    else (best_cell, best_better_db)

unfoldable pub best_of : HoCfg → ℕ → List NeighMeas → Option NeighMeas × ℕ → Option NeighMeas × ℕ
best_of cfg rx_lev [] best = best
best_of cfg rx_lev (nmp ∷ ns) best = best_of cfg rx_lev ns (consider cfg rx_lev nmp best)

-- attempt_handover(): the cell that handover_request() is called for, if it is called.
unfoldable pub attempt_handover : HoCfg → ℕ → List NeighMeas → Option NeighMeas
unfolding best_of consider
attempt_handover cfg rx_lev ns =
    if not cfg.ho_active then none else (best_of cfg rx_lev ns (none, 0)).0

abbrev pub is_tch : ChanType → Bool
is_tch lchan_tch_f = true
is_tch lchan_tch_h = true
is_tch _ = false

-- if (mr->num_cell > 0 && mr->num_cell < 7) process_meas_neigh(mr);
unfoldable pub next_table : MeasRep → List NeighMeas → List RepCell → List NeighMeas
next_table mr ns cells =
    if ltb 0 (length cells) && ltb (length cells) 7
    then (process_meas_neigh mr.nr ns cells).0
    else ns

-- rxlev2dbm() of the library, applied to the int that get_meas_rep_avg() returned: `none` stands for
-- -EINVAL, which the code passes on unchecked.
module _ (rxlev2dbm : Option ℕ → ℤ) where
  -- The conditions of on_measurement_report() under which attempt_handover() is called, in order.
  unfoldable pub wants_handover : HoCfg → Cache → MeasRep → Bool
  wants_handover cfg c mr =
      let dlev = if mr.dl_dtx then dl_rxlev_sub else dl_rxlev_full in
      let dqual = if mr.dl_dtx then dl_rxqual_sub else dl_rxqual_full in
      let av_rxlev = get_meas_rep_avg c dlev cfg.rxlev_avg_win in
      if ltb_ℤ (negsuc 84) (rxlev2dbm av_rxlev) && meas_rep_n_out_of_m_be c dqual 3 4 5
      then true
      else if meas_rep_n_out_of_m_be c dqual 3 4 5
      then true
      else if leb_ℤ (rxlev2dbm av_rxlev) (negsuc 109)
      then true
      else if ltb cfg.max_distance mr.ta
      then true
      else mr.nr % cfg.pwr_interval == cfg.pwr_interval - 1

  -- on_measurement_report(): the table of neighbours afterwards, and the cell that a handover is
  -- requested to. `pwr_interval` is not 0 (asserted).
  unfoldable pub on_measurement_report :
      HoCfg
      → ChanType
      → Cache
      → MeasRep
      → List NeighMeas
      → List RepCell
      → List NeighMeas × Option NeighMeas
  on_measurement_report cfg type c mr ns cells =
      if not (cfg.algorithm == 1)
      then (ns, none)
      else if not (is_tch type)
      then (ns, none)
      else let ns' = next_table mr ns cells in
        (ns', if wants_handover cfg c mr then attempt_handover cfg mr.dl_full.rx_lev ns' else none)
