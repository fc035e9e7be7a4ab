-- ===== src/Meas/Hodec1/Decide.antt =====
-- When on_measurement_report() requests a handover.
use mathlib.Core.Path.{subst}
use osmo_bsc.Base.{
  ℕ, ◌-◌, ◌%◌, ◌<◌, true, Option, some, List, ◌≡◌, ◌⊎◌, inl, inr, arith, Memᴰ, Bool-cases,
  if◌then◌else◌, ltb, sym,
}
use osmo_bsc.Base.Int.{ℤ, negsuc, ◌≤ℤ◌, leb_ℤ}
use osmo_bsc.Chan.Types.{ChanType, lchan_tch_f, lchan_tch_h}
use osmo_bsc.Meas.Report.{
  MeasRep, dl_rxlev_full, dl_rxlev_sub, dl_rxqual_full, dl_rxqual_sub, Cache, get_meas_rep_avg,
  meas_rep_n_out_of_m_be,
}
use osmo_bsc.Meas.Neigh.{NeighMeas, RepCell}
use osmo_bsc.Meas.Hodec1.{
  HoCfg, attempt_handover, is_tch, wants_handover, next_table, on_measurement_report,
}
use osmo_bsc.Meas.Hodec1.Best.{IsCandidate, attempt_handover_best}

active_of_request :
    (cfg : HoCfg) (rx_lev : ℕ) (ns : List NeighMeas) (target : NeighMeas)
    → attempt_handover cfg rx_lev ns ≡ some target
    → cfg.ho_active ≡ true
unfolding attempt_handover
active_of_request cfg rx_lev ns target h = elim (Bool-cases cfg.ho_active) [
  | inl e ↦ e
  | inr e ↦ let h' = simp e at h in cc
]

tch_type : (type : ChanType) → is_tch type ≡ true → (type ≡ lchan_tch_f) ⊎ (type ≡ lchan_tch_h)
tch_type type h = ground arith

module _ (rxlev2dbm : Option ℕ → ℤ) (cfg : HoCfg) (type : ChanType) (c : Cache) (mr : MeasRep) where
  -- The reasons of the code: bad downlink quality in 3 of the last 4 reports at level 5 or worse, a
  -- downlink level of -110 dBm or less, too far away, or the periodic look for a better cell.
  -- Measurements are those of the subset where the MS uses DTX.
  pub data Reason : Type 0 where
    bad_quality :
        meas_rep_n_out_of_m_be c (if mr.dl_dtx then dl_rxqual_sub else dl_rxqual_full) 3 4 5 ≡ true
        → Reason
    low_level :
        rxlev2dbm (
            get_meas_rep_avg c
              (if mr.dl_dtx then dl_rxlev_sub else dl_rxlev_full)
              cfg.rxlev_avg_win)
          ≤ℤ negsuc 109
        → Reason
    distance : cfg.max_distance < mr.ta → Reason
    better_cell : mr.nr % cfg.pwr_interval ≡ cfg.pwr_interval - 1 → Reason

  pub wants_handover-Reason : wants_handover rxlev2dbm cfg c mr ≡ true → Reason
  unfolding wants_handover
  wants_handover-Reason h =
      let dqual = if mr.dl_dtx then dl_rxqual_sub else dl_rxqual_full in
      let dlev = if mr.dl_dtx then dl_rxlev_sub else dl_rxlev_full in
      let av = rxlev2dbm (get_meas_rep_avg c dlev cfg.rxlev_avg_win) in
      elim (Bool-cases (meas_rep_n_out_of_m_be c dqual 3 4 5)) [
        | inl e ↦ bad_quality e
        | inr e1 ↦ elim (Bool-cases (leb_ℤ av (negsuc 109))) [
          | inl e ↦ low_level (ground arith)
          | inr e2 ↦ elim (Bool-cases (ltb cfg.max_distance mr.ta)) [
            | inl e ↦ distance (ground arith)
            | inr e3 ↦ better_cell (ground arith)
          ]
        ]
      ]

  -- A handover is requested only under algorithm 1, with handover enabled, for a TCH, for one of the
  -- reasons of the code, and to a used neighbour of the updated table that is above the serving cell
  -- by the hysteresis.
  pub request_reason :
      (ns : List NeighMeas) (cells : List RepCell) (target : NeighMeas)
      → (on_measurement_report rxlev2dbm cfg type c mr ns cells).1 ≡ some target
      → (cfg.algorithm ≡ 1)
        × (cfg.ho_active ≡ true)
        × ((type ≡ lchan_tch_f) ⊎ (type ≡ lchan_tch_h))
        × Reason
        × Memᴰ target (on_measurement_report rxlev2dbm cfg type c mr ns cells).0
        × IsCandidate cfg mr.dl_full.rx_lev target
  unfolding on_measurement_report
  request_reason ns cells target h =
      let algo : cfg.algorithm ≡ 1 = ground arith in
      let tch : is_tch type ≡ true = ground arith in
      let wants : wants_handover rxlev2dbm cfg c mr ≡ true = ground arith in
      let e : attempt_handover cfg mr.dl_full.rx_lev (next_table mr ns cells) ≡ some target =
        ground arith in
      let (m, k, _) =
        attempt_handover_best cfg mr.dl_full.rx_lev (next_table mr ns cells) target e in
      let same : (on_measurement_report rxlev2dbm cfg type c mr ns cells).0
          ≡ next_table mr ns cells =
        ground arith in
      (
        algo,
        active_of_request cfg mr.dl_full.rx_lev (next_table mr ns cells) target e,
        tch_type type tch,
        wants_handover-Reason wants,
        subst (Memᴰ target) (sym same) m,
        k,
      )
