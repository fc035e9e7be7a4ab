-- ===== src/Meas/Report/Tests.antt =====
-- An lchan that received two reports and a rejected one.
use osmo_bsc.Base.{ℕ, true, List, [], ◌∷◌, take, replicate, ◌≡◌, refl, arith, leb}
use osmo_bsc.Meas.Report.{
  Level, MeasRep, dl_rxlev_full, dl_rxqual_full, Cache, zero_rep, accepted, rejected, rx_meas_res,
  get_meas_rep_avg, quotient, meas_rep_n_out_of_m_be,
}
use osmo_bsc.Meas.Report.History.{
  IsHistory, sum_of, valid_of, reaching, rx_meas_res-IsHistory, get_meas_rep_avg_mean,
  n_out_of_m_counts,
}

abbrev level : ℕ → ℕ → Level
level lev qual = record { rx_lev = lev; rx_qual = qual }

abbrev report : ℕ → ℕ → MeasRep
report lev qual = record zero_rep {
  dl_valid = true;
  dl_full = level lev qual;
  ul_full = level lev 0;
}

abbrev fresh : Cache
fresh = record { meas_rep = replicate 10 zero_rep; meas_rep_idx = 0; meas_rep_count = 0 }

fresh-IsHistory : IsHistory fresh []
fresh-IsHistory = record {
  holds = record { full = refl; inside = omega arith; recent = λ k a b. elim b [ ] };
  counted = omega arith;
}

abbrev hist : List MeasRep
hist = zero_rep ∷ report 20 5 ∷ report 31 2 ∷ []

abbrev cache : Cache
cache =
    rx_meas_res (rx_meas_res (rx_meas_res fresh (accepted (report 31 2))) (accepted (report 20 5)))
      (rejected zero_rep)

rx_meas_res-IsHistory_example :
    IsHistory (rx_meas_res fresh (accepted (report 31 2))) (report 31 2 ∷ [])
rx_meas_res-IsHistory_example =
    rx_meas_res-IsHistory fresh [] (accepted (report 31 2)) fresh-IsHistory

cache-IsHistory : IsHistory cache hist
cache-IsHistory = rx_meas_res-IsHistory _ _ (rejected zero_rep) (
    rx_meas_res-IsHistory _ _ (accepted (report 20 5))
      (rx_meas_res-IsHistory fresh [] (accepted (report 31 2)) fresh-IsHistory))

cache_counts : cache.meas_rep_count ≡ 2
unfolding rx_meas_res
cache_counts = refl

get_meas_rep_avg_mean_example :
    get_meas_rep_avg cache dl_rxlev_full 2
    ≡ quotient (sum_of dl_rxlev_full (take 2 hist), valid_of dl_rxlev_full (take 2 hist))
get_meas_rep_avg_mean_example =
    get_meas_rep_avg_mean cache hist dl_rxlev_full 2 cache-IsHistory (omega arith) (omega arith)
      (omega (arith, cache_counts))

n_out_of_m_counts_example :
    meas_rep_n_out_of_m_be cache dl_rxqual_full 1 3 5
    ≡ leb 1 (reaching dl_rxqual_full 5 (take 3 hist))
n_out_of_m_counts_example =
    n_out_of_m_counts cache hist dl_rxqual_full 1 3 5 cache-IsHistory (omega arith) (omega arith)
      (omega arith)
