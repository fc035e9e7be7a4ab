-- ===== src/Meas/Hodec1/Tests.antt =====
-- A serving cell with two neighbours, one of them strong enough to go to.
use osmo_bsc.Base.{
  ℕ, zero, suc, ◌+◌, ◌/◌, ◌≤◌, ◌<◌, true, false, Option, none, some, List, [], ◌∷◌, get_or, take,
  length, replicate, ◌-◌, ◌%◌, min, ◌≡◌, ◌≢◌, ◌⊎◌, refl, Memᴰ, All, arith, ◌==◌, if◌then◌else◌,
}
use osmo_bsc.Base.Int.{ℤ, negsuc}
use osmo_bsc.Chan.Types.{lchan_tch_f, lchan_tch_h}
use osmo_bsc.Meas.Ring.{calc_initial_idx, read_from}
use osmo_bsc.Meas.Ring.Recent.{size}
use osmo_bsc.Meas.Report.{
  MeasRep, Cache, zero_rep, get_field, get_meas_rep_avg, meas_rep_n_out_of_m_be, zero_rep,
}
use osmo_bsc.Meas.Neigh.{
  NeighMeas, RepCell, no_entry, sum, neigh_meas_avg, find_evict_neigh, process_meas_neigh,
  find_empty, find_worst, update_known, rxlev_for_cell_in_rep,
}
use osmo_bsc.Meas.Neigh.Average.{IsSampled, neigh_meas_avg_mean}
use osmo_bsc.Meas.Neigh.Evict.{find_evict_neigh_worst}
use osmo_bsc.Meas.Neigh.Enter.{Entered, process_meas_neigh_enters}
use osmo_bsc.Meas.Hodec1.{
  HoCfg, attempt_handover, wants_handover, next_table, on_measurement_report,
}
use osmo_bsc.Meas.Hodec1.Best.{IsCandidate, avg_of, attempt_handover_best}
use osmo_bsc.Meas.Hodec1.Decide.{Reason, request_reason}

-- An entry that has seen one level.
abbrev entry : ℕ → ℕ → NeighMeas
entry arfcn lev = record {
  arfcn = arfcn;
  bsic = 7;
  rxlev = lev ∷ replicate 9 0;
  rxlev_cnt = 1;
  last_seen_nr = 0;
}

abbrev table : List NeighMeas
table = entry 871 30 ∷ entry 0 0 ∷ entry 512 42 ∷ []

abbrev cfg : HoCfg
cfg = record {
  algorithm = 1;
  ho_active = true;
  rxlev_avg_win = 10;
  rxlev_neigh_avg_win = 10;
  pwr_interval = 6;
  pwr_hysteresis = 3;
  max_distance = 9999;
}

abbrev mr : MeasRep
mr = record zero_rep { nr = 5; dl_valid = true; dl_full = record { rx_lev = 20; rx_qual = 1 } }

abbrev cache : Cache
cache = record { meas_rep = mr ∷ replicate 9 zero_rep; meas_rep_idx = 1; meas_rep_count = 1 }

abbrev dbm : Option ℕ → ℤ
dbm none = negsuc 59
dbm (some v) = negsuc 59

abbrev one_sample : List ℕ
one_sample = 42 ∷ []

IsSampled-entry : IsSampled (entry 512 42) one_sample
IsSampled-entry = record {
  holds = record { full = refl; inside = omega arith; recent = λ k a b. at k b };
  counted = refl;
}
  where
    at :
        (k : ℕ)
        → k < 1
        → get_or (entry 512 42).rxlev ((1 + 10 - 1 - k) % 10) 0 ≡ get_or one_sample k 0
    at zero b = refl
    at (suc k) b = absurd (omega arith)

neigh_meas_avg_mean_example : neigh_meas_avg (entry 512 42) 4 ≡ (
    if min 4 (length one_sample) == 0
    then 0
    else sum (take (min 4 (length one_sample)) one_sample) / min 4 (length one_sample))
neigh_meas_avg_mean_example =
    neigh_meas_avg_mean (entry 512 42) one_sample 4 IsSampled-entry (omega arith)

abbrev full_table : List NeighMeas
full_table = entry 871 30 ∷ entry 512 12 ∷ []

full_table_evicts : find_evict_neigh full_table ≡ some 1
unfolding find_evict_neigh find_empty find_worst neigh_meas_avg read_from calc_initial_idx
full_table_evicts = refl

find_evict_neigh_worst_example :
    (1 < 2)
    × (((get_or full_table 1 no_entry).arfcn ≡ 0)
        ⊎ ((i : ℕ)
            → i < 2
            → ((get_or full_table i no_entry).arfcn ≢ 0)
              × (neigh_meas_avg (get_or full_table 1 no_entry) size
                  ≤ neigh_meas_avg (get_or full_table i no_entry) size)))
find_evict_neigh_worst_example = find_evict_neigh_worst full_table 1 full_table_evicts

abbrev cells : List RepCell
cells = record { arfcn = 99; bsic = 1; rxlev = 33; processed = false } ∷ []

process_meas_neigh_enters_example :
    All (Entered 5 (process_meas_neigh 5 table cells).0) (update_known 5 table cells).1
unfolding update_known rxlev_for_cell_in_rep
process_meas_neigh_enters_example =
    process_meas_neigh_enters 5 table cells (refl, (refl, (refl, tt))) (omega arith, tt)
      (omega arith)

table_target : attempt_handover cfg 20 table ≡ some (entry 512 42)
unfolding attempt_handover neigh_meas_avg read_from calc_initial_idx
table_target = refl

attempt_handover_best_example :
    Memᴰ (entry 512 42) table
    × IsCandidate cfg 20 (entry 512 42)
    × ((other : NeighMeas)
        → Memᴰ other table
        → other.arfcn ≢ 0
        → avg_of cfg 20 other ≤ avg_of cfg 20 (entry 512 42))
attempt_handover_best_example = attempt_handover_best cfg 20 table (entry 512 42) table_target

strong_serving : attempt_handover cfg 60 table ≡ none
unfolding attempt_handover neigh_meas_avg read_from calc_initial_idx
strong_serving = refl

handover_requested :
    (on_measurement_report dbm cfg lchan_tch_f cache mr table []).1 ≡ some (entry 512 42)
unfolding on_measurement_report wants_handover next_table attempt_handover neigh_meas_avg read_from
    calc_initial_idx meas_rep_n_out_of_m_be get_meas_rep_avg get_field
handover_requested = refl

request_reason_example :
    (cfg.algorithm ≡ 1)
    × (cfg.ho_active ≡ true)
    × ((lchan_tch_f ≡ lchan_tch_f) ⊎ (lchan_tch_f ≡ lchan_tch_h))
    × Reason dbm cfg lchan_tch_f cache mr
    × Memᴰ (entry 512 42) (on_measurement_report dbm cfg lchan_tch_f cache mr table []).0
    × IsCandidate cfg 20 (entry 512 42)
request_reason_example =
    request_reason dbm cfg lchan_tch_f cache mr table [] (entry 512 42) handover_requested
