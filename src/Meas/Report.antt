-- ===== src/Meas/Report.antt =====
-- src/osmo-bsc/meas_rep.c, and the ring of reports of an lchan that lchan_next_meas_rep() and
-- rsl_rx_meas_res() of src/osmo-bsc/abis_rsl.c fill. A negative result is `none`.
pub mod History
mod Tests
use osmo_bsc.Base.{
  ℕ, suc, ◌+◌, ◌/◌, ◌%◌, Bool, true, false, ◌||◌, Option, none, some, List, [], ◌∷◌, set, ltb, leb,
  ◌==◌, if◌then◌else◌,
}
use osmo_bsc.Meas.Ring.{calc_initial_idx, read_from}
use osmo_bsc.Meas.Ring.Recent.{size}

-- One direction and kind of measurement.
pub record Level : Type 0 where
  pub rx_lev : ℕ
  pub rx_qual : ℕ

-- struct gsm_meas_rep, as far as averages and handover read it; the two flags are bits of `flags`.
pub record MeasRep : Type 0 where
  pub nr : ℕ
  pub dl_valid : Bool  -- MEAS_REP_F_DL_VALID
  pub dl_dtx : Bool  -- MEAS_REP_F_DL_DTX
  pub ul_full : Level
  pub ul_sub : Level
  pub dl_full : Level
  pub dl_sub : Level
  pub ta : ℕ

-- enum meas_rep_field
pub data Field : Type 0 where
  dl_rxlev_full dl_rxlev_sub dl_rxqual_full dl_rxqual_sub : Field
  ul_rxlev_full ul_rxlev_sub ul_rxqual_full ul_rxqual_sub : Field

-- if (!(rep->flags & MEAS_REP_F_DL_VALID)) return -EINVAL;
abbrev of_downlink : MeasRep → ℕ → Option ℕ
of_downlink rep v = if rep.dl_valid then some v else none

-- get_field()
unfoldable pub get_field : MeasRep → Field → Option ℕ
get_field rep dl_rxlev_full = of_downlink rep rep.dl_full.rx_lev
get_field rep dl_rxlev_sub = of_downlink rep rep.dl_sub.rx_lev
get_field rep dl_rxqual_full = of_downlink rep rep.dl_full.rx_qual
get_field rep dl_rxqual_sub = of_downlink rep rep.dl_sub.rx_qual
get_field rep ul_rxlev_full = some rep.ul_full.rx_lev
get_field rep ul_rxlev_sub = some rep.ul_sub.rx_lev
get_field rep ul_rxqual_full = some rep.ul_full.rx_qual
get_field rep ul_rxqual_sub = some rep.ul_sub.rx_qual

abbrev zero_level : Level
zero_level = record { rx_lev = 0; rx_qual = 0 }

-- memset(meas_rep, 0, sizeof(*meas_rep))
abbrev pub zero_rep : MeasRep
zero_rep = record {
  nr = 0;
  dl_valid = false;
  dl_dtx = false;
  ul_full = zero_level;
  ul_sub = zero_level;
  dl_full = zero_level;
  dl_sub = zero_level;
  ta = 0;
}

-- The measurement fields of struct gsm_lchan.
pub record Cache : Type 0 where
  pub meas_rep : List MeasRep
  pub meas_rep_idx : ℕ
  pub meas_rep_count : ℕ

-- lchan_next_meas_rep(); the pointer that it returns is the old index.
unfoldable pub lchan_next_meas_rep : Cache → ℕ × Cache
lchan_next_meas_rep c = (
  c.meas_rep_idx,
  record c {
    meas_rep = set c.meas_rep c.meas_rep_idx zero_rep;
    meas_rep_idx = (c.meas_rep_idx + 1) % size;
  },
)

-- How rsl_rx_meas_res() ends: with a report, or with an early return (an inactive lchan, a missing
-- element, an L3 part that does not parse) that leaves `r` in the report's memory.
pub data Outcome : Type 0 where
  accepted : MeasRep → Outcome
  rejected : MeasRep → Outcome

-- What rsl_rx_meas_res() does to the lchan: it takes the next report first, and counts it only if it
-- gets to the end.
unfoldable pub rx_meas_res : Cache → Outcome → Cache
unfolding lchan_next_meas_rep
rx_meas_res c (accepted r) =
    let (mr, c') = lchan_next_meas_rep c in
    record c' { meas_rep = set c'.meas_rep mr r; meas_rep_count = c'.meas_rep_count + 1 }
rx_meas_res c (rejected r) =
    let (mr, c') = lchan_next_meas_rep c in record c' { meas_rep = set c'.meas_rep mr r }

-- if (val >= 0) { avg += val; valid_num++; }
abbrev add_value : Option ℕ → ℕ × ℕ → ℕ × ℕ
add_value none acc = acc
add_value (some v) (avg, valid_num) = (avg + v, valid_num + 1)

-- The loop of get_meas_rep_avg() over the reports that it reads.
avg_loop : Field → List MeasRep → ℕ × ℕ → ℕ × ℕ
avg_loop field [] acc = acc
avg_loop field (r ∷ rs) acc = avg_loop field rs (add_value (get_field r field) acc)

-- if (valid_num == 0) return -EINVAL; return avg / valid_num;
abbrev pub quotient : ℕ × ℕ → Option ℕ
quotient (avg, valid_num) = if valid_num == 0 then none else some (avg / valid_num)

-- get_meas_rep_avg()
unfoldable pub get_meas_rep_avg : Cache → Field → ℕ → Option ℕ
unfolding avg_loop
get_meas_rep_avg c field num =
    if ltb num 1
    then none
    else if ltb c.meas_rep_count num
    then none
    else quotient (
        avg_loop field
          (read_from zero_rep c.meas_rep size (calc_initial_idx size c.meas_rep_idx num) 0 num)
          (0, 0))

-- val >= be, for be >= 0
abbrev pub reaches : ℕ → Option ℕ → Bool
reaches be none = false
reaches be (some v) = leb be v

-- The loop of meas_rep_n_out_of_m_be() over the reports that it reads, `count` of them passed so far.
n_out_of_m_loop : Field → ℕ → ℕ → List MeasRep → ℕ → Bool
n_out_of_m_loop field n be [] count = false
n_out_of_m_loop field n be (r ∷ rs) count =
    let count' = if reaches be (get_field r field) then count + 1 else count in
    let rest = n_out_of_m_loop field n be rs count' in if leb n count' then true else rest

-- meas_rep_n_out_of_m_be(); `be` is not negative in any call.
unfoldable pub meas_rep_n_out_of_m_be : Cache → Field → ℕ → ℕ → ℕ → Bool
unfolding n_out_of_m_loop
meas_rep_n_out_of_m_be c field n m be =
    n_out_of_m_loop field n be
      (read_from zero_rep c.meas_rep size (calc_initial_idx size c.meas_rep_idx m) 0 m) 0
