-- ===== src/Chan/Select/Tests.antt =====
-- A BTS with one static and one dynamic traffic timeslot.
use osmo_bsc.Base.{
  ℕ, true, false, none, some, List, [], ◌∷◌, ◌≡◌, refl, inl, inr, Memᴰ, arith, first_some,
}
use osmo_bsc.Chan.Types.{
  Pchan, tch_f, tch_f_tch_h_pdch, lchan_none, lchan_tch_f, LchanState, unused, established, TsState,
  ts_unused, ts_pdch, ts_in_use, NmState, Lchan, Ts, Bts,
}
use osmo_bsc.Chan.Kinds.{pchan_eq}
use osmo_bsc.Chan.Usable.{
  trx_is_usable, ts_is_usable, ts_usable_as_pchan, lchans_as_pchan, ts_is_lchan_waiting_for_pchan,
}
use osmo_bsc.Chan.Select.{
  Place, first_unused, find_in_ts, lc_find_trx, positions, trx_order, lc_dyn_find_bts, lc_find_bts,
  find_by_type, lchan_select_by_type, lchan_select_by_chan_mode, cmode_speech_amr, rate_half,
  type_by_chan_mode,
}
use osmo_bsc.Chan.Select.Found.{Found}
use osmo_bsc.Chan.Select.Suitable.{
  Suitable, select-Suitable, select_none-not-Suitable, select_tch_f_static,
}

abbrev up : NmState
up = record { enabled = true; avail_ok = true; avail_unset = false }

abbrev lchan : ℕ → LchanState → Lchan
lchan nr st = record { nr = nr; chan_type = lchan_none; fi = some st }

abbrev ts_of : Pchan → TsState → List Lchan → Ts
ts_of pchan st ls = record {
  pchan_from_config = pchan;
  pchan_on_init = pchan;
  pchan_is = pchan;
  fi = some st;
  mo = up;
  lchans = ls;
}

abbrev bts_of : List Ts → Bts
bts_of ts = record {
  is_ipaccess = true;
  chan_alloc_reverse = false;
  dyn_ts_allow_tch_f = true;
  trx_list = record { mo = up; bb_transc = up; ts = ts } ∷ [];
}

abbrev dynamic_ts : Ts
dynamic_ts = ts_of tch_f_tch_h_pdch ts_pdch (lchan 0 unused ∷ lchan 1 unused ∷ [])

-- The dynamic timeslot stands first, and the static one is still taken for full rate.
abbrev free_bts : Bts
free_bts = bts_of (dynamic_ts ∷ ts_of tch_f ts_unused (lchan 0 unused ∷ []) ∷ [])

abbrev busy_bts : Bts
busy_bts = bts_of (ts_of tch_f ts_in_use (lchan 0 established ∷ []) ∷ [])

abbrev static_place : Place
static_place = record { trx = 0; ts = 1; ss = 0 }

abbrev dynamic_place : Place
dynamic_place = record { trx = 0; ts = 0; ss = 0 }

free_bts_selects : (lchan_select_by_type free_bts lchan_tch_f).0 ≡ some static_place
unfolding lchan_select_by_type find_by_type lc_find_bts lc_dyn_find_bts trx_order positions
    lc_find_trx find_in_ts first_unused first_some trx_is_usable ts_is_usable ts_usable_as_pchan
    pchan_eq lchans_as_pchan ts_is_lchan_waiting_for_pchan
free_bts_selects = refl

half_rate_selects :
    (lchan_select_by_chan_mode free_bts cmode_speech_amr rate_half).0 ≡ some dynamic_place
unfolding lchan_select_by_chan_mode type_by_chan_mode lchan_select_by_type find_by_type lc_find_bts
    lc_dyn_find_bts trx_order positions lc_find_trx find_in_ts first_unused first_some trx_is_usable
    ts_is_usable ts_usable_as_pchan pchan_eq lchans_as_pchan ts_is_lchan_waiting_for_pchan
half_rate_selects = refl

busy_bts_selects_none : (lchan_select_by_type busy_bts lchan_tch_f).0 ≡ none
unfolding lchan_select_by_type find_by_type lc_find_bts lc_dyn_find_bts trx_order positions
    lc_find_trx find_in_ts first_unused first_some trx_is_usable ts_is_usable ts_usable_as_pchan
    pchan_eq lchans_as_pchan ts_is_lchan_waiting_for_pchan
busy_bts_selects_none = refl

select-Suitable_example : Suitable free_bts lchan_tch_f static_place
select-Suitable_example = select-Suitable free_bts lchan_tch_f static_place free_bts_selects

select_none-not-Suitable_example : ¬ Suitable busy_bts lchan_tch_f dynamic_place
select_none-not-Suitable_example =
    select_none-not-Suitable busy_bts lchan_tch_f dynamic_place (inr (inl refl))
      busy_bts_selects_none (omega arith)

static_place-Found : Found free_bts tch_f tch_f static_place
unfolding trx_is_usable ts_usable_as_pchan ts_is_usable pchan_eq lchans_as_pchan
    ts_is_lchan_waiting_for_pchan
static_place-Found = record {
  trx = record { mo = up; bb_transc = up; ts = dynamic_ts ∷ static_ts ∷ [] };
  ts = static_ts;
  lchan = lchan 0 unused;
  trx_here = refl;
  ts_here = refl;
  visited = Memᴰ.head refl;
  trx_usable = refl;
  kind = refl;
  current = refl;
}
  where
    static_ts : Ts
    static_ts = ts_of tch_f ts_unused (lchan 0 unused ∷ [])

select_tch_f_static_example : Found free_bts tch_f tch_f static_place
select_tch_f_static_example =
    select_tch_f_static free_bts static_place static_place free_bts_selects (omega arith)
      static_place-Found
