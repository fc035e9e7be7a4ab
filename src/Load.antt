-- ===== src/Load.antt =====
-- Channel load, src/osmo-bsc/chan_alloc.c: how many lchans of each kind are in use, and the average over
-- samples that ramping and the wait indication of rejected requests are computed from. The counters are
-- of lchans in memory, so that the unsigned int that counts them cannot wrap.
pub mod Bounds
mod Tests
use osmo_bsc.Base.{
  ℕ, zero, suc, ◌+◌, ◌-◌, ◌*◌, ◌/◌, ◌%◌, ◌^◌, Bool, true, false, not, ◌&&◌, ◌||◌, Option, none,
  some, List, [], ◌∷◌, set, ltb, ◌==◌, if◌then◌else◌,
}
use osmo_bsc.Chan.Types.{
  Pchan, Lchan, LchanState, Ts, Trx, Bts, pchan_none, ccch, ccch_sdcch4, tch_f, tch_h, sdcch8, pdch,
  tch_f_pdch, pchan_unknown, ccch_sdcch4_cbch, sdcch8_cbch, tch_f_tch_h_pdch,
}
use osmo_bsc.Chan.Kinds.{pchan_eq}
use osmo_bsc.Chan.Usable.{nm_is_running, lchans_as_pchan, is_unused}

-- struct load_counter
pub record LoadCounter : Type 0 where
  pub total : ℕ
  pub used : ℕ

-- struct pchan_load: the counter of each kind.
abbrev pub PchanLoad : Type 0
PchanLoad = Pchan → LoadCounter

-- One round of ts_for_each_lchan() in bts_chan_load().
unfoldable pub count_lchan : LchanState → LoadCounter → LoadCounter
count_lchan st pl = record {
  total = pl.total + 1;
  used = if is_unused st then pl.used else pl.used + 1;
}

unfoldable pub count_lchans : List (ℕ × Lchan × LchanState) → LoadCounter → LoadCounter
count_lchans [] pl = pl
count_lchans ((i, l, st) ∷ ls) pl = count_lchans ls (count_lchan st pl)

-- The loops of bts_chan_load() over the timeslots of a transceiver and over the transceivers.
unfoldable pub count_ts : Ts → PchanLoad → PchanLoad
count_ts ts cl k =
    if not (nm_is_running ts.mo)
    then cl k
    else if pchan_eq k ts.pchan_on_init
    then count_lchans (lchans_as_pchan ts.pchan_is 0 ts.lchans) (cl k)
    else cl k

unfoldable pub count_timeslots : List Ts → PchanLoad → PchanLoad
count_timeslots [] cl = cl
count_timeslots (ts ∷ more) cl = count_timeslots more (count_ts ts cl)

unfoldable pub count_trx : Trx → PchanLoad → PchanLoad
count_trx trx cl =
    if not (nm_is_running trx.mo) || not (nm_is_running trx.bb_transc)
    then cl
    else count_timeslots trx.ts cl

unfoldable pub count_transceivers : List Trx → PchanLoad → PchanLoad
count_transceivers [] cl = cl
count_transceivers (trx ∷ more) cl = count_transceivers more (count_trx trx cl)

-- bts_chan_load()
unfoldable pub bts_chan_load : PchanLoad → Bts → PchanLoad
bts_chan_load cl bts = count_transceivers bts.trx_list cl

abbrev pub no_load : PchanLoad
no_load k = record { total = 0; used = 0 }

-- network_chan_load()
unfoldable pub network_chan_load : List Bts → PchanLoad
network_chan_load bts_list = loop bts_list no_load
  where
    loop : List Bts → PchanLoad → PchanLoad
    loop [] pl = pl
    loop (bts ∷ more) pl = loop more (bts_chan_load pl bts)

-- The fields of struct gsm_bts that bts_update_t3122_chan_load() writes.
pub record LoadAverage : Type 0 where
  pub t3122 : ℕ
  pub chan_load_samples : List LoadCounter
  pub chan_load_samples_idx : ℕ
  pub chan_load_avg : ℕ

abbrev pub all_pchans : List Pchan
all_pchans =
    pchan_none ∷ ccch ∷ ccch_sdcch4 ∷ tch_f ∷ tch_h ∷ sdcch8 ∷ pdch ∷ tch_f_pdch ∷ pchan_unknown
    ∷ ccch_sdcch4_cbch ∷ sdcch8_cbch ∷ tch_f_tch_h_pdch ∷ []

-- The sums over all kinds, less samples too large.
unfoldable pub sum_kinds : List Pchan → PchanLoad → LoadCounter → LoadCounter
sum_kinds [] pl sum = sum
sum_kinds (k ∷ more) pl sum = sum_kinds more pl (
    if ltb 65535 (pl k).used || ltb 65535 (pl k).total
    then sum
    else record { total = sum.total + (pl k).total; used = sum.used + (pl k).used })

-- The previous samples added to the current one.
unfoldable pub sum_samples : List LoadCounter → LoadCounter → LoadCounter
sum_samples [] sum = sum
sum_samples (s ∷ more) sum =
    sum_samples more (record { total = sum.total + s.total; used = sum.used + s.used })

-- chan_load_avg and T3122 of the sums: 24.8 fixed point, `& 0xffffff00` and `>> 8`, and the casts.
unfoldable pub load_percent : LoadCounter → ℕ
load_percent s = ((s.used * 256 / s.total * 100) % 2 ^ 32 / 256) % 256

unfoldable pub wait_ind : LoadCounter → ℕ
wait_ind s =
    if ltb (s.used * 256 / s.total * 128 / 256) 10
    then 10
    else if ltb 128 (s.used * 256 / s.total * 128 / 256)
    then 128
    else s.used * 256 / s.total * 128 / 256

-- bts_update_t3122_chan_load(), with whether trx_is_usable() holds of the first transceiver and the load
-- of the BTS.
unfoldable pub update_t3122 : Bool → LoadCounter → LoadAverage → LoadAverage
update_t3122 c0_usable sum b =
    if not c0_usable
    then b
    else if (sum.total == 0) || ltb sum.total sum.used
    then record b { t3122 = 0; chan_load_samples_idx = 0 }
    else if ltb b.chan_load_samples_idx 7
    then record b {
      chan_load_samples = set b.chan_load_samples b.chan_load_samples_idx sum;
      chan_load_samples_idx = b.chan_load_samples_idx + 1;
    }
    else record b {
      t3122 = wait_ind (sum_samples b.chan_load_samples sum);
      chan_load_samples_idx = 0;
      chan_load_avg = load_percent (sum_samples b.chan_load_samples sum);
    }

unfoldable pub bts_update_t3122_chan_load : Bool → Bts → LoadAverage → LoadAverage
unfolding update_t3122
bts_update_t3122_chan_load c0_usable bts b =
    update_t3122 c0_usable
      (sum_kinds all_pchans (bts_chan_load no_load bts) (record { total = 0; used = 0 })) b
