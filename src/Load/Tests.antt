-- ===== src/Load/Tests.antt =====
-- A cell with one TCH/F timeslot in use, of which seven samples were taken.
use osmo_bsc.Base.{true, some, [], ◌∷◌, ◌≡◌, refl, arith}
use osmo_bsc.Chan.Types.{tch_f, lchan_tch_f, established, ts_in_use, NmState, Bts}
use osmo_bsc.Load.{
  LoadCounter, LoadAverage, bts_update_t3122_chan_load, update_t3122, sum_samples, load_percent,
  wait_ind,
}
use osmo_bsc.Load.Bounds.{IsAverage, bts_update_t3122_chan_load-IsAverage}

abbrev running : NmState
running = record { enabled = true; avail_ok = true; avail_unset = true }

abbrev cell : Bts
cell = record {
  is_ipaccess = true;
  chan_alloc_reverse = true;
  dyn_ts_allow_tch_f = true;
  trx_list =
      record {
        mo = running;
        bb_transc = running;
        ts =
            record {
              pchan_from_config = tch_f;
              pchan_on_init = tch_f;
              pchan_is = tch_f;
              fi = some ts_in_use;
              mo = running;
              lchans = record { nr = 0; chan_type = lchan_tch_f; fi = some established } ∷ [];
            }
            ∷ [];
      }
      ∷ [];
}

abbrev half : LoadCounter
half = record { total = 2; used = 1 }

abbrev samples : LoadAverage
samples = record {
  t3122 = 0;
  chan_load_samples = half ∷ half ∷ half ∷ half ∷ half ∷ half ∷ half ∷ [];
  chan_load_samples_idx = 7;
  chan_load_avg = 0;
}

abbrev averaged : LoadAverage
averaged = record samples { t3122 = 64; chan_load_samples_idx = 0; chan_load_avg = 50 }

half_load : update_t3122 true half samples ≡ averaged
unfolding update_t3122 sum_samples load_percent wait_ind
half_load = refl

samples-IsAverage : IsAverage samples
samples-IsAverage = omega arith

bts_update_t3122_chan_load-IsAverage_example :
    IsAverage (bts_update_t3122_chan_load true cell samples)
bts_update_t3122_chan_load-IsAverage_example =
    bts_update_t3122_chan_load-IsAverage true cell samples samples-IsAverage
