-- ===== src/Paging/Tests.antt =====
-- Two subscribers paged at a BTS.
use Prim.{tt}
use osmo_bsc.Base.{true, false, none, some, List, [], ◌∷◌, ◌≡◌, refl, arith}
use osmo_bsc.Chan.Types.{Bts, Trx, NmState}
use osmo_bsc.Paging.{
  PagingState, PagingEnv, Request, need_any, need_sdcch, again, skips, calculate_timer_3113,
}
use osmo_bsc.Paging.Keeps.{IsPaging}
use osmo_bsc.Paging.Runs.{
  Call, request_bts, request_stop, update_buffer_space, expired, worker, give_credit, flush_bts,
  run_calls, never_used, run_calls-IsPaging,
}
use osmo_bsc.Paging.Network.{NonePending, paging_request_stop, paging_request_stop-NonePending}
use osmo_bsc.Paging.Rounds.{rounds, rounds-page_all}

abbrev running : NmState
running = record { enabled = true; avail_ok = true; avail_unset = true }

abbrev trx : Trx
trx = record { mo = running; bb_transc = running; ts = [] }

abbrev cell : Bts
cell = record {
  is_ipaccess = true;
  chan_alloc_reverse = false;
  dyn_ts_allow_tch_f = false;
  trx_list = trx ∷ [];
}

abbrev env : PagingEnv
env = record {
  bts = cell;
  c0 = trx;
  oml_link = true;
  pag_any_tch = false;
  neci = false;
  t3113_dynamic = true;
  t3113_val = 10;
  bs_pa_mfrms = 5;
  max_trans = 3;
}

-- 51 multiframes of 51 frames are paid for with max_trans as it is coded, 3 for 7.
t3113_coded : calculate_timer_3113 env ≡ 15
unfolding calculate_timer_3113
t3113_coded = refl

abbrev calls : List Call
calls =
    request_bts env 1 need_any 0
    ∷ request_bts env 2 need_sdcch 0
    ∷ request_bts env 1 need_any 0
    ∷ worker env
    ∷ update_buffer_space 0
    ∷ worker env
    ∷ give_credit env
    ∷ request_stop 2
    ∷ expired 0
    ∷ flush_bts none
    ∷ []

run_calls-IsPaging_example : IsPaging (run_calls calls (never_used none))
run_calls-IsPaging_example = run_calls-IsPaging none calls

abbrev first : Request
first = record { bsub = 1; chan_type = need_any; attempts = 0; msc = 0; t3113 = 15 }

abbrev second : Request
second = record { bsub = 2; chan_type = need_sdcch; attempts = 0; msc = 0; t3113 = 15 }

abbrev two : PagingState
two = record {
  is_init = true;
  pending_requests = first ∷ second ∷ [];
  work_timer = true;
  credit_timer = false;
  free_chans_need = none;
  available_slots = 20;
  held = λ b. 0;
  sent = [];
}

rounds-page_all_example :
    ((rounds env 2 two).pending_requests ≡ again first ∷ again second ∷ [])
    × ((rounds env 2 two).sent ≡ (2, need_sdcch) ∷ (1, need_any) ∷ [])
    × ((rounds env 2 two).available_slots ≡ 18)
unfolding skips
rounds-page_all_example = rounds-page_all env two refl refl (ground arith)

abbrev waiting : PagingState
waiting =
    run_calls (request_bts env 1 need_any 0 ∷ request_bts env 2 need_sdcch 0 ∷ []) (never_used none)

waiting-IsPaging : IsPaging waiting
waiting-IsPaging = run_calls-IsPaging none _

paging_request_stop-NonePending_example :
    NonePending 2 (paging_request_stop (some 1) 2 (waiting ∷ waiting ∷ []))
paging_request_stop-NonePending_example =
    paging_request_stop-NonePending (some 1) 2 (waiting ∷ waiting ∷ [])
      (waiting-IsPaging, (waiting-IsPaging, tt))
