-- ===== src/Paging.antt =====
-- Paging, src/osmo-bsc/paging.c: the queue of requests of a BTS, which a timer works through one by one.
pub mod Count
pub mod Keeps
pub mod Requests
pub mod Works
pub mod Runs
pub mod Rounds
pub mod Network
mod Tests
use osmo_bsc.Base.{
  length, ℕ, zero, suc, ◌+◌, ◌-◌, ◌*◌, ◌/◌, ◌%◌, ◌^◌, Bool, true, false, not, ◌&&◌, ◌||◌, Option,
  none, some, List, [], ◌∷◌, ◌++◌, ltb, ◌==◌, if◌then◌else◌, get_elem?,
}
use osmo_bsc.Chan.Types.{Pchan, Trx, Bts, sdcch8, ccch_sdcch4, tch_f, tch_h}
use osmo_bsc.Chan.Usable.{trx_is_usable}
use osmo_bsc.Load.{PchanLoad, no_load, bts_chan_load}

-- RSL_CHANNEED_ANY, RSL_CHANNEED_SDCCH, RSL_CHANNEED_TCH_F and RSL_CHANNEED_TCH_ForH
pub data ChanNeeded : Type 0 where
  need_any need_sdcch need_tch_f need_tch_f_or_h : ChanNeeded

-- struct gsm_paging_request; subscribers and MSCs are numbers, `t3113` is the time for which the timer is
-- scheduled, in seconds.
pub record Request : Type 0 where
  pub bsub : ℕ
  pub chan_type : ChanNeeded
  pub attempts : ℕ
  pub msc : ℕ
  pub t3113 : ℕ

-- struct gsm_bts_paging_state: whether its pointer to the BTS is set, and which timers are pending. No
-- `free_chans_need` is -1. `held` is the number of references to a subscriber that paging at this BTS
-- holds, `sent` has the paging commands, the newest first.
pub record PagingState : Type 0 where
  pub is_init : Bool
  pub pending_requests : List Request
  pub work_timer : Bool
  pub credit_timer : Bool
  pub free_chans_need : Option ℕ
  pub available_slots : ℕ
  pub held : ℕ → ℕ
  pub sent : List (ℕ × ChanNeeded)

-- What paging reads of the BTS and the network.
pub record PagingEnv : Type 0 where
  pub bts : Bts
  pub c0 : Trx
  pub oml_link : Bool
  pub pag_any_tch : Bool
  pub neci : Bool
  pub t3113_dynamic : Bool
  pub t3113_val : ℕ
  pub bs_pa_mfrms : ℕ
  pub max_trans : ℕ

-- bsc_subscr_get() and bsc_subscr_put()
abbrev pub bsc_subscr_get : ℕ → (ℕ → ℕ) → ℕ → ℕ
bsc_subscr_get b held k = if b == k then held k + 1 else held k

abbrev pub bsc_subscr_put : ℕ → (ℕ → ℕ) → ℕ → ℕ
bsc_subscr_put b held k = if b == k then held k - 1 else held k

abbrev pub remove_at : List Request → ℕ → List Request
remove_at [] i = []
remove_at (r ∷ rs) zero = rs
remove_at (r ∷ rs) (suc i) = r ∷ remove_at rs i

-- paging_remove_request(), of the request at a position of the queue.
abbrev pub remove_found : ℕ → Option Request → PagingState → PagingState
remove_found i none ps = ps
remove_found i (some r) ps = record ps {
  pending_requests = remove_at ps.pending_requests i;
  held = bsc_subscr_put r.bsub ps.held;
}

unfoldable pub paging_remove_request : ℕ → PagingState → PagingState
paging_remove_request i ps = remove_found i (get_elem? ps.pending_requests i) ps

-- paging_T3113_expired(), of the request at a position.
unfoldable pub paging_T3113_expired : ℕ → PagingState → PagingState
paging_T3113_expired i ps = paging_remove_request i ps

abbrev pub is_empty : List Request → Bool
is_empty [] = true
is_empty (r ∷ rs) = false

unfoldable pub paging_schedule_if_needed : PagingState → PagingState
paging_schedule_if_needed ps =
    if is_empty ps.pending_requests then ps else record ps { work_timer = true }

-- can_send_pag_req(), which is true if too few channels are free. Of a kind no more are used than exist.
abbrev needs_tch : PagingEnv → ChanNeeded → Bool
needs_tch env need_tch_f = true
needs_tch env need_tch_f_or_h = true
needs_tch env need_sdcch = false
needs_tch env need_any = env.pag_any_tch

abbrev free_of : PchanLoad → Pchan → ℕ
free_of pl k = (pl k).total - (pl k).used

unfoldable pub can_send_pag_req : PagingEnv → ℕ → ChanNeeded → Bool
can_send_pag_req env free_chans_need rsl_type =
    let pl = bts_chan_load no_load env.bts in
    let tch = if env.neci then free_of pl tch_f + free_of pl tch_h else free_of pl tch_f in
    let sdcch = free_of pl sdcch8 + free_of pl ccch_sdcch4 in
    ltb (if needs_tch env rsl_type then tch else sdcch) free_chans_need

-- The two conditions under which the first request is not paged now.
unfoldable pub skips : PagingEnv → Option ℕ → Request → Bool
skips env none r = not env.oml_link
skips env (some need) r = if can_send_pag_req env need r.chan_type then true else not env.oml_link

-- The request is paged, and goes to the back of the queue.
abbrev pub again : Request → Request
again r = record r { attempts = r.attempts + 1 }

abbrev pub paged : Request → List Request → PagingState → PagingState
paged r rs ps = record ps {
  pending_requests = rs ++ (again r ∷ []);
  available_slots = ps.available_slots - 1;
  work_timer = true;
  sent = (r.bsub, r.chan_type) ∷ ps.sent;
}

-- paging_handle_pending_requests(), of the queue.
unfoldable pub handle_queue : PagingEnv → List Request → PagingState → PagingState
handle_queue env [] ps = ps
handle_queue env (r ∷ rs) ps =
    if ps.available_slots == 0
    then record ps { credit_timer = true }
    else if skips env ps.free_chans_need r
    then record ps { work_timer = true }
    else paged r rs ps

unfoldable pub paging_handle_pending_requests : PagingEnv → PagingState → PagingState
paging_handle_pending_requests env ps = handle_queue env ps.pending_requests ps

-- paging_worker() and paging_give_credit(), when their timers run out.
unfoldable pub paging_worker : PagingEnv → PagingState → PagingState
paging_worker env ps =
    if ps.work_timer
    then paging_handle_pending_requests env (record ps { work_timer = false })
    else ps

unfoldable pub paging_give_credit : PagingEnv → PagingState → PagingState
paging_give_credit env ps =
    if ps.credit_timer
    then paging_handle_pending_requests env
        (record ps { credit_timer = false; available_slots = 20 })
    else ps

unfoldable pub paging_init_if_needed : PagingState → PagingState
paging_init_if_needed ps =
    if ps.is_init then ps else record ps { is_init = true; available_slots = 20 }

abbrev pub next_position : Option ℕ → Option ℕ
next_position none = none
next_position (some i) = some (suc i)

-- The position of the first request for a subscriber, and paging_pending_request().
unfoldable pub find_request : ℕ → List Request → Option ℕ
find_request b [] = none
find_request b (r ∷ rs) =
    let rest = find_request b rs in if b == r.bsub then some 0 else next_position rest

unfoldable pub paging_pending_request : ℕ → List Request → Bool
paging_pending_request b [] = false
paging_pending_request b (r ∷ rs) = b == r.bsub || paging_pending_request b rs

-- calculate_timer_3113(), in unsigned int.
unfoldable pub calculate_timer_3113 : PagingEnv → ℕ
calculate_timer_3113 env =
    let to_us = (51 * 4615 * (env.bs_pa_mfrms + 2) * env.max_trans) % 2 ^ 32 in
    if not env.t3113_dynamic
    then env.t3113_val
    else ((to_us + 999999) % 2 ^ 32 / 1000000 + env.t3113_val) % 2 ^ 32

-- _paging_request(): whether it succeeds.
unfoldable pub paging_request : PagingEnv → ℕ → ChanNeeded → ℕ → PagingState → Bool × PagingState
paging_request env b type msc ps =
    if paging_pending_request b ps.pending_requests then (false, ps) else (
      true,
      paging_schedule_if_needed (record ps {
        held = bsc_subscr_get b ps.held;
        pending_requests =
            ps.pending_requests
            ++ (record {
              bsub = b;
              chan_type = type;
              attempts = 0;
              msc = msc;
              t3113 = calculate_timer_3113 env;
            }
                ∷ []);
      }),
    )

unfoldable pub paging_request_bts :
    PagingEnv → ℕ → ChanNeeded → ℕ → PagingState → Bool × PagingState
paging_request_bts env b type msc ps =
    if not (trx_is_usable env.bts env.c0)
    then (false, ps)
    else paging_request env b type msc (paging_init_if_needed ps)

-- _paging_request_stop(): whether a request was stopped.
unfoldable pub stop_found : Option ℕ → PagingState → Bool × PagingState
stop_found none ps = (false, ps)
stop_found (some i) ps = (true, paging_remove_request i ps)

unfoldable pub request_stop_bts : ℕ → PagingState → Bool × PagingState
request_stop_bts b ps =
    let ps' = paging_init_if_needed ps in stop_found (find_request b ps'.pending_requests) ps'

unfoldable pub paging_update_buffer_space : ℕ → PagingState → PagingState
paging_update_buffer_space free_slots ps =
    paging_schedule_if_needed (record (paging_init_if_needed ps) {
      credit_timer = false;
      available_slots = free_slots % 2 ^ 16;
    })

-- paging_flush_bts(): the requests of the MSC, or all, are removed one after another.
abbrev pub of_msc : Option ℕ → Request → Bool
of_msc none r = true
of_msc (some msc) r = r.msc == msc

unfoldable pub flush_from : Option ℕ → List Request → ℕ → PagingState → PagingState
flush_from msc [] i ps = ps
flush_from msc (r ∷ rs) i ps =
    if of_msc msc r
    then flush_from msc rs i (paging_remove_request i ps)
    else flush_from msc rs (i + 1) ps

unfoldable pub paging_flush_bts : Option ℕ → PagingState → PagingState
paging_flush_bts msc ps =
    let ps' = paging_init_if_needed ps in flush_from msc ps'.pending_requests 0 ps'

-- paging_pending_requests_nr()
unfoldable pub paging_pending_requests_nr : PagingState → ℕ × PagingState
paging_pending_requests_nr ps =
    let ps' = paging_init_if_needed ps in (length ps'.pending_requests, ps')
