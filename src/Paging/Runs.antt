-- ===== src/Paging/Runs.antt =====
-- Any sequence of what calls and timers of src/osmo-bsc/paging.c can do at a BTS.
use osmo_bsc.Base.{ℕ, false, Option, List, [], ◌∷◌, refl, arith}
use osmo_bsc.Paging.{
  PagingState, PagingEnv, ChanNeeded, paging_T3113_expired, paging_worker, paging_give_credit,
  paging_request_bts, request_stop_bts, paging_update_buffer_space, paging_flush_bts,
  paging_pending_requests_nr,
}
use osmo_bsc.Paging.Keeps.{
  init-IsPaging, IsPaging, remove-IsPaging, flush_bts-IsPaging, stop-IsPaging,
  buffer_space-IsPaging,
}
use osmo_bsc.Paging.Requests.{request_bts-IsPaging}
use osmo_bsc.Paging.Works.{worker-IsPaging, credit-IsPaging}
use osmo_bsc.Paging.Count.{count}

-- A call of a function for the BTS, or a timer that runs out, of the queue, for credit, or T3113 of the
-- request at a position.
pub data Call : Type 0 where
  request_bts : PagingEnv → ℕ → ChanNeeded → ℕ → Call
  request_stop update_buffer_space expired : ℕ → Call
  worker give_credit : PagingEnv → Call
  flush_bts : Option ℕ → Call
  pending_requests_nr : Call

unfoldable pub run_call : Call → PagingState → PagingState
run_call (request_bts env b type msc) ps = (paging_request_bts env b type msc ps).1
run_call (request_stop b) ps = (request_stop_bts b ps).1
run_call (update_buffer_space n) ps = paging_update_buffer_space n ps
run_call (expired i) ps = paging_T3113_expired i ps
run_call (worker env) ps = paging_worker env ps
run_call (give_credit env) ps = paging_give_credit env ps
run_call (flush_bts msc) ps = paging_flush_bts msc ps
run_call pending_requests_nr ps = (paging_pending_requests_nr ps).1

unfoldable pub run_calls : List Call → PagingState → PagingState
run_calls [] ps = ps
run_calls (c ∷ cs) ps = run_calls cs (run_call c ps)

-- A BTS at which nobody has been paged.
abbrev pub never_used : Option ℕ → PagingState
never_used need = record {
  is_init = false;
  pending_requests = [];
  work_timer = false;
  credit_timer = false;
  free_chans_need = need;
  available_slots = 0;
  held = λ b. 0;
  sent = [];
}

call-IsPaging : (c : Call) (ps : PagingState) → IsPaging ps → IsPaging (run_call c ps)
unfolding run_call paging_T3113_expired paging_pending_requests_nr
call-IsPaging (request_bts env b type msc) ps h = request_bts-IsPaging env b type msc ps h
call-IsPaging (request_stop b) ps h = stop-IsPaging b ps h
call-IsPaging (update_buffer_space n) ps h = buffer_space-IsPaging n ps h
call-IsPaging (expired i) ps h = remove-IsPaging i ps h
call-IsPaging (worker env) ps h = worker-IsPaging env ps h
call-IsPaging (give_credit env) ps h = credit-IsPaging env ps h
call-IsPaging (flush_bts msc) ps h = flush_bts-IsPaging msc ps h
call-IsPaging pending_requests_nr ps h = init-IsPaging ps h

calls-IsPaging : (cs : List Call) (ps : PagingState) → IsPaging ps → IsPaging (run_calls cs ps)
unfolding run_calls
calls-IsPaging [] ps h = h
calls-IsPaging (c ∷ cs) ps h = calls-IsPaging cs _ (call-IsPaging c ps h)

never_used-IsPaging : (need : Option ℕ) → IsPaging (never_used need)
unfolding count
never_used-IsPaging need = record {
  unique = λ b. omega arith;
  balanced = λ b. refl;
  timed = refl;
  bounded = ground arith;
  unused_empty = refl;
}

-- Whatever is called at a BTS, in any order, and whichever timers run out, from its first use on: at most
-- one request for a subscriber is pending and each holds exactly one reference to its subscriber; as long
-- as a request is pending, so is the timer of the queue or the one for credit, so that paging never
-- stalls; the free slots fit in 16 bits; and nothing is pending before the first use, as is asserted.
pub run_calls-IsPaging :
    (need : Option ℕ) (cs : List Call) → IsPaging (run_calls cs (never_used need))
run_calls-IsPaging need cs = calls-IsPaging cs _ (never_used-IsPaging need)
