-- ===== src/Paging/Rounds.antt =====
-- That the worker of src/osmo-bsc/paging.c serves the requests in turn.
use osmo_bsc.Base.{
  ℕ, zero, suc, ◌-◌, ◌≤◌, Bool, true, false, ◌||◌, Option, List, [], ◌∷◌, ◌++◌, map, length, ◌≡◌,
  refl, ap, ◌∙◌, sym, arith, ◌==◌, if◌then◌else◌,
}
use mathlib.Core.List.{append_assoc, append-nil}
use mathlib.Core.Path.{subst}
use osmo_bsc.Paging.{
  Request, ChanNeeded, PagingState, PagingEnv, skips, again, paged, handle_queue,
  paging_handle_pending_requests, paging_worker,
}

-- The timer of the queue runs out so many times.
unfoldable pub rounds : PagingEnv → ℕ → PagingState → PagingState
rounds env zero ps = ps
rounds env (suc n) ps = rounds env n (paging_worker env ps)

abbrev pub any_skipped : PagingEnv → Option ℕ → List Request → Bool
any_skipped env need [] = false
any_skipped env need (r ∷ rs) = skips env need r || any_skipped env need rs

-- The commands that page these requests, on top of those that were sent before.
abbrev pub page_all : List Request → List (ℕ × ChanNeeded) → List (ℕ × ChanNeeded)
page_all [] sent = sent
page_all (r ∷ rs) sent = page_all rs ((r.bsub, r.chan_type) ∷ sent)

worker_pages :
    (env : PagingEnv) (r : Request) (rs : List Request) (ps : PagingState)
    → ps.work_timer ≡ true
    → ps.pending_requests ≡ r ∷ rs
    → (ps.available_slots == 0) ≡ false
    → skips env ps.free_chans_need r ≡ false
    → paging_worker env ps ≡ paged r rs ps
unfolding paging_worker paging_handle_pending_requests handle_queue
worker_pages env r rs ps w e s k =
    let fired = record ps { work_timer = false } in
    ap (λ t. if t then handle_queue env ps.pending_requests fired else ps) w
    ∙ (ap (λ q. handle_queue env q fired) e ∙ rw (s, k) refl)

-- What is left of the queue, what was sent and how many slots are free, after xs was paged before ys.
abbrev AfterPaging : List Request → List Request → PagingState → PagingState → Type 0
AfterPaging xs ys ps q =
    (q.pending_requests ≡ ys ++ map again xs)
    × (q.sent ≡ page_all xs ps.sent)
    × (q.available_slots ≡ ps.available_slots - length xs)

-- The rounds over the front of the queue.
pages_front :
    (env : PagingEnv) (xs ys : List Request) (ps : PagingState)
    → ps.work_timer ≡ true
    → ps.pending_requests ≡ xs ++ ys
    → any_skipped env ps.free_chans_need xs ≡ false
    → length xs ≤ ps.available_slots
    → AfterPaging xs ys ps (rounds env (length xs) ps)
unfolding rounds
pages_front env [] ys ps w e k s = (e ∙ sym (append-nil ys), refl, omega arith)
pages_front env (r ∷ rs) ys ps w e k s =
    let q = paged r (rs ++ ys) ps in
    let step : paging_worker env ps ≡ q =
      worker_pages env r (rs ++ ys) ps w e (ground arith) (ground arith) in
    let (p, t, n) =
      pages_front env rs (ys ++ (again r ∷ [])) q refl (append_assoc rs ys (again r ∷ []))
        (ground arith) (ground arith) in
    subst (λ x. AfterPaging (r ∷ rs) ys ps (rounds env (length rs) x)) (sym step)
      (p ∙ append_assoc ys (again r ∷ []) (map again rs), t, n ∙ omega arith)

-- If the timer of the queue is pending, no request is skipped, for want of free channels or since the BTS
-- is down, and there are enough free slots: when the timer has run out once for each request, each was
-- paged once, in the order of the queue, the queue is as before but for one attempt more of each, and as
-- many slots are used.
pub rounds-page_all :
    (env : PagingEnv) (ps : PagingState)
    → ps.work_timer ≡ true
    → any_skipped env ps.free_chans_need ps.pending_requests ≡ false
    → length ps.pending_requests ≤ ps.available_slots
    → ((rounds env (length ps.pending_requests) ps).pending_requests
        ≡ map again ps.pending_requests)
      × ((rounds env (length ps.pending_requests) ps).sent ≡ page_all ps.pending_requests ps.sent)
      × ((rounds env (length ps.pending_requests) ps).available_slots
          ≡ ps.available_slots - length ps.pending_requests)
rounds-page_all env ps w k s =
    pages_front env ps.pending_requests [] ps w (sym (append-nil ps.pending_requests)) k s
