-- ===== src/Paging/Works.antt =====
-- That what the timers of src/osmo-bsc/paging.c start keeps the queue of a BTS in order.
use osmo_bsc.Base.{
  either, ℕ, ◌≤◌, ◌<◌, true, false, ◌||◌, List, [], ◌∷◌, ◌++◌, ◌≡◌, refl, ap, ◌∙◌, sym, arith, ◌==◌,
}
use osmo_bsc.Paging.{
  Request, PagingState, PagingEnv, is_empty, skips, again, handle_queue,
  paging_handle_pending_requests, paging_worker, paging_give_credit,
}
use osmo_bsc.Paging.Count.{count, count-append}
use osmo_bsc.Paging.Keeps.{IsPaging, or_true}

rotate-count :
    (b : ℕ) (r : Request) (rs : List Request) → count b (rs ++ (again r ∷ [])) ≡ count b (r ∷ rs)
unfolding count
rotate-count b r rs = ground (arith, count-append b rs (again r ∷ []))

-- The timers are not looked at: one is started, or nothing is pending.
queue-IsPaging :
    (env : PagingEnv) (rs : List Request) (ps : PagingState)
    → ps.pending_requests ≡ rs
    → ((b : ℕ) → count b ps.pending_requests ≤ 1)
    → ((b : ℕ) → ps.held b ≡ count b ps.pending_requests)
    → ps.available_slots < 65536
    → is_empty ps.pending_requests || ps.is_init ≡ true
    → IsPaging (handle_queue env rs ps)
unfolding handle_queue
queue-IsPaging env [] ps e u k s n = record {
  unique = u;
  balanced = k;
  timed = ap (λ q. is_empty q || (ps.work_timer || ps.credit_timer)) e;
  bounded = s;
  unused_empty = n;
}
queue-IsPaging env (r ∷ rs) ps e u k s n =
    let rotated : (b : ℕ) → count b (rs ++ (again r ∷ [])) ≡ count b ps.pending_requests =
      λ b. rotate-count b r rs ∙ ap (count b) (sym e) in
    let used : ps.is_init ≡ true = ap (λ q. is_empty q || ps.is_init) (sym e) ∙ n in
    either IsPaging (ps.available_slots == 0)
      (record {
        unique = u;
        balanced = k;
        timed = ap (λ t. is_empty ps.pending_requests || t) (or_true ps.work_timer) ∙ or_true _;
        bounded = s;
        unused_empty = n;
      })
      (either IsPaging (skips env ps.free_chans_need r)
        (record { unique = u; balanced = k; timed = or_true _; bounded = s; unused_empty = n })
        (record {
          unique = λ b. let c = rotated b in let u' = u b in ground arith;
          balanced = λ b. k b ∙ sym (rotated b);
          timed = or_true _;
          bounded = omega arith;
          unused_empty = ap (λ t. is_empty (rs ++ (again r ∷ [])) || t) used ∙ or_true _;
        }))

pub worker-IsPaging :
    (env : PagingEnv) (ps : PagingState) → IsPaging ps → IsPaging (paging_worker env ps)
unfolding paging_worker paging_handle_pending_requests
worker-IsPaging env ps h =
    either IsPaging ps.work_timer
      (queue-IsPaging env _ (record ps { work_timer = false }) refl h.unique h.balanced h.bounded
        h.unused_empty)
      h

pub credit-IsPaging :
    (env : PagingEnv) (ps : PagingState) → IsPaging ps → IsPaging (paging_give_credit env ps)
unfolding paging_give_credit paging_handle_pending_requests
credit-IsPaging env ps h =
    either IsPaging ps.credit_timer
      (queue-IsPaging env _ (record ps { credit_timer = false; available_slots = 20 }) refl h.unique
        h.balanced (ground arith) h.unused_empty)
      h
