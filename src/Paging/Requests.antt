-- ===== src/Paging/Requests.antt =====
-- That a request for paging keeps the queue of a BTS in order, in src/osmo-bsc/paging.c.
use osmo_bsc.Base.{
  either, ℕ, ◌≤◌, Bool, true, not, ◌||◌, List, [], ◌∷◌, ◌++◌, ◌≡◌, refl, ap, ◌∙◌, sym, inl, inr,
  arith, Bool-cases, ◌==◌,
}
use osmo_bsc.Chan.Usable.{trx_is_usable}
use osmo_bsc.Paging.{
  Request, ChanNeeded, PagingState, PagingEnv, bsc_subscr_get, is_empty, paging_init_if_needed,
  paging_pending_request, paging_request, paging_request_bts, calculate_timer_3113,
}
use osmo_bsc.Paging.Count.{count, count-append, not_pending-count}
use osmo_bsc.Paging.Keeps.{IsPaging, or_true, init-IsPaging, schedule-IsPaging}

init_is_init : (ps : PagingState) → (paging_init_if_needed ps).is_init ≡ true
unfolding paging_init_if_needed
init_is_init ps = elim (Bool-cases ps.is_init) [ inl e ↦ simp e refl | inr e ↦ simp e refl ]

new_unique :
    (b k : ℕ) (r : Request) (rs : List Request)
    → r.bsub ≡ b
    → count b rs ≡ 0
    → count k rs ≤ 1
    → count k (rs ++ (r ∷ [])) ≤ 1
unfolding count
new_unique b k r rs s z u =
    let split = count-append k rs (r ∷ []) in
    elim (Bool-cases (r.bsub == k)) [
      | inl e ↦
          let same : b ≡ k = ground arith in
          let here : count k (r ∷ []) ≡ 1 = rw e refl in
          let z' : count k rs ≡ 0 = ap (λ n. count n rs) (sym same) ∙ z in omega arith
      | inr e ↦ let here : count k (r ∷ []) ≡ 0 = rw e refl in omega arith
    ]

new_balanced :
    (b k : ℕ) (r : Request) (rs : List Request)
    → r.bsub ≡ b
    → (held : ℕ → ℕ) → held k ≡ count k rs
    → bsc_subscr_get b held k ≡ count k (rs ++ (r ∷ []))
unfolding count
new_balanced b k r rs s held h =
    let split = count-append k rs (r ∷ []) in
    let at : (r.bsub == k) ≡ (b == k) = ap (λ n. n == k) s in
    elim (Bool-cases (b == k)) [
      | inl e ↦ let here : count k (r ∷ []) ≡ 1 = rw (at, e) refl in rw e (omega arith)
      | inr e ↦ let here : count k (r ∷ []) ≡ 0 = rw (at, e) refl in rw e (omega arith)
    ]

request-IsPaging :
    (env : PagingEnv) (b : ℕ) (type : ChanNeeded) (msc : ℕ) (ps : PagingState)
    → ps.is_init ≡ true
    → IsPaging ps
    → IsPaging (paging_request env b type msc ps).1
unfolding paging_request
request-IsPaging env b type msc ps init h =
    elim (Bool-cases (paging_pending_request b ps.pending_requests)) [
      | inl e ↦ rw e h
      | inr e ↦
          let r : Request = record {
            bsub = b;
            chan_type = type;
            attempts = 0;
            msc = msc;
            t3113 = calculate_timer_3113 env;
          } in
          let new = ps.pending_requests ++ (r ∷ []) in
          let none_yet = not_pending-count b ps.pending_requests e in
          rw e (
            schedule-IsPaging
              (record ps { held = bsc_subscr_get b ps.held; pending_requests = new })
              (λ k. new_unique b k r ps.pending_requests refl none_yet (h.unique k))
              (λ k. new_balanced b k r ps.pending_requests refl ps.held (h.balanced k)) h.bounded
              (ap (λ t. is_empty new || t) init ∙ or_true _))
    ]

pub request_bts-IsPaging :
    (env : PagingEnv) (b : ℕ) (type : ChanNeeded) (msc : ℕ) (ps : PagingState)
    → IsPaging ps
    → IsPaging (paging_request_bts env b type msc ps).1
unfolding paging_request_bts
request_bts-IsPaging env b type msc ps h =
    either {A = Bool × PagingState} (λ p. IsPaging p.1) (not (trx_is_usable env.bts env.c0)) h
      (request-IsPaging env b type msc _ (init_is_init ps) (init-IsPaging ps h))
