-- ===== src/Paging/Keeps.antt =====
-- That every operation of src/osmo-bsc/paging.c keeps the queue of a BTS in order.
use osmo_bsc.Base.{
  either, ℕ, ◌+◌, ◌-◌, ◌≤◌, ◌<◌, Bool, true, false, ◌||◌, Option, none, some, List, [], ◌∷◌, ◌≡◌,
  refl, ap, inl, inr, arith, Bool-cases, ◌==◌, if◌then◌else◌, get_elem?,
}
use osmo_bsc.Paging.{
  Request, PagingState, remove_at, remove_found, paging_remove_request, is_empty,
  paging_schedule_if_needed, paging_init_if_needed, stop_found, request_stop_bts,
  paging_update_buffer_space, of_msc, flush_from, paging_flush_bts,
}
use osmo_bsc.Paging.Count.{count, one_if, count-remove_at, is_empty-remove_at}

-- At most one request for a subscriber is pending, each request holds one reference to its subscriber, as
-- long as a request is pending a timer is, the free slots fit in 16 bits, and nothing is pending before
-- the first use.
pub record IsPaging (ps : PagingState) : Type 0 where
  pub unique : (b : ℕ) → count b ps.pending_requests ≤ 1
  pub balanced : (b : ℕ) → ps.held b ≡ count b ps.pending_requests
  pub timed : is_empty ps.pending_requests || (ps.work_timer || ps.credit_timer) ≡ true
  pub bounded : ps.available_slots < 65536
  pub unused_empty : is_empty ps.pending_requests || ps.is_init ≡ true

put_count :
    (t : Bool) {held c c' : ℕ} → held ≡ c → c' + one_if t ≡ c → (if t then held - 1 else held) ≡ c'
put_count true h l = omega arith
put_count false h l = omega arith

pub or_true : (a : Bool) → a || true ≡ true
or_true true = refl
or_true false = refl

or_keeps : (a a' t : Bool) → (a ≡ true → a' ≡ true) → a || t ≡ true → a' || t ≡ true
or_keeps a true t f e = refl
or_keeps true false t f e = let c : false ≡ true = f refl in absurd (ground arith)
or_keeps false false t f e = e

remove_found-IsPaging :
    (i : ℕ) (o : Option Request) (ps : PagingState)
    → get_elem? ps.pending_requests i ≡ o
    → IsPaging ps
    → IsPaging (remove_found i o ps)
remove_found-IsPaging i none ps e h = h
remove_found-IsPaging i (some r) ps e h =
    let left : (b : ℕ)
        → count b (remove_at ps.pending_requests i) + one_if (r.bsub == b)
          ≡ count b ps.pending_requests =
      λ b. count-remove_at b ps.pending_requests i r e in
    let empties = is_empty-remove_at ps.pending_requests i in
    record {
      unique = λ b. let l = left b in let u = h.unique b in omega arith;
      balanced = λ b. put_count (r.bsub == b) (h.balanced b) (left b);
      timed = or_keeps _ _ _ empties h.timed;
      bounded = h.bounded;
      unused_empty = or_keeps _ _ _ empties h.unused_empty;
    }

pub remove-IsPaging :
    (i : ℕ) (ps : PagingState) → IsPaging ps → IsPaging (paging_remove_request i ps)
unfolding paging_remove_request
remove-IsPaging i ps h = remove_found-IsPaging i _ ps refl h

flush-IsPaging :
    (msc : Option ℕ) (rs : List Request) (i : ℕ) (ps : PagingState)
    → IsPaging ps
    → IsPaging (flush_from msc rs i ps)
unfolding flush_from
flush-IsPaging msc [] i ps h = h
flush-IsPaging msc (r ∷ rs) i ps h =
    either IsPaging (of_msc msc r) (flush-IsPaging msc rs i _ (remove-IsPaging i ps h))
      (flush-IsPaging msc rs (i + 1) ps h)

pub init-IsPaging : (ps : PagingState) → IsPaging ps → IsPaging (paging_init_if_needed ps)
unfolding paging_init_if_needed
init-IsPaging ps h = either IsPaging ps.is_init h (record {
  unique = h.unique;
  balanced = h.balanced;
  timed = h.timed;
  bounded = ground arith;
  unused_empty = or_true _;
})

pub flush_bts-IsPaging :
    (msc : Option ℕ) (ps : PagingState) → IsPaging ps → IsPaging (paging_flush_bts msc ps)
unfolding paging_flush_bts
flush_bts-IsPaging msc ps h =
    let ps' = paging_init_if_needed ps in
    flush-IsPaging msc ps'.pending_requests 0 ps' (init-IsPaging ps h)

stop_found-IsPaging : (o : Option ℕ) (ps : PagingState) → IsPaging ps → IsPaging (stop_found o ps).1
unfolding stop_found
stop_found-IsPaging none ps h = h
stop_found-IsPaging (some i) ps h = remove-IsPaging i ps h

pub stop-IsPaging : (b : ℕ) (ps : PagingState) → IsPaging ps → IsPaging (request_stop_bts b ps).1
unfolding request_stop_bts
stop-IsPaging b ps h = stop_found-IsPaging _ _ (init-IsPaging ps h)

-- With a timer pending, an order is enough that does not look at the timers.
pub schedule-IsPaging :
    (ps : PagingState)
    → ((b : ℕ) → count b ps.pending_requests ≤ 1)
    → ((b : ℕ) → ps.held b ≡ count b ps.pending_requests)
    → ps.available_slots < 65536
    → is_empty ps.pending_requests || ps.is_init ≡ true
    → IsPaging (paging_schedule_if_needed ps)
unfolding paging_schedule_if_needed
schedule-IsPaging ps u k s n = elim (Bool-cases (is_empty ps.pending_requests)) [
  | inl e ↦ simp e (record {
    unique = u;
    balanced = k;
    timed = ap (λ t. t || (ps.work_timer || ps.credit_timer)) e;
    bounded = s;
    unused_empty = n;
  })
  | inr e ↦
      simp e (record { unique = u; balanced = k; timed = or_true _; bounded = s; unused_empty = n })
]

pub buffer_space-IsPaging :
    (n : ℕ) (ps : PagingState) → IsPaging ps → IsPaging (paging_update_buffer_space n ps)
unfolding paging_update_buffer_space
buffer_space-IsPaging n ps h =
    let h' = init-IsPaging ps h in
    schedule-IsPaging _ h'.unique h'.balanced (ground arith) h'.unused_empty
