-- ===== src/Paging/Network.antt =====
-- The loops over all BTSs in src/osmo-bsc/paging.c: the answer of a subscriber, and flushing.
use Prim.{tt}
use osmo_bsc.Base.{
  ℕ, ◌+◌, Bool, true, false, Option, none, some, List, [], ◌∷◌, ◌≡◌, refl, ap, inl, inr, arith,
  Bool-cases, ◌==◌, if◌then◌else◌, get_elem?,
}
use osmo_bsc.Paging.{
  Request, PagingState, find_request, next_position, stop_found, request_stop_bts,
  paging_remove_request, paging_init_if_needed, paging_flush_bts,
}
use osmo_bsc.Paging.Count.{count, one_if, count-remove_at}
use osmo_bsc.Paging.Keeps.{IsPaging, init-IsPaging}

-- Whether the BTS at a position of the list is the one that has the answer.
abbrev is_at : Option ℕ → ℕ → Bool
is_at none j = false
is_at (some i) j = i == j

-- paging_request_stop(): at the BTS that has the answer, if any, and in the loop over all others. The list
-- begins at position j.
unfoldable pub stop_answered : Option ℕ → ℕ → ℕ → List PagingState → List PagingState
stop_answered at b j [] = []
stop_answered at b j (ps ∷ rest) =
    (if is_at at j then (request_stop_bts b ps).1 else ps) ∷ stop_answered at b (j + 1) rest

unfoldable pub stop_others : Option ℕ → ℕ → ℕ → List PagingState → List PagingState
stop_others at b j [] = []
stop_others at b j (ps ∷ rest) =
    (if is_at at j then ps else (request_stop_bts b ps).1) ∷ stop_others at b (j + 1) rest

unfoldable pub paging_request_stop : Option ℕ → ℕ → List PagingState → List PagingState
paging_request_stop at b bts_list = stop_others at b 0 (stop_answered at b 0 bts_list)

-- paging_flush_network()
unfoldable pub paging_flush_network : Option ℕ → List PagingState → List PagingState
paging_flush_network msc [] = []
paging_flush_network msc (ps ∷ rest) = paging_flush_bts msc ps ∷ paging_flush_network msc rest

abbrev pub AllPaging : List PagingState → Type 0
AllPaging [] = Unit
AllPaging (ps ∷ rest) = IsPaging ps × AllPaging rest

-- Where the first request of a subscriber is found, there is one.
Found : ℕ → List Request → Option ℕ → Type 0
Found b rs none = count b rs ≡ 0
Found b rs (some i) = (r : Request) × (get_elem? rs i ≡ some r) × ((r.bsub == b) ≡ true)

next-Found :
    (b : ℕ) (r : Request) (rs : List Request) (o : Option ℕ)
    → (r.bsub == b) ≡ false
    → Found b rs o
    → Found b (r ∷ rs) (next_position o)
unfolding Found count
next-Found b r rs none n c = rw n c
next-Found b r rs (some i) n (q, e, s) = (q, e, s)

find-Found : (b : ℕ) (rs : List Request) → Found b rs (find_request b rs)
unfolding Found find_request count
find-Found b [] = refl
find-Found b (r ∷ rs) = elim (Bool-cases (b == r.bsub)) [
  | inl e ↦ rw e (r, refl, ground arith)
  | inr e ↦ rw e (next-Found b r rs _ (ground arith) (find-Found b rs))
]

count-stop_found :
    (b : ℕ) (o : Option ℕ) (ps : PagingState)
    → Found b ps.pending_requests o
    → IsPaging ps
    → count b (stop_found o ps).1.pending_requests ≡ 0
unfolding Found stop_found paging_remove_request
count-stop_found b none ps c h = c
count-stop_found b (some i) ps (r, e, s) h =
    let left = count-remove_at b ps.pending_requests i r e in
    let u = h.unique b in let one : one_if (r.bsub == b) ≡ 1 = ap one_if s in rw e (omega arith)

stop_count :
    (b : ℕ) (ps : PagingState)
    → IsPaging ps
    → count b (request_stop_bts b ps).1.pending_requests ≡ 0
unfolding request_stop_bts
stop_count b ps h =
    let ps' = paging_init_if_needed ps in
    count-stop_found b _ ps' (find-Found b ps'.pending_requests) (init-IsPaging ps h)

abbrev pub NonePending : ℕ → List PagingState → Type 0
NonePending b [] = Unit
NonePending b (ps ∷ rest) = (count b ps.pending_requests ≡ 0) × NonePending b rest

others-NonePending :
    (at : Option ℕ) (b j : ℕ) (l : List PagingState)
    → AllPaging l
    → NonePending b (stop_others at b j (stop_answered at b j l))
unfolding stop_others stop_answered
others-NonePending at b j [] h = tt
others-NonePending at b j (ps ∷ rest) (h, hs) = elim (Bool-cases (is_at at j)) [
  | inl e ↦ rw e (stop_count b ps h, others-NonePending at b (j + 1) rest hs)
  | inr e ↦ rw e (stop_count b ps h, others-NonePending at b (j + 1) rest hs)
]

-- If at each BTS at most one request for a subscriber is pending and the rest of that order holds, then
-- after a subscriber has answered, at any of them or at none, no request for it is pending at any BTS.
pub paging_request_stop-NonePending :
    (at : Option ℕ) (b : ℕ) (bts_list : List PagingState)
    → AllPaging bts_list
    → NonePending b (paging_request_stop at b bts_list)
unfolding paging_request_stop
paging_request_stop-NonePending at b bts_list h = others-NonePending at b 0 bts_list h
