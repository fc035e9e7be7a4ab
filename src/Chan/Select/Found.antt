-- ===== src/Chan/Select/Found.antt =====
-- What a search of lchan_select.c for one kind of timeslot finds, and that it misses nothing.
use mathlib.Core.List.Memᴰ
use native.Mathlib.Nat.{zero-add}
use osmo_bsc.Base.{
  ℕ, zero, suc, ◌+◌, ◌<◌, Bool, true, false, Option, none, some, List, [], ◌∷◌, get_elem?, length,
  ◌≡◌, refl, sym, ap, ◌∙◌, mem-reverse_of_mem, inl, inr, arith, Memᴰ, first_some-hit,
  first_some-miss, Bool-cases, Option-cases,
}
use osmo_bsc.Chan.Types.{Pchan, LchanState, unused, Lchan, Ts, Trx, Bts}
use osmo_bsc.Chan.Kinds.{pchan_eq_sound, pchan_eq_self}
use osmo_bsc.Chan.Usable.{
  trx_is_usable, ts_is_usable, ts_usable_as_pchan, lchans_as_pchan, is_unused,
}
use osmo_bsc.Chan.Select.{
  Place, first_unused, find_in_ts, ts_order, find_in_slot, lc_find_trx, positions, trx_order,
  find_in_trx, lc_dyn_find_bts,
}

-- The lchan at a place is free and visited in a timeslot of kind `pchan` that is usable as
-- `as_pchan`, on a usable transceiver.
pub record Found (bts : Bts) (pchan as_pchan : Pchan) (p : Place) : Type 0 where
  pub trx : Trx
  pub ts : Ts
  pub lchan : Lchan
  pub trx_here : get_elem? bts.trx_list p.trx ≡ some trx
  pub ts_here : get_elem? trx.ts p.ts ≡ some ts
  pub visited : Memᴰ (p.ss, lchan, unused) (lchans_as_pchan as_pchan 0 ts.lchans)
  pub trx_usable : trx_is_usable bts trx ≡ true
  pub kind : ts.pchan_on_init ≡ pchan
  pub current : ts_usable_as_pchan bts trx ts as_pchan ≡ true

is_unused_sound : (st : LchanState) → is_unused st ≡ true → st ≡ unused
is_unused_sound st h = ground arith

first_unused-hit :
    (ls : List (ℕ × Lchan × LchanState)) (i : ℕ)
    → first_unused ls ≡ some i
    → (l : Lchan) × Memᴰ (i, l, unused) ls
unfolding first_unused
first_unused-hit [] i h = ground arith
first_unused-hit ((j, l, st) ∷ ls) i h = elim (Bool-cases (is_unused st)) [
  | inl e ↦ (l, Memᴰ.head (ground (arith, is_unused_sound st e)))
  | inr e ↦ let (k, m) = first_unused-hit ls i (ground arith) in (k, Memᴰ.tail m)
]

first_unused-miss :
    (ls : List (ℕ × Lchan × LchanState)) (i : ℕ) (l : Lchan)
    → first_unused ls ≡ none
    → ¬ Memᴰ (i, l, unused) ls
unfolding first_unused
first_unused-miss [] i l h m = elim m [ ]
first_unused-miss ((j, k, st) ∷ ls) i l h (Memᴰ.head e) = ground arith
first_unused-miss ((j, k, st) ∷ ls) i l h (Memᴰ.tail m) = first_unused-miss ls i l (ground arith) m

find_in_ts-hit :
    (bts : Bts) (trx : Trx) (pchan as_pchan : Pchan) (ts : Ts) (ss : ℕ)
    → find_in_ts bts trx pchan as_pchan ts ≡ some ss
    → (l : Lchan) × Memᴰ (ss, l, unused) (lchans_as_pchan as_pchan 0 ts.lchans)
      × (ts.pchan_on_init ≡ pchan)
      × (ts_usable_as_pchan bts trx ts as_pchan ≡ true)
unfolding find_in_ts
find_in_ts-hit bts trx pchan as_pchan ts ss h =
    let (l, m) = first_unused-hit (lchans_as_pchan as_pchan 0 ts.lchans) ss (ground arith) in
    (l, m, pchan_eq_sound ts.pchan_on_init pchan (ground arith), ground arith)

usable_of_usable_as :
    (bts : Bts) (trx : Trx) (ts : Ts) (as_pchan : Pchan)
    → ts_usable_as_pchan bts trx ts as_pchan ≡ true
    → ts_is_usable bts trx ts ≡ true
unfolding ts_usable_as_pchan
usable_of_usable_as bts trx ts as_pchan h = ground arith

find_in_ts-miss :
    (bts : Bts) (trx : Trx) (as_pchan : Pchan) (ts : Ts) (ss : ℕ) (l : Lchan)
    → find_in_ts bts trx ts.pchan_on_init as_pchan ts ≡ none
    → Memᴰ (ss, l, unused) (lchans_as_pchan as_pchan 0 ts.lchans)
    → ¬ (ts_usable_as_pchan bts trx ts as_pchan ≡ true)
unfolding find_in_ts
find_in_ts-miss bts trx as_pchan ts ss l h m u =
    first_unused-miss (lchans_as_pchan as_pchan 0 ts.lchans) ss l
      (ground (arith, usable_of_usable_as bts trx ts as_pchan u, pchan_eq_self ts.pchan_on_init)) m

mem-ts_order : (r : Bool) (j : ℕ) → j < 8 → Memᴰ j (ts_order r)
mem-ts_order true j h = search (Memᴰ.head, Memᴰ.tail, arith) depth 12
mem-ts_order false j h = search (Memᴰ.head, Memᴰ.tail, arith) depth 12

find_in_slot-hit :
    (bts : Bts) (trx : Trx) (pchan as_pchan : Pchan) (j : ℕ) (slot : Option Ts) (a b : ℕ)
    → find_in_slot bts trx pchan as_pchan j slot ≡ some (a, b)
    → (ts : Ts) × (slot ≡ some ts) × (a ≡ j) × (find_in_ts bts trx pchan as_pchan ts ≡ some b)
find_in_slot-hit bts trx pchan as_pchan j none a b h = ground arith
find_in_slot-hit bts trx pchan as_pchan j (some ts) a b h =
    elim (Option-cases (find_in_ts bts trx pchan as_pchan ts)) [
      | inl e ↦ ground arith
      | inr (c, e) ↦ (ts, refl, ground arith, ground arith)
    ]

lc_find_trx-hit :
    (bts : Bts) (trx : Trx) (pchan as_pchan : Pchan) (j ss : ℕ)
    → lc_find_trx bts trx pchan as_pchan ≡ some (j, ss)
    → (ts : Ts) × (trx_is_usable bts trx ≡ true)
      × (get_elem? trx.ts j ≡ some ts)
      × (find_in_ts bts trx pchan as_pchan ts ≡ some ss)
unfolding lc_find_trx
lc_find_trx-hit bts trx pchan as_pchan j ss h =
    let (k, m, e) =
      first_some-hit (λ i. find_in_slot bts trx pchan as_pchan i (get_elem? trx.ts i))
        (ts_order bts.chan_alloc_reverse) (j, ss) (ground arith) in
    let (ts, here, same, hit) =
      find_in_slot-hit bts trx pchan as_pchan k (get_elem? trx.ts k) j ss e in
    (ts, ground arith, rw same here, hit)

find_in_trx-hit :
    (bts : Bts) (pchan as_pchan : Pchan) (i : ℕ) (slot : Option Trx) (p : Place)
    → find_in_trx bts pchan as_pchan i slot ≡ some p
    → (trx : Trx) × (slot ≡ some trx)
      × (p.trx ≡ i)
      × (lc_find_trx bts trx pchan as_pchan ≡ some (p.ts, p.ss))
find_in_trx-hit bts pchan as_pchan i none p h = ground arith
find_in_trx-hit bts pchan as_pchan i (some trx) p h =
    elim (Option-cases (lc_find_trx bts trx pchan as_pchan)) [
      | inl e ↦ ground arith
      | inr ((j, ss), e) ↦ (trx, refl, ground arith, ground arith)
    ]

-- What a search for one kind of timeslot returns is free and usable.
pub lc_dyn_find_bts-Found :
    (bts : Bts) (pchan as_pchan : Pchan) (p : Place)
    → lc_dyn_find_bts bts pchan as_pchan ≡ some p
    → Found bts pchan as_pchan p
unfolding lc_dyn_find_bts
lc_dyn_find_bts-Found bts pchan as_pchan p h =
    let (i, m, e) =
      first_some-hit (λ k. find_in_trx bts pchan as_pchan k (get_elem? bts.trx_list k))
        (trx_order bts) p h in
    let (trx, trx_here, same, hit) =
      find_in_trx-hit bts pchan as_pchan i (get_elem? bts.trx_list i) p e in
    let (ts, usable, ts_here, hit') = lc_find_trx-hit bts trx pchan as_pchan p.ts p.ss hit in
    let (l, visited, kind, current) = find_in_ts-hit bts trx pchan as_pchan ts p.ss hit' in
    record {
      trx = trx;
      ts = ts;
      lchan = l;
      trx_here = ap (get_elem? bts.trx_list) same ∙ trx_here;
      ts_here = ts_here;
      visited = visited;
      trx_usable = usable;
      kind = kind;
      current = current;
    }

mem-positions :
    {A : Type 0} (xs : List A) (i k : ℕ) (x : A)
    → get_elem? xs k ≡ some x
    → Memᴰ (i + k) (positions i (length xs))
unfolding positions
mem-positions [] i k x h = ground arith
mem-positions (y ∷ ys) i zero x h = Memᴰ.head (omega arith)
mem-positions (y ∷ ys) i (suc k) x h =
    Memᴰ.tail (Memᴰ.cast (omega arith) (mem-positions ys (i + 1) k x h))

mem-trx_order :
    (bts : Bts) (i : ℕ) (trx : Trx) → get_elem? bts.trx_list i ≡ some trx → Memᴰ i (trx_order bts)
unfolding trx_order
mem-trx_order bts i trx h =
    let m = Memᴰ.cast (sym (zero-add i)) (mem-positions bts.trx_list 0 i trx h) in
    elim (Bool-cases bts.chan_alloc_reverse) [
      | inl e ↦ rw e (mem-reverse_of_mem _ m)
      | inr e ↦ rw e m
    ]

find_in_slot-miss :
    (bts : Bts) (trx : Trx) (pchan as_pchan : Pchan) (j : ℕ) (ts : Ts)
    → find_in_slot bts trx pchan as_pchan j (some ts) ≡ none
    → find_in_ts bts trx pchan as_pchan ts ≡ none
find_in_slot-miss bts trx pchan as_pchan j ts h =
    elim (Option-cases (find_in_ts bts trx pchan as_pchan ts)) [
      | inl e ↦ e
      | inr (c, e) ↦ ground arith
    ]

find_in_trx-miss :
    (bts : Bts) (pchan as_pchan : Pchan) (i : ℕ) (trx : Trx)
    → find_in_trx bts pchan as_pchan i (some trx) ≡ none
    → lc_find_trx bts trx pchan as_pchan ≡ none
find_in_trx-miss bts pchan as_pchan i trx h =
    elim (Option-cases (lc_find_trx bts trx pchan as_pchan)) [
      | inl e ↦ e
      | inr ((j, ss), e) ↦ ground arith
    ]

lc_find_trx-miss :
    (bts : Bts) (trx : Trx) (pchan as_pchan : Pchan) (j : ℕ) (ts : Ts)
    → lc_find_trx bts trx pchan as_pchan ≡ none
    → trx_is_usable bts trx ≡ true
    → j < 8
    → get_elem? trx.ts j ≡ some ts
    → find_in_ts bts trx pchan as_pchan ts ≡ none
unfolding lc_find_trx
lc_find_trx-miss bts trx pchan as_pchan j ts h usable small here =
    let f : ℕ → Option (ℕ × ℕ) = λ i. find_in_slot bts trx pchan as_pchan i (get_elem? trx.ts i) in
    let e : f j ≡ none =
      first_some-miss f (ts_order bts.chan_alloc_reverse) (ground arith)
        (mem-ts_order bts.chan_alloc_reverse j small) in
    find_in_slot-miss bts trx pchan as_pchan j ts (rw here at e)

-- A search for one kind of timeslot that returns nothing has missed nothing: no lchan of that kind
-- is free and usable on any transceiver.
pub lc_dyn_find_bts-miss :
    (bts : Bts) (pchan as_pchan : Pchan) (p : Place)
    → lc_dyn_find_bts bts pchan as_pchan ≡ none
    → p.ts < 8
    → ¬ Found bts pchan as_pchan p
unfolding lc_dyn_find_bts
lc_dyn_find_bts-miss bts pchan as_pchan p h small v =
    let f : ℕ → Option Place = λ k. find_in_trx bts pchan as_pchan k (get_elem? bts.trx_list k) in
    let e : f p.trx ≡ none =
      first_some-miss f (trx_order bts) h (mem-trx_order bts p.trx v.trx v.trx_here) in
    let e' = find_in_trx-miss bts pchan as_pchan p.trx v.trx (rw v.trx_here at e) in
    let e'' = lc_find_trx-miss bts v.trx pchan as_pchan p.ts v.ts e' v.trx_usable small v.ts_here in
    find_in_ts-miss bts v.trx as_pchan v.ts p.ss v.lchan (rw (← v.kind) at e'') v.visited v.current
