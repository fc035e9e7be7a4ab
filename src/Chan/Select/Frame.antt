-- ===== src/Chan/Select/Frame.antt =====
-- What lchan_select_by_type() changes: the type of the lchan that it returns, and nothing else.
use osmo_bsc.Base.{
  ℕ, zero, suc, Bool, ◌&&◌, Option, none, some, List, [], ◌∷◌, get_elem?, ◌≡◌, refl, inl, inr,
  arith, ◌==◌, if◌then◌else◌, Bool-cases, Option-cases,
}
use osmo_bsc.Chan.Types.{ChanType, Lchan, Ts, Trx, Bts}
use osmo_bsc.Chan.Select.{
  Place, update, in_lchan, in_ts, in_trx, set_lchan_type, find_by_type, lchan_select_by_type,
}

-- The lchan that a pointer stands for.
abbrev pub lchan_in_ts : ℕ → Option Ts → Option Lchan
lchan_in_ts ss none = none
lchan_in_ts ss (some ts) = get_elem? ts.lchans ss

abbrev pub lchan_in_trx : ℕ → ℕ → Option Trx → Option Lchan
lchan_in_trx j ss none = none
lchan_in_trx j ss (some trx) = lchan_in_ts ss (get_elem? trx.ts j)

abbrev pub lchan_at : Bts → Place → Option Lchan
lchan_at bts p = lchan_in_trx p.ts p.ss (get_elem? bts.trx_list p.trx)

abbrev pub same_place : Place → Place → Bool
same_place p q = (p.trx == q.trx) && (p.ts == q.ts) && (p.ss == q.ss)

abbrev pub map_opt : {A : Type 0} → (A → A) → Option A → Option A
map_opt f none = none
map_opt f (some x) = some (f x)

get_elem?-update :
    {A : Type 0} (f : A → A) (xs : List A) (i j : ℕ)
    → get_elem? (update f i xs) j ≡ (if i == j then map_opt f (get_elem? xs j) else get_elem? xs j)
unfolding update
get_elem?-update f [] i j = ground arith
get_elem?-update f (x ∷ xs) zero zero = refl
get_elem?-update f (x ∷ xs) zero (suc j) = ground arith
get_elem?-update f (x ∷ xs) (suc i) zero = ground arith
get_elem?-update f (x ∷ xs) (suc i) (suc j) = ground (arith, get_elem?-update f xs i j)

lchan_in_ts_lem :
    (type : ChanType) (ss ss' : ℕ) (slot : Option Ts)
    → lchan_in_ts ss' (map_opt (in_ts type ss) slot)
      ≡ (if ss == ss' then map_opt (in_lchan type) (lchan_in_ts ss' slot) else lchan_in_ts ss' slot)
unfolding in_ts
lchan_in_ts_lem type ss ss' none = ground arith
lchan_in_ts_lem type ss ss' (some ts) = get_elem?-update (in_lchan type) ts.lchans ss ss'

lchan_in_trx_lem :
    (type : ChanType) (p q : Place) (slot : Option Trx)
    → lchan_in_trx q.ts q.ss (map_opt (in_trx type p) slot) ≡ (
        if (p.ts == q.ts) && (p.ss == q.ss)
        then map_opt (in_lchan type) (lchan_in_trx q.ts q.ss slot)
        else lchan_in_trx q.ts q.ss slot)
unfolding in_trx
lchan_in_trx_lem type p q none = ground arith
lchan_in_trx_lem type p q (some trx) =
    rw (get_elem?-update (in_ts type p.ss) trx.ts p.ts q.ts) (elim (Bool-cases (p.ts == q.ts)) [
      | inl e ↦ rw e (lchan_in_ts_lem type p.ss q.ss (get_elem? trx.ts q.ts))
      | inr e ↦ rw e refl
    ])

set_lchan_type-lchan_at :
    (bts : Bts) (type : ChanType) (p q : Place)
    → lchan_at (set_lchan_type bts p type) q
      ≡ (if same_place p q then map_opt (in_lchan type) (lchan_at bts q) else lchan_at bts q)
unfolding set_lchan_type
set_lchan_type-lchan_at bts type p q =
    rw (get_elem?-update (in_trx type p) bts.trx_list p.trx q.trx)
      (elim (Bool-cases (p.trx == q.trx)) [
        | inl e ↦ rw e (lchan_in_trx_lem type p q (get_elem? bts.trx_list q.trx))
        | inr e ↦ rw e refl
      ])

-- After a selection, the selected lchan has the requested type and is otherwise as it was, and every
-- other lchan of the BTS is as it was.
pub select_changes_type :
    (bts : Bts) (type : ChanType) (p : Place) (q : Place)
    → (lchan_select_by_type bts type).0 ≡ some p
    → lchan_at (lchan_select_by_type bts type).1 q ≡ (
        if same_place p q
        then map_opt {A = Lchan} (λ l. record l { chan_type = type }) (lchan_at bts q)
        else lchan_at bts q)
unfolding lchan_select_by_type in_lchan
select_changes_type bts type p q h = elim (Option-cases (find_by_type bts type)) [
  | inl e ↦ ground arith
  | inr (r, e) ↦ ground (arith, set_lchan_type-lchan_at bts type p q)
]
