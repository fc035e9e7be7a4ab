-- ===== src/Lcls/Events.antt =====
-- What an event and a change of state come to in src/osmo-bsc/osmo_bsc_lcls.c, the state being known.
use osmo_bsc.Base.{
  ℕ, suc, true, false, Option, none, some, ◌==◌, if◌then◌else◌, ◌>>=◌, ◌≡◌, refl, ap, ◌∙◌, arith,
}
use osmo_bsc.Fsm.{documented}
use osmo_bsc.Lcls.{
  LclsState, LclsConn, LclsNet, LclsEvent, set_conn, live, lcls_state, lcls_out_state_mask,
  lcls_in_event_mask,
}
use osmo_bsc.Lcls.Switch.{lcls_enter, lcls_state_chg}
use osmo_bsc.Lcls.Active.{lcls_action}
use osmo_bsc.Lcls.Calls.{dispatch_by, dispatch_within}

-- An event that the state takes.
taken :
    (dispatch : ℕ → LclsEvent → LclsNet → Option LclsNet) (c : ℕ) (ev : LclsEvent) (net : LclsNet)
    (m : Option LclsNet) (s st : LclsState)
    → m ≡ some net
    → lcls_state c m ≡ s
    → s ≡ st
    → lcls_in_event_mask st ev ≡ true
    → (if lcls_in_event_mask (lcls_state c m) ev
        then m >>= (λ q. lcls_action documented dispatch c (lcls_state c m) ev q)
        else m)
      ≡ lcls_action documented dispatch c st ev net
taken dispatch c ev net m s st e f g t = let at : lcls_state c m ≡ st = f ∙ g in rw (at, e, t) refl

pub live_lem : (c : ℕ) (net : LclsNet) → (net.conn c).alive ≡ true → live c net ≡ some net
live_lem c net a = ap (λ b. if b then some net else none) a

pub dispatch-action :
    (depth c : ℕ) (ev : LclsEvent) (net : LclsNet) (st : LclsState)
    → (net.conn c).alive ≡ true
    → (net.conn c).state ≡ st
    → lcls_in_event_mask st ev ≡ true
    → dispatch_within documented (suc depth) c ev net
      ≡ lcls_action documented (dispatch_within documented depth) c st ev net
unfolding dispatch_within dispatch_by
dispatch-action depth c ev net st a s t =
    taken (dispatch_within documented depth) c ev net (live c net) _ st (live_lem c net a) refl
      (ap (lcls_state c) (live_lem c net a) ∙ s) t

-- Changes that are permitted and that are not.
pub chg_refused :
    (c : ℕ) (st st' : LclsState) (net : LclsNet)
    → (net.conn c).state ≡ st
    → lcls_out_state_mask st st' ≡ false
    → lcls_state_chg documented c st' net ≡ some net
unfolding lcls_state_chg
chg_refused c st st' net s t =
    ap (λ b. if b then lcls_enter c st' net else some net)
      (ap (λ q. lcls_out_state_mask q st') s ∙ t)

pub chg_permitted :
    (c : ℕ) (st st' : LclsState) (net : LclsNet)
    → (net.conn c).state ≡ st
    → lcls_out_state_mask st st' ≡ true
    → lcls_state_chg documented c st' net ≡ lcls_enter c st' net
unfolding lcls_state_chg
chg_permitted c st st' net s t =
    ap (λ b. if b then lcls_enter c st' net else some net)
      (ap (λ q. lcls_out_state_mask q st') s ∙ t)

-- The connection that is set is found, and the others are as before.
pub set_conn-same : (c : ℕ) (q : LclsConn) (net : LclsNet) → (set_conn c q net).conn c ≡ q
set_conn-same c q net = let self : (c == c) ≡ true = ground arith in rw self refl

pub set_conn-apart :
    (c d : ℕ) (q : LclsConn) (net : LclsNet)
    → (c == d) ≡ false
    → (set_conn c q net).conn d ≡ net.conn d
set_conn-apart c d q net ne = rw ne refl
