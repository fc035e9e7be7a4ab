-- ===== src/Lcls/Runs.antt =====
-- Runs of the calls for LCLS: of src/osmo-bsc/osmo_bsc_lcls.c, src/osmo-bsc/osmo_bsc_bssap.c and
-- src/osmo-bsc/bsc_subscr_conn_fsm.c, none of which aborts.
use osmo_bsc.Base.{
  ℕ, zero, suc, Bool, true, false, Option, none, some, List, ◌==◌, if◌then◌else◌, ◌>>=◌, either,
  Returns, bind-Returns, each-Returns, ◌≡◌, ◌⊎◌, inl, inr, refl, arith, Bool-cases,
}
use osmo_bsc.Fsm.{OsmoFsm, documented, IsDocumented, by_documentation}
use osmo_bsc.Lcls.{
  no_lcls, locally_switched_wait_break, LclsConfig, LclsControl, LclsConn, LclsNet, LclsEvent,
  apply_cfg_csc, other_dead, set_conn, set_other, live, lcls_state, is_set, is_switched,
  lcls_in_event_mask,
}
use Prim.{tt}
use mathlib.Core.Path.{subst}
use osmo_bsc.Chan.Types.{ChanType}
use osmo_bsc.Lcls.Switch.{lcls_is_supported_config}
use osmo_bsc.Lcls.Correlate.{is_empty_ref}
use osmo_bsc.Lcls.Active.{lcls_action}
use osmo_bsc.Lcls.Calls.{
  set_call_ref, without, dispatch_by, dispatch_within, lcls_dispatch, lcls_update_config,
  lcls_apply_config, update_apply_ack, bssmap_handle_lcls_connect_ctrl, bssmap_handle_ass_req_lcls,
  lcls_fsm_cleanup, terminate, bsc_subscr_con_allocate,
}
use osmo_bsc.Lcls.InOrder.{ConnInOrder, InOrder, set_conn-InOrder, send-InOrder}
use osmo_bsc.Lcls.Updates.{Keeps}
use osmo_bsc.Lcls.Actions.{lcls_action-InOrder}

-- The media of a connection change: those are read and never written.
abbrev pub set_media : ChanType → ℕ → Bool → Option ℕ → LclsConn → LclsConn
set_media type mode ci rtp q = record q {
  lchan_type = type;
  tch_mode = mode;
  mgw_endpoint_ci_msc = ci;
  rtp_info = rtp;
}

-- What happens to the connections of a network.
pub data LclsStep (osmo : OsmoFsm) : LclsNet → LclsNet → Type 0 where
  allocated :
      (c : ℕ) (q : LclsConn) (net : LclsNet)
      → (net.conn c).alive ≡ false
      → LclsStep osmo net (bsc_subscr_con_allocate c q net)
  media_changed :
      (c : ℕ) (type : ChanType) (mode : ℕ) (ci : Bool) (rtp : Option ℕ) (net : LclsNet)
      → LclsStep osmo net (set_conn c (set_media type mode ci rtp (net.conn c)) net)
  connect_ctrl :
      (c : ℕ) (config : Option LclsConfig) (control : Option LclsControl) (net net' : LclsNet)
      → bssmap_handle_lcls_connect_ctrl osmo c config control net ≡ some net'
      → LclsStep osmo net net'
  ass_req :
      (c : ℕ) (gcr : Option (List ℕ)) (config : Option LclsConfig) (control : Option LclsControl)
      (net net' : LclsNet)
      → bssmap_handle_ass_req_lcls osmo c gcr config control net ≡ some net'
      → LclsStep osmo net net'
  applied :
      (c : ℕ) (net net' : LclsNet)
      → lcls_apply_config osmo c net ≡ some net'
      → LclsStep osmo net net'
  terminated :
      (c : ℕ) (net net' : LclsNet) → terminate osmo c net ≡ some net' → LclsStep osmo net net'

pub data LclsRun (osmo : OsmoFsm) : LclsNet → LclsNet → Type 0 where
  stay : (net : LclsNet) → LclsRun osmo net net
  more :
      (net net' net'' : LclsNet)
      → LclsRun osmo net net'
      → LclsStep osmo net' net''
      → LclsRun osmo net net''

-- Events, so many inside one another.
live-InOrder :
    (dispatch : ℕ → LclsEvent → LclsNet → Option LclsNet) (keeps : Keeps dispatch) (c : ℕ)
    (ev : LclsEvent) (net : LclsNet)
    → InOrder net
    → Returns InOrder (
        if lcls_in_event_mask (lcls_state c (live c net)) ev
        then live c net
          >>= (λ q. lcls_action documented dispatch c (lcls_state c (live c net)) ev q)
        else live c net)
live-InOrder dispatch keeps c ev net h =
    either
      (λ m. Returns InOrder (
        if lcls_in_event_mask (lcls_state c m) ev
        then m >>= (λ q. lcls_action documented dispatch c (lcls_state c m) ev q)
        else m))
      (net.conn c).alive
      (either (Returns InOrder) (lcls_in_event_mask (net.conn c).state ev)
        (lcls_action-InOrder dispatch keeps c (net.conn c).state ev net refl h) h)
      (either (Returns InOrder) (lcls_in_event_mask no_lcls ev) tt tt)

dispatch_within-InOrder : (depth : ℕ) → Keeps (dispatch_within documented depth)
unfolding dispatch_within dispatch_by
dispatch_within-InOrder zero c ev net h = tt
dispatch_within-InOrder (suc depth) c ev net h =
    live-InOrder (dispatch_within documented depth) (dispatch_within-InOrder depth) c ev net h

dispatch-InOrder : Keeps (lcls_dispatch documented)
unfolding lcls_dispatch
dispatch-InOrder c ev net h = dispatch_within-InOrder 3 c ev net h

update_config-InOrder :
    (c : ℕ) (config : Option LclsConfig) (control : Option LclsControl) (net : LclsNet)
    → InOrder net
    → Returns InOrder (lcls_update_config documented c config control net)
unfolding lcls_update_config
update_config-InOrder c none none net h = h
update_config-InOrder c none (some csc) net h = dispatch-InOrder c _ net h
update_config-InOrder c (some cfg) none net h = dispatch-InOrder c _ net h
update_config-InOrder c (some cfg) (some csc) net h = dispatch-InOrder c _ net h

apply_config-InOrder :
    (c : ℕ) (net : LclsNet) → InOrder net → Returns InOrder (lcls_apply_config documented c net)
unfolding lcls_apply_config
apply_config-InOrder c net h = dispatch-InOrder c apply_cfg_csc net h

connect_ctrl-InOrder :
    (c : ℕ) (config : Option LclsConfig) (control : Option LclsControl) (net : LclsNet)
    → InOrder net
    → Returns InOrder (bssmap_handle_lcls_connect_ctrl documented c config control net)
unfolding bssmap_handle_lcls_connect_ctrl update_apply_ack
connect_ctrl-InOrder c config control net h =
    either (Returns InOrder) (is_empty_ref (net.conn c).global_call_ref) h (
      bind-Returns InOrder InOrder (lcls_update_config documented c config control net) _
        (update_config-InOrder c config control net h)
        (λ net' h'.
          bind-Returns InOrder InOrder (lcls_apply_config documented c net') _
            (apply_config-InOrder c net' h') (λ net''. send-InOrder _ net'')))

call_ref-InOrder :
    (c : ℕ) (gcr : Option (List ℕ)) (net : LclsNet) → InOrder net → InOrder (set_call_ref c gcr net)
call_ref-InOrder c none net h = h
call_ref-InOrder c (some gcr) net h = either InOrder _ (set_conn-InOrder c _ net h (h.each c)) h

ass_req-InOrder :
    (c : ℕ) (gcr : Option (List ℕ)) (config : Option LclsConfig) (control : Option LclsControl)
    (net : LclsNet)
    → InOrder net
    → Returns InOrder (bssmap_handle_ass_req_lcls documented c gcr config control net)
unfolding bssmap_handle_ass_req_lcls
ass_req-InOrder c gcr config control net h =
    update_config-InOrder c config control _ (call_ref-InOrder c gcr net h)

-- The connection that ends may be out of order until it is freed.
record OthersInOrder (c : ℕ) (net : LclsNet) : Type 0 where
  others : (j : ℕ) → (c == j) ≡ false → ConnInOrder (net.conn j)

forgotten-OthersInOrder :
    (c : ℕ) (o : Option ℕ) (net : LclsNet) → InOrder net → OthersInOrder c (set_other c o net)
forgotten-OthersInOrder c o net h = record { others = λ j ne. rw ne (h.each j) }

freed-InOrder :
    (c : ℕ) (net : LclsNet)
    → OthersInOrder c net
    → InOrder (record (set_conn c (record (net.conn c) { alive = false }) net) {
      subscr_conns = without c net.subscr_conns;
    })
freed-InOrder c net h = record {
  each = λ j. elim (Bool-cases (c == j)) [ inl e ↦ rw e (inl refl) | inr e ↦ rw e (h.others j e) ];
}

cleanup-OthersInOrder :
    (c : ℕ) (o : Option ℕ) (net : LclsNet)
    → InOrder net
    → Returns (OthersInOrder c) (lcls_fsm_cleanup documented c o net)
unfolding lcls_fsm_cleanup
cleanup-OthersInOrder c none net h = record { others = λ j ne. h.each j }
cleanup-OthersInOrder c (some d) net h = each-Returns (OthersInOrder c) (live d net) _ (λ u.
    bind-Returns InOrder (OthersInOrder c) (lcls_dispatch documented d (other_dead c) net)
      (λ net'. some (set_other c none net')) (dispatch-InOrder d (other_dead c) net h)
      (forgotten-OthersInOrder c none))

terminate-InOrder :
    (c : ℕ) (net : LclsNet) → InOrder net → Returns InOrder (terminate documented c net)
unfolding terminate
terminate-InOrder c net h =
    bind-Returns (OthersInOrder c) InOrder (lcls_fsm_cleanup documented c (net.conn c).other net) _
      (cleanup-OthersInOrder c (net.conn c).other net h) (freed-InOrder c)

returned :
    (P : LclsNet → Type 0) {o : Option LclsNet} {net : LclsNet} → o ≡ some net → Returns P o → P net
returned P e h = subst (Returns P) e h

step-InOrder : {net net' : LclsNet} → LclsStep documented net net' → InOrder net → InOrder net'
unfolding bsc_subscr_con_allocate
step-InOrder (allocated c q net dead) h = record {
  each = (set_conn-InOrder c _ net h (inr (inl refl))).each;
}
step-InOrder (media_changed c type mode ci rtp net) h = set_conn-InOrder c _ net h (h.each c)
step-InOrder (connect_ctrl c config control net net' e) h =
    returned InOrder e (connect_ctrl-InOrder c config control net h)
step-InOrder (ass_req c gcr config control net net' e) h =
    returned InOrder e (ass_req-InOrder c gcr config control net h)
step-InOrder (applied c net net' e) h = returned InOrder e (apply_config-InOrder c net h)
step-InOrder (terminated c net net' e) h = returned InOrder e (terminate-InOrder c net h)

run-InOrder : {net net' : LclsNet} → LclsRun documented net net' → InOrder net → InOrder net'
run-InOrder (stay net) h = h
run-InOrder (more net net' net'' r s) h = step-InOrder s (run-InOrder r h)

in_order_at :
    (q : LclsConn)
    → ConnInOrder q
    → q.alive ≡ true
    → is_switched q.state ≡ true
    → (lcls_is_supported_config q.config ≡ true)
      × ((is_set q.other ≡ true) ⊎ (q.state ≡ locally_switched_wait_break))
in_order_at q (inl a) l s = absurd (ground arith)
in_order_at q (inr (inl n)) l s = absurd (ground arith)
in_order_at q (inr (inr k)) l s = k

-- From a network without connections, with the FSM library's functions as documented: after any allocations,
-- ends, changes of media, requests of the MSC and completed assignments, as long as none of them aborts, a
-- live connection in a state of active local switching has the configuration that is supported, and it
-- has another connection unless it is in LOCALLY_SWITCHED_WAIT_BREAK.
pub switched_in_order :
    (osmo : OsmoFsm)
    → IsDocumented osmo
    → (net net' : LclsNet) (c : ℕ) → ((j : ℕ) → (net.conn j).alive ≡ false)
    → LclsRun osmo net net'
    → (net'.conn c).alive ≡ true
    → is_switched (net'.conn c).state ≡ true
    → (lcls_is_supported_config (net'.conn c).config ≡ true)
      × ((is_set (net'.conn c).other ≡ true) ⊎ ((net'.conn c).state ≡ locally_switched_wait_break))
switched_in_order osmo doc net net' c none_alive =
    by_documentation
      (λ o.
        LclsRun o net net'
        → (net'.conn c).alive ≡ true
        → is_switched (net'.conn c).state ≡ true
        → (lcls_is_supported_config (net'.conn c).config ≡ true)
          × ((is_set (net'.conn c).other ≡ true)
              ⊎ ((net'.conn c).state ≡ locally_switched_wait_break)))
      osmo doc
      (λ r.
        in_order_at (net'.conn c)
          ((run-InOrder r (record { each = λ j. inl (none_alive j) })).each c))
