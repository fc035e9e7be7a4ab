-- ===== src/Lcls/Calls.antt =====
-- What is called for LCLS: src/osmo-bsc/osmo_bsc_lcls.c, of src/osmo-bsc/osmo_bsc_bssap.c the handlers of
-- its information elements, and of src/osmo-bsc/bsc_subscr_conn_fsm.c the life of a connection.
use osmo_bsc.Base.{
  ℕ, zero, suc, leb, length, ◌++◌, true, false, Option, none, some, List, [], ◌∷◌, ◌==◌,
  if◌then◌else◌, ◌&&◌, ◌>>=◌,
}
use osmo_bsc.Fsm.{OsmoFsm}
use osmo_bsc.Lcls.{
  LclsState, no_lcls, LclsConfig, cfg_na, LclsControl, csc_na, LclsConn, LclsNet, connect_ctrl_ack,
  LclsEvent, update_cfg_csc, apply_cfg_csc, other_dead, set_conn, set_other, send, live, lcls_state,
  lcls_in_event_mask,
}
use osmo_bsc.Lcls.Correlate.{is_empty_ref}
use osmo_bsc.Lcls.Active.{lcls_action}

-- LCLS CONNECT CTRL, after it was parsed, and the Global Call Reference of an ASSIGNMENT REQUEST.
abbrev pub or_na_config : Option LclsConfig → LclsConfig
or_na_config none = cfg_na
or_na_config (some cfg) = cfg

abbrev pub or_na_control : Option LclsControl → LclsControl
or_na_control none = csc_na
or_na_control (some csc) = csc

abbrev pub set_call_ref : ℕ → Option (List ℕ) → LclsNet → LclsNet
set_call_ref c none net = net
set_call_ref c (some gcr) net =
    if leb 13 (length gcr) && leb (length gcr) 15
    then set_conn c (record (net.conn c) { global_call_ref = gcr }) net
    else net

abbrev pub without : ℕ → List ℕ → List ℕ
without c [] = []
without c (d ∷ ds) = let rest = without c ds in if c == d then rest else d ∷ rest

-- A connection as bsc_subscr_con_allocate() makes it; what the MSC and the lchan are is given.
abbrev pub fresh_conn : LclsConn → LclsConn
fresh_conn q = record q {
  alive = true;
  state = no_lcls;
  config = cfg_na;
  control = csc_na;
  global_call_ref = [];
  other = none;
}

module _ (osmo : OsmoFsm) where
  -- osmo_fsm_inst_dispatch(conn->lcls.fi, …), of what dispatches the events that the action sends.
  unfoldable pub dispatch_by :
      (ℕ → LclsEvent → LclsNet → Option LclsNet) → ℕ → LclsEvent → LclsNet → Option LclsNet
  dispatch_by dispatch c ev net =
      osmo.dispatch (Option LclsNet) LclsState LclsEvent (lcls_state c) (λ e. false) (λ e fi. fi)
        lcls_in_event_mask (λ st e fi. fi >>= lcls_action osmo dispatch c st e) (live c net) ev

  -- The same with at most so many events inside one another.
  unfoldable pub dispatch_within : ℕ → ℕ → LclsEvent → LclsNet → Option LclsNet
  dispatch_within zero c ev net = none
  dispatch_within (suc depth) c ev net = dispatch_by (dispatch_within depth) c ev net

  -- An update or an application tells the other connection, which may answer: three at most.
  unfoldable pub lcls_dispatch : ℕ → LclsEvent → LclsNet → Option LclsNet
  lcls_dispatch c ev net = dispatch_within 3 c ev net

  unfoldable pub lcls_update_config :
      ℕ → Option LclsConfig → Option LclsControl → LclsNet → Option LclsNet
  lcls_update_config c none none net = some net
  lcls_update_config c config control net =
      lcls_dispatch c (update_cfg_csc (or_na_config config) (or_na_control control)) net

  unfoldable pub lcls_apply_config : ℕ → LclsNet → Option LclsNet
  lcls_apply_config c net = lcls_dispatch c apply_cfg_csc net

  -- bssmap_handle_lcls_connect_ctrl()
  unfoldable pub update_apply_ack :
      ℕ → Option LclsConfig → Option LclsControl → LclsNet → Option LclsNet
  update_apply_ack c config control net = do
    net' ← lcls_update_config c config control net
    net'' ← lcls_apply_config c net'
    some (send (connect_ctrl_ack c (net''.conn c).state) net'')

  unfoldable pub bssmap_handle_lcls_connect_ctrl :
      ℕ → Option LclsConfig → Option LclsControl → LclsNet → Option LclsNet
  bssmap_handle_lcls_connect_ctrl c config control net =
      if is_empty_ref (net.conn c).global_call_ref
      then some net
      else update_apply_ack c config control net

  -- bssmap_handle_ass_req_lcls()
  unfoldable pub bssmap_handle_ass_req_lcls :
      ℕ → Option (List ℕ) → Option LclsConfig → Option LclsControl → LclsNet → Option LclsNet
  bssmap_handle_ass_req_lcls c gcr config control net =
      lcls_update_config c config control (set_call_ref c gcr net)

  -- lcls_fsm_cleanup()
  unfoldable pub lcls_fsm_cleanup : ℕ → Option ℕ → LclsNet → Option LclsNet
  lcls_fsm_cleanup c none net = some net
  lcls_fsm_cleanup c (some d) net = do
    _ ← live d net
    net' ← lcls_dispatch d (other_dead c) net
    some (set_other c none net')

  -- The end of a connection: gscon_pre_term(), and what gscon_cleanup() frees.
  unfoldable pub terminate : ℕ → LclsNet → Option LclsNet
  terminate c net = do
    net' ← lcls_fsm_cleanup c (net.conn c).other net
    some (record (set_conn c (record (net'.conn c) { alive = false }) net') {
      subscr_conns = without c net'.subscr_conns;
    })

-- bsc_subscr_con_allocate(), of a connection with a number that is free.
unfoldable pub bsc_subscr_con_allocate : ℕ → LclsConn → LclsNet → LclsNet
bsc_subscr_con_allocate c q net = record (set_conn c (fresh_conn q) net) {
  subscr_conns = net.subscr_conns ++ (c ∷ []);
}
