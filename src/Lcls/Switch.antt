-- ===== src/Lcls/Switch.antt =====
-- When a connection may be switched locally, and how its media are redirected, in
-- src/osmo-bsc/osmo_bsc_lcls.c.
use osmo_bsc.Base.{
  ℕ, Bool, true, false, not, Option, none, some, ◌==◌, if◌then◌else◌, ◌&&◌, ◌||◌, ◌>>=◌,
}
use osmo_bsc.Chan.Types.{ChanType, ChanType-discrete}
use mathlib.Core.Bool.{decide}
use osmo_bsc.Fsm.{OsmoFsm}
use osmo_bsc.Lcls.{
  LclsState, req_lcls_not_supp, locally_switched, LclsConfig, cfg_both_way, cfg_na, cfg_unsupported,
  LclsControl, csc_connect, csc_na, LclsMode, mode_disabled, mode_mgw_loop, mode_bts_loop, LclsConn,
  LclsNet, notification, mgw_loop, mgw_back, bts_loop, bts_back, set_conn, send, live, lcls_state,
  is_set, is_na, lcls_out_state_mask,
}

-- lcls_send_notify(), with the status of the state.
unfoldable pub lcls_send_notify : ℕ → LclsNet → LclsNet
lcls_send_notify c net =
    let st = (net.conn c).state in if is_na st then net else send (notification c st) net

unfoldable pub lcls_is_supported_config : LclsConfig → Bool
lcls_is_supported_config cfg_both_way = true
lcls_is_supported_config _ = false

abbrev pub is_connect : LclsControl → Bool
is_connect csc_connect = true
is_connect _ = false

abbrev pub same_lchan_type : ChanType → ChanType → Bool
same_lchan_type a b = decide (ChanType-discrete a b)

-- The tests of lcls_enable_possible(), for a connection and the other.
unfoldable pub both_possible : LclsConn → LclsConn → Bool
both_possible q other_conn =
    lcls_is_supported_config q.config
    && lcls_is_supported_config other_conn.config
    && is_connect q.control
    && is_connect other_conn.control
    && (same_lchan_type q.lchan_type other_conn.lchan_type || q.codec_mismatch_allow)
    && (q.tch_mode == other_conn.tch_mode || q.codec_mismatch_allow)

-- lcls_enable_possible()
unfoldable pub lcls_enable_possible : ℕ → LclsNet → Option Bool
lcls_enable_possible c net = do
  d ← (net.conn c).other
  _ ← live d net
  some (both_possible (net.conn c) (net.conn d))

abbrev pub same_lcls_mode : LclsMode → LclsMode → Bool
same_lcls_mode mode_disabled mode_disabled = true
same_lcls_mode mode_mgw_loop mode_mgw_loop = true
same_lcls_mode mode_bts_loop mode_bts_loop = true
same_lcls_mode _ _ = false

-- lcls_check_toggle_allowed()
abbrev pub has_mgw_side : LclsConn → Bool
has_mgw_side q = not (same_lcls_mode q.lcls_mode mode_mgw_loop) || q.mgw_endpoint_ci_msc

unfoldable pub check_toggle : ℕ → Option ℕ → LclsNet → Option Bool
check_toggle c none net = some (has_mgw_side (net.conn c))
check_toggle c (some d) net = do
  _ ← live d net
  some (same_lcls_mode (net.conn c).lcls_mode (net.conn d).lcls_mode && has_mgw_side (net.conn c))

unfoldable pub lcls_check_toggle_allowed : ℕ → LclsNet → Option Bool
lcls_check_toggle_allowed c net = check_toggle c (net.conn c).other net

-- lcls_break_local_switching()
unfoldable pub break_by : ℕ → LclsMode → LclsNet → LclsNet
break_by c mode_mgw_loop net = send (mgw_back c) net
break_by c mode_bts_loop net = if is_set (net.conn c).other then send (bts_back c) net else net
break_by c mode_disabled net = net

unfoldable pub lcls_break_local_switching : ℕ → LclsNet → Option LclsNet
lcls_break_local_switching c net = do
  allowed ← lcls_check_toggle_allowed c net
  some (if allowed then break_by c (net.conn c).lcls_mode net else net)

-- lcls_locally_switched_onenter(), after the state is set.
unfoldable pub loop_by : ℕ → ℕ → Option ℕ → LclsMode → LclsNet → LclsNet
loop_by c d none mode net = net
loop_by c d (some rtp) mode_mgw_loop net = send (mgw_loop c rtp) net
loop_by c d (some rtp) mode_bts_loop net = send (bts_loop c d) net
loop_by c d (some rtp) mode_disabled net = net

unfoldable pub lcls_locally_switched_onenter : ℕ → LclsNet → Option LclsNet
lcls_locally_switched_onenter c net = do
  d ← (net.conn c).other
  allowed ← lcls_check_toggle_allowed c net
  some (
      if allowed && (net.conn d).mgw_endpoint_ci_msc
      then loop_by c d (net.conn d).rtp_info (net.conn c).lcls_mode net
      else net)

-- What entering a state does.
unfoldable pub lcls_onenter : ℕ → LclsState → LclsNet → Option LclsNet
lcls_onenter c locally_switched net = lcls_locally_switched_onenter c net
lcls_onenter c _ net = some net

unfoldable pub lcls_enter : ℕ → LclsState → LclsNet → Option LclsNet
lcls_enter c st net = lcls_onenter c st (set_conn c (record (net.conn c) { state = st }) net)

-- update_lcls_cfg_csc(): none is an unsupported configuration.
abbrev pub set_config : LclsConfig → LclsConn → Option LclsConn
set_config cfg_na q = some q
set_config cfg_both_way q = some (record q { config = cfg_both_way })
set_config (cfg_unsupported n) q = none

abbrev pub set_control : LclsControl → LclsConn → LclsConn
set_control csc_na q = q
set_control csc q = record q { control = csc }

unfoldable pub update_lcls_cfg_csc : LclsConfig → LclsControl → LclsConn → Option LclsConn
update_lcls_cfg_csc cfg csc q = do q' ← set_config cfg q; some (set_control csc q')

module _ (osmo : OsmoFsm) where
  -- osmo_fsm_inst_state_chg(conn->lcls.fi, …)
  unfoldable pub lcls_state_chg : ℕ → LclsState → LclsNet → Option LclsNet
  lcls_state_chg c st net =
      osmo.state_chg (Option LclsNet) LclsState (lcls_state c) lcls_out_state_mask
        (λ st' fi. fi >>= lcls_enter c st') (some net) st

  -- lcls_handle_cfg_update(): whether the configuration is supported.
  unfoldable pub update_or_refuse : ℕ → Option LclsConn → LclsNet → Option (Bool × LclsNet)
  update_or_refuse c (some q) net = some (true, set_conn c q net)
  update_or_refuse c none net = do net' ← lcls_state_chg c req_lcls_not_supp net; some (false, net')

  unfoldable pub lcls_handle_cfg_update :
      ℕ → LclsConfig → LclsControl → LclsNet → Option (Bool × LclsNet)
  lcls_handle_cfg_update c cfg csc net =
      update_or_refuse c (update_lcls_cfg_csc cfg csc (net.conn c)) net
