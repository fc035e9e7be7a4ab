-- ===== src/Lcls/Handlers.antt =====
-- The actions of the states of src/osmo-bsc/osmo_bsc_lcls.c.
use osmo_bsc.Base.{
  ℕ, Bool, true, false, not, Option, none, some, if◌then◌else◌, ◌>>=◌, ◌>>◌, assert,
}
use osmo_bsc.Fsm.{OsmoFsm}
use osmo_bsc.Lcls.{
  not_yet_ls, not_possible_ls, locally_switched, LclsConfig, cfg_na, LclsControl, csc_release_lcls,
  LclsMode, mode_disabled, LclsNet, LclsEvent, update_cfg_csc, apply_cfg_csc, correlated,
  other_enabled, other_break, other_dead, set_other, is_set, is_conn,
}
use osmo_bsc.Lcls.Switch.{
  lcls_send_notify, lcls_is_supported_config, lcls_enable_possible, lcls_break_local_switching,
  lcls_state_chg, lcls_handle_cfg_update,
}
use osmo_bsc.Lcls.Correlate.{is_empty_ref, lcls_perform_correlation}

abbrev pub is_disabled : LclsMode → Bool
is_disabled mode_disabled = true
is_disabled _ = false

abbrev pub is_na_config : LclsConfig → Bool
is_na_config cfg_na = true
is_na_config _ = false

abbrev pub is_release : LclsControl → Bool
is_release csc_release_lcls = true
is_release _ = false

abbrev pub has_other : ℕ → LclsNet → Bool
has_other c net = is_set (net.conn c).other

module _ (osmo : OsmoFsm) (dispatch : ℕ → LclsEvent → LclsNet → Option LclsNet) where
  -- An event to the other connection.
  unfoldable pub tell_other : ℕ → LclsEvent → LclsNet → Option LclsNet
  tell_other c ev net = do d ← (net.conn c).other; dispatch d ev net

  -- The change to LOCALLY_SWITCHED, with the other connection told of it.
  unfoldable pub switch_locally : ℕ → LclsNet → Option LclsNet
  switch_locally c net = do
    net' ← lcls_state_chg osmo c locally_switched net
    tell_other c (other_enabled c) net'

  unfoldable pub switch_if : ℕ → Bool → LclsNet → Option LclsNet
  switch_if c true net = switch_locally c net
  switch_if c false net = some net

  -- The branches of LCLS_EV_APPLY_CFG_CSC after a correlation, and what follows one that found nothing.
  unfoldable pub switch_or_not_yet : ℕ → Bool → LclsNet → Option LclsNet
  switch_or_not_yet c true net = switch_locally c net
  switch_or_not_yet c false net = lcls_state_chg osmo c not_yet_ls net

  unfoldable pub after_correlation :
      ℕ → (LclsNet → Option LclsNet) → Bool × LclsNet → Option LclsNet
  after_correlation c unsuccessful (false, net) = unsuccessful net
  after_correlation c unsuccessful (true, net) = do
    assert (has_other c net)
    possible ← lcls_enable_possible c net
    switch_or_not_yet c possible net

  -- The branches of LCLS_EV_OTHER_ENABLED.
  unfoldable pub enabled_if : ℕ → Bool → LclsNet → Option LclsNet
  enabled_if c true net = do
    net' ← lcls_state_chg osmo c locally_switched net
    some (lcls_send_notify c net')
  enabled_if c false net = tell_other c (other_break c) net

  unfoldable pub on_enabled : ℕ → ℕ → LclsNet → Option LclsNet
  on_enabled c d net = do
    assert (is_conn d (net.conn c).other)
    possible ← lcls_enable_possible c net
    enabled_if c possible net

  -- LCLS_EV_OTHER_DEAD, where the state is left and the MSC told.
  unfoldable pub on_dead : ℕ → ℕ → LclsNet → Option LclsNet
  on_dead c d net = do
    assert (is_conn d (net.conn c).other)
    net' ← lcls_state_chg osmo c not_possible_ls (set_other c none net)
    some (lcls_send_notify c net')

  -- LCLS_EV_UPDATE_CFG_CSC, where nothing follows, and where an unsupported one breaks the switching.
  unfoldable pub on_update : ℕ → LclsConfig → LclsControl → LclsNet → Option LclsNet
  on_update c cfg csc net = do r ← lcls_handle_cfg_update osmo c cfg csc net; some r.1

  unfoldable pub break_unless : ℕ → Bool × LclsNet → Option LclsNet
  break_unless c (true, net) = some net
  break_unless c (false, net) = lcls_break_local_switching c net

  unfoldable pub on_update_switched : ℕ → LclsConfig → LclsControl → LclsNet → Option LclsNet
  on_update_switched c cfg csc net = do
    r ← lcls_handle_cfg_update osmo c cfg csc net
    break_unless c r

  unfoldable pub apply_no_lcls : ℕ → LclsNet → Option LclsNet
  apply_no_lcls c net = do
    r ← lcls_perform_correlation dispatch c net
    after_correlation c (lcls_state_chg osmo c not_possible_ls) r

  -- lcls_no_lcls_fn(), after the asserted lack of another connection.
  unfoldable pub no_lcls_event : ℕ → LclsEvent → LclsNet → Option LclsNet
  no_lcls_event c (update_cfg_csc cfg csc) net = on_update c cfg csc net
  no_lcls_event c apply_cfg_csc net =
      if is_na_config (net.conn c).config then some net else apply_no_lcls c net
  no_lcls_event c _ net = none

  unfoldable pub lcls_no_lcls_fn : ℕ → LclsEvent → LclsNet → Option LclsNet
  lcls_no_lcls_fn c ev net = do
    assert (not (has_other c net))
    (if is_disabled (net.conn c).lcls_mode
        then some net
        else if is_empty_ref (net.conn c).global_call_ref
        then some net
        else no_lcls_event c ev net)

  -- lcls_not_yet_ls_fn()
  unfoldable pub apply_not_yet : ℕ → LclsNet → Option LclsNet
  apply_not_yet c net = do possible ← lcls_enable_possible c net; switch_if c possible net

  unfoldable pub not_yet_event : ℕ → LclsEvent → LclsNet → Option LclsNet
  not_yet_event c (update_cfg_csc cfg csc) net = on_update c cfg csc net
  not_yet_event c apply_cfg_csc net = apply_not_yet c net
  not_yet_event c (other_enabled d) net = on_enabled c d net
  not_yet_event c (correlated d) net = some (set_other c (some d) net)
  not_yet_event c (other_dead d) net = on_dead c d net
  not_yet_event c (other_break d) net = none

  unfoldable pub lcls_not_yet_ls_fn : ℕ → LclsEvent → LclsNet → Option LclsNet
  lcls_not_yet_ls_fn c ev net = do assert (has_other c net); not_yet_event c ev net

  -- lcls_not_possible_ls_fn()
  unfoldable pub apply_not_possible : ℕ → LclsNet → Option LclsNet
  apply_not_possible c net = do
    r ← lcls_perform_correlation dispatch c net
    after_correlation c (λ q. some q) r

  unfoldable pub correlated_not_possible : ℕ → ℕ → LclsNet → Option LclsNet
  correlated_not_possible c d net = do
    net' ← lcls_state_chg osmo c not_yet_ls (set_other c (some d) net)
    some (lcls_send_notify c net')

  unfoldable pub forget_dead : ℕ → ℕ → LclsNet → Option LclsNet
  forget_dead c d net = do assert (is_conn d (net.conn c).other); some (set_other c none net)

  unfoldable pub not_possible_event : ℕ → LclsEvent → LclsNet → Option LclsNet
  not_possible_event c (update_cfg_csc cfg csc) net = on_update c cfg csc net
  not_possible_event c apply_cfg_csc net = apply_not_possible c net
  not_possible_event c (correlated d) net = correlated_not_possible c d net
  not_possible_event c (other_dead d) net = forget_dead c d net
  not_possible_event c _ net = none

  unfoldable pub lcls_not_possible_ls_fn : ℕ → LclsEvent → LclsNet → Option LclsNet
  lcls_not_possible_ls_fn c ev net = do assert (not (has_other c net)); not_possible_event c ev net

  -- lcls_no_longer_ls_fn(), which has no case for LCLS_EV_APPLY_CFG_CSC.
  unfoldable pub switch_if_supported : ℕ → Bool × LclsNet → Option LclsNet
  switch_if_supported c (false, net) = some net
  switch_if_supported c (true, net) = apply_not_yet c net

  unfoldable pub update_no_longer : ℕ → LclsConfig → LclsControl → LclsNet → Option LclsNet
  update_no_longer c cfg csc net = do
    r ← lcls_handle_cfg_update osmo c cfg csc net
    switch_if_supported c r

  unfoldable pub no_longer_event : ℕ → LclsEvent → LclsNet → Option LclsNet
  no_longer_event c (update_cfg_csc cfg csc) net = update_no_longer c cfg csc net
  no_longer_event c (other_enabled d) net = on_enabled c d net
  no_longer_event c (correlated d) net = some (set_other c (some d) net)
  no_longer_event c (other_dead d) net = on_dead c d net
  no_longer_event c _ net = none

  unfoldable pub lcls_no_longer_ls_fn : ℕ → LclsEvent → LclsNet → Option LclsNet
  lcls_no_longer_ls_fn c ev net = do assert (has_other c net); no_longer_event c ev net

  -- lcls_req_lcls_not_supp_fn()
  unfoldable pub switch_untold : ℕ → Bool → LclsNet → Option LclsNet
  switch_untold c true net = lcls_state_chg osmo c locally_switched net
  switch_untold c false net = lcls_state_chg osmo c not_yet_ls net

  unfoldable pub enable_not_supp : ℕ → LclsNet → Option LclsNet
  enable_not_supp c net = do possible ← lcls_enable_possible c net; switch_untold c possible net

  unfoldable pub correlated_not_supp : ℕ → Bool × LclsNet → Option LclsNet
  correlated_not_supp c (false, net) = lcls_state_chg osmo c not_possible_ls net
  correlated_not_supp c (true, net) = do
    assert (has_other c net)
    (if lcls_is_supported_config (net.conn c).config then enable_not_supp c net else some net)

  unfoldable pub apply_not_supp : ℕ → LclsNet → Option LclsNet
  apply_not_supp c net = do r ← lcls_perform_correlation dispatch c net; correlated_not_supp c r

  unfoldable pub lcls_req_lcls_not_supp_fn : ℕ → LclsEvent → LclsNet → Option LclsNet
  lcls_req_lcls_not_supp_fn c (update_cfg_csc cfg csc) net = on_update c cfg csc net
  lcls_req_lcls_not_supp_fn c apply_cfg_csc net = apply_not_supp c net
  lcls_req_lcls_not_supp_fn c (correlated d) net = some (set_other c (some d) net)
  lcls_req_lcls_not_supp_fn c (other_dead d) net = forget_dead c d net
  lcls_req_lcls_not_supp_fn c _ net = none
