-- ===== src/Lcls/Active.antt =====
-- The actions of the states of active local switching, in src/osmo-bsc/osmo_bsc_lcls.c.
use osmo_bsc.Base.{ℕ, Option, none, some, if◌then◌else◌, ◌>>=◌, ◌>>◌, assert}
use osmo_bsc.Fsm.{OsmoFsm}
use osmo_bsc.Lcls.{
  LclsState, no_lcls, not_yet_ls, not_possible_ls, no_longer_ls, req_lcls_not_supp,
  locally_switched, locally_switched_wait_break, locally_switched_wait_other_break, LclsNet,
  LclsEvent, update_cfg_csc, apply_cfg_csc, other_break, other_dead, is_conn,
}
use osmo_bsc.Lcls.Switch.{lcls_send_notify, lcls_break_local_switching, lcls_state_chg}
use osmo_bsc.Lcls.Handlers.{
  is_release, has_other, tell_other, on_dead, forget_dead, on_update_switched, lcls_no_lcls_fn,
  lcls_not_yet_ls_fn, lcls_not_possible_ls_fn, lcls_no_longer_ls_fn, lcls_req_lcls_not_supp_fn,
}

module _ (osmo : OsmoFsm) (dispatch : ℕ → LclsEvent → LclsNet → Option LclsNet) where
  -- lcls_locally_switched_fn()
  unfoldable pub release_locally : ℕ → LclsNet → Option LclsNet
  release_locally c net = do
    net' ← lcls_state_chg osmo c locally_switched_wait_other_break net
    tell_other osmo dispatch c (other_break c) net'

  unfoldable pub break_from_other : ℕ → ℕ → LclsNet → Option LclsNet
  break_from_other c d net = do
    assert (is_conn d (net.conn c).other)
    lcls_state_chg osmo c locally_switched_wait_break net

  unfoldable pub switched_event : ℕ → LclsEvent → LclsNet → Option LclsNet
  switched_event c (update_cfg_csc cfg csc) net = on_update_switched osmo dispatch c cfg csc net
  switched_event c apply_cfg_csc net =
      if is_release (net.conn c).control then release_locally c net else some net
  switched_event c (other_break d) net = break_from_other c d net
  switched_event c (other_dead d) net = on_dead osmo dispatch c d net
  switched_event c _ net = none

  unfoldable pub lcls_locally_switched_fn : ℕ → LclsEvent → LclsNet → Option LclsNet
  lcls_locally_switched_fn c ev net = do assert (has_other c net); switched_event c ev net

  -- lcls_locally_switched_wait_break_fn()
  unfoldable pub release_both : ℕ → LclsNet → Option LclsNet
  release_both c net = do
    net' ← lcls_break_local_switching c net
    net'' ← lcls_state_chg osmo c no_longer_ls net'
    tell_other osmo dispatch c (other_break c) net''

  unfoldable pub wait_break_event : ℕ → LclsEvent → LclsNet → Option LclsNet
  wait_break_event c (update_cfg_csc cfg csc) net = on_update_switched osmo dispatch c cfg csc net
  wait_break_event c apply_cfg_csc net =
      if is_release (net.conn c).control then release_both c net else some net
  wait_break_event c (other_break d) net = some net
  wait_break_event c (other_dead d) net = forget_dead osmo dispatch c d net
  wait_break_event c ev net = lcls_locally_switched_fn c ev net

  unfoldable pub lcls_locally_switched_wait_break_fn : ℕ → LclsEvent → LclsNet → Option LclsNet
  lcls_locally_switched_wait_break_fn c ev net = do
    assert (has_other c net)
    wait_break_event c ev net

  -- lcls_locally_switched_wait_other_break_fn()
  unfoldable pub broken_by_other : ℕ → ℕ → LclsNet → Option LclsNet
  broken_by_other c d net = do
    assert (is_conn d (net.conn c).other)
    net' ← lcls_break_local_switching c net
    net'' ← lcls_state_chg osmo c no_longer_ls net'
    some (lcls_send_notify c net'')

  unfoldable pub wait_other_break_event : ℕ → LclsEvent → LclsNet → Option LclsNet
  wait_other_break_event c (update_cfg_csc cfg csc) net =
      on_update_switched osmo dispatch c cfg csc net
  wait_other_break_event c (other_break d) net = broken_by_other c d net
  wait_other_break_event c (other_dead d) net = broken_by_other c d net
  wait_other_break_event c ev net = lcls_locally_switched_fn c ev net

  unfoldable pub lcls_locally_switched_wait_other_break_fn :
      ℕ → LclsEvent → LclsNet → Option LclsNet
  lcls_locally_switched_wait_other_break_fn c ev net = do
    assert (has_other c net)
    wait_other_break_event c ev net

  -- The actions of lcls_fsm_states[]
  unfoldable pub lcls_action : ℕ → LclsState → LclsEvent → LclsNet → Option LclsNet
  lcls_action c no_lcls ev net = lcls_no_lcls_fn osmo dispatch c ev net
  lcls_action c not_yet_ls ev net = lcls_not_yet_ls_fn osmo dispatch c ev net
  lcls_action c not_possible_ls ev net = lcls_not_possible_ls_fn osmo dispatch c ev net
  lcls_action c no_longer_ls ev net = lcls_no_longer_ls_fn osmo dispatch c ev net
  lcls_action c req_lcls_not_supp ev net = lcls_req_lcls_not_supp_fn osmo dispatch c ev net
  lcls_action c locally_switched ev net = lcls_locally_switched_fn c ev net
  lcls_action c locally_switched_wait_break ev net = lcls_locally_switched_wait_break_fn c ev net
  lcls_action c locally_switched_wait_other_break ev net =
      lcls_locally_switched_wait_other_break_fn c ev net
