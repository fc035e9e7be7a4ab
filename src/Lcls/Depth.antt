-- ===== src/Lcls/Depth.antt =====
-- How deep events go inside one another in src/osmo-bsc/osmo_bsc_lcls.c.
mod Told
mod Asked
use osmo_bsc.Base.{
  ℕ, zero, suc, Bool, true, false, not, Option, none, some, List, [], ◌∷◌, ◌==◌, if◌then◌else◌,
  ◌&&◌, ◌||◌, ◌>>=◌, ◌>>◌, assert, either, Returns, bind-Returns, each-Returns, assert-Returns, ◌≡◌,
  ◌⊎◌, inl, inr, refl, sym, ap, ◌∙◌, arith, Bool-cases,
}
use osmo_bsc.Fsm.{OsmoFsm, documented, IsDocumented, by_documentation}
use osmo_bsc.Lcls.{
  LclsState, no_lcls, not_yet_ls, not_possible_ls, no_longer_ls, req_lcls_not_supp,
  locally_switched, locally_switched_wait_break, locally_switched_wait_other_break, LclsConfig,
  cfg_both_way, cfg_na, cfg_unsupported, LclsControl, csc_connect, csc_na, csc_release_lcls,
  csc_other, LclsMode, mode_disabled, mode_mgw_loop, mode_bts_loop, LclsConn, LclsNet, LclsSent,
  connect_ctrl_ack, LclsEvent, update_cfg_csc, apply_cfg_csc, correlated, other_enabled,
  other_break, other_dead, set_conn, set_other, send, live, lcls_state, is_set, is_conn,
  is_switched, lcls_out_state_mask, lcls_in_event_mask,
}
use osmo_bsc.Base.{◌≤◌}
use Prim.{tt}
use osmo_bsc.Lcls.Switch.{
  lcls_is_supported_config, lcls_enable_possible, lcls_state_chg, lcls_handle_cfg_update,
  lcls_break_local_switching,
}
use osmo_bsc.Lcls.Correlate.{
  is_empty_ref, find_conn_with_same_gcr, break_previous, correlate_with, lcls_perform_correlation,
}
use osmo_bsc.Lcls.Handlers.{
  is_disabled, is_na_config, is_release, has_other, tell_other, switch_locally, switch_if,
  switch_or_not_yet, after_correlation, enabled_if, on_enabled, on_dead, on_update, break_unless,
  on_update_switched, apply_no_lcls, no_lcls_event, lcls_no_lcls_fn, apply_not_yet, not_yet_event,
  lcls_not_yet_ls_fn, apply_not_possible, correlated_not_possible, forget_dead, not_possible_event,
  lcls_not_possible_ls_fn, switch_if_supported, update_no_longer, no_longer_event,
  lcls_no_longer_ls_fn, switch_untold, enable_not_supp, correlated_not_supp, apply_not_supp,
  lcls_req_lcls_not_supp_fn,
}
use osmo_bsc.Lcls.Active.{
  release_locally, break_from_other, switched_event, lcls_locally_switched_fn, release_both,
  wait_break_event, lcls_locally_switched_wait_break_fn, broken_by_other, wait_other_break_event,
  lcls_locally_switched_wait_other_break_fn, lcls_action,
}
use osmo_bsc.Lcls.Calls.{dispatch_by, dispatch_within, lcls_dispatch}
use osmo_bsc.Lcls.Depth.Told.{
  Dispatch, bind_cong, Same, SameAction, correlated-SameAction, break-SameAction, dead-SameAction,
  tell-Same, enabled-SameAction,
}
use osmo_bsc.Lcls.Depth.Asked.{apply-SameAction, update-SameAction}

-- The code's recursion: what dispatches the events of an action is what dispatched the event.
abbrev pub IsDispatch : OsmoFsm → Dispatch → Type 0
IsDispatch osmo dispatch =
    (c : ℕ) (ev : LclsEvent) (net : LclsNet)
    → dispatch c ev net ≡ dispatch_by osmo dispatch c ev net

-- Two that dispatch by actions that come to the same.
step-Same :
    (one two : Dispatch) (c : ℕ) (ev : LclsEvent) (net : LclsNet)
    → SameAction documented one two c ev
    → dispatch_by documented one c ev net ≡ dispatch_by documented two c ev net
unfolding dispatch_by
step-Same one two c ev net h =
    ap (λ o. if lcls_in_event_mask (lcls_state c (live c net)) ev then o else live c net)
      (bind_cong (live c net) _ _ (λ q. h (lcls_state c (live c net)) q))

-- Two that agree on the events that actions send, as far as these are needed.
module _ (one two : Dispatch) where
  break_step :
      (c : ℕ)
      → Same documented (dispatch_by documented one) (dispatch_by documented two) (other_break c)
  break_step c d net =
      step-Same one two d (other_break c) net (break-SameAction documented one two d c)

  correlated_step :
      (c : ℕ)
      → Same documented (dispatch_by documented one) (dispatch_by documented two) (correlated c)
  correlated_step c d net =
      step-Same one two d (correlated c) net (correlated-SameAction documented one two d c)

  enabled_step :
      (c : ℕ)
      → ((d : ℕ) → Same documented one two (other_break d))
      → Same documented (dispatch_by documented one) (dispatch_by documented two) (other_enabled c)
  enabled_step c breaks d net =
      step-Same one two d (other_enabled c) net
        (enabled-SameAction documented one two d c (breaks d))

  event_step :
      (c : ℕ) (ev : LclsEvent)
      → Same documented one two (correlated c)
      → Same documented one two (other_enabled c)
      → Same documented one two (other_break c)
      → SameAction documented one two c ev
  event_step c (update_cfg_csc cfg csc) hc he hb = update-SameAction documented one two c cfg csc he
  event_step c apply_cfg_csc hc he hb = apply-SameAction documented one two c hc he hb
  event_step c (correlated d) hc he hb = correlated-SameAction documented one two c d
  event_step c (other_enabled d) hc he hb = enabled-SameAction documented one two c d hb
  event_step c (other_break d) hc he hb = break-SameAction documented one two c d
  event_step c (other_dead d) hc he hb = dead-SameAction documented one two c d

-- Any two solutions agree: on the events that send none, then on OTHER_ENABLED, then on all.
module _ (one two : Dispatch) (s : IsDispatch documented one) (t : IsDispatch documented two) where
  solutions-Same :
      (ev : LclsEvent)
      → Same documented (dispatch_by documented one) (dispatch_by documented two) ev
      → Same documented one two ev
  solutions-Same ev h d net = s d ev net ∙ h d net ∙ sym (t d ev net)

  break_solutions : (c : ℕ) → Same documented one two (other_break c)
  break_solutions c = solutions-Same (other_break c) (break_step one two c)

  enabled_solutions : (c : ℕ) → Same documented one two (other_enabled c)
  enabled_solutions c = solutions-Same (other_enabled c) (enabled_step one two c break_solutions)

  all_solutions : (c : ℕ) (ev : LclsEvent) (net : LclsNet) → one c ev net ≡ two c ev net
  all_solutions c ev net =
      s c ev net
      ∙ step-Same one two c ev net (
          event_step one two c ev (solutions-Same (correlated c) (correlated_step one two c))
            (enabled_solutions c) (break_solutions c))
      ∙ sym (t c ev net)

-- Three levels and more are a solution.
pub dispatch_within-IsDispatch :
    (depth : ℕ) → IsDispatch documented (dispatch_within documented (suc (suc (suc depth))))
unfolding dispatch_within
dispatch_within-IsDispatch depth c ev net =
    let inner = dispatch_within documented depth in
    let one = dispatch_by documented (dispatch_by documented inner) in
    let two = dispatch_by documented one in
    step-Same one two c ev net (
      event_step one two c ev (correlated_step _ _ c) (enabled_step _ _ c (break_step _ _))
        (break_step _ _ c))

three_levels : IsDispatch documented (lcls_dispatch documented)
unfolding lcls_dispatch
three_levels = dispatch_within-IsDispatch 0

-- With the FSM library's functions as documented, lcls_dispatch solves the code's recursion.
pub lcls_dispatch-IsDispatch :
    (osmo : OsmoFsm) → IsDocumented osmo → IsDispatch osmo (lcls_dispatch osmo)
lcls_dispatch-IsDispatch osmo doc =
    by_documentation (λ o. IsDispatch o (lcls_dispatch o)) osmo doc three_levels

-- With the FSM library's functions as documented: a function that dispatches each event by the actions of the
-- states, which send their events by that same function, with no bound on how deep these go, gives for
-- each event what the bounded dispatch of the model gives.
pub only_dispatch :
    (osmo : OsmoFsm)
    → IsDocumented osmo
    → (dispatch : ℕ → LclsEvent → LclsNet → Option LclsNet) → IsDispatch osmo dispatch
    → (c : ℕ) (ev : LclsEvent) (net : LclsNet) → dispatch c ev net ≡ lcls_dispatch osmo c ev net
only_dispatch osmo doc dispatch s c ev net =
    by_documentation (λ o. IsDispatch o dispatch → dispatch c ev net ≡ lcls_dispatch o c ev net)
      osmo doc (λ h. all_solutions dispatch (lcls_dispatch documented) h three_levels c ev net) s
