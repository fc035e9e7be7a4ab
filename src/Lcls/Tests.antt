-- ===== src/Lcls/Tests.antt =====
-- Two connections of one call, and the witnesses of what is proved of LCLS.
use osmo_bsc.Base.{
  ℕ, Bool, true, false, Option, none, some, List, [], ◌∷◌, ◌==◌, if◌then◌else◌, ◌>>=◌, ◌≡◌, ◌⊎◌,
  refl, ap, arith,
}
use osmo_bsc.Fsm.{documented, documented-IsDocumented}
use osmo_bsc.Lcls.{
  LclsState, no_lcls, not_yet_ls, no_longer_ls, locally_switched, locally_switched_wait_break,
  cfg_both_way, cfg_na, csc_connect, csc_na, csc_release_lcls, mode_mgw_loop, LclsConn, LclsNet,
  apply_cfg_csc, set_conn, is_set, is_switched, lcls_out_state_mask, lcls_in_event_mask,
}
use osmo_bsc.Chan.Types.{lchan_tch_f, ChanType-discrete}
use mathlib.Core.Bool.{decide}
use osmo_bsc.Lcls.Switch.{
  lcls_send_notify, lcls_is_supported_config, both_possible, lcls_enable_possible, check_toggle,
  lcls_check_toggle_allowed, break_by, lcls_break_local_switching, loop_by,
  lcls_locally_switched_onenter, lcls_onenter, lcls_enter, update_lcls_cfg_csc, lcls_state_chg,
  update_or_refuse, lcls_handle_cfg_update,
}
use osmo_bsc.Lcls.Correlate.{
  find_conn_with_same_gcr, break_previous, correlate_with, lcls_perform_correlation,
}
use osmo_bsc.Lcls.Handlers.{
  tell_other, switch_locally, switch_if, switch_or_not_yet, after_correlation, enabled_if,
  on_enabled, on_dead, on_update, break_unless, on_update_switched, apply_no_lcls, no_lcls_event,
  lcls_no_lcls_fn, apply_not_yet, not_yet_event, lcls_not_yet_ls_fn, apply_not_possible,
  correlated_not_possible, forget_dead, not_possible_event, lcls_not_possible_ls_fn,
  switch_if_supported, update_no_longer, no_longer_event, lcls_no_longer_ls_fn, switch_untold,
  enable_not_supp, correlated_not_supp, apply_not_supp, lcls_req_lcls_not_supp_fn,
}
use osmo_bsc.Lcls.Active.{
  release_locally, break_from_other, switched_event, lcls_locally_switched_fn, release_both,
  wait_break_event, lcls_locally_switched_wait_break_fn, broken_by_other, wait_other_break_event,
  lcls_locally_switched_wait_other_break_fn, lcls_action,
}
use osmo_bsc.Lcls.Calls.{
  dispatch_by, dispatch_within, lcls_dispatch, lcls_update_config, lcls_apply_config,
  update_apply_ack, bssmap_handle_lcls_connect_ctrl, bssmap_handle_ass_req_lcls, lcls_fsm_cleanup,
  terminate, bsc_subscr_con_allocate,
}
use osmo_bsc.Lcls.Runs.{LclsRun, stay, more, allocated, ass_req, applied, switched_in_order}
use osmo_bsc.Lcls.Deaths.{LeavesBehind, left_behind, no_longer_aborts}
use osmo_bsc.Lcls.Pairs.{Gives, AreSwitched, both_switched}
use osmo_bsc.Lcls.Depth.{dispatch_within-IsDispatch, only_dispatch}

abbrev blank : LclsConn
blank = record {
  alive = false;
  state = no_lcls;
  config = cfg_na;
  control = csc_na;
  global_call_ref = [];
  other = none;
  lchan_type = lchan_tch_f;
  tch_mode = 1;
  lcls_mode = mode_mgw_loop;
  codec_mismatch_allow = false;
  mgw_endpoint_ci_msc = true;
  rtp_info = some 4000;
}

abbrev nobody : LclsNet
nobody = record { subscr_conns = []; conn = λ j. blank; sent = [] }

abbrev call_ref : List ℕ
call_ref = 5 ∷ 1 ∷ 2 ∷ 3 ∷ 4 ∷ 5 ∷ 6 ∷ 7 ∷ 8 ∷ 9 ∷ 10 ∷ 11 ∷ 12 ∷ []

abbrev net_of : Option LclsNet → LclsNet
net_of none = nobody
net_of (some net) = net

-- Both get a call reference and a configuration, and apply it.
abbrev asks : ℕ → LclsNet → Option LclsNet
asks c net =
    bssmap_handle_ass_req_lcls documented c (some call_ref) (some cfg_both_way) (some csc_connect)
      net

abbrev one_conn : LclsNet
one_conn = bsc_subscr_con_allocate 1 blank nobody

abbrev two_conns : LclsNet
two_conns = bsc_subscr_con_allocate 2 blank one_conn

second_free : (one_conn.conn 2).alive ≡ false
unfolding bsc_subscr_con_allocate
second_free = refl

abbrev first_asked : LclsNet
first_asked = net_of (asks 1 two_conns)

abbrev both_asked : LclsNet
both_asked = net_of (asks 2 first_asked)

abbrev first_applied : LclsNet
first_applied = net_of (lcls_apply_config documented 1 both_asked)

abbrev both_applied : LclsNet
both_applied = net_of (lcls_apply_config documented 2 first_applied)

-- Both are released, and one is told so again.
abbrev releases : ℕ → Option LclsNet → Option LclsNet
releases c o = o >>= bssmap_handle_lcls_connect_ctrl documented c none (some csc_release_lcls)

abbrev both_released : Option LclsNet
both_released = releases 2 (releases 1 (some both_applied))

abbrev states : LclsNet → List LclsState
states net = (net.conn 1).state ∷ (net.conn 2).state ∷ []

abbrev got : Option LclsNet → Bool
got none = false
got (some net) = true

got-net_of : (o : Option LclsNet) → got o ≡ true → o ≡ some (net_of o)
got-net_of none g = absurd (ground arith)
got-net_of (some net) g = refl

-- A call that is switched and released, and aborts when the release is repeated.
call_test :
    (got (asks 1 two_conns) ≡ true)
    × ((got (asks 2 first_asked) ≡ true)
        × ((got (lcls_apply_config documented 1 both_asked) ≡ true)
            × ((got (lcls_apply_config documented 2 first_applied) ≡ true)
                × ((states both_applied ≡ (locally_switched ∷ locally_switched ∷ []))
                    × (((both_applied.conn 1).alive ≡ true)
                        × ((states (net_of both_released) ≡ (no_longer_ls ∷ no_longer_ls ∷ []))
                            × (got (releases 1 both_released) ≡ false)))))))
unfolding lcls_send_notify lcls_is_supported_config both_possible lcls_enable_possible check_toggle
    lcls_check_toggle_allowed break_by lcls_break_local_switching loop_by
    lcls_locally_switched_onenter lcls_onenter lcls_enter update_lcls_cfg_csc lcls_state_chg
    update_or_refuse lcls_handle_cfg_update find_conn_with_same_gcr break_previous correlate_with
    lcls_perform_correlation tell_other switch_locally switch_if switch_or_not_yet after_correlation
    enabled_if on_enabled on_dead on_update break_unless on_update_switched apply_no_lcls
    no_lcls_event lcls_no_lcls_fn apply_not_yet not_yet_event lcls_not_yet_ls_fn apply_not_possible
    correlated_not_possible forget_dead not_possible_event lcls_not_possible_ls_fn
    switch_if_supported update_no_longer no_longer_event lcls_no_longer_ls_fn switch_untold
    enable_not_supp correlated_not_supp apply_not_supp lcls_req_lcls_not_supp_fn release_locally
    break_from_other switched_event lcls_locally_switched_fn release_both wait_break_event
    lcls_locally_switched_wait_break_fn broken_by_other wait_other_break_event
    lcls_locally_switched_wait_other_break_fn lcls_action dispatch_by dispatch_within lcls_dispatch
    lcls_update_config lcls_apply_config update_apply_ack bssmap_handle_lcls_connect_ctrl
    bssmap_handle_ass_req_lcls lcls_fsm_cleanup terminate bsc_subscr_con_allocate lcls_in_event_mask
    lcls_out_state_mask decide ChanType-discrete
call_test = (refl, (refl, (refl, (refl, (refl, (refl, (refl, refl)))))))

abbrev call_run : LclsRun documented nobody both_applied
call_run =
    more nobody first_applied both_applied
      (more nobody both_asked first_applied
        (more nobody first_asked both_asked
          (more nobody two_conns first_asked
            (more nobody one_conn two_conns
              (more nobody nobody one_conn (stay nobody) (allocated 1 blank nobody refl))
              (allocated 2 blank one_conn second_free))
            (ass_req 1 _ _ _ two_conns first_asked (got-net_of _ call_test.0)))
          (ass_req 2 _ _ _ first_asked both_asked (got-net_of _ call_test.1.0)))
        (applied 1 both_asked first_applied (got-net_of _ call_test.1.1.0)))
      (applied 2 first_applied both_applied (got-net_of _ call_test.1.1.1.0))

abbrev first_of : List LclsState → LclsState
first_of [] = no_lcls
first_of (st ∷ sts) = st

switched_in_order_example :
    (lcls_is_supported_config (both_applied.conn 1).config ≡ true)
    × ((is_set (both_applied.conn 1).other ≡ true)
        ⊎ ((both_applied.conn 1).state ≡ locally_switched_wait_break))
switched_in_order_example =
    switched_in_order documented documented-IsDocumented nobody both_applied 1 (λ j. refl) call_run
      call_test.1.1.1.1.1.0 (ap (λ l. is_switched (first_of l)) call_test.1.1.1.1.0)

-- Two connections that wait for each other.
abbrev waiting : ℕ → LclsConn
waiting d = record blank {
  alive = true;
  state = not_yet_ls;
  config = cfg_both_way;
  control = csc_connect;
  global_call_ref = call_ref;
  other = some d;
}

abbrev pair : LclsNet
pair = record {
  subscr_conns = 1 ∷ 2 ∷ [];
  conn = λ j. if 1 == j then waiting 2 else waiting 1;
  sent = [];
}

both_switched_example : Gives (AreSwitched 1 2) (lcls_apply_config documented 1 pair)
unfolding both_possible lcls_is_supported_config decide ChanType-discrete
both_switched_example =
    both_switched documented documented-IsDocumented 1 2 pair (omega arith)
      (record { is_alive = refl; waits = refl; points = refl; possible = refl })
      (record { is_alive = refl; waits = refl; points = refl; possible = refl })

left_behind_example : LeavesBehind documented 1 2 pair not_yet_ls cfg_both_way none
left_behind_example =
    left_behind documented documented-IsDocumented 1 2 pair not_yet_ls cfg_both_way none
      (omega arith) refl refl refl refl refl

abbrev no_longer : LclsNet
no_longer = set_conn 1 (record (waiting 2) { state = no_longer_ls }) pair

no_longer_aborts_example : bssmap_handle_lcls_connect_ctrl documented 1 none none no_longer ≡ none
unfolding lcls_update_config
no_longer_aborts_example =
    no_longer_aborts documented documented-IsDocumented 1 none none no_longer no_longer refl refl
      refl refl

only_dispatch_example :
    dispatch_within documented 7 1 apply_cfg_csc pair
    ≡ lcls_dispatch documented 1 apply_cfg_csc pair
only_dispatch_example =
    only_dispatch documented documented-IsDocumented (dispatch_within documented 7)
      (dispatch_within-IsDispatch 4) 1 apply_cfg_csc pair
