-- ===== src/Lcls/Actions.antt =====
-- The same of the states REQ_LCLS_NOT_SUPP and of active local switching, of each event and of what is called, in
-- src/osmo-bsc/osmo_bsc_lcls.c, src/osmo-bsc/osmo_bsc_bssap.c and src/osmo-bsc/bsc_subscr_conn_fsm.c.
use osmo_bsc.Base.{
  ℕ, Bool, true, false, Option, some, assert, either, Returns, bind-Returns, each-Returns,
  assert-Returns, ◌≡◌, inl, inr, refl, ap, arith,
}
use osmo_bsc.Fsm.{documented}
use osmo_bsc.Lcls.{
  LclsState, no_lcls, not_yet_ls, not_possible_ls, no_longer_ls, req_lcls_not_supp,
  locally_switched, locally_switched_wait_break, locally_switched_wait_other_break, LclsConn,
  LclsNet, LclsEvent, update_cfg_csc, apply_cfg_csc, correlated, other_enabled, other_break,
  other_dead, is_set, is_conn, is_switched,
}
use Prim.{tt}
use osmo_bsc.Lcls.Switch.{
  lcls_send_notify, lcls_is_supported_config, lcls_enable_possible, lcls_break_local_switching,
  lcls_state_chg,
}
use osmo_bsc.Lcls.Correlate.{lcls_perform_correlation}
use osmo_bsc.Lcls.Handlers.{
  is_release, has_other, tell_other, switch_untold, enable_not_supp, correlated_not_supp,
  apply_not_supp, lcls_req_lcls_not_supp_fn,
}
use osmo_bsc.Lcls.Active.{
  release_locally, break_from_other, switched_event, lcls_locally_switched_fn, release_both,
  wait_break_event, lcls_locally_switched_wait_break_fn, broken_by_other, wait_other_break_event,
  lcls_locally_switched_wait_other_break_fn, lcls_action,
}
use osmo_bsc.Lcls.InOrder.{
  ConnInOrder, InOrder, some_other-InOrder, notify-InOrder, break-InOrder, chg-InOrder,
}
use osmo_bsc.Lcls.Updates.{
  Keeps, ResultInOrder, CanSwitch, possible-CanSwitch, tell_other-InOrder, correlation-InOrder,
}
use osmo_bsc.Lcls.Answers.{
  on_dead-InOrder, forget_dead-InOrder, on_update-InOrder, on_update_switched-InOrder,
  no_lcls-InOrder, not_yet-InOrder, not_possible-InOrder, no_longer-InOrder,
}

abbrev is_dead : LclsEvent → Bool
is_dead (other_dead d) = true
is_dead _ = false

-- A switched connection with another one is in order in each state.
any_state-InOrder :
    (st : LclsState) (q : LclsConn)
    → is_switched q.state ≡ true
    → is_set q.other ≡ true
    → ConnInOrder q
    → ConnInOrder (record q { state = st })
any_state-InOrder st q s o (inl a) = inl a
any_state-InOrder st q s o (inr (inl n)) = absurd (ground arith)
any_state-InOrder st q s o (inr (inr (k, m))) = inr (inr (k, inl o))

module _ (dispatch : ℕ → LclsEvent → LclsNet → Option LclsNet) (keeps : Keeps dispatch) where
  -- REQ_LCLS_NOT_SUPP
  switch_untold-InOrder :
      (c : ℕ) (b : Bool) (net : LclsNet)
      → (b ≡ true → CanSwitch c net)
      → InOrder net
      → Returns InOrder (switch_untold documented dispatch c b net)
  unfolding switch_untold
  switch_untold-InOrder c true net k h =
      chg-InOrder c locally_switched net (inr (inr ((k refl).0, inl (k refl).1))) h
  switch_untold-InOrder c false net k h = chg-InOrder c not_yet_ls net (inr (inl refl)) h

  enable_not_supp-InOrder :
      (c : ℕ) (net : LclsNet)
      → InOrder net
      → Returns InOrder (enable_not_supp documented dispatch c net)
  unfolding enable_not_supp
  enable_not_supp-InOrder c net h =
      bind-Returns (λ b. b ≡ true → CanSwitch c net) InOrder (lcls_enable_possible c net)
        (λ b. switch_untold documented dispatch c b net) (possible-CanSwitch c net)
        (λ b k. switch_untold-InOrder c b net k h)

  correlated_not_supp-InOrder :
      (c : ℕ) (r : Bool × LclsNet)
      → ResultInOrder r
      → Returns InOrder (correlated_not_supp documented dispatch c r)
  unfolding correlated_not_supp
  correlated_not_supp-InOrder c (false, net) h =
      chg-InOrder c not_possible_ls net (inr (inl refl)) h
  correlated_not_supp-InOrder c (true, net) h =
      each-Returns InOrder (assert (has_other c net)) _ (λ u.
        either (Returns InOrder) (lcls_is_supported_config (net.conn c).config)
          (enable_not_supp-InOrder c net h) h)

  not_supp-InOrder :
      (c : ℕ) (ev : LclsEvent) (net : LclsNet)
      → is_switched (net.conn c).state ≡ false
      → InOrder net
      → Returns InOrder (lcls_req_lcls_not_supp_fn documented dispatch c ev net)
  unfolding lcls_req_lcls_not_supp_fn apply_not_supp
  not_supp-InOrder c (update_cfg_csc cfg csc) net n h =
      on_update-InOrder dispatch keeps c cfg csc net h
  not_supp-InOrder c apply_cfg_csc net n h =
      bind-Returns ResultInOrder InOrder (lcls_perform_correlation dispatch c net)
        (correlated_not_supp documented dispatch c) (correlation-InOrder dispatch keeps c net h)
        (correlated_not_supp-InOrder c)
  not_supp-InOrder c (correlated d) net n h = some_other-InOrder c d net h
  not_supp-InOrder c (other_dead d) net n h = forget_dead-InOrder dispatch keeps c d net (inl n) h
  not_supp-InOrder c (other_enabled d) net n h = tt
  not_supp-InOrder c (other_break d) net n h = tt

  -- LOCALLY_SWITCHED
  release_locally-InOrder :
      (c : ℕ) (net : LclsNet)
      → is_switched (net.conn c).state ≡ true
      → has_other c net ≡ true
      → InOrder net
      → Returns InOrder (release_locally documented dispatch c net)
  unfolding release_locally
  release_locally-InOrder c net s o h =
      bind-Returns InOrder InOrder
        (lcls_state_chg documented c locally_switched_wait_other_break net)
        (tell_other documented dispatch c (other_break c))
        (chg-InOrder c _ net (any_state-InOrder _ (net.conn c) s o (h.each c)) h)
        (tell_other-InOrder dispatch keeps c (other_break c))

  switched_event-InOrder :
      (c : ℕ) (ev : LclsEvent) (net : LclsNet)
      → is_switched (net.conn c).state ≡ true
      → has_other c net ≡ true
      → (is_dead ev ≡ true → (net.conn c).state ≡ locally_switched)
      → InOrder net
      → Returns InOrder (switched_event documented dispatch c ev net)
  unfolding switched_event break_from_other
  switched_event-InOrder c (update_cfg_csc cfg csc) net s o k h =
      on_update_switched-InOrder dispatch keeps c cfg csc net h
  switched_event-InOrder c apply_cfg_csc net s o k h =
      either (Returns InOrder) (is_release (net.conn c).control)
        (release_locally-InOrder c net s o h) h
  switched_event-InOrder c (other_break d) net s o k h =
      each-Returns InOrder (assert (is_conn d (net.conn c).other)) _
        (λ u. chg-InOrder c _ net (any_state-InOrder _ (net.conn c) s o (h.each c)) h)
  switched_event-InOrder c (other_dead d) net s o k h =
      on_dead-InOrder dispatch keeps c d net (inr (k refl)) h
  switched_event-InOrder c (correlated d) net s o k h = tt
  switched_event-InOrder c (other_enabled d) net s o k h = tt

  switched-InOrder :
      (c : ℕ) (ev : LclsEvent) (net : LclsNet)
      → is_switched (net.conn c).state ≡ true
      → (is_dead ev ≡ true → (net.conn c).state ≡ locally_switched)
      → InOrder net
      → Returns InOrder (lcls_locally_switched_fn documented dispatch c ev net)
  unfolding lcls_locally_switched_fn
  switched-InOrder c ev net s k h =
      assert-Returns InOrder (has_other c net) _ (λ o. switched_event-InOrder c ev net s o k h)

  -- LOCALLY_SWITCHED_WAIT_BREAK
  release_both-InOrder :
      (c : ℕ) (net : LclsNet)
      → InOrder net
      → Returns InOrder (release_both documented dispatch c net)
  unfolding release_both
  release_both-InOrder c net h =
      bind-Returns InOrder InOrder (lcls_break_local_switching c net) _ (break-InOrder c net h)
        (λ net' h'.
          bind-Returns InOrder InOrder (lcls_state_chg documented c no_longer_ls net')
            (tell_other documented dispatch c (other_break c))
            (chg-InOrder c no_longer_ls net' (inr (inl refl)) h')
            (tell_other-InOrder dispatch keeps c (other_break c)))

  wait_break-InOrder :
      (c : ℕ) (ev : LclsEvent) (net : LclsNet)
      → (net.conn c).state ≡ locally_switched_wait_break
      → InOrder net
      → Returns InOrder (wait_break_event documented dispatch c ev net)
  unfolding wait_break_event
  wait_break-InOrder c (update_cfg_csc cfg csc) net s h =
      on_update_switched-InOrder dispatch keeps c cfg csc net h
  wait_break-InOrder c apply_cfg_csc net s h =
      either (Returns InOrder) (is_release (net.conn c).control) (release_both-InOrder c net h) h
  wait_break-InOrder c (other_break d) net s h = h
  wait_break-InOrder c (other_dead d) net s h = forget_dead-InOrder dispatch keeps c d net (inr s) h
  wait_break-InOrder c (correlated d) net s h =
      switched-InOrder c (correlated d) net (ap is_switched s) (λ e. absurd (ground arith)) h
  wait_break-InOrder c (other_enabled d) net s h =
      switched-InOrder c (other_enabled d) net (ap is_switched s) (λ e. absurd (ground arith)) h

  -- LOCALLY_SWITCHED_WAIT_OTHER_BREAK
  broken_by_other-InOrder :
      (c d : ℕ) (net : LclsNet)
      → InOrder net
      → Returns InOrder (broken_by_other documented dispatch c d net)
  unfolding broken_by_other
  broken_by_other-InOrder c d net h =
      each-Returns InOrder (assert (is_conn d (net.conn c).other)) _ (λ u.
        bind-Returns InOrder InOrder (lcls_break_local_switching c net) _ (break-InOrder c net h)
          (λ net' h'.
            bind-Returns InOrder InOrder (lcls_state_chg documented c no_longer_ls net')
              (λ net''. some (lcls_send_notify c net''))
              (chg-InOrder c no_longer_ls net' (inr (inl refl)) h') (notify-InOrder c)))

  wait_other_break-InOrder :
      (c : ℕ) (ev : LclsEvent) (net : LclsNet)
      → is_switched (net.conn c).state ≡ true
      → InOrder net
      → Returns InOrder (wait_other_break_event documented dispatch c ev net)
  unfolding wait_other_break_event
  wait_other_break-InOrder c (update_cfg_csc cfg csc) net s h =
      on_update_switched-InOrder dispatch keeps c cfg csc net h
  wait_other_break-InOrder c (other_break d) net s h = broken_by_other-InOrder c d net h
  wait_other_break-InOrder c (other_dead d) net s h = broken_by_other-InOrder c d net h
  wait_other_break-InOrder c apply_cfg_csc net s h =
      switched-InOrder c apply_cfg_csc net s (λ e. absurd (ground arith)) h
  wait_other_break-InOrder c (correlated d) net s h =
      switched-InOrder c (correlated d) net s (λ e. absurd (ground arith)) h
  wait_other_break-InOrder c (other_enabled d) net s h =
      switched-InOrder c (other_enabled d) net s (λ e. absurd (ground arith)) h

  pub lcls_action-InOrder :
      (c : ℕ) (st : LclsState) (ev : LclsEvent) (net : LclsNet)
      → (net.conn c).state ≡ st
      → InOrder net
      → Returns InOrder (lcls_action documented dispatch c st ev net)
  unfolding lcls_action lcls_locally_switched_wait_break_fn
      lcls_locally_switched_wait_other_break_fn
  lcls_action-InOrder c no_lcls ev net s h = no_lcls-InOrder dispatch keeps c ev net h
  lcls_action-InOrder c not_yet_ls ev net s h =
      not_yet-InOrder dispatch keeps c ev net (ap is_switched s) h
  lcls_action-InOrder c not_possible_ls ev net s h =
      not_possible-InOrder dispatch keeps c ev net (ap is_switched s) h
  lcls_action-InOrder c no_longer_ls ev net s h =
      no_longer-InOrder dispatch keeps c ev net (ap is_switched s) h
  lcls_action-InOrder c req_lcls_not_supp ev net s h =
      not_supp-InOrder c ev net (ap is_switched s) h
  lcls_action-InOrder c locally_switched ev net s h =
      switched-InOrder c ev net (ap is_switched s) (λ e. s) h
  lcls_action-InOrder c locally_switched_wait_break ev net s h =
      each-Returns InOrder (assert (has_other c net)) _ (λ u. wait_break-InOrder c ev net s h)
  lcls_action-InOrder c locally_switched_wait_other_break ev net s h =
      each-Returns InOrder (assert (has_other c net)) _
        (λ u. wait_other_break-InOrder c ev net (ap is_switched s) h)
