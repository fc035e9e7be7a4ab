-- ===== src/Lcls/Answers.antt =====
-- That each state's action, in src/osmo-bsc/osmo_bsc_lcls.c, keeps the connections in order.
use osmo_bsc.Base.{
  ℕ, Bool, true, false, not, Option, none, some, assert, either, Returns, bind-Returns,
  each-Returns, ◌≡◌, ◌⊎◌, inl, inr, refl,
}
use osmo_bsc.Fsm.{documented}
use osmo_bsc.Lcls.{
  not_yet_ls, not_possible_ls, locally_switched, locally_switched_wait_break, LclsConfig,
  LclsControl, LclsNet, LclsEvent, update_cfg_csc, apply_cfg_csc, correlated, other_enabled,
  other_break, other_dead, set_other, is_conn, is_switched,
}
use Prim.{tt}
use osmo_bsc.Lcls.Switch.{lcls_send_notify, lcls_state_chg, lcls_handle_cfg_update}
use osmo_bsc.Lcls.Correlate.{is_empty_ref, lcls_perform_correlation}
use osmo_bsc.Lcls.Handlers.{
  is_disabled, is_na_config, has_other, after_correlation, on_dead, on_update, break_unless,
  on_update_switched, apply_no_lcls, no_lcls_event, lcls_no_lcls_fn, apply_not_yet, not_yet_event,
  lcls_not_yet_ls_fn, apply_not_possible, correlated_not_possible, forget_dead, not_possible_event,
  lcls_not_possible_ls_fn, switch_if_supported, update_no_longer, no_longer_event,
  lcls_no_longer_ls_fn,
}
use osmo_bsc.Lcls.InOrder.{
  InOrder, some_other-InOrder, no_other-InOrder, notify-InOrder, break-InOrder, chg-InOrder,
  lose_other-InOrder,
}
use osmo_bsc.Lcls.Updates.{
  Keeps, ResultInOrder, update-InOrder, if_possible-InOrder, after_correlation-InOrder,
  on_enabled-InOrder, correlation-InOrder,
}

module _ (dispatch : ℕ → LclsEvent → LclsNet → Option LclsNet) (keeps : Keeps dispatch) where
  -- Parts of several actions.
  pub on_dead-InOrder :
      (c d : ℕ) (net : LclsNet)
      → (is_switched (net.conn c).state ≡ false) ⊎ ((net.conn c).state ≡ locally_switched)
      → InOrder net
      → Returns InOrder (on_dead documented dispatch c d net)
  unfolding on_dead
  on_dead-InOrder c d net s h = each-Returns InOrder (assert (is_conn d (net.conn c).other)) _ (λ u.
      bind-Returns InOrder InOrder
        (lcls_state_chg documented c not_possible_ls (set_other c none net))
        (λ net'. some (lcls_send_notify c net')) (lose_other-InOrder c net s h) (notify-InOrder c))

  pub forget_dead-InOrder :
      (c d : ℕ) (net : LclsNet)
      → (is_switched (net.conn c).state ≡ false)
        ⊎ ((net.conn c).state ≡ locally_switched_wait_break)
      → InOrder net
      → Returns InOrder (forget_dead documented dispatch c d net)
  unfolding forget_dead
  forget_dead-InOrder c d net s h =
      each-Returns InOrder (assert (is_conn d (net.conn c).other))
        (λ u. some (set_other c none net)) (λ u. no_other-InOrder c net s h)

  pub on_update-InOrder :
      (c : ℕ) (cfg : LclsConfig) (csc : LclsControl) (net : LclsNet)
      → InOrder net
      → Returns InOrder (on_update documented dispatch c cfg csc net)
  unfolding on_update
  on_update-InOrder c cfg csc net h =
      bind-Returns ResultInOrder InOrder (lcls_handle_cfg_update documented c cfg csc net)
        (λ r. some r.1) (update-InOrder c cfg csc net h) (λ r k. k)

  break_unless-InOrder :
      (c : ℕ) (r : Bool × LclsNet)
      → ResultInOrder r
      → Returns InOrder (break_unless documented dispatch c r)
  unfolding break_unless
  break_unless-InOrder c (true, net) h = h
  break_unless-InOrder c (false, net) h = break-InOrder c net h

  pub on_update_switched-InOrder :
      (c : ℕ) (cfg : LclsConfig) (csc : LclsControl) (net : LclsNet)
      → InOrder net
      → Returns InOrder (on_update_switched documented dispatch c cfg csc net)
  unfolding on_update_switched
  on_update_switched-InOrder c cfg csc net h =
      bind-Returns ResultInOrder InOrder (lcls_handle_cfg_update documented c cfg csc net)
        (break_unless documented dispatch c) (update-InOrder c cfg csc net h)
        (break_unless-InOrder c)

  -- NO_LCLS
  apply_no_lcls-InOrder :
      (c : ℕ) (net : LclsNet)
      → InOrder net
      → Returns InOrder (apply_no_lcls documented dispatch c net)
  unfolding apply_no_lcls
  apply_no_lcls-InOrder c net h =
      bind-Returns ResultInOrder InOrder (lcls_perform_correlation dispatch c net)
        (after_correlation documented dispatch c (lcls_state_chg documented c not_possible_ls))
        (correlation-InOrder dispatch keeps c net h)
        (after_correlation-InOrder dispatch keeps c _
          (λ q. chg-InOrder c not_possible_ls q (inr (inl refl))))

  no_lcls_event-InOrder :
      (c : ℕ) (ev : LclsEvent) (net : LclsNet)
      → InOrder net
      → Returns InOrder (no_lcls_event documented dispatch c ev net)
  unfolding no_lcls_event
  no_lcls_event-InOrder c (update_cfg_csc cfg csc) net h = on_update-InOrder c cfg csc net h
  no_lcls_event-InOrder c apply_cfg_csc net h =
      either (Returns InOrder) (is_na_config (net.conn c).config) h (apply_no_lcls-InOrder c net h)
  no_lcls_event-InOrder c (correlated d) net h = tt
  no_lcls_event-InOrder c (other_enabled d) net h = tt
  no_lcls_event-InOrder c (other_break d) net h = tt
  no_lcls_event-InOrder c (other_dead d) net h = tt

  pub no_lcls-InOrder :
      (c : ℕ) (ev : LclsEvent) (net : LclsNet)
      → InOrder net
      → Returns InOrder (lcls_no_lcls_fn documented dispatch c ev net)
  unfolding lcls_no_lcls_fn
  no_lcls-InOrder c ev net h = each-Returns InOrder (assert (not (has_other c net))) _ (λ u.
      either (Returns InOrder) (is_disabled (net.conn c).lcls_mode) h (
        either (Returns InOrder) (is_empty_ref (net.conn c).global_call_ref) h
          (no_lcls_event-InOrder c ev net h)))

  -- NOT_YET_LS
  apply_not_yet-InOrder :
      (c : ℕ) (net : LclsNet)
      → InOrder net
      → Returns InOrder (apply_not_yet documented dispatch c net)
  unfolding apply_not_yet
  apply_not_yet-InOrder c net h = if_possible-InOrder dispatch keeps c net h

  not_yet_event-InOrder :
      (c : ℕ) (ev : LclsEvent) (net : LclsNet)
      → is_switched (net.conn c).state ≡ false
      → InOrder net
      → Returns InOrder (not_yet_event documented dispatch c ev net)
  unfolding not_yet_event
  not_yet_event-InOrder c (update_cfg_csc cfg csc) net n h = on_update-InOrder c cfg csc net h
  not_yet_event-InOrder c apply_cfg_csc net n h = apply_not_yet-InOrder c net h
  not_yet_event-InOrder c (other_enabled d) net n h = on_enabled-InOrder dispatch keeps c d net h
  not_yet_event-InOrder c (correlated d) net n h = some_other-InOrder c d net h
  not_yet_event-InOrder c (other_dead d) net n h = on_dead-InOrder c d net (inl n) h
  not_yet_event-InOrder c (other_break d) net n h = tt

  pub not_yet-InOrder :
      (c : ℕ) (ev : LclsEvent) (net : LclsNet)
      → is_switched (net.conn c).state ≡ false
      → InOrder net
      → Returns InOrder (lcls_not_yet_ls_fn documented dispatch c ev net)
  unfolding lcls_not_yet_ls_fn
  not_yet-InOrder c ev net n h =
      each-Returns InOrder (assert (has_other c net)) _ (λ u. not_yet_event-InOrder c ev net n h)

  -- NOT_POSSIBLE_LS
  apply_not_possible-InOrder :
      (c : ℕ) (net : LclsNet)
      → InOrder net
      → Returns InOrder (apply_not_possible documented dispatch c net)
  unfolding apply_not_possible
  apply_not_possible-InOrder c net h =
      bind-Returns ResultInOrder InOrder (lcls_perform_correlation dispatch c net)
        (after_correlation documented dispatch c (λ q. some q))
        (correlation-InOrder dispatch keeps c net h)
        (after_correlation-InOrder dispatch keeps c _ (λ q k. k))

  correlated_not_possible-InOrder :
      (c d : ℕ) (net : LclsNet)
      → InOrder net
      → Returns InOrder (correlated_not_possible documented dispatch c d net)
  unfolding correlated_not_possible
  correlated_not_possible-InOrder c d net h =
      bind-Returns InOrder InOrder
        (lcls_state_chg documented c not_yet_ls (set_other c (some d) net))
        (λ net'. some (lcls_send_notify c net'))
        (chg-InOrder c not_yet_ls _ (inr (inl refl)) (some_other-InOrder c d net h))
        (notify-InOrder c)

  not_possible_event-InOrder :
      (c : ℕ) (ev : LclsEvent) (net : LclsNet)
      → is_switched (net.conn c).state ≡ false
      → InOrder net
      → Returns InOrder (not_possible_event documented dispatch c ev net)
  unfolding not_possible_event
  not_possible_event-InOrder c (update_cfg_csc cfg csc) net n h = on_update-InOrder c cfg csc net h
  not_possible_event-InOrder c apply_cfg_csc net n h = apply_not_possible-InOrder c net h
  not_possible_event-InOrder c (correlated d) net n h = correlated_not_possible-InOrder c d net h
  not_possible_event-InOrder c (other_dead d) net n h = forget_dead-InOrder c d net (inl n) h
  not_possible_event-InOrder c (other_enabled d) net n h = tt
  not_possible_event-InOrder c (other_break d) net n h = tt

  pub not_possible-InOrder :
      (c : ℕ) (ev : LclsEvent) (net : LclsNet)
      → is_switched (net.conn c).state ≡ false
      → InOrder net
      → Returns InOrder (lcls_not_possible_ls_fn documented dispatch c ev net)
  unfolding lcls_not_possible_ls_fn
  not_possible-InOrder c ev net n h =
      each-Returns InOrder (assert (not (has_other c net))) _
        (λ u. not_possible_event-InOrder c ev net n h)

  -- NO_LONGER_LS
  switch_if_supported-InOrder :
      (c : ℕ) (r : Bool × LclsNet)
      → ResultInOrder r
      → Returns InOrder (switch_if_supported documented dispatch c r)
  unfolding switch_if_supported
  switch_if_supported-InOrder c (false, net) h = h
  switch_if_supported-InOrder c (true, net) h = apply_not_yet-InOrder c net h

  no_longer_event-InOrder :
      (c : ℕ) (ev : LclsEvent) (net : LclsNet)
      → is_switched (net.conn c).state ≡ false
      → InOrder net
      → Returns InOrder (no_longer_event documented dispatch c ev net)
  unfolding no_longer_event update_no_longer
  no_longer_event-InOrder c (update_cfg_csc cfg csc) net n h =
      bind-Returns ResultInOrder InOrder (lcls_handle_cfg_update documented c cfg csc net)
        (switch_if_supported documented dispatch c) (update-InOrder c cfg csc net h)
        (switch_if_supported-InOrder c)
  no_longer_event-InOrder c (other_enabled d) net n h = on_enabled-InOrder dispatch keeps c d net h
  no_longer_event-InOrder c (correlated d) net n h = some_other-InOrder c d net h
  no_longer_event-InOrder c (other_dead d) net n h = on_dead-InOrder c d net (inl n) h
  no_longer_event-InOrder c apply_cfg_csc net n h = tt
  no_longer_event-InOrder c (other_break d) net n h = tt

  pub no_longer-InOrder :
      (c : ℕ) (ev : LclsEvent) (net : LclsNet)
      → is_switched (net.conn c).state ≡ false
      → InOrder net
      → Returns InOrder (lcls_no_longer_ls_fn documented dispatch c ev net)
  unfolding lcls_no_longer_ls_fn
  no_longer-InOrder c ev net n h =
      each-Returns InOrder (assert (has_other c net)) _ (λ u. no_longer_event-InOrder c ev net n h)
