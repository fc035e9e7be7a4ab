-- ===== src/Lcls/Depth/Asked.antt =====
-- What dispatches because of an update or an application, in src/osmo-bsc/osmo_bsc_lcls.c.
use osmo_bsc.Base.{
  ℕ, Bool, true, false, not, Option, none, some, if◌then◌else◌, ◌>>=◌, assert, ◌≡◌, refl, ap, ◌∙◌,
}
use osmo_bsc.Fsm.{OsmoFsm}
use osmo_bsc.Lcls.{
  no_lcls, not_yet_ls, not_possible_ls, no_longer_ls, req_lcls_not_supp, locally_switched,
  locally_switched_wait_break, locally_switched_wait_other_break, LclsConfig, LclsControl, LclsNet,
  update_cfg_csc, apply_cfg_csc, correlated, other_enabled, other_break, set_other, is_switched,
}
use osmo_bsc.Lcls.Switch.{
  lcls_is_supported_config, lcls_enable_possible, lcls_state_chg, lcls_handle_cfg_update,
  lcls_break_local_switching,
}
use osmo_bsc.Lcls.Correlate.{is_empty_ref, break_previous, correlate_with, lcls_perform_correlation}
use osmo_bsc.Lcls.Handlers.{
  is_disabled, is_na_config, is_release, has_other, switch_locally, switch_if, switch_or_not_yet,
  after_correlation, on_update, break_unless, on_update_switched, apply_no_lcls, no_lcls_event,
  lcls_no_lcls_fn, apply_not_yet, not_yet_event, lcls_not_yet_ls_fn, apply_not_possible,
  not_possible_event, lcls_not_possible_ls_fn, switch_if_supported, update_no_longer,
  no_longer_event, lcls_no_longer_ls_fn, switch_untold, enable_not_supp, correlated_not_supp,
  apply_not_supp, lcls_req_lcls_not_supp_fn,
}
use osmo_bsc.Lcls.Active.{
  release_locally, switched_event, lcls_locally_switched_fn, release_both, wait_break_event,
  lcls_locally_switched_wait_break_fn, wait_other_break_event,
  lcls_locally_switched_wait_other_break_fn, lcls_action,
}
use osmo_bsc.Lcls.Depth.Told.{Dispatch, bind_cong, Same, SameAction, tell-Same}

module _ (osmo : OsmoFsm) (one two : Dispatch) where
  -- Of the calls, these three at most.
  switch_locally-Same :
      (c : ℕ) (net : LclsNet)
      → Same osmo one two (other_enabled c)
      → switch_locally osmo one c net ≡ switch_locally osmo two c net
  unfolding switch_locally
  switch_locally-Same c net h =
      bind_cong (lcls_state_chg osmo c locally_switched net) _ _
        (λ net'. tell-Same osmo one two c (other_enabled c) net' h)

  switch_if-Same :
      (c : ℕ) (b : Bool) (net : LclsNet)
      → Same osmo one two (other_enabled c)
      → switch_if osmo one c b net ≡ switch_if osmo two c b net
  unfolding switch_if
  switch_if-Same c true net h = switch_locally-Same c net h
  switch_if-Same c false net h = refl

  apply_not_yet-Same :
      (c : ℕ) (net : LclsNet)
      → Same osmo one two (other_enabled c)
      → apply_not_yet osmo one c net ≡ apply_not_yet osmo two c net
  unfolding apply_not_yet
  apply_not_yet-Same c net h =
      bind_cong (lcls_enable_possible c net) _ _ (λ b. switch_if-Same c b net h)

  switch_or_not_yet-Same :
      (c : ℕ) (b : Bool) (net : LclsNet)
      → Same osmo one two (other_enabled c)
      → switch_or_not_yet osmo one c b net ≡ switch_or_not_yet osmo two c b net
  unfolding switch_or_not_yet
  switch_or_not_yet-Same c true net h = switch_locally-Same c net h
  switch_or_not_yet-Same c false net h = refl

  after_correlation-Same :
      (c : ℕ) (f : LclsNet → Option LclsNet) (r : Bool × LclsNet)
      → Same osmo one two (other_enabled c)
      → after_correlation osmo one c f r ≡ after_correlation osmo two c f r
  unfolding after_correlation
  after_correlation-Same c f (false, net) h = refl
  after_correlation-Same c f (true, net) h =
      bind_cong (assert (has_other c net)) _ _
        (λ u. bind_cong (lcls_enable_possible c net) _ _ (λ b. switch_or_not_yet-Same c b net h))

  correlate_with-Same :
      (c : ℕ) (o : Option ℕ) (net : LclsNet)
      → Same osmo one two (correlated c)
      → correlate_with one c o net ≡ correlate_with two c o net
  unfolding correlate_with
  correlate_with-Same c none net h = refl
  correlate_with-Same c (some d) net h = rw (h d (set_other c (some d) net)) refl

  correlation-Same :
      (c : ℕ) (net : LclsNet)
      → Same osmo one two (correlated c)
      → lcls_perform_correlation one c net ≡ lcls_perform_correlation two c net
  unfolding lcls_perform_correlation
  correlation-Same c net h =
      bind_cong (assert (not (is_empty_ref (net.conn c).global_call_ref))) _ _ (λ u.
        bind_cong (assert (not (is_switched (net.conn c).state))) _ _ (λ v.
          bind_cong (break_previous c (net.conn c).other net) _ _
            (λ net'. correlate_with-Same c _ net' h)))

  after_correlating :
      (c : ℕ) (net : LclsNet) (f g : Bool × LclsNet → Option LclsNet)
      → Same osmo one two (correlated c)
      → ((r : Bool × LclsNet) → f r ≡ g r)
      → (lcls_perform_correlation one c net >>= f) ≡ (lcls_perform_correlation two c net >>= g)
  after_correlating c net f g h k =
      ap (λ o. o >>= f) (correlation-Same c net h)
      ∙ bind_cong (lcls_perform_correlation two c net) f g k

  switch_untold-Same :
      (c : ℕ) (b : Bool) (net : LclsNet)
      → switch_untold osmo one c b net ≡ switch_untold osmo two c b net
  unfolding switch_untold
  switch_untold-Same c true net = refl
  switch_untold-Same c false net = refl

  correlated_not_supp-Same :
      (c : ℕ) (r : Bool × LclsNet)
      → correlated_not_supp osmo one c r ≡ correlated_not_supp osmo two c r
  unfolding correlated_not_supp enable_not_supp
  correlated_not_supp-Same c (false, net) = refl
  correlated_not_supp-Same c (true, net) = bind_cong (assert (has_other c net)) _ _ (λ u.
      ap (λ o. if lcls_is_supported_config (net.conn c).config then o else some net)
        (bind_cong (lcls_enable_possible c net) _ _ (λ b. switch_untold-Same c b net)))

  release_locally-Same :
      (c : ℕ) (net : LclsNet)
      → Same osmo one two (other_break c)
      → release_locally osmo one c net ≡ release_locally osmo two c net
  unfolding release_locally
  release_locally-Same c net h =
      bind_cong (lcls_state_chg osmo c locally_switched_wait_other_break net) _ _
        (λ net'. tell-Same osmo one two c (other_break c) net' h)

  release_both-Same :
      (c : ℕ) (net : LclsNet)
      → Same osmo one two (other_break c)
      → release_both osmo one c net ≡ release_both osmo two c net
  unfolding release_both
  release_both-Same c net h = bind_cong (lcls_break_local_switching c net) _ _ (λ net'.
      bind_cong (lcls_state_chg osmo c no_longer_ls net') _ _
        (λ net''. tell-Same osmo one two c (other_break c) net'' h))

  released :
      (c : ℕ) (net : LclsNet)
      → Same osmo one two (other_break c)
      → switched_event osmo one c apply_cfg_csc net ≡ switched_event osmo two c apply_cfg_csc net
  unfolding switched_event
  released c net h =
      ap (λ o. if is_release (net.conn c).control then o else some net)
        (release_locally-Same c net h)

  pub apply-SameAction :
      (c : ℕ)
      → Same osmo one two (correlated c)
      → Same osmo one two (other_enabled c)
      → Same osmo one two (other_break c)
      → SameAction osmo one two c apply_cfg_csc
  unfolding apply_no_lcls apply_not_possible apply_not_supp lcls_action lcls_no_lcls_fn
      no_lcls_event lcls_not_yet_ls_fn not_yet_event lcls_not_possible_ls_fn not_possible_event
      lcls_no_longer_ls_fn no_longer_event lcls_req_lcls_not_supp_fn lcls_locally_switched_fn
      switched_event lcls_locally_switched_wait_break_fn wait_break_event
      lcls_locally_switched_wait_other_break_fn wait_other_break_event
  apply-SameAction c hc he hb no_lcls net = bind_cong (assert (not (has_other c net))) _ _ (λ u.
      ap
        (λ o.
          if is_disabled (net.conn c).lcls_mode
          then some net
          else if is_empty_ref (net.conn c).global_call_ref
          then some net
          else if is_na_config (net.conn c).config
          then some net
          else o)
        (after_correlating c net _ _ hc (λ r. after_correlation-Same c _ r he)))
  apply-SameAction c hc he hb not_yet_ls net =
      bind_cong (assert (has_other c net)) _ _ (λ u. apply_not_yet-Same c net he)
  apply-SameAction c hc he hb not_possible_ls net =
      bind_cong (assert (not (has_other c net))) _ _
        (λ u. after_correlating c net _ _ hc (λ r. after_correlation-Same c _ r he))
  apply-SameAction c hc he hb no_longer_ls net = refl
  apply-SameAction c hc he hb req_lcls_not_supp net =
      after_correlating c net _ _ hc (correlated_not_supp-Same c)
  apply-SameAction c hc he hb locally_switched net =
      bind_cong (assert (has_other c net)) _ _ (λ u. released c net hb)
  apply-SameAction c hc he hb locally_switched_wait_break net =
      bind_cong (assert (has_other c net)) _ _ (λ u.
        ap (λ o. if is_release (net.conn c).control then o else some net)
          (release_both-Same c net hb))
  apply-SameAction c hc he hb locally_switched_wait_other_break net =
      bind_cong (assert (has_other c net)) _ _
        (λ u. bind_cong (assert (has_other c net)) _ _ (λ v. released c net hb))

  -- An update.
  break_unless-Same :
      (c : ℕ) (r : Bool × LclsNet) → break_unless osmo one c r ≡ break_unless osmo two c r
  unfolding break_unless
  break_unless-Same c (true, net) = refl
  break_unless-Same c (false, net) = refl

  on_update_switched-Same :
      (c : ℕ) (cfg : LclsConfig) (csc : LclsControl) (net : LclsNet)
      → on_update_switched osmo one c cfg csc net ≡ on_update_switched osmo two c cfg csc net
  unfolding on_update_switched
  on_update_switched-Same c cfg csc net =
      bind_cong (lcls_handle_cfg_update osmo c cfg csc net) _ _ (break_unless-Same c)

  switch_if_supported-Same :
      (c : ℕ) (r : Bool × LclsNet)
      → Same osmo one two (other_enabled c)
      → switch_if_supported osmo one c r ≡ switch_if_supported osmo two c r
  unfolding switch_if_supported
  switch_if_supported-Same c (false, net) h = refl
  switch_if_supported-Same c (true, net) h = apply_not_yet-Same c net h

  pub update-SameAction :
      (c : ℕ) (cfg : LclsConfig) (csc : LclsControl)
      → Same osmo one two (other_enabled c)
      → SameAction osmo one two c (update_cfg_csc cfg csc)
  unfolding on_update update_no_longer lcls_action lcls_no_lcls_fn no_lcls_event lcls_not_yet_ls_fn
      not_yet_event lcls_not_possible_ls_fn not_possible_event lcls_no_longer_ls_fn no_longer_event
      lcls_req_lcls_not_supp_fn lcls_locally_switched_fn switched_event
      lcls_locally_switched_wait_break_fn wait_break_event lcls_locally_switched_wait_other_break_fn
      wait_other_break_event
  update-SameAction c cfg csc h no_lcls net = refl
  update-SameAction c cfg csc h not_yet_ls net = refl
  update-SameAction c cfg csc h not_possible_ls net = refl
  update-SameAction c cfg csc h no_longer_ls net = bind_cong (assert (has_other c net)) _ _ (λ u.
      bind_cong (lcls_handle_cfg_update osmo c cfg csc net) _ _
        (λ r. switch_if_supported-Same c r h))
  update-SameAction c cfg csc h req_lcls_not_supp net = refl
  update-SameAction c cfg csc h locally_switched net =
      bind_cong (assert (has_other c net)) _ _ (λ u. on_update_switched-Same c cfg csc net)
  update-SameAction c cfg csc h locally_switched_wait_break net =
      bind_cong (assert (has_other c net)) _ _ (λ u. on_update_switched-Same c cfg csc net)
  update-SameAction c cfg csc h locally_switched_wait_other_break net =
      bind_cong (assert (has_other c net)) _ _ (λ u. on_update_switched-Same c cfg csc net)
