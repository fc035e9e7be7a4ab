-- ===== src/Lcls/Updates.antt =====
-- That correlating, switching and updating, in src/osmo-bsc/osmo_bsc_lcls.c, keep the connections in order.
use osmo_bsc.Base.{
  ℕ, Bool, true, false, not, Option, none, some, ◌==◌, ◌>>=◌, ◌>>◌, assert, either, Returns,
  bind-Returns, each-Returns, assert-Returns, ◌≡◌, inl, inr, refl, arith,
}
use osmo_bsc.Fsm.{documented}
use osmo_bsc.Lcls.{
  not_yet_ls, req_lcls_not_supp, locally_switched, LclsConfig, cfg_both_way, cfg_na,
  cfg_unsupported, LclsControl, csc_connect, csc_na, csc_release_lcls, csc_other, LclsConn, LclsNet,
  LclsEvent, correlated, other_enabled, other_break, set_other, live, is_set, is_conn, is_switched,
}
use Prim.{tt}
use osmo_bsc.Lcls.Switch.{
  lcls_send_notify, lcls_is_supported_config, both_possible, lcls_enable_possible, lcls_state_chg,
  set_config, set_control, update_lcls_cfg_csc, update_or_refuse, lcls_handle_cfg_update,
}
use osmo_bsc.Lcls.Correlate.{is_empty_ref, break_previous, correlate_with, lcls_perform_correlation}
use osmo_bsc.Lcls.Handlers.{
  has_other, tell_other, switch_locally, switch_if, switch_or_not_yet, after_correlation,
  enabled_if, on_enabled,
}
use osmo_bsc.Lcls.InOrder.{
  ConnInOrder, InOrder, set_conn-InOrder, some_other-InOrder, no_other-InOrder, notify-InOrder,
  chg-InOrder,
}

-- Events to the other connections keep them in order, and so does a part that also gives a Boolean.
abbrev pub Keeps : (ℕ → LclsEvent → LclsNet → Option LclsNet) → Type 0
Keeps dispatch =
    (d : ℕ) (ev : LclsEvent) (net : LclsNet) → InOrder net → Returns InOrder (dispatch d ev net)

abbrev pub ResultInOrder : Bool × LclsNet → Type 0
ResultInOrder r = InOrder r.1

control-InOrder :
    (csc : LclsControl) (q : LclsConn) → ConnInOrder q → ConnInOrder (set_control csc q)
control-InOrder csc_connect q h = h
control-InOrder csc_release_lcls q h = h
control-InOrder csc_na q h = h
control-InOrder (csc_other n) q h = h

config-InOrder :
    (cfg : LclsConfig) (q : LclsConn) → ConnInOrder q → Returns ConnInOrder (set_config cfg q)
unfolding lcls_is_supported_config
config-InOrder cfg_na q h = h
config-InOrder (cfg_unsupported n) q h = tt
config-InOrder cfg_both_way q (inl a) = inl a
config-InOrder cfg_both_way q (inr (inl n)) = inr (inl n)
config-InOrder cfg_both_way q (inr (inr (s, o))) = inr (inr (refl, o))

update_cfg-InOrder :
    (cfg : LclsConfig) (csc : LclsControl) (q : LclsConn)
    → ConnInOrder q
    → Returns ConnInOrder (update_lcls_cfg_csc cfg csc q)
unfolding update_lcls_cfg_csc
update_cfg-InOrder cfg csc q h =
    bind-Returns ConnInOrder ConnInOrder (set_config cfg q) (λ q'. some (set_control csc q'))
      (config-InOrder cfg q h) (λ q' h'. control-InOrder csc q' h')

refuse-InOrder :
    (c : ℕ) (o : Option LclsConn) (net : LclsNet)
    → Returns ConnInOrder o
    → InOrder net
    → Returns ResultInOrder (update_or_refuse documented c o net)
unfolding update_or_refuse
refuse-InOrder c (some q) net k h = set_conn-InOrder c q net h k
refuse-InOrder c none net k h =
    bind-Returns InOrder ResultInOrder (lcls_state_chg documented c req_lcls_not_supp net)
      (λ net'. some (false, net')) (chg-InOrder c req_lcls_not_supp net (inr (inl refl)) h)
      (λ net' h'. h')

pub update-InOrder :
    (c : ℕ) (cfg : LclsConfig) (csc : LclsControl) (net : LclsNet)
    → InOrder net
    → Returns ResultInOrder (lcls_handle_cfg_update documented c cfg csc net)
unfolding lcls_handle_cfg_update
update-InOrder c cfg csc net h = refuse-InOrder c _ net (update_cfg-InOrder cfg csc _ (h.each c)) h

-- A connection for which local switching is possible has what it takes.
abbrev pub CanSwitch : ℕ → LclsNet → Type 0
CanSwitch c net =
    (lcls_is_supported_config (net.conn c).config ≡ true) × (is_set (net.conn c).other ≡ true)

both_supported :
    (q r : LclsConn) → both_possible q r ≡ true → lcls_is_supported_config q.config ≡ true
unfolding both_possible
both_supported q r e = ground arith

possible_of :
    (q : LclsConn) (o : Option ℕ) (net : LclsNet)
    → Returns
        (λ b. b ≡ true → (lcls_is_supported_config q.config ≡ true) × (is_set o ≡ true))
        (o >>= λ d. live d net >>= λ u. some (both_possible q (net.conn d)))
possible_of q none net = tt
possible_of q (some d) net =
    each-Returns (λ b. b ≡ true → (lcls_is_supported_config q.config ≡ true) × (true ≡ true))
      (live d net) (λ u. some (both_possible q (net.conn d)))
      (λ u e. (both_supported q (net.conn d) e, refl))

pub possible-CanSwitch :
    (c : ℕ) (net : LclsNet) → Returns (λ b. b ≡ true → CanSwitch c net) (lcls_enable_possible c net)
unfolding lcls_enable_possible
possible-CanSwitch c net = possible_of (net.conn c) (net.conn c).other net

module _ (dispatch : ℕ → LclsEvent → LclsNet → Option LclsNet) (keeps : Keeps dispatch) where
  pub tell_other-InOrder :
      (c : ℕ) (ev : LclsEvent) (net : LclsNet)
      → InOrder net
      → Returns InOrder (tell_other documented dispatch c ev net)
  unfolding tell_other
  tell_other-InOrder c ev net h =
      each-Returns InOrder (net.conn c).other (λ d. dispatch d ev net) (λ d. keeps d ev net h)

  switch_locally-InOrder :
      (c : ℕ) (net : LclsNet)
      → CanSwitch c net
      → InOrder net
      → Returns InOrder (switch_locally documented dispatch c net)
  unfolding switch_locally
  switch_locally-InOrder c net (s, o) h =
      bind-Returns InOrder InOrder (lcls_state_chg documented c locally_switched net)
        (tell_other documented dispatch c (other_enabled c))
        (chg-InOrder c locally_switched net (inr (inr (s, inl o))) h)
        (tell_other-InOrder c (other_enabled c))

  switch_if-InOrder :
      (c : ℕ) (b : Bool) (net : LclsNet)
      → (b ≡ true → CanSwitch c net)
      → InOrder net
      → Returns InOrder (switch_if documented dispatch c b net)
  unfolding switch_if
  switch_if-InOrder c true net k h = switch_locally-InOrder c net (k refl) h
  switch_if-InOrder c false net k h = h

  switch_or_not_yet-InOrder :
      (c : ℕ) (b : Bool) (net : LclsNet)
      → (b ≡ true → CanSwitch c net)
      → InOrder net
      → Returns InOrder (switch_or_not_yet documented dispatch c b net)
  unfolding switch_or_not_yet
  switch_or_not_yet-InOrder c true net k h = switch_locally-InOrder c net (k refl) h
  switch_or_not_yet-InOrder c false net k h = chg-InOrder c not_yet_ls net (inr (inl refl)) h

  pub if_possible-InOrder :
      (c : ℕ) (net : LclsNet)
      → InOrder net
      → Returns InOrder (lcls_enable_possible c net >>= λ b. switch_if documented dispatch c b net)
  if_possible-InOrder c net h =
      bind-Returns (λ b. b ≡ true → CanSwitch c net) InOrder (lcls_enable_possible c net)
        (λ b. switch_if documented dispatch c b net) (possible-CanSwitch c net)
        (λ b k. switch_if-InOrder c b net k h)

  if_correlated-InOrder :
      (c : ℕ) (net : LclsNet)
      → InOrder net
      → Returns InOrder
          (lcls_enable_possible c net >>= λ b. switch_or_not_yet documented dispatch c b net)
  if_correlated-InOrder c net h =
      bind-Returns (λ b. b ≡ true → CanSwitch c net) InOrder (lcls_enable_possible c net)
        (λ b. switch_or_not_yet documented dispatch c b net) (possible-CanSwitch c net)
        (λ b k. switch_or_not_yet-InOrder c b net k h)

  pub after_correlation-InOrder :
      (c : ℕ) (unsuccessful : LclsNet → Option LclsNet)
      → ((net : LclsNet) → InOrder net → Returns InOrder (unsuccessful net))
      → (r : Bool × LclsNet) → ResultInOrder r
      → Returns InOrder (after_correlation documented dispatch c unsuccessful r)
  unfolding after_correlation
  after_correlation-InOrder c f k (false, net) h = k net h
  after_correlation-InOrder c f k (true, net) h =
      each-Returns InOrder (assert (has_other c net))
        (λ u. lcls_enable_possible c net >>= λ b. switch_or_not_yet documented dispatch c b net)
        (λ u. if_correlated-InOrder c net h)

  -- What the other connection does when it is told.
  enabled_if-InOrder :
      (c : ℕ) (b : Bool) (net : LclsNet)
      → (b ≡ true → CanSwitch c net)
      → InOrder net
      → Returns InOrder (enabled_if documented dispatch c b net)
  unfolding enabled_if
  enabled_if-InOrder c true net k h =
      bind-Returns InOrder InOrder (lcls_state_chg documented c locally_switched net)
        (λ net'. some (lcls_send_notify c net'))
        (chg-InOrder c locally_switched net (inr (inr ((k refl).0, inl (k refl).1))) h)
        (notify-InOrder c)
  enabled_if-InOrder c false net k h = tell_other-InOrder c (other_break c) net h

  pub on_enabled-InOrder :
      (c d : ℕ) (net : LclsNet)
      → InOrder net
      → Returns InOrder (on_enabled documented dispatch c d net)
  unfolding on_enabled
  on_enabled-InOrder c d net h =
      each-Returns InOrder (assert (is_conn d (net.conn c).other))
        (λ u. lcls_enable_possible c net >>= λ b. enabled_if documented dispatch c b net)
        (λ u.
          bind-Returns (λ b. b ≡ true → CanSwitch c net) InOrder (lcls_enable_possible c net)
            (λ b. enabled_if documented dispatch c b net) (possible-CanSwitch c net)
            (λ b k. enabled_if-InOrder c b net k h))

  -- Correlating a connection that is not switched.
  other-is_switched :
      (c d : ℕ) (net : LclsNet)
      → is_switched (net.conn d).state ≡ false
      → is_switched (net.conn c).state ≡ false
      → is_switched ((set_other d none net).conn c).state ≡ false
  other-is_switched c d net n m =
      either {A = LclsConn} (λ q. is_switched q.state ≡ false) (d == c) n m

  break_previous-InOrder :
      (c : ℕ) (o : Option ℕ) (net : LclsNet)
      → is_switched (net.conn c).state ≡ false
      → InOrder net
      → Returns InOrder (break_previous c o net)
  unfolding break_previous
  break_previous-InOrder c none net n h = h
  break_previous-InOrder c (some d) net n h =
      each-Returns InOrder (live d net)
        (λ u.
          assert (not (is_switched (net.conn d).state))
          >> some (set_other c none (set_other d none net)))
        (λ u. assert-Returns InOrder (not (is_switched (net.conn d).state)) _ (λ e.
          let m : is_switched (net.conn d).state ≡ false = ground arith in
          no_other-InOrder c _ (inl (other-is_switched c d net m n))
            (no_other-InOrder d net (inl m) h)))

  correlate_with-InOrder :
      (c : ℕ) (o : Option ℕ) (net : LclsNet)
      → InOrder net
      → Returns ResultInOrder (correlate_with dispatch c o net)
  unfolding correlate_with
  correlate_with-InOrder c none net h = h
  correlate_with-InOrder c (some d) net h =
      bind-Returns InOrder ResultInOrder (dispatch d (correlated c) (set_other c (some d) net))
        (λ net'. some (true, net')) (keeps d (correlated c) _ (some_other-InOrder c d net h))
        (λ net' h'. h')

  pub correlation-InOrder :
      (c : ℕ) (net : LclsNet)
      → InOrder net
      → Returns ResultInOrder (lcls_perform_correlation dispatch c net)
  unfolding lcls_perform_correlation
  correlation-InOrder c net h =
      each-Returns ResultInOrder (assert (not (is_empty_ref (net.conn c).global_call_ref))) _ (λ u.
        assert-Returns ResultInOrder (not (is_switched (net.conn c).state)) _ (λ e.
          let n : is_switched (net.conn c).state ≡ false = ground arith in
          bind-Returns InOrder ResultInOrder (break_previous c (net.conn c).other net) _
            (break_previous-InOrder c (net.conn c).other net n h)
            (λ net' h'. correlate_with-InOrder c _ net' h')))
