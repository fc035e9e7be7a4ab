-- ===== src/Lcls/Depth/Told.antt =====
-- What dispatches in answer to the other connection, in src/osmo-bsc/osmo_bsc_lcls.c.
use osmo_bsc.Base.{ℕ, Bool, true, false, Option, none, some, ◌>>=◌, assert, ◌≡◌, refl}
use osmo_bsc.Fsm.{OsmoFsm}
use osmo_bsc.Lcls.{
  LclsState, no_lcls, not_yet_ls, not_possible_ls, no_longer_ls, req_lcls_not_supp,
  locally_switched, locally_switched_wait_break, locally_switched_wait_other_break, LclsNet,
  LclsEvent, correlated, other_enabled, other_break, other_dead, is_conn,
}
use osmo_bsc.Lcls.Switch.{lcls_enable_possible}
use osmo_bsc.Lcls.Handlers.{
  has_other, tell_other, enabled_if, on_enabled, on_dead, no_lcls_event, lcls_no_lcls_fn,
  not_yet_event, lcls_not_yet_ls_fn, correlated_not_possible, forget_dead, not_possible_event,
  lcls_not_possible_ls_fn, no_longer_event, lcls_no_longer_ls_fn, lcls_req_lcls_not_supp_fn,
}
use osmo_bsc.Lcls.Active.{
  break_from_other, switched_event, lcls_locally_switched_fn, wait_break_event,
  lcls_locally_switched_wait_break_fn, broken_by_other, wait_other_break_event,
  lcls_locally_switched_wait_other_break_fn, lcls_action,
}

abbrev pub Dispatch : Type 0
Dispatch = ℕ → LclsEvent → LclsNet → Option LclsNet

module _ {A B : Type 0} where
  pub bind_cong :
      (m : Option A) (f g : A → Option B) → ((a : A) → f a ≡ g a) → (m >>= f) ≡ (m >>= g)
  bind_cong none f g h = refl
  bind_cong (some a) f g h = h a

module _ (osmo : OsmoFsm) (one two : Dispatch) where
  -- Two that do the same of the events that one dispatches.
  abbrev pub Same : LclsEvent → Type 0
  Same ev = (d : ℕ) (net : LclsNet) → one d ev net ≡ two d ev net

  abbrev pub SameAction : ℕ → LclsEvent → Type 0
  SameAction c ev =
      (st : LclsState) (net : LclsNet)
      → lcls_action osmo one c st ev net ≡ lcls_action osmo two c st ev net

  -- No event comes of these.
  pub correlated-SameAction : (c d : ℕ) → SameAction c (correlated d)
  unfolding lcls_action lcls_no_lcls_fn no_lcls_event lcls_not_yet_ls_fn not_yet_event
      lcls_not_possible_ls_fn not_possible_event lcls_no_longer_ls_fn no_longer_event
      lcls_req_lcls_not_supp_fn lcls_locally_switched_fn switched_event
      lcls_locally_switched_wait_break_fn wait_break_event lcls_locally_switched_wait_other_break_fn
      wait_other_break_event correlated_not_possible
  correlated-SameAction c d no_lcls net = refl
  correlated-SameAction c d not_yet_ls net = refl
  correlated-SameAction c d not_possible_ls net = refl
  correlated-SameAction c d no_longer_ls net = refl
  correlated-SameAction c d req_lcls_not_supp net = refl
  correlated-SameAction c d locally_switched net = refl
  correlated-SameAction c d locally_switched_wait_break net = refl
  correlated-SameAction c d locally_switched_wait_other_break net = refl

  pub break-SameAction : (c d : ℕ) → SameAction c (other_break d)
  unfolding lcls_action lcls_no_lcls_fn no_lcls_event lcls_not_yet_ls_fn not_yet_event
      lcls_not_possible_ls_fn not_possible_event lcls_no_longer_ls_fn no_longer_event
      lcls_req_lcls_not_supp_fn lcls_locally_switched_fn switched_event
      lcls_locally_switched_wait_break_fn wait_break_event lcls_locally_switched_wait_other_break_fn
      wait_other_break_event break_from_other broken_by_other
  break-SameAction c d no_lcls net = refl
  break-SameAction c d not_yet_ls net = refl
  break-SameAction c d not_possible_ls net = refl
  break-SameAction c d no_longer_ls net = refl
  break-SameAction c d req_lcls_not_supp net = refl
  break-SameAction c d locally_switched net = refl
  break-SameAction c d locally_switched_wait_break net = refl
  break-SameAction c d locally_switched_wait_other_break net = refl

  pub dead-SameAction : (c d : ℕ) → SameAction c (other_dead d)
  unfolding lcls_action lcls_no_lcls_fn no_lcls_event lcls_not_yet_ls_fn not_yet_event
      lcls_not_possible_ls_fn not_possible_event lcls_no_longer_ls_fn no_longer_event
      lcls_req_lcls_not_supp_fn lcls_locally_switched_fn switched_event
      lcls_locally_switched_wait_break_fn wait_break_event lcls_locally_switched_wait_other_break_fn
      wait_other_break_event on_dead forget_dead broken_by_other
  dead-SameAction c d no_lcls net = refl
  dead-SameAction c d not_yet_ls net = refl
  dead-SameAction c d not_possible_ls net = refl
  dead-SameAction c d no_longer_ls net = refl
  dead-SameAction c d req_lcls_not_supp net = refl
  dead-SameAction c d locally_switched net = refl
  dead-SameAction c d locally_switched_wait_break net = refl
  dead-SameAction c d locally_switched_wait_other_break net = refl

  pub tell-Same :
      (c : ℕ) (ev : LclsEvent) (net : LclsNet)
      → Same ev
      → tell_other osmo one c ev net ≡ tell_other osmo two c ev net
  unfolding tell_other
  tell-Same c ev net h =
      bind_cong (net.conn c).other (λ d. one d ev net) (λ d. two d ev net) (λ d. h d net)

  -- Of OTHER_ENABLED, OTHER_BREAK at most.
  enabled_if-Same :
      (c : ℕ) (b : Bool) (net : LclsNet)
      → Same (other_break c)
      → enabled_if osmo one c b net ≡ enabled_if osmo two c b net
  unfolding enabled_if
  enabled_if-Same c true net h = refl
  enabled_if-Same c false net h = tell-Same c (other_break c) net h

  on_enabled-Same :
      (c d : ℕ) (net : LclsNet)
      → Same (other_break c)
      → on_enabled osmo one c d net ≡ on_enabled osmo two c d net
  unfolding on_enabled
  on_enabled-Same c d net h = bind_cong (assert (is_conn d (net.conn c).other)) _ _ (λ u.
      bind_cong (lcls_enable_possible c net) (λ b. enabled_if osmo one c b net)
        (λ b. enabled_if osmo two c b net) (λ b. enabled_if-Same c b net h))

  pub enabled-SameAction : (c d : ℕ) → Same (other_break c) → SameAction c (other_enabled d)
  unfolding lcls_action lcls_no_lcls_fn no_lcls_event lcls_not_yet_ls_fn not_yet_event
      lcls_not_possible_ls_fn not_possible_event lcls_no_longer_ls_fn no_longer_event
      lcls_req_lcls_not_supp_fn lcls_locally_switched_fn switched_event
      lcls_locally_switched_wait_break_fn wait_break_event lcls_locally_switched_wait_other_break_fn
      wait_other_break_event
  enabled-SameAction c d h no_lcls net = refl
  enabled-SameAction c d h not_yet_ls net =
      bind_cong (assert (has_other c net)) (λ u. on_enabled osmo one c d net)
        (λ u. on_enabled osmo two c d net) (λ u. on_enabled-Same c d net h)
  enabled-SameAction c d h not_possible_ls net = refl
  enabled-SameAction c d h no_longer_ls net =
      bind_cong (assert (has_other c net)) (λ u. on_enabled osmo one c d net)
        (λ u. on_enabled osmo two c d net) (λ u. on_enabled-Same c d net h)
  enabled-SameAction c d h req_lcls_not_supp net = refl
  enabled-SameAction c d h locally_switched net = refl
  enabled-SameAction c d h locally_switched_wait_break net = refl
  enabled-SameAction c d h locally_switched_wait_other_break net = refl
