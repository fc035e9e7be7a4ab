-- ===== src/Reset/Reach.antt =====
-- What calls and expiries of the timer can lead to.
use osmo_bsc.Base.{
  Bool-cases, ℕ, zero, suc, ◌+◌, ◌≤◌, Option, none, some, ◌≡◌, refl, ◌∙◌, ap, sym, arith,
  if◌then◌else◌, leb, ◌⊎◌, inl, inr,
}
use osmo_bsc.Reset.{
  ResetState, disc, conn, ResetEvent, reset_ack, n_disconnect, n_connect, ResetFsm, OsmoFsm,
  in_event_mask, fsm_disc_cb, fsm_conn_cb, state_action, fsm_reset_ack_timeout_cb, a_reset_alloc,
  dispatch_if, a_reset_ack_confirm, a_reset_conn_fail, a_reset_conn_success,
}

-- Connected, an FSM has no timer and has counted at most three lost connections; disconnected, it has
-- one, so that a reset is sent again.
abbrev pub IsSound : ResetFsm → Type 0
IsSound fi =
    ((fi.state ≡ conn) × (fi.timer ≡ none) × (fi.conn_loss_counter ≤ 3))
    ⊎ ((fi.state ≡ disc) × (fi.timer ≡ some 2))

module _ (osmo : OsmoFsm) where
  -- One call or expiry: the timer expires only if it runs.
  pub data Step : ResetFsm → ResetFsm → Type 0 where
    confirmed : (fi fi' : ResetFsm) → a_reset_ack_confirm osmo (some fi) ≡ some fi' → Step fi fi'
    failed : (fi fi' : ResetFsm) → a_reset_conn_fail osmo (some fi) ≡ some fi' → Step fi fi'
    succeeded : (fi fi' : ResetFsm) → a_reset_conn_success osmo (some fi) ≡ some fi' → Step fi fi'
    expired :
        (fi : ResetFsm) (t : ℕ) → fi.timer ≡ some t → Step fi (fsm_reset_ack_timeout_cb osmo fi)

  pub data Reach : ResetFsm → Type 0 where
    allocated : Reach (a_reset_alloc osmo)
    after : (fi fi' : ResetFsm) → Reach fi → Step fi fi' → Reach fi'

  -- What an event does to an instance, with the library's functions as documented.
  abbrev handled : ResetFsm → ResetEvent → ResetState → ResetFsm
  handled fi reset_ack disc = record fi { conn_loss_counter = 0; state = conn; timer = none }
  handled fi n_disconnect conn =
      if leb 3 fi.conn_loss_counter
      then record fi { state = disc; timer = some 2 }
      else record fi { conn_loss_counter = fi.conn_loss_counter + 1 }
  handled fi n_connect conn = record fi { conn_loss_counter = 0 }
  handled fi _ _ = fi

  mask_action :
      (fi : ResetFsm) (e : ResetEvent) (st : ResetState)
      → (if in_event_mask st e then state_action osmo st fi e else fi) ≡ handled fi e st
  unfolding in_event_mask state_action fsm_disc_cb fsm_conn_cb
  mask_action fi reset_ack disc = osmo.state_chg_lem _ conn 0
  mask_action fi n_disconnect disc = refl
  mask_action fi n_connect disc = refl
  mask_action fi reset_ack conn = refl
  mask_action fi n_disconnect conn = rw (osmo.state_chg_lem fi disc 2) refl
  mask_action fi n_connect conn = refl

  pub dispatch-handled :
      (fi : ResetFsm) (e : ResetEvent)
      → osmo.dispatch in_event_mask (state_action osmo) fi e ≡ handled fi e fi.state
  dispatch-handled fi e =
      osmo.dispatch_lem in_event_mask (state_action osmo) fi e ∙ mask_action fi e fi.state

  conn_facts :
      (fi : ResetFsm)
      → fi.state ≡ conn
      → IsSound fi
      → (fi.timer ≡ none) × (fi.conn_loss_counter ≤ 3)
  conn_facts fi s (inl (s', t, c)) = (t, c)
  conn_facts fi s (inr (s', t)) = absurd (ground arith)

  handled-IsSound :
      (fi : ResetFsm) (e : ResetEvent) (st : ResetState)
      → fi.state ≡ st
      → IsSound fi
      → IsSound (handled fi e st)
  handled-IsSound fi reset_ack disc s h = inl (refl, refl, omega arith)
  handled-IsSound fi n_disconnect disc s h = h
  handled-IsSound fi n_connect disc s h = h
  handled-IsSound fi reset_ack conn s h = h
  handled-IsSound fi n_connect conn s h = let (t, c) = conn_facts fi s h in inl (s, t, omega arith)
  handled-IsSound fi n_disconnect conn s h =
      let (t, c) = conn_facts fi s h in
      elim (Bool-cases (leb 3 fi.conn_loss_counter)) [
        | inl e ↦ rw e (inr (refl, refl))
        | inr e ↦ rw e (inl (s, t, ground arith))
      ]

  dispatched :
      (fi fi' : ResetFsm) (e : ResetEvent)
      → dispatch_if osmo (some fi) e ≡ some fi'
      → handled fi e fi.state ≡ fi'
  unfolding dispatch_if
  dispatched fi fi' e h = sym (dispatch-handled fi e) ∙ ground arith

  Step-IsSound : (fi fi' : ResetFsm) → Step fi fi' → IsSound fi → IsSound fi'
  unfolding a_reset_ack_confirm a_reset_conn_fail a_reset_conn_success fsm_reset_ack_timeout_cb
  Step-IsSound fi fi' (confirmed _ _ h) s =
      rw (sym (dispatched fi fi' reset_ack h)) (handled-IsSound fi reset_ack fi.state refl s)
  Step-IsSound fi fi' (failed _ _ h) s =
      rw (sym (dispatched fi fi' n_disconnect h)) (handled-IsSound fi n_disconnect fi.state refl s)
  Step-IsSound fi fi' (succeeded _ _ h) s =
      rw (sym (dispatched fi fi' n_connect h)) (handled-IsSound fi n_connect fi.state refl s)
  Step-IsSound fi fi' (expired _ t h) s =
      rw (osmo.state_chg_lem (record fi { resets = fi.resets + 1 }) disc 2) (inr (refl, refl))

  -- Every FSM that calls and expiries lead to is connected without a timer and with at most three lost
  -- connections counted, or disconnected with its timer running.
  pub Reach-IsSound : (fi : ResetFsm) → Reach fi → IsSound fi
  unfolding a_reset_alloc
  Reach-IsSound _ allocated = rw (osmo.state_chg_lem _ disc 2) (inr (refl, refl))
  Reach-IsSound _ (after fi fi' r s) = Step-IsSound fi fi' s (Reach-IsSound fi r)

  -- `n` lost connections in a row.
  abbrev pub fails : ℕ → Option ResetFsm → Option ResetFsm
  fails zero fsm = fsm
  fails (suc n) fsm = fails n (a_reset_conn_fail osmo fsm)

  -- Disconnected, an FSM answers to an acknowledged reset only, which connects it and stops its timer;
  -- each expiry sends a reset and starts the timer again.
  pub disc_answers :
      (fi : ResetFsm)
      → fi.state ≡ disc
      → (a_reset_conn_fail osmo (some fi) ≡ some fi)
        × (a_reset_conn_success osmo (some fi) ≡ some fi)
        × (a_reset_ack_confirm osmo (some fi)
            ≡ some (record fi { conn_loss_counter = 0; state = conn; timer = none }))
        × (fsm_reset_ack_timeout_cb osmo fi
            ≡ record fi { resets = fi.resets + 1; state = disc; timer = some 2 })
  unfolding a_reset_ack_confirm a_reset_conn_fail a_reset_conn_success dispatch_if
      fsm_reset_ack_timeout_cb
  disc_answers fi s = (
    ap some (dispatch-handled fi n_disconnect ∙ ap (handled fi n_disconnect) s),
    ap some (dispatch-handled fi n_connect ∙ ap (handled fi n_connect) s),
    ap some (dispatch-handled fi reset_ack ∙ ap (handled fi reset_ack) s),
    osmo.state_chg_lem _ disc 2,
  )
