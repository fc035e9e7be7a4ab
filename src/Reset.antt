-- ===== src/Reset.antt =====
-- The reset procedure of the A interface, src/osmo-bsc/a_reset.c: an FSM with the counter of lost
-- connections. The FSM functions of libosmocore are an interface, with what their documentation says.
pub mod Reach
mod Tests
use osmo_bsc.Base.{
  ℕ, zero, suc, ◌+◌, Bool, true, false, Option, none, some, ◌≡◌, leb, if◌then◌else◌,
}

-- RESET_RESEND_INTERVAL and BAD_CONNECTION_THRESOLD
abbrev pub reset_resend_interval : ℕ
reset_resend_interval = 2

abbrev pub bad_connection_thresold : ℕ
bad_connection_thresold = 3

-- enum reset_fsm_states
pub data ResetState : Type 0 where
  disc conn : ResetState

-- enum reset_fsm_evt
pub data ResetEvent : Type 0 where
  reset_ack n_disconnect n_connect : ResetEvent

-- The FSM instance with its reset_ctx: the seconds after which its timer expires, if it runs, and how
-- often the callback that sends a BSSMAP RESET was called.
pub record ResetFsm : Type 0 where
  pub state : ResetState
  pub timer : Option ℕ
  pub conn_loss_counter : ℕ
  pub resets : ℕ

-- in_event_mask of reset_fsm_states[]
unfoldable pub in_event_mask : ResetState → ResetEvent → Bool
in_event_mask disc reset_ack = true
in_event_mask conn n_disconnect = true
in_event_mask conn n_connect = true
in_event_mask _ _ = false

-- A timeout of 0 stops the timer.
abbrev pub timer_of : ℕ → Option ℕ
timer_of zero = none
timer_of (suc t) = some (suc t)

-- osmo_fsm_inst_state_chg() and osmo_fsm_inst_dispatch(), as documented: the one sets the state and the
-- timer, the other calls the action of the state for an event of its mask and ignores every other.
pub record OsmoFsm : Type 0 where
  pub state_chg : ResetFsm → ResetState → ℕ → ResetFsm
  pub state_chg_lem :
      (fi : ResetFsm) (st : ResetState) (secs : ℕ)
      → state_chg fi st secs ≡ record fi { state = st; timer = timer_of secs }
  pub dispatch :
      (ResetState → ResetEvent → Bool)
      → (ResetState → ResetFsm → ResetEvent → ResetFsm)
      → ResetFsm
      → ResetEvent
      → ResetFsm
  pub dispatch_lem :
      (mask : ResetState → ResetEvent → Bool)
      (action : ResetState → ResetFsm → ResetEvent → ResetFsm) (fi : ResetFsm) (event : ResetEvent)
      → dispatch mask action fi event
        ≡ (if mask fi.state event then action fi.state fi event else fi)

module _ (osmo : OsmoFsm) where
  -- fsm_disc_cb()
  unfoldable pub fsm_disc_cb : ResetFsm → ResetEvent → ResetFsm
  fsm_disc_cb fi event = osmo.state_chg (record fi { conn_loss_counter = 0 }) conn 0

  -- fsm_conn_cb()
  unfoldable pub fsm_conn_cb : ResetFsm → ResetEvent → ResetFsm
  fsm_conn_cb fi n_disconnect =
      if leb bad_connection_thresold fi.conn_loss_counter
      then osmo.state_chg fi disc reset_resend_interval
      else record fi { conn_loss_counter = fi.conn_loss_counter + 1 }
  fsm_conn_cb fi n_connect = record fi { conn_loss_counter = 0 }
  fsm_conn_cb fi reset_ack = fi

  -- The actions of reset_fsm_states[]
  unfoldable pub state_action : ResetState → ResetFsm → ResetEvent → ResetFsm
  state_action disc fi event = fsm_disc_cb fi event
  state_action conn fi event = fsm_conn_cb fi event

  -- fsm_reset_ack_timeout_cb()
  unfoldable pub fsm_reset_ack_timeout_cb : ResetFsm → ResetFsm
  fsm_reset_ack_timeout_cb fi =
      osmo.state_chg (record fi { resets = fi.resets + 1 }) disc reset_resend_interval

  -- a_reset_alloc(), of the instance: it is allocated in its first state.
  unfoldable pub a_reset_alloc : ResetFsm
  a_reset_alloc =
      osmo.state_chg (record { state = disc; timer = none; conn_loss_counter = 0; resets = 0 }) disc
        reset_resend_interval

  -- A call for an MSC without an FSM does nothing.
  unfoldable pub dispatch_if : Option ResetFsm → ResetEvent → Option ResetFsm
  dispatch_if none event = none
  dispatch_if (some fi) event = some (osmo.dispatch in_event_mask state_action fi event)

  -- a_reset_ack_confirm(), a_reset_conn_fail() and a_reset_conn_success()
  unfoldable pub a_reset_ack_confirm : Option ResetFsm → Option ResetFsm
  a_reset_ack_confirm fsm = dispatch_if fsm reset_ack

  unfoldable pub a_reset_conn_fail : Option ResetFsm → Option ResetFsm
  a_reset_conn_fail fsm = dispatch_if fsm n_disconnect

  unfoldable pub a_reset_conn_success : Option ResetFsm → Option ResetFsm
  a_reset_conn_success fsm = dispatch_if fsm n_connect

-- a_reset_conn_ready()
unfoldable pub a_reset_conn_ready : Option ResetFsm → Bool
a_reset_conn_ready none = false
a_reset_conn_ready (some fi) = is_conn fi.state
  where
    is_conn : ResetState → Bool
    is_conn conn = true
    is_conn disc = false
