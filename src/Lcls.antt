-- ===== src/Lcls.antt =====
-- Local call, local switch: src/osmo-bsc/osmo_bsc_lcls.c. Two connections of one call find each other and
-- are switched to each other in the BSS; their FSMs talk to each other. OSMO_ASSERT() is a fault: `none`.
pub mod Switch
pub mod Correlate
pub mod Handlers
pub mod Active
pub mod Calls
pub mod InOrder
pub mod Updates
pub mod Answers
pub mod Actions
pub mod Events
pub mod Runs
pub mod Depth
pub mod Deaths
pub mod Pairs
mod Tests
use osmo_bsc.Base.{
  ℕ, Bool, true, false, Option, none, some, List, [], ◌∷◌, ◌==◌, if◌then◌else◌, ◌&&◌, ◌>>=◌,
}
use osmo_bsc.Chan.Types.{ChanType}
use osmo_bsc.Fsm.{OsmoFsm}

-- enum lcls_fsm_state
pub data LclsState : Type 0 where
  no_lcls not_yet_ls not_possible_ls no_longer_ls req_lcls_not_supp locally_switched : LclsState
  locally_switched_wait_break locally_switched_wait_other_break : LclsState

-- enum gsm0808_lcls_config and enum gsm0808_lcls_control, as far as the code tells their values apart.
pub data LclsConfig : Type 0 where
  cfg_both_way cfg_na : LclsConfig
  cfg_unsupported : ℕ → LclsConfig

pub data LclsControl : Type 0 where
  csc_connect csc_release_lcls csc_na : LclsControl
  csc_other : ℕ → LclsControl

-- enum bsc_lcls_mode
pub data LclsMode : Type 0 where
  mode_disabled mode_mgw_loop mode_bts_loop : LclsMode

-- enum lcls_event; a connection is given by its number.
pub data LclsEvent : Type 0 where
  update_cfg_csc : LclsConfig → LclsControl → LclsEvent
  apply_cfg_csc : LclsEvent
  correlated other_enabled other_break other_dead : ℕ → LclsEvent

-- What is sent for a connection: a notification to the MSC and the acknowledgement of LCLS CONNECT CTRL,
-- MDCX to the MGW with the RTP port of the other side or its own, and MDCX to the BTS likewise.
pub data LclsSent : Type 0 where
  notification connect_ctrl_ack : ℕ → LclsState → LclsSent
  mgw_loop : ℕ → ℕ → LclsSent
  mgw_back : ℕ → LclsSent
  bts_loop : ℕ → ℕ → LclsSent
  bts_back : ℕ → LclsSent

-- struct gsm_subscriber_connection, as far as LCLS reads it: the members of `lcls` with the state of its
-- FSM instance, type and mode of the lchan, mode and codec policy of the MSC, and the MSC side of the MGW
-- endpoint with its RTP port. A connection that is not alive has been freed.
pub record LclsConn : Type 0 where
  pub alive : Bool
  pub state : LclsState
  pub config : LclsConfig
  pub control : LclsControl
  pub global_call_ref : List ℕ
  pub other : Option ℕ
  pub lchan_type : ChanType
  pub tch_mode : ℕ
  pub lcls_mode : LclsMode
  pub codec_mismatch_allow : Bool
  pub mgw_endpoint_ci_msc : Bool
  pub rtp_info : Option ℕ

-- The connections of a network, in the order of its list.
pub record LclsNet : Type 0 where
  pub subscr_conns : List ℕ
  pub conn : ℕ → LclsConn
  pub sent : List LclsSent

-- out_state_mask of lcls_fsm_states[]
unfoldable pub lcls_out_state_mask : LclsState → LclsState → Bool
lcls_out_state_mask no_lcls no_lcls = true
lcls_out_state_mask no_lcls not_yet_ls = true
lcls_out_state_mask no_lcls not_possible_ls = true
lcls_out_state_mask not_yet_ls not_yet_ls = true
lcls_out_state_mask not_possible_ls not_yet_ls = true
lcls_out_state_mask not_possible_ls not_possible_ls = true
lcls_out_state_mask no_longer_ls no_longer_ls = true
lcls_out_state_mask req_lcls_not_supp not_yet_ls = true
lcls_out_state_mask locally_switched no_longer_ls = true
lcls_out_state_mask locally_switched not_possible_ls = true
lcls_out_state_mask locally_switched locally_switched_wait_break = true
lcls_out_state_mask locally_switched locally_switched_wait_other_break = true
lcls_out_state_mask locally_switched_wait_break no_longer_ls = true
lcls_out_state_mask locally_switched_wait_break locally_switched_wait_break = true
lcls_out_state_mask locally_switched_wait_other_break no_longer_ls = true
lcls_out_state_mask locally_switched_wait_other_break locally_switched_wait_other_break = true
lcls_out_state_mask _ req_lcls_not_supp = true
lcls_out_state_mask _ locally_switched = true
lcls_out_state_mask _ _ = false

-- in_event_mask of lcls_fsm_states[]
unfoldable pub lcls_in_event_mask : LclsState → LclsEvent → Bool
lcls_in_event_mask _ (update_cfg_csc cfg csc) = true
lcls_in_event_mask locally_switched_wait_other_break apply_cfg_csc = false
lcls_in_event_mask _ apply_cfg_csc = true
lcls_in_event_mask not_yet_ls (correlated d) = true
lcls_in_event_mask not_possible_ls (correlated d) = true
lcls_in_event_mask no_longer_ls (correlated d) = true
lcls_in_event_mask req_lcls_not_supp (correlated d) = true
lcls_in_event_mask not_yet_ls (other_enabled d) = true
lcls_in_event_mask no_longer_ls (other_enabled d) = true
lcls_in_event_mask locally_switched (other_break d) = true
lcls_in_event_mask locally_switched_wait_break (other_break d) = true
lcls_in_event_mask locally_switched_wait_other_break (other_break d) = true
lcls_in_event_mask no_lcls (other_dead d) = false
lcls_in_event_mask not_possible_ls (other_dead d) = false
lcls_in_event_mask _ (other_dead d) = true
lcls_in_event_mask _ _ = false

-- conn = q
abbrev pub set_conn : ℕ → LclsConn → LclsNet → LclsNet
set_conn c q net = record net { conn = λ j. if c == j then q else net.conn j }

abbrev pub set_other : ℕ → Option ℕ → LclsNet → LclsNet
set_other c o net = set_conn c (record (net.conn c) { other = o }) net

abbrev pub send : LclsSent → LclsNet → LclsNet
send m net = record net { sent = m ∷ net.sent }

-- A pointer to a connection is followed: that is a fault if the connection has been freed.
abbrev pub live : ℕ → LclsNet → Option LclsNet
live c net = if (net.conn c).alive then some net else none

abbrev pub lcls_state : ℕ → Option LclsNet → LclsState
lcls_state c none = no_lcls
lcls_state c (some net) = (net.conn c).state

-- Whether a pointer is set, and set to this connection.
abbrev pub is_set : Option ℕ → Bool
is_set none = false
is_set (some d) = true

abbrev pub is_conn : ℕ → Option ℕ → Bool
is_conn c none = false
is_conn c (some d) = c == d

-- The states of active local switching.
abbrev pub is_switched : LclsState → Bool
is_switched locally_switched = true
is_switched locally_switched_wait_break = true
is_switched locally_switched_wait_other_break = true
is_switched _ = false

-- lcls_get_status() is GSM0808_LCLS_STS_NA in this state only; each other status stands for its states.
abbrev pub is_na : LclsState → Bool
is_na no_lcls = true
is_na _ = false
