-- ===== src/Reset/Tests.antt =====
-- The library's functions as documented, and an FSM that is acknowledged and then loses connections.
use osmo_bsc.Base.{true, none, some, ◌≡◌, refl, if◌then◌else◌}
use osmo_bsc.Reset.{
  disc, conn, ResetFsm, OsmoFsm, timer_of, in_event_mask, fsm_disc_cb, state_action, a_reset_alloc,
  dispatch_if, a_reset_ack_confirm, a_reset_conn_ready,
}
use osmo_bsc.Reset.Reach.{IsSound, allocated, after, confirmed, Reach-IsSound}

abbrev libosmocore : OsmoFsm
libosmocore = record {
  state_chg = λ fi st secs. record fi { state = st; timer = timer_of secs };
  state_chg_lem = λ fi st secs. refl;
  dispatch = λ mask action fi e. if mask fi.state e then action fi.state fi e else fi;
  dispatch_lem = λ mask action fi e. refl;
}

abbrev started : ResetFsm
started = record { state = disc; timer = some 2; conn_loss_counter = 0; resets = 0 }

abbrev up : ResetFsm
up = record { state = conn; timer = none; conn_loss_counter = 0; resets = 0 }

started_alloc : a_reset_alloc libosmocore ≡ started
unfolding a_reset_alloc
started_alloc = refl

confirmed_up : a_reset_ack_confirm libosmocore (some (a_reset_alloc libosmocore)) ≡ some up
unfolding a_reset_ack_confirm dispatch_if in_event_mask state_action fsm_disc_cb a_reset_alloc
confirmed_up = refl

up_ready : a_reset_conn_ready (some up) ≡ true
unfolding a_reset_conn_ready
up_ready = refl

Reach-IsSound_example : IsSound up
Reach-IsSound_example = Reach-IsSound libosmocore up (
    after (a_reset_alloc libosmocore) up allocated
      (confirmed (a_reset_alloc libosmocore) up confirmed_up))
