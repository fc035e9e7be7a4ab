-- ===== src/Lcls/Pairs.antt =====
-- Two connections of a call that wait for each other, in src/osmo-bsc/osmo_bsc_lcls.c.
use osmo_bsc.Base.{
  ℕ, suc, Bool, true, false, Option, none, some, ◌==◌, if◌then◌else◌, ◌&&◌, ◌>>=◌, either, ◌≡◌,
  refl, ap, ◌∙◌, arith,
}
use osmo_bsc.Fsm.{OsmoFsm, documented, IsDocumented, by_documentation}
use osmo_bsc.Lcls.{
  LclsState, not_yet_ls, locally_switched, LclsMode, mode_disabled, mode_mgw_loop, mode_bts_loop,
  LclsConn, LclsNet, apply_cfg_csc, other_enabled, set_conn, is_set, is_conn, lcls_out_state_mask,
  lcls_in_event_mask,
}
use osmo_bsc.Base.{◌≢◌}
use osmo_bsc.Lcls.Switch.{
  lcls_send_notify, both_possible, lcls_enable_possible, check_toggle, lcls_check_toggle_allowed,
  same_lcls_mode, has_mgw_side, loop_by, lcls_locally_switched_onenter, lcls_onenter, lcls_enter,
  lcls_state_chg,
}
use osmo_bsc.Lcls.Handlers.{
  tell_other, switch_locally, switch_if, enabled_if, on_enabled, apply_not_yet, not_yet_event,
  lcls_not_yet_ls_fn,
}
use osmo_bsc.Lcls.Active.{lcls_action}
use osmo_bsc.Lcls.Calls.{dispatch_within, lcls_dispatch, lcls_apply_config}
use osmo_bsc.Lcls.Events.{dispatch-action, chg_permitted, set_conn-same, set_conn-apart}

abbrev pub set_state : LclsState → LclsConn → LclsConn
set_state st q = record q { state = st }

-- A result of which something holds, as that it has certain connections.
abbrev pub Gives : (LclsNet → Type 0) → Option LclsNet → Type 0
Gives P o = (net' : LclsNet) × ((o ≡ some net') × P net')

abbrev Becomes : (ℕ → LclsConn) → Option LclsNet → Type 0
Becomes conns o = Gives (λ net'. net'.conn ≡ conns) o

loop_by-conn :
    (c d : ℕ) (o : Option ℕ) (mode : LclsMode) (net : LclsNet)
    → (loop_by c d o mode net).conn ≡ net.conn
unfolding loop_by
loop_by-conn c d none mode net = refl
loop_by-conn c d (some r) mode_mgw_loop net = refl
loop_by-conn c d (some r) mode_bts_loop net = refl
loop_by-conn c d (some r) mode_disabled net = refl

loop_if-Becomes :
    (c d : ℕ) (net : LclsNet) (b : Bool)
    → Becomes net.conn
        (some (if b then loop_by c d (net.conn d).rtp_info (net.conn c).lcls_mode net else net))
loop_if-Becomes c d net b = (
  (if b then loop_by c d (net.conn d).rtp_info (net.conn c).lcls_mode net else net),
  (refl, either {A = LclsNet} (λ q. q.conn ≡ net.conn) b (loop_by-conn c d _ _ net) refl),
)

toggle_allowed :
    (c d : ℕ) (net : LclsNet)
    → (net.conn c).other ≡ some d
    → (net.conn d).alive ≡ true
    → lcls_check_toggle_allowed c net
      ≡ some (
          same_lcls_mode (net.conn c).lcls_mode (net.conn d).lcls_mode && has_mgw_side (net.conn c))
unfolding lcls_check_toggle_allowed check_toggle
toggle_allowed c d net o a = rw (o, ap (λ b. if b then some net else none) a) refl

onenter-Becomes :
    (c d : ℕ) (net : LclsNet)
    → (net.conn c).other ≡ some d
    → (net.conn d).alive ≡ true
    → Becomes net.conn (lcls_onenter c locally_switched net)
unfolding lcls_onenter lcls_locally_switched_onenter
onenter-Becomes c d net o a = rw (o, toggle_allowed c d net o a) (loop_if-Becomes c d net _)

-- The change to LOCALLY_SWITCHED of a connection whose other one is alive.
switch-Becomes :
    (c d : ℕ) (net : LclsNet) (st : LclsState)
    → (c == d) ≡ false
    → (net.conn c).state ≡ st
    → lcls_out_state_mask st locally_switched ≡ true
    → (net.conn c).other ≡ some d
    → (net.conn d).alive ≡ true
    → Becomes
        (set_conn c (set_state locally_switched (net.conn c)) net).conn
        (lcls_state_chg documented c locally_switched net)
unfolding lcls_enter
switch-Becomes c d net st ne s t o a = rw (chg_permitted c st locally_switched net s t) (
    onenter-Becomes c d (set_conn c (set_state locally_switched (net.conn c)) net)
      (ap (λ (q : LclsConn). q.other) (set_conn-same c _ net) ∙ o)
      (ap (λ (q : LclsConn). q.alive) (set_conn-apart c d _ net ne) ∙ a))

possible_lem :
    (c d : ℕ) (net : LclsNet)
    → (net.conn c).other ≡ some d
    → (net.conn d).alive ≡ true
    → lcls_enable_possible c net ≡ some (both_possible (net.conn c) (net.conn d))
unfolding lcls_enable_possible
possible_lem c d net o a = rw (o, ap (λ b. if b then some net else none) a) refl

bind-Gives :
    (P Q : LclsNet → Type 0) (o : Option LclsNet) (f : LclsNet → Option LclsNet)
    → Gives P o
    → ((net : LclsNet) → P net → Gives Q (f net))
    → Gives Q (o >>= f)
bind-Gives P Q o f (net, (e, k)) h = rw e (h net k)

-- Two live connections in NOT_YET_LS that are each other's other, and that may be switched.
pub record IsReady (c d : ℕ) (net : LclsNet) : Type 0 where
  pub is_alive : (net.conn c).alive ≡ true
  pub waits : (net.conn c).state ≡ not_yet_ls
  pub points : (net.conn c).other ≡ some d
  pub possible : both_possible (net.conn c) (net.conn d) ≡ true

-- The one that is told.
points-back :
    (c d : ℕ) (net : LclsNet) → (net.conn d).other ≡ some c → is_conn c (net.conn d).other ≡ true
points-back c d net o = let self : (c == c) ≡ true = ground arith in ap (is_conn c) o ∙ self

notify-Becomes :
    (d : ℕ) (conns : ℕ → LclsConn) (net : LclsNet)
    → net.conn ≡ conns
    → Becomes conns (some (lcls_send_notify d net))
unfolding lcls_send_notify
notify-Becomes d conns net k =
    (lcls_send_notify d net, (refl, either {A = LclsNet} (λ q. q.conn ≡ conns) _ k k))

enabled-Becomes :
    (depth c d : ℕ) (net : LclsNet)
    → (d == c) ≡ false
    → IsReady d c net
    → (net.conn c).alive ≡ true
    → Becomes
        (set_conn d (set_state locally_switched (net.conn d)) net).conn
        (dispatch_within documented (suc depth) d (other_enabled c) net)
unfolding lcls_action lcls_not_yet_ls_fn not_yet_event on_enabled enabled_if lcls_in_event_mask
    lcls_out_state_mask
enabled-Becomes depth c d net ne r a =
    rw
      (
        dispatch-action depth d (other_enabled c) net not_yet_ls r.is_alive r.waits refl,
        ap is_set r.points,
        points-back c d net r.points,
        possible_lem d c net r.points a,
        r.possible,
      )
      (bind-Gives
        (λ net'. net'.conn ≡ (set_conn d (set_state locally_switched (net.conn d)) net).conn)
        (λ net'. net'.conn ≡ (set_conn d (set_state locally_switched (net.conn d)) net).conn)
        (lcls_state_chg documented d locally_switched net) (λ net'. some (lcls_send_notify d net'))
        (switch-Becomes d c net not_yet_ls ne r.waits refl r.points a) (notify-Becomes d _))

-- The one that applies its configuration.
both_possible-set_state :
    (st : LclsState) (q r : LclsConn) → both_possible q (set_state st r) ≡ both_possible q r
unfolding both_possible
both_possible-set_state st q r = refl

-- The connections, once one of them has switched.
told-IsReady :
    (c d : ℕ) (net net' : LclsNet)
    → (c == d) ≡ false
    → IsReady d c net
    → net'.conn ≡ (set_conn c (set_state locally_switched (net.conn c)) net).conn
    → IsReady d c net'
told-IsReady c d net net' ne r k =
    let at_d : net'.conn d ≡ net.conn d = ap (λ f. f d) k ∙ set_conn-apart c d _ net ne in
    let at_c : net'.conn c ≡ set_state locally_switched (net.conn c) =
      ap (λ f. f c) k ∙ set_conn-same c _ net in
    record {
      is_alive = ap (λ (q : LclsConn). q.alive) at_d ∙ r.is_alive;
      waits = ap (λ (q : LclsConn). q.state) at_d ∙ r.waits;
      points = ap (λ (q : LclsConn). q.other) at_d ∙ r.points;
      possible =
          ap (λ q. both_possible q (net'.conn c)) at_d
          ∙ ap (both_possible (net.conn d)) at_c
          ∙ both_possible-set_state locally_switched (net.conn d) (net.conn c)
          ∙ r.possible;
    }

abbrev pub AreSwitched : ℕ → ℕ → LclsNet → Type 0
AreSwitched c d net =
    ((net.conn c).state ≡ locally_switched) × ((net.conn d).state ≡ locally_switched)

tell-AreSwitched :
    (c d : ℕ) (net net' : LclsNet)
    → (c == d) ≡ false
    → (d == c) ≡ false
    → IsReady c d net
    → IsReady d c net
    → net'.conn ≡ (set_conn c (set_state locally_switched (net.conn c)) net).conn
    → Gives
        (AreSwitched c d)
        (tell_other documented (dispatch_within documented 2) c (other_enabled c) net')
unfolding tell_other
tell-AreSwitched c d net net' ne ne' r r' k =
    let at_c : net'.conn c ≡ set_state locally_switched (net.conn c) =
      ap (λ f. f c) k ∙ set_conn-same c _ net in
    let told =
      enabled-Becomes 1 c d net' ne' (told-IsReady c d net net' ne r' k)
        (ap (λ (q : LclsConn). q.alive) at_c ∙ r.is_alive) in
    rw (ap (λ (q : LclsConn). q.other) at_c ∙ r.points) (
      told.0,
      (
        told.1.0,
        (
          ap (λ f. (f c).state) told.1.1
              ∙ ap (λ (q : LclsConn). q.state) (set_conn-apart d c _ net' ne' ∙ at_c),
          ap (λ f. (f d).state) told.1.1 ∙ ap (λ (q : LclsConn). q.state) (set_conn-same d _ net'),
        ),
      ),
    )

apply-AreSwitched :
    (c d : ℕ) (net : LclsNet)
    → (c == d) ≡ false
    → (d == c) ≡ false
    → IsReady c d net
    → IsReady d c net
    → Gives (AreSwitched c d) (lcls_apply_config documented c net)
unfolding lcls_apply_config lcls_dispatch lcls_action lcls_not_yet_ls_fn not_yet_event apply_not_yet
    switch_if switch_locally lcls_in_event_mask lcls_out_state_mask
apply-AreSwitched c d net ne ne' r r' =
    rw
      (
        dispatch-action 2 c apply_cfg_csc net not_yet_ls r.is_alive r.waits refl,
        ap is_set r.points,
        possible_lem c d net r.points r'.is_alive,
        r.possible,
      )
      (bind-Gives
        (λ net'. net'.conn ≡ (set_conn c (set_state locally_switched (net.conn c)) net).conn)
        (AreSwitched c d) (lcls_state_chg documented c locally_switched net)
        (tell_other documented (dispatch_within documented 2) c (other_enabled c))
        (switch-Becomes c d net not_yet_ls ne r.waits refl r.points r'.is_alive)
        (λ net'. tell-AreSwitched c d net net' ne ne' r r'))

-- With the FSM library's functions as documented: let two different live connections be in NOT_YET_LS and each
-- other's other, with local switching possible for each of them. When one applies its configuration,
-- nothing aborts, and both are then in LOCALLY_SWITCHED.
pub both_switched :
    (osmo : OsmoFsm)
    → IsDocumented osmo
    → (c d : ℕ) (net : LclsNet) → c ≢ d
    → IsReady c d net
    → IsReady d c net
    → Gives (AreSwitched c d) (lcls_apply_config osmo c net)
both_switched osmo doc c d net ne r r' =
    let apart : (c == d) ≡ false = ground arith in
    let apart' : (d == c) ≡ false = ground arith in
    by_documentation (λ o. Gives (AreSwitched c d) (lcls_apply_config o c net)) osmo doc
      (apply-AreSwitched c d net apart apart' r r')
