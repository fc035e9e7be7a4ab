-- ===== src/Lcls/Deaths.antt =====
-- What the end of a connection leaves the other one in, in src/osmo-bsc/osmo_bsc_lcls.c.
use osmo_bsc.Base.{
  ℕ, Bool, true, false, Option, none, some, ◌==◌, if◌then◌else◌, ◌>>◌, assert, either, ◌≡◌, refl,
  ap, ◌∙◌, arith,
}
use osmo_bsc.Fsm.{OsmoFsm, documented, IsDocumented, by_documentation}
use osmo_bsc.Lcls.{
  LclsState, no_lcls, not_yet_ls, not_possible_ls, no_longer_ls, req_lcls_not_supp,
  locally_switched, locally_switched_wait_break, locally_switched_wait_other_break, LclsConfig,
  LclsControl, LclsConn, LclsNet, LclsEvent, update_cfg_csc, apply_cfg_csc, other_dead, set_conn,
  set_other, is_set, is_conn, lcls_out_state_mask, lcls_in_event_mask,
}
use osmo_bsc.Base.{◌≢◌}
use osmo_bsc.Lcls.Switch.{lcls_send_notify}
use osmo_bsc.Lcls.Correlate.{is_empty_ref}
use osmo_bsc.Lcls.Handlers.{
  has_other, on_dead, lcls_not_yet_ls_fn, not_yet_event, lcls_no_longer_ls_fn, no_longer_event,
  forget_dead,
}
use osmo_bsc.Lcls.Active.{lcls_action, lcls_locally_switched_wait_break_fn, wait_break_event}
use osmo_bsc.Lcls.Calls.{
  without, dispatch_within, lcls_dispatch, lcls_update_config, lcls_apply_config, update_apply_ack,
  bssmap_handle_lcls_connect_ctrl, lcls_fsm_cleanup, terminate,
}
use osmo_bsc.Lcls.Events.{dispatch-action, chg_refused, set_conn-same}

-- The states that assert another connection and that its end does not leave.
abbrev pub is_left : LclsState → Bool
is_left not_yet_ls = true
is_left no_longer_ls = true
is_left locally_switched_wait_break = true
is_left _ = false

-- The connection alone, as the end of the other one leaves it.
Alone : ℕ → LclsNet → Option LclsNet → Type 0
Alone c net o = (net' : LclsNet) × ((o ≡ some net') × (net'.conn ≡ (set_other c none net).conn))

notify-Alone :
    (c : ℕ) (net : LclsNet) → Alone c net (some (lcls_send_notify c (set_other c none net)))
unfolding lcls_send_notify Alone
notify-Alone c net = (
  lcls_send_notify c (set_other c none net),
  (refl, either {A = LclsNet} (λ q. q.conn ≡ (set_other c none net).conn) _ refl refl),
)

module _ (dispatch : ℕ → LclsEvent → LclsNet → Option LclsNet) (c d : ℕ) (net : LclsNet)
    (o : (net.conn c).other ≡ some d) where
  points : is_conn d (net.conn c).other ≡ true
  points = let self : (d == d) ≡ true = ground arith in ap (is_conn d) o ∙ self

  dead-Alone :
      (st : LclsState)
      → (net.conn c).state ≡ st
      → lcls_out_state_mask st not_possible_ls ≡ false
      → Alone c net (on_dead documented dispatch c d net)
  unfolding on_dead
  dead-Alone st s refused =
      let at : ((set_other c none net).conn c).state ≡ st =
        ap (λ (q : LclsConn). q.state) (set_conn-same c _ net) ∙ s in
      rw (points, chg_refused c st not_possible_ls (set_other c none net) at refused)
        (notify-Alone c net)

  action-Alone :
      (st : LclsState)
      → (net.conn c).state ≡ st
      → is_left st ≡ true
      → Alone c net (lcls_action documented dispatch c st (other_dead d) net)
  unfolding lcls_action lcls_not_yet_ls_fn not_yet_event lcls_no_longer_ls_fn no_longer_event
      lcls_out_state_mask lcls_locally_switched_wait_break_fn wait_break_event forget_dead Alone
  action-Alone not_yet_ls s l = rw (ap is_set o) (dead-Alone not_yet_ls s refl)
  action-Alone no_longer_ls s l = rw (ap is_set o) (dead-Alone no_longer_ls s refl)
  action-Alone locally_switched_wait_break s l =
      rw (ap is_set o, points) (set_other c none net, (refl, refl))
  action-Alone no_lcls s l = absurd (ground arith)
  action-Alone not_possible_ls s l = absurd (ground arith)
  action-Alone req_lcls_not_supp s l = absurd (ground arith)
  action-Alone locally_switched s l = absurd (ground arith)
  action-Alone locally_switched_wait_other_break s l = absurd (ground arith)

-- A connection in such a state without another one aborts.
alone_aborts :
    (c : ℕ) (ev : LclsEvent) (net : LclsNet) (st : LclsState)
    → (net.conn c).alive ≡ true
    → (net.conn c).state ≡ st
    → (net.conn c).other ≡ none
    → is_left st ≡ true
    → lcls_in_event_mask st ev ≡ true
    → lcls_dispatch documented c ev net ≡ none
unfolding lcls_dispatch lcls_action lcls_not_yet_ls_fn lcls_no_longer_ls_fn
    lcls_locally_switched_wait_break_fn
alone_aborts c ev net st a s o l t = dispatch-action 2 c ev net st a s t ∙ aborts st l
  where
    aborts :
        (st : LclsState)
        → is_left st ≡ true
        → lcls_action documented (dispatch_within documented 2) c st ev net ≡ none
    aborts not_yet_ls l = rw (ap is_set o) refl
    aborts no_longer_ls l = rw (ap is_set o) refl
    aborts locally_switched_wait_break l = rw (ap is_set o) refl
    aborts no_lcls l = absurd (ground arith)
    aborts not_possible_ls l = absurd (ground arith)
    aborts req_lcls_not_supp l = absurd (ground arith)
    aborts locally_switched l = absurd (ground arith)
    aborts locally_switched_wait_other_break l = absurd (ground arith)

takes_calls : (st : LclsState) → is_left st ≡ true → lcls_in_event_mask st apply_cfg_csc ≡ true
unfolding lcls_in_event_mask
takes_calls not_yet_ls l = refl
takes_calls no_longer_ls l = refl
takes_calls locally_switched_wait_break l = refl
takes_calls no_lcls l = refl
takes_calls not_possible_ls l = refl
takes_calls req_lcls_not_supp l = refl
takes_calls locally_switched l = refl
takes_calls locally_switched_wait_other_break l = absurd (ground arith)

takes_updates :
    (st : LclsState) (cfg : LclsConfig) (csc : LclsControl)
    → lcls_in_event_mask st (update_cfg_csc cfg csc) ≡ true
unfolding lcls_in_event_mask
takes_updates no_lcls cfg csc = refl
takes_updates not_yet_ls cfg csc = refl
takes_updates not_possible_ls cfg csc = refl
takes_updates no_longer_ls cfg csc = refl
takes_updates req_lcls_not_supp cfg csc = refl
takes_updates locally_switched cfg csc = refl
takes_updates locally_switched_wait_break cfg csc = refl
takes_updates locally_switched_wait_other_break cfg csc = refl

takes_deaths :
    (st : LclsState) (d : ℕ) → is_left st ≡ true → lcls_in_event_mask st (other_dead d) ≡ true
unfolding lcls_in_event_mask
takes_deaths not_yet_ls d l = refl
takes_deaths no_longer_ls d l = refl
takes_deaths locally_switched_wait_break d l = refl
takes_deaths no_lcls d l = absurd (ground arith)
takes_deaths not_possible_ls d l = absurd (ground arith)
takes_deaths req_lcls_not_supp d l = refl
takes_deaths locally_switched d l = refl
takes_deaths locally_switched_wait_other_break d l = refl

-- What ends is the other connection.
ended : ℕ → LclsNet → LclsNet
ended d net = record (set_conn d (record (net.conn d) { alive = false }) net) {
  subscr_conns = without d net.subscr_conns;
}

ended-same :
    (c d : ℕ) (net : LclsNet)
    → (d == c) ≡ false
    → (ended d (set_other d none net)).conn c ≡ net.conn c
unfolding ended
ended-same c d net ne = rw ne refl

terminate-ended :
    (c d : ℕ) (net net' : LclsNet)
    → (net.conn c).alive ≡ true
    → (net.conn d).other ≡ some c
    → lcls_dispatch documented c (other_dead d) net ≡ some net'
    → terminate documented d net ≡ some (ended d (set_other d none net'))
unfolding terminate lcls_fsm_cleanup ended
terminate-ended c d net net' a o e = rw (o, ap (λ b. if b then some net else none) a, e) refl

left-alone :
    (c d : ℕ) (net net1 : LclsNet)
    → (d == c) ≡ false
    → net1.conn ≡ (set_other c none net).conn
    → (ended d (set_other d none net1)).conn c ≡ record (net.conn c) { other = none }
left-alone c d net net1 apart e =
    ended-same c d net1 apart
    ∙ ap (λ f. f c) e
    ∙ set_conn-same c (record (net.conn c) { other = none }) net

-- The end of `d` leaves `c` in a state without another connection, and then these calls abort.
abbrev pub LeavesBehind :
    OsmoFsm → ℕ → ℕ → LclsNet → LclsState → LclsConfig → Option LclsControl → Type 0
LeavesBehind osmo c d net st cfg control =
    (net' : LclsNet) × ((terminate osmo d net ≡ some net')
      × (((net'.conn c).state ≡ st)
          × (((net'.conn c).other ≡ none)
              × ((lcls_apply_config osmo c net' ≡ none)
                  × (lcls_update_config osmo c (some cfg) control net' ≡ none)))))

behind :
    (c d : ℕ) (net net1 : LclsNet) (st : LclsState) (cfg : LclsConfig)
    (control : Option LclsControl)
    → (d == c) ≡ false
    → (net.conn c).alive ≡ true
    → (net.conn c).state ≡ st
    → is_left st ≡ true
    → (net.conn d).other ≡ some c
    → lcls_dispatch documented c (other_dead d) net ≡ some net1
    → net1.conn ≡ (set_other c none net).conn
    → LeavesBehind documented c d net st cfg control
unfolding lcls_apply_config lcls_update_config
behind c d net net1 st cfg control apart a s l o' e k =
    let net' = ended d (set_other d none net1) in
    let alone = left-alone c d net net1 apart k in
    let a' : (net'.conn c).alive ≡ true = ap (λ (q : LclsConn). q.alive) alone ∙ a in
    let s' : (net'.conn c).state ≡ st = ap (λ (q : LclsConn). q.state) alone ∙ s in
    let o : (net'.conn c).other ≡ none = ap (λ (q : LclsConn). q.other) alone in
    (
      net',
      (
        terminate-ended c d net net1 a o' e,
        (
          s',
          (
            o,
            (
              alone_aborts c apply_cfg_csc net' st a' s' o l (takes_calls st l),
              alone_aborts c _ net' st a' s' o l (takes_updates st _ _),
            ),
          ),
        ),
      ),
    )

-- With the FSM library's functions as documented: let two different connections be each other's other, one of
-- them alive and in NOT_YET_LS, NO_LONGER_LS or LOCALLY_SWITCHED_WAIT_BREAK. The end of the other one then
-- does not abort and leaves it in that state without another connection, where applying the configuration
-- and updating it, to any values, abort.
pub left_behind :
    (osmo : OsmoFsm)
    → IsDocumented osmo
    → (c d : ℕ) (net : LclsNet) (st : LclsState) (cfg : LclsConfig) (control : Option LclsControl)
    → d ≢ c
    → (net.conn c).alive ≡ true
    → (net.conn c).state ≡ st
    → is_left st ≡ true
    → (net.conn c).other ≡ some d
    → (net.conn d).other ≡ some c
    → LeavesBehind osmo c d net st cfg control
unfolding lcls_dispatch Alone
left_behind osmo doc c d net st cfg control ne a s l o o' =
    let apart : (d == c) ≡ false = ground arith in
    let act = action-Alone (dispatch_within documented 2) c d net o st s l in
    by_documentation (λ osmo'. LeavesBehind osmo' c d net st cfg control) osmo doc
      (behind c d net act.0 st cfg control apart a s l o'
        (dispatch-action 2 c (other_dead d) net st a s (takes_deaths st d l) ∙ act.1.0) act.1.1)

assert-none : (b : Bool) (o : Option LclsNet) → o ≡ none → (assert b >> o) ≡ none
assert-none false o e = refl
assert-none true o e = e

-- NO_LONGER_LS has no case for the event.
apply_no_longer :
    (c : ℕ) (net : LclsNet)
    → (net.conn c).alive ≡ true
    → (net.conn c).state ≡ no_longer_ls
    → lcls_apply_config documented c net ≡ none
unfolding lcls_apply_config lcls_dispatch lcls_action lcls_no_longer_ls_fn no_longer_event
apply_no_longer c net a s =
    dispatch-action 2 c apply_cfg_csc net no_longer_ls a s (takes_calls no_longer_ls refl)
    ∙ assert-none (has_other c net) none refl

handler_aborts :
    (c : ℕ) (config : Option LclsConfig) (control : Option LclsControl) (net net' : LclsNet)
    → is_empty_ref (net.conn c).global_call_ref ≡ false
    → lcls_apply_config documented c net' ≡ none
    → lcls_update_config documented c config control net ≡ some net'
    → bssmap_handle_lcls_connect_ctrl documented c config control net ≡ none
unfolding bssmap_handle_lcls_connect_ctrl update_apply_ack
handler_aborts c config control net net' g n e = rw (g, e, n) refl

-- With the FSM library's functions as documented: LCLS CONNECT CTRL for a connection that has a call reference
-- aborts if the update of its configuration leaves the connection alive in NO_LONGER_LS.
pub no_longer_aborts :
    (osmo : OsmoFsm)
    → IsDocumented osmo
    → (c : ℕ) (config : Option LclsConfig) (control : Option LclsControl) (net net' : LclsNet)
    → is_empty_ref (net.conn c).global_call_ref ≡ false
    → lcls_update_config osmo c config control net ≡ some net'
    → (net'.conn c).alive ≡ true
    → (net'.conn c).state ≡ no_longer_ls
    → bssmap_handle_lcls_connect_ctrl osmo c config control net ≡ none
no_longer_aborts osmo doc c config control net net' g u a s =
    by_documentation
      (λ o.
        lcls_update_config o c config control net ≡ some net'
        → bssmap_handle_lcls_connect_ctrl o c config control net ≡ none)
      osmo doc (handler_aborts c config control net net' g (apply_no_longer c net' a s)) u
