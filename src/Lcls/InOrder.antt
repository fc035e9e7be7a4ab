-- ===== src/Lcls/InOrder.antt =====
-- What every connection of src/osmo-bsc/osmo_bsc_lcls.c that is switched locally has, and that changes of one
-- connection keep it.
use osmo_bsc.Base.{
  ℕ, Bool, true, false, Option, none, some, ◌==◌, if◌then◌else◌, ◌&&◌, ◌>>=◌, either, Returns,
  each-Returns, ◌≡◌, ◌⊎◌, inl, inr, refl, ap, ◌∙◌, arith, Bool-cases,
}
use osmo_bsc.Fsm.{documented}
use osmo_bsc.Lcls.{
  LclsState, no_lcls, not_yet_ls, not_possible_ls, no_longer_ls, req_lcls_not_supp,
  locally_switched, locally_switched_wait_break, locally_switched_wait_other_break, LclsMode,
  mode_disabled, mode_mgw_loop, mode_bts_loop, LclsConn, LclsNet, LclsSent, set_conn, set_other,
  send, is_set, is_switched, lcls_out_state_mask,
}
use osmo_bsc.Lcls.Switch.{
  lcls_send_notify, lcls_is_supported_config, lcls_check_toggle_allowed, break_by,
  lcls_break_local_switching, loop_by, lcls_locally_switched_onenter, lcls_onenter, lcls_enter,
  lcls_state_chg,
}
use Prim.{tt}

-- A live connection that is switched locally has the one configuration that is supported, and another
-- connection, unless that has told it to break.
abbrev pub ConnInOrder : LclsConn → Type 0
ConnInOrder q =
    (q.alive ≡ false)
    ⊎ ((is_switched q.state ≡ false)
        ⊎ ((lcls_is_supported_config q.config ≡ true)
            × ((is_set q.other ≡ true) ⊎ (q.state ≡ locally_switched_wait_break))))

pub record InOrder (net : LclsNet) : Type 0 where
  pub each : (j : ℕ) → ConnInOrder (net.conn j)

pub set_conn-InOrder :
    (c : ℕ) (q : LclsConn) (net : LclsNet)
    → InOrder net
    → ConnInOrder q
    → InOrder (set_conn c q net)
set_conn-InOrder c q net h k = record { each = λ j. either ConnInOrder (c == j) k (h.each j) }

-- The connection may be out of order for a moment.
pub set_again-InOrder :
    (c : ℕ) (q q' : LclsConn) (net : LclsNet)
    → InOrder net
    → ConnInOrder q'
    → InOrder (set_conn c q' (set_conn c q net))
set_again-InOrder c q q' net h k = record {
  each = λ j. elim (Bool-cases (c == j)) [ inl e ↦ rw e k | inr e ↦ rw e (h.each j) ];
}

pub send-InOrder : (m : LclsSent) (net : LclsNet) → InOrder net → InOrder (send m net)
send-InOrder m net h = record { each = h.each }

pub notify-InOrder : (c : ℕ) (net : LclsNet) → InOrder net → InOrder (lcls_send_notify c net)
unfolding lcls_send_notify
notify-InOrder c net h = either InOrder _ h (send-InOrder _ net h)

pub some_other-InOrder :
    (c d : ℕ) (net : LclsNet) → InOrder net → InOrder (set_other c (some d) net)
some_other-InOrder c d net h = set_conn-InOrder c _ net h (keeps (h.each c))
  where
    keeps : ConnInOrder (net.conn c) → ConnInOrder (record (net.conn c) { other = some d })
    keeps (inl a) = inl a
    keeps (inr (inl n)) = inr (inl n)
    keeps (inr (inr (s, o))) = inr (inr (s, inl refl))

pub no_other-InOrder :
    (c : ℕ) (net : LclsNet)
    → (is_switched (net.conn c).state ≡ false) ⊎ ((net.conn c).state ≡ locally_switched_wait_break)
    → InOrder net
    → InOrder (set_other c none net)
no_other-InOrder c net (inl n) h = set_conn-InOrder c _ net h (inr (inl n))
no_other-InOrder c net (inr b) h = set_conn-InOrder c _ net h (keeps (h.each c))
  where
    keeps : ConnInOrder (net.conn c) → ConnInOrder (record (net.conn c) { other = none })
    keeps (inl a) = inl a
    keeps (inr (inl n)) = inr (inl n)
    keeps (inr (inr (s, o))) = inr (inr (s, inr b))

-- What is sent on the way does not matter.
break_by-InOrder :
    (c : ℕ) (mode : LclsMode) (net : LclsNet) → InOrder net → InOrder (break_by c mode net)
unfolding break_by
break_by-InOrder c mode_mgw_loop net h = send-InOrder _ net h
break_by-InOrder c mode_bts_loop net h = either InOrder _ (send-InOrder _ net h) h
break_by-InOrder c mode_disabled net h = h

pub break-InOrder :
    (c : ℕ) (net : LclsNet) → InOrder net → Returns InOrder (lcls_break_local_switching c net)
unfolding lcls_break_local_switching
break-InOrder c net h =
    each-Returns InOrder (lcls_check_toggle_allowed c net)
      (λ allowed. some (if allowed then break_by c (net.conn c).lcls_mode net else net))
      (λ allowed. either InOrder allowed (break_by-InOrder c (net.conn c).lcls_mode net h) h)

loop_by-InOrder :
    (c d : ℕ) (o : Option ℕ) (mode : LclsMode) (net : LclsNet)
    → InOrder net
    → InOrder (loop_by c d o mode net)
unfolding loop_by
loop_by-InOrder c d none mode net h = h
loop_by-InOrder c d (some r) mode_mgw_loop net h = send-InOrder _ net h
loop_by-InOrder c d (some r) mode_bts_loop net h = send-InOrder _ net h
loop_by-InOrder c d (some r) mode_disabled net h = h

loop_if-InOrder :
    (c d : ℕ) (net : LclsNet)
    → InOrder net
    → (allowed : Bool)
    → InOrder (
        if allowed && (net.conn d).mgw_endpoint_ci_msc
        then loop_by c d (net.conn d).rtp_info (net.conn c).lcls_mode net
        else net)
loop_if-InOrder c d net h allowed =
    either InOrder (allowed && (net.conn d).mgw_endpoint_ci_msc)
      (loop_by-InOrder c d (net.conn d).rtp_info (net.conn c).lcls_mode net h) h

loop_to-InOrder :
    (c : ℕ) (net : LclsNet)
    → InOrder net
    → (o : Option ℕ) (m : Option Bool)
    → Returns InOrder (
        o >>= λ d. m >>= λ allowed. some (
          if allowed && (net.conn d).mgw_endpoint_ci_msc
          then loop_by c d (net.conn d).rtp_info (net.conn c).lcls_mode net
          else net))
loop_to-InOrder c net h none m = tt
loop_to-InOrder c net h (some d) none = tt
loop_to-InOrder c net h (some d) (some allowed) = loop_if-InOrder c d net h allowed

onenter-InOrder :
    (c : ℕ) (st : LclsState) (net : LclsNet) → InOrder net → Returns InOrder (lcls_onenter c st net)
unfolding lcls_onenter lcls_locally_switched_onenter
onenter-InOrder c locally_switched net h =
    loop_to-InOrder c net h (net.conn c).other (lcls_check_toggle_allowed c net)
onenter-InOrder c no_lcls net h = h
onenter-InOrder c not_yet_ls net h = h
onenter-InOrder c not_possible_ls net h = h
onenter-InOrder c no_longer_ls net h = h
onenter-InOrder c req_lcls_not_supp net h = h
onenter-InOrder c locally_switched_wait_break net h = h
onenter-InOrder c locally_switched_wait_other_break net h = h

-- A change of state, if the connection is in order in the new one.
pub chg-InOrder :
    (c : ℕ) (st : LclsState) (net : LclsNet)
    → ConnInOrder (record (net.conn c) { state = st })
    → InOrder net
    → Returns InOrder (lcls_state_chg documented c st net)
unfolding lcls_state_chg lcls_enter
chg-InOrder c st net k h =
    either (Returns InOrder) (lcls_out_state_mask (net.conn c).state st)
      (onenter-InOrder c st _ (set_conn-InOrder c _ net h k)) h

pub other-state :
    (c : ℕ) (o : Option ℕ) (net : LclsNet) → ((set_other c o net).conn c).state ≡ (net.conn c).state
other-state c o net = either {A = LclsConn} (λ q. q.state ≡ (net.conn c).state) (c == c) refl refl

leave-InOrder :
    (c : ℕ) (net : LclsNet)
    → InOrder net
    → (permitted : Bool) → permitted ≡ true
    → Returns InOrder (
        if permitted
        then lcls_enter c not_possible_ls (set_other c none net)
        else some (set_other c none net))
unfolding lcls_enter lcls_onenter
leave-InOrder c net h false e = absurd (ground arith)
leave-InOrder c net h true e = set_again-InOrder c _ _ net h (inr (inl refl))

-- A connection that loses the other one, and then leaves the state if it is switched.
pub lose_other-InOrder :
    (c : ℕ) (net : LclsNet)
    → (is_switched (net.conn c).state ≡ false) ⊎ ((net.conn c).state ≡ locally_switched)
    → InOrder net
    → Returns InOrder (lcls_state_chg documented c not_possible_ls (set_other c none net))
unfolding lcls_state_chg lcls_out_state_mask
lose_other-InOrder c net (inl n) h =
    chg-InOrder c not_possible_ls _ (inr (inl refl)) (no_other-InOrder c net (inl n) h)
lose_other-InOrder c net (inr s) h =
    leave-InOrder c net h _
      (ap (λ st. lcls_out_state_mask st not_possible_ls) (other-state c none net ∙ s))
