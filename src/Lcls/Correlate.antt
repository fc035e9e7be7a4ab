-- ===== src/Lcls/Correlate.antt =====
-- Which other connection is of the same call, in src/osmo-bsc/osmo_bsc_lcls.c.
use osmo_bsc.Base.{
  ℕ, Bool, true, false, not, Option, none, some, List, [], ◌∷◌, ◌==◌, if◌then◌else◌, ◌&&◌, ◌>>=◌,
  ◌>>◌, assert,
}
use osmo_bsc.Lcls.{LclsNet, LclsEvent, correlated, set_other, live, is_switched}

abbrev pub same_ref : List ℕ → List ℕ → Bool
same_ref [] [] = true
same_ref [] (d ∷ ds) = false
same_ref (c ∷ cs) [] = false
same_ref (c ∷ cs) (d ∷ ds) = c == d && same_ref cs ds

-- find_conn_with_same_gcr(), in the list of connections.
unfoldable pub find_conn_with_same_gcr : ℕ → List ℕ → LclsNet → Option ℕ
find_conn_with_same_gcr c [] net = none
find_conn_with_same_gcr c (d ∷ ds) net =
    let rest = find_conn_with_same_gcr c ds net in
    if c == d
    then rest
    else if same_ref (net.conn d).global_call_ref (net.conn c).global_call_ref
    then some d
    else rest

abbrev pub is_empty_ref : List ℕ → Bool
is_empty_ref [] = true
is_empty_ref (c ∷ cs) = false

-- The part of lcls_perform_correlation() that breaks a previous correlation.
unfoldable pub break_previous : ℕ → Option ℕ → LclsNet → Option LclsNet
break_previous c none net = some net
break_previous c (some d) net = do
  _ ← live d net
  assert (not (is_switched (net.conn d).state))
  some (set_other c none (set_other d none net))

module _ (dispatch : ℕ → LclsEvent → LclsNet → Option LclsNet) where
  -- The rest of it: whether a connection was found.
  unfoldable pub correlate_with : ℕ → Option ℕ → LclsNet → Option (Bool × LclsNet)
  correlate_with c none net = some (false, net)
  correlate_with c (some d) net = do
    net' ← dispatch d (correlated c) (set_other c (some d) net)
    some (true, net')

  unfoldable pub lcls_perform_correlation : ℕ → LclsNet → Option (Bool × LclsNet)
  lcls_perform_correlation c net = do
    assert (not (is_empty_ref (net.conn c).global_call_ref))
    assert (not (is_switched (net.conn c).state))
    net' ← break_previous c (net.conn c).other net
    correlate_with c (find_conn_with_same_gcr c net'.subscr_conns net') net'
