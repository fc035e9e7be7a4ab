-- ===== src/Neighbor/Tests.antt =====
-- A list with an exact entry and wildcard entries on both sides of it.
use Prim.{tt}
use osmo_bsc.Base.{
  ℕ, Bool, true, false, none, some, List, [], ◌∷◌, ◌++◌, ◌≡◌, ◌≢◌, refl, length, leb, or_else,
}
use osmo_bsc.Base.Int.{pos}
use osmo_bsc.Neighbor.{
  Key, Entry, any_bts, bsic_any, neighbor_ident_key_match, neighbor_ident_key_valid,
  neighbor_ident_find, value_at, neighbor_ident_get, neighbor_ident_del, neighbor_ident_add,
  get_loop, id_list_len,
}
use osmo_bsc.Neighbor.Lookup.{exact, exact_at, last_at, get_two_pass}
use osmo_bsc.Neighbor.Edit.{IsTable, merged, add_lookup, del_lookup, get-add}

-- Identifier lists of up to 127 numbers.
abbrev list_add : List ℕ → List ℕ → List ℕ × Bool
list_add v w = if_fits (leb (length (v ++ w)) 127) v w
  where
    if_fits : Bool → List ℕ → List ℕ → List ℕ × Bool
    if_fits true v w = (v ++ w, true)
    if_fits false v w = (v, false)

abbrev bts0 : Key
bts0 = record { from_bts = pos 0; arfcn = 871; bsic = 12 }

abbrev bts3 : Key
bts3 = record { from_bts = pos 3; arfcn = 871; bsic = 12 }

abbrev anywhere : Key
anywhere = record { from_bts = any_bts; arfcn = 871; bsic = bsic_any }

abbrev cells : List ℕ
cells = 17 ∷ []

abbrev more : List ℕ
more = 99 ∷ []

abbrev both : List ℕ
both = 17 ∷ 99 ∷ []

abbrev table : List (Entry (List ℕ))
table = record { key = bts0; val = cells } ∷ record { key = anywhere; val = more } ∷ []

abbrev extended : List (Entry (List ℕ))
extended = record { key = bts0; val = both } ∷ record { key = anywhere; val = more } ∷ []

wildcard_found : neighbor_ident_get (some table) bts3 ≡ some more
unfolding neighbor_ident_get neighbor_ident_find get_loop neighbor_ident_key_match
wildcard_found = refl

exact_found : neighbor_ident_get (some table) bts0 ≡ some cells
unfolding neighbor_ident_get neighbor_ident_find get_loop neighbor_ident_key_match
exact_found = refl

added_twice : neighbor_ident_add list_add length table bts0 more ≡ (extended, id_list_len 2)
unfolding neighbor_ident_add neighbor_ident_find get_loop neighbor_ident_key_match
    neighbor_ident_key_valid
added_twice = refl

table-IsTable : IsTable table
unfolding neighbor_ident_key_match neighbor_ident_key_valid
table-IsTable = (refl, refl, (refl, refl, tt))

bts3_valid : neighbor_ident_key_valid bts3 ≡ true
unfolding neighbor_ident_key_valid
bts3_valid = refl

bts0_found : exact bts0 table ≡ some cells
unfolding neighbor_ident_key_match
bts0_found = refl

get_two_pass_example :
    neighbor_ident_get (some table) bts3
    ≡ value_at table (or_else (exact_at bts3 table 0) (last_at bts3 table 0))
get_two_pass_example = get_two_pass bts3 table

add_lookup_example :
    IsTable (neighbor_ident_add list_add length table bts3 more).0
    × (exact bts3 (neighbor_ident_add list_add length table bts3 more).0
        ≡ some (merged list_add length bts3 more (exact bts3 table)))
    × ((k : Key)
        → k ≢ bts3
        → exact k (neighbor_ident_add list_add length table bts3 more).0 ≡ exact k table)
add_lookup_example = add_lookup list_add length bts3 more table table-IsTable bts3_valid

get-add_example :
    neighbor_ident_get (some (neighbor_ident_add list_add length table bts3 more).0) bts3
    ≡ some (merged list_add length bts3 more (exact bts3 table))
get-add_example = get-add list_add length table bts3 more table-IsTable bts3_valid

del_lookup_example :
    IsTable (neighbor_ident_del table bts0).1
    × (exact bts0 (neighbor_ident_del table bts0).1 ≡ none)
    × ((k : Key) → k ≢ bts0 → exact k (neighbor_ident_del table bts0).1 ≡ exact k table)
del_lookup_example = del_lookup bts0 table table-IsTable
