-- ===== src/Neighbor.antt =====
-- Identities of neighbour cells in other BSSs, src/osmo-bsc/neighbor_ident.c: a list of entries from
-- (BTS, ARFCN, BSIC), each possibly a wildcard, to cell identifier lists. The list type and
-- gsm0808_cell_id_list_add() of libosmocore are parameters.
pub mod Match
pub mod Lookup
pub mod Edit
mod Tests
use osmo_bsc.Base.{
  ℕ, zero, suc, ◌+◌, Bool, true, false, not, ◌&&◌, ◌||◌, Option, none, some, List, [], ◌∷◌, ◌++◌,
  get_elem?, ltb, ◌==◌, if◌then◌else◌,
}
use osmo_bsc.Base.Int.{ℤ, pos, negsuc, ltb_ℤ, eqb_ℤ}

-- struct neighbor_ident_key
pub record Key : Type 0 where
  pub from_bts : ℤ
  pub arfcn : ℕ
  pub bsic : ℕ

-- NEIGHBOR_IDENT_KEY_ANY_BTS and BSIC_ANY
abbrev pub any_bts : ℤ
any_bts = negsuc 0

abbrev pub bsic_any : ℕ
bsic_any = 0xff

-- neighbor_ident_key_match()
unfoldable pub neighbor_ident_key_match : Key → Key → Bool → Bool
neighbor_ident_key_match entry search_for exact_match =
    if exact_match && not (eqb_ℤ entry.from_bts search_for.from_bts)
    then false
    else if not (eqb_ℤ search_for.from_bts any_bts)
        && not (eqb_ℤ entry.from_bts any_bts)
        && not (eqb_ℤ entry.from_bts search_for.from_bts)
    then false
    else if not (entry.arfcn == search_for.arfcn)
    then false
    else if exact_match && not (entry.bsic == search_for.bsic)
    then false
    else if (entry.bsic == bsic_any) || (search_for.bsic == bsic_any)
    then true
    else entry.bsic == search_for.bsic

-- neighbor_ident_key_valid()
unfoldable pub neighbor_ident_key_valid : Key → Bool
neighbor_ident_key_valid key =
    if not (eqb_ℤ key.from_bts any_bts)
      && (ltb_ℤ key.from_bts (pos 0) || ltb_ℤ (pos 255) key.from_bts)
    then false
    else if not (key.bsic == bsic_any) && ltb 0x3f key.bsic
    then false
    else true

-- struct neighbor_ident
pub record Entry (V : Type 0) : Type 0 where
  pub key : Key
  pub val : V

-- What neighbor_ident_add() returns: a length, or a negative error.
pub data AddResult : Type 0 where
  id_list_len : ℕ → AddResult
  enomem erange list_error : AddResult

module _ {V : Type 0} where
  -- The loop of _neighbor_ident_get(), with the entry that the wildcard matched so far; an entry is
  -- its position, from `i` on.
  unfoldable pub get_loop : Key → Bool → List (Entry V) → ℕ → Option ℕ → Option ℕ
  get_loop key exact_match [] i wildcard_match = wildcard_match
  get_loop key exact_match (ni ∷ nis) i wildcard_match =
      let rest = get_loop key exact_match nis (i + 1) (
        if not exact_match && neighbor_ident_key_match ni.key key false
        then some i
        else wildcard_match) in
      if neighbor_ident_key_match ni.key key true then some i else rest

  -- _neighbor_ident_get()
  unfoldable pub neighbor_ident_find : List (Entry V) → Key → Bool → Option ℕ
  neighbor_ident_find nil key exact_match = get_loop key exact_match nil 0 none

  abbrev pub value_at : List (Entry V) → Option ℕ → Option V
  value_at nil none = none
  value_at [] (some i) = none
  value_at (e ∷ es) (some zero) = some e.val
  value_at (e ∷ es) (some (suc i)) = value_at es (some i)

  -- neighbor_ident_get(); `none` for the list is NULL.
  unfoldable pub neighbor_ident_get : Option (List (Entry V)) → Key → Option V
  unfolding neighbor_ident_find
  neighbor_ident_get none key = none
  neighbor_ident_get (some nil) key = value_at nil (neighbor_ident_find nil key false)

  -- _neighbor_ident_free(): the entry leaves the list.
  unfoldable pub remove_at : List (Entry V) → ℕ → List (Entry V)
  remove_at [] i = []
  remove_at (e ∷ es) zero = es
  remove_at (e ∷ es) (suc i) = e ∷ remove_at es i

  -- neighbor_ident_del()
  unfoldable pub neighbor_ident_del : List (Entry V) → Key → Bool × List (Entry V)
  unfolding remove_at neighbor_ident_find
  neighbor_ident_del nil key = elim (neighbor_ident_find nil key true) [
    | none ↦ (false, nil)
    | some i ↦ (true, remove_at nil i)
  ]

  -- neighbor_ident_clear(): as long as there is a first entry, it is freed.
  unfoldable pub neighbor_ident_clear : List (Entry V) → List (Entry V)
  neighbor_ident_clear [] = []
  neighbor_ident_clear (e ∷ es) = neighbor_ident_clear es

-- gsm0808_cell_id_list_add(), with the list that it leaves and whether it succeeded, and id_list_len.
module _ {V : Type 0} (list_add : V → V → V × Bool) (list_len : V → ℕ) where
  abbrev pub add_result : V × Bool → AddResult
  add_result (v, true) = id_list_len (list_len v)
  add_result (v, false) = list_error

  unfoldable pub add_at : List (Entry V) → ℕ → V → List (Entry V) × AddResult
  add_at [] i val = ([], list_error)
  add_at (e ∷ es) zero val =
      (record e { val = (list_add e.val val).0 } ∷ es, add_result (list_add e.val val))
  add_at (e ∷ es) (suc i) val = let (es', r) = add_at es i val in (e ∷ es', r)

  -- neighbor_ident_add(), for a list that is not NULL.
  unfoldable pub neighbor_ident_add : List (Entry V) → Key → V → List (Entry V) × AddResult
  unfolding add_at neighbor_ident_find
  neighbor_ident_add nil key val =
      if not (neighbor_ident_key_valid key)
      then (nil, erange)
      else elim (neighbor_ident_find nil key true) [
        | none ↦ (nil ++ (record { key = key; val = val } ∷ []), id_list_len (list_len val))
        | some i ↦ add_at nil i val
      ]

  -- neighbor_ident_add(), with its test of the list.
  unfoldable pub neighbor_ident_add_checked :
      Option (List (Entry V)) → Key → V → Option (List (Entry V)) × AddResult
  unfolding neighbor_ident_add
  neighbor_ident_add_checked none key val = (none, enomem)
  neighbor_ident_add_checked (some nil) key val =
      let (nil', r) = neighbor_ident_add nil key val in (some nil', r)
