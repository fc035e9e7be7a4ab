-- ===== src/Neighbor/Edit.antt =====
-- neighbor_ident_add(), neighbor_ident_del() and neighbor_ident_clear(), as changes of a map from keys
-- to cell identifier lists.
use osmo_bsc.Base.{
  ℕ, zero, suc, Bool, true, false, Option, none, some, List, [], ◌∷◌, ◌++◌, ◌≡◌, ◌≢◌, ◌⊎◌, refl,
  ◌∙◌, ap, arith, inl, inr, Bool-cases, Option-cases, sym, if◌then◌else◌,
}
use osmo_bsc.Neighbor.{
  Key, Entry, erange, neighbor_ident_key_match, neighbor_ident_key_valid, neighbor_ident_find,
  neighbor_ident_get, remove_at, neighbor_ident_del, neighbor_ident_clear, add_at,
  neighbor_ident_add,
}
use osmo_bsc.Neighbor.Match.{match_exact_false, match_exact_true, key_match_iff}
use osmo_bsc.Neighbor.Lookup.{get_exact, exact, exact_at, get_loop_exact, exact_at_suc, map_suc}

-- No two entries have the same key, and each key is a valid one.
abbrev pub IsTable : {V : Type 0} → List (Entry V) → Type 0
IsTable [] = Unit
IsTable (e ∷ es) = (exact e.key es ≡ none) × (neighbor_ident_key_valid e.key ≡ true) × IsTable es

module _ {V : Type 0} (key : Key) where
  -- The list without the first entry for the key.
  abbrev erase : List (Entry V) → List (Entry V)
  erase [] = []
  erase (e ∷ es) = if neighbor_ident_key_match e.key key true then es else e ∷ erase es

  position_cases :
      (es : List (Entry V))
      → ((exact_at key es 0 ≡ none) × (exact_at key es 1 ≡ none))
        ⊎ ((j : ℕ) × (exact_at key es 0 ≡ some j) × (exact_at key es 1 ≡ some (suc j)))
  position_cases es = elim (Option-cases (exact_at key es 0)) [
    | inl e ↦ inl (e, exact_at_suc key es 0 ∙ ap map_suc e)
    | inr (j, e) ↦ inr (j, e, exact_at_suc key es 0 ∙ ap map_suc e)
  ]

  erase-none : (es : List (Entry V)) → exact_at key es 0 ≡ none → erase es ≡ es
  erase-none [] h = refl
  erase-none (e ∷ es) h = elim (Bool-cases (neighbor_ident_key_match e.key key true)) [
    | inl m ↦ let h' = simp m at h in cc
    | inr m ↦ elim (position_cases es) [
      | inl (p, q) ↦ rw m (ap (◌∷◌ e) (erase-none es p))
      | inr (j, p, q) ↦ ground arith
    ]
  ]

  erase-some :
      (es : List (Entry V)) (i : ℕ) → exact_at key es 0 ≡ some i → remove_at es i ≡ erase es
  unfolding remove_at
  erase-some [] i h = cc
  erase-some (e ∷ es) i h = elim (Bool-cases (neighbor_ident_key_match e.key key true)) [
    | inl m ↦ let first : zero ≡ i = ground arith in rw (sym first) (rw m refl)
    | inr m ↦ elim (position_cases es) [
      | inl (p, q) ↦ ground arith
      | inr (j, p, q) ↦
          let later : suc j ≡ i = ground arith in
          rw (sym later) (rw m (ap (◌∷◌ e) (erase-some es j p)))
    ]
  ]

  find_exact : (nil : List (Entry V)) → neighbor_ident_find nil key true ≡ exact_at key nil 0
  unfolding neighbor_ident_find
  find_exact nil = get_loop_exact key nil 0

  del-erase : (nil : List (Entry V)) → (neighbor_ident_del nil key).1 ≡ erase nil
  unfolding neighbor_ident_del
  del-erase nil = elim (Option-cases (exact_at key nil 0)) [
    | inl e ↦ let f = find_exact nil ∙ e in rw (f, neighbor_ident_del) (sym (erase-none nil e))
    | inr (i, e) ↦ let f = find_exact nil ∙ e in rw (f, neighbor_ident_del) (erase-some nil i e)
  ]

  erase-fresh : (es : List (Entry V)) (k : Key) → exact k es ≡ none → exact k (erase es) ≡ none
  erase-fresh [] k h = refl
  erase-fresh (e ∷ es) k h = ground (arith, erase-fresh es k)

  erase-IsTable : (es : List (Entry V)) → IsTable es → IsTable (erase es)
  erase-IsTable [] h = h
  erase-IsTable (e ∷ es) (fresh, valid, rest) =
      elim (Bool-cases (neighbor_ident_key_match e.key key true)) [
        | inl m ↦ rw m rest
        | inr m ↦ rw m (erase-fresh es e.key fresh, valid, erase-IsTable es rest)
      ]

  exact-erase_self : (es : List (Entry V)) → IsTable es → exact key (erase es) ≡ none
  exact-erase_self [] h = refl
  exact-erase_self (e ∷ es) (fresh, valid, rest) =
      elim (Bool-cases (neighbor_ident_key_match e.key key true)) [
        | inl m ↦ rw m (ap (λ k. exact k es) (sym ((key_match_iff e.key key).0.0 m)) ∙ fresh)
        | inr m ↦ rw (m, m) (exact-erase_self es rest)
      ]

  exact-erase_ne : (es : List (Entry V)) (k : Key) → k ≢ key → exact k (erase es) ≡ exact k es
  exact-erase_ne [] k ne = refl
  exact-erase_ne (e ∷ es) k ne = elim (Bool-cases (neighbor_ident_key_match e.key key true)) [
    | inl m ↦
        let other = match_exact_false e.key k (λ p. ne (sym p ∙ (key_match_iff e.key key).0.0 m)) in
        rw m (rw other refl)
    | inr m ↦ rw m (ground (arith, exact-erase_ne es k ne))
  ]

  -- In a list of valid keys none of which is there twice, deleting a key takes its entry away and no other key's, and the list stays a table.
  pub del_lookup :
      (nil : List (Entry V))
      → IsTable nil
      → IsTable (neighbor_ident_del nil key).1
        × (exact key (neighbor_ident_del nil key).1 ≡ none)
        × ((k : Key) → k ≢ key → exact k (neighbor_ident_del nil key).1 ≡ exact k nil)
  del_lookup nil h =
      rw (del-erase nil) (erase-IsTable nil h, exact-erase_self nil h, exact-erase_ne nil)

module _ {V : Type 0} (list_add : V → V → V × Bool) (list_len : V → ℕ) (key : Key) (val : V) where
  abbrev pub merged : Option V → V
  merged none = val
  merged (some v) = (list_add v val).0

  -- The list with the value added under the key.
  abbrev upsert : List (Entry V) → List (Entry V)
  upsert [] = record { key = key; val = val } ∷ []
  upsert (e ∷ es) =
      if neighbor_ident_key_match e.key key true
      then record e { val = (list_add e.val val).0 } ∷ es
      else e ∷ upsert es

  upsert-none :
      (es : List (Entry V))
      → exact_at key es 0 ≡ none
      → es ++ (record { key = key; val = val } ∷ []) ≡ upsert es
  upsert-none [] h = refl
  upsert-none (e ∷ es) h = elim (Bool-cases (neighbor_ident_key_match e.key key true)) [
    | inl m ↦ let h' = simp m at h in cc
    | inr m ↦ elim (position_cases key es) [
      | inl (p, q) ↦ rw m (ap (◌∷◌ e) (upsert-none es p))
      | inr (j, p, q) ↦ ground arith
    ]
  ]

  upsert-some :
      (es : List (Entry V)) (i : ℕ)
      → exact_at key es 0 ≡ some i
      → (add_at list_add list_len es i val).0 ≡ upsert es
  unfolding add_at
  upsert-some [] i h = cc
  upsert-some (e ∷ es) i h = elim (Bool-cases (neighbor_ident_key_match e.key key true)) [
    | inl m ↦ let first : zero ≡ i = ground arith in rw (sym first) (rw m refl)
    | inr m ↦ elim (position_cases key es) [
      | inl (p, q) ↦ ground arith
      | inr (j, p, q) ↦
          let later : suc j ≡ i = ground arith in
          rw (sym later) (rw m (ap (◌∷◌ e) (upsert-some es j p)))
    ]
  ]

  add-upsert :
      (nil : List (Entry V))
      → neighbor_ident_key_valid key ≡ true
      → (neighbor_ident_add list_add list_len nil key val).0 ≡ upsert nil
  unfolding neighbor_ident_add
  add-upsert nil v = elim (Option-cases (exact_at key nil 0)) [
    | inl e ↦ let f = find_exact key nil ∙ e in rw (v, f, neighbor_ident_add) (upsert-none nil e)
    | inr (i, e) ↦
        let f = find_exact key nil ∙ e in rw (v, f, neighbor_ident_add) (upsert-some nil i e)
  ]

  exact-upsert_self : (es : List (Entry V)) → exact key (upsert es) ≡ some (merged (exact key es))
  exact-upsert_self [] = rw (match_exact_true key key refl) refl
  exact-upsert_self (e ∷ es) = elim (Bool-cases (neighbor_ident_key_match e.key key true)) [
    | inl m ↦ rw m (rw m refl)
    | inr m ↦ rw m (rw m (exact-upsert_self es))
  ]

  exact-upsert_ne : (es : List (Entry V)) (k : Key) → k ≢ key → exact k (upsert es) ≡ exact k es
  exact-upsert_ne [] k ne = rw (match_exact_false key k (λ p. ne (sym p))) refl
  exact-upsert_ne (e ∷ es) k ne = elim (Bool-cases (neighbor_ident_key_match e.key key true)) [
    | inl m ↦
        let other = match_exact_false e.key k (λ p. ne (sym p ∙ (key_match_iff e.key key).0.0 m)) in
        rw m (rw other refl)
    | inr m ↦ rw m (ground (arith, exact-upsert_ne es k ne))
  ]

  upsert-IsTable :
      (es : List (Entry V)) → neighbor_ident_key_valid key ≡ true → IsTable es → IsTable (upsert es)
  upsert-IsTable [] v h = (refl, v, h)
  upsert-IsTable (e ∷ es) v (fresh, valid, rest) =
      elim (Bool-cases (neighbor_ident_key_match e.key key true)) [
        | inl m ↦ rw m (fresh, valid, rest)
        | inr m ↦
            let ne : e.key ≢ key = λ p. ground (arith, match_exact_true e.key key p) in
            rw m (exact-upsert_ne es e.key ne ∙ fresh, valid, upsert-IsTable es v rest)
      ]

  -- In a list of valid keys none of which is there twice, adding under a valid key gives it the new list, or the old one extended by the new, leaves every
  -- other key as it was, and keeps the list a table.
  pub add_lookup :
      (nil : List (Entry V))
      → IsTable nil
      → neighbor_ident_key_valid key ≡ true
      → IsTable (neighbor_ident_add list_add list_len nil key val).0
        × (exact key (neighbor_ident_add list_add list_len nil key val).0
            ≡ some (merged (exact key nil)))
        × ((k : Key)
            → k ≢ key
            → exact k (neighbor_ident_add list_add list_len nil key val).0 ≡ exact k nil)
  add_lookup nil h v =
      rw (add-upsert nil v) (upsert-IsTable nil v h, exact-upsert_self nil, exact-upsert_ne nil)

  pub add_erange :
      (nil : List (Entry V))
      → neighbor_ident_key_valid key ≡ false
      → neighbor_ident_add list_add list_len nil key val ≡ (nil, erange)
  unfolding neighbor_ident_add
  add_erange nil v = rw v refl

pub clear-empty : {V : Type 0} (nil : List (Entry V)) → neighbor_ident_clear nil ≡ []
unfolding neighbor_ident_clear
clear-empty [] = refl
clear-empty (e ∷ es) = clear-empty es

-- In a list of valid keys none of which is there twice, what was added under a valid key is what neighbor_ident_get() returns for it, merged with what the
-- key had, whatever wildcard entries the list has and wherever they stand.
pub get-add :
    {V : Type 0} (list_add : V → V → V × Bool) (list_len : V → ℕ) (nil : List (Entry V)) (key : Key)
    (val : V)
    → IsTable nil
    → neighbor_ident_key_valid key ≡ true
    → neighbor_ident_get (some (neighbor_ident_add list_add list_len nil key val).0) key
      ≡ some (merged list_add list_len key val (exact key nil))
get-add list_add list_len nil key val h v =
    get_exact key _ _ (add_lookup list_add list_len key val nil h v).1
