-- ===== src/Neighbor/Lookup.antt =====
-- _neighbor_ident_get() looks for an exact match and for a wildcard in one pass.
use osmo_bsc.Base.{
  ℕ, suc, ◌+◌, true, false, Option, none, some, List, [], ◌∷◌, ◌≡◌, refl, ◌∙◌, ap, arith, inl, inr,
  Bool-cases, Option-cases, sym, or_else, if◌then◌else◌,
}
use osmo_bsc.Neighbor.{Key, Entry, neighbor_ident_key_match, get_loop, value_at, neighbor_ident_get}

abbrev pub map_suc : Option ℕ → Option ℕ
map_suc none = none
map_suc (some n) = some (suc n)

no_value : {V : Type 0} (nil : List (Entry V)) (v : V) → ¬ (value_at nil none ≡ some v)
no_value [] v h = cc
no_value (e ∷ es) v h = cc

module _ {V : Type 0} (key : Key) where
  -- The value of the first entry whose key equals the one that is looked for.
  abbrev pub exact : List (Entry V) → Option V
  exact [] = none
  exact (e ∷ es) = if neighbor_ident_key_match e.key key true then some e.val else exact es

  -- The position of that entry, from `i` on, and of the last entry that matches up to wildcards.
  abbrev pub exact_at : List (Entry V) → ℕ → Option ℕ
  exact_at [] i = none
  exact_at (e ∷ es) i =
      if neighbor_ident_key_match e.key key true then some i else exact_at es (i + 1)

  abbrev pub last_at : List (Entry V) → ℕ → Option ℕ
  last_at [] i = none
  last_at (e ∷ es) i =
      or_else (last_at es (i + 1))
        (if neighbor_ident_key_match e.key key false then some i else none)

  get_loop_wildcard :
      (es : List (Entry V)) (i : ℕ) (wild : Option ℕ)
      → get_loop key false es i wild ≡ or_else (exact_at es i) (or_else (last_at es i) wild)
  unfolding get_loop
  get_loop_wildcard [] i wild = refl
  get_loop_wildcard (e ∷ es) i wild = elim (Bool-cases (neighbor_ident_key_match e.key key false)) [
    | inl m ↦ rw m (ground (arith, get_loop_wildcard es (i + 1) (some i)))
    | inr m ↦ rw m (ground (arith, get_loop_wildcard es (i + 1) wild))
  ]

  pub get_loop_exact : (es : List (Entry V)) (i : ℕ) → get_loop key true es i none ≡ exact_at es i
  unfolding get_loop
  get_loop_exact [] i = refl
  get_loop_exact (e ∷ es) i = ground (arith, get_loop_exact es (i + 1))

  pub exact_at_suc : (es : List (Entry V)) (i : ℕ) → exact_at es (i + 1) ≡ map_suc (exact_at es i)
  exact_at_suc [] i = refl
  exact_at_suc (e ∷ es) i = ground (arith, exact_at_suc es (i + 1))

  value_at_suc :
      (e : Entry V) (es : List (Entry V)) (o : Option ℕ)
      → value_at (e ∷ es) (map_suc o) ≡ value_at es o
  value_at_suc e [] none = refl
  value_at_suc e (x ∷ xs) none = refl
  value_at_suc e [] (some i) = refl
  value_at_suc e (x ∷ xs) (some i) = refl

  pub exact_at-value : (es : List (Entry V)) → value_at es (exact_at es 0) ≡ exact es
  exact_at-value [] = refl
  exact_at-value (e ∷ es) = elim (Bool-cases (neighbor_ident_key_match e.key key true)) [
    | inl m ↦ rw m refl
    | inr m ↦ rw m (
        ap (value_at (e ∷ es)) (exact_at_suc es 0)
        ∙ value_at_suc e es (exact_at es 0)
        ∙ exact_at-value es)
  ]

  -- neighbor_ident_get() finds in one pass what two would: the first entry whose key is the one looked
  -- for, and only where there is none the last entry that matches up to wildcards.
  pub get_two_pass :
      (nil : List (Entry V))
      → neighbor_ident_get (some nil) key ≡ value_at nil (or_else (exact_at nil 0) (last_at nil 0))
  unfolding neighbor_ident_get
  get_two_pass nil = ap (value_at nil) (get_loop_wildcard nil 0 none ∙ ground arith)

  -- An entry for exactly this key wins over every wildcard.
  pub get_exact :
      (nil : List (Entry V)) (v : V)
      → exact nil ≡ some v
      → neighbor_ident_get (some nil) key ≡ some v
  get_exact nil v h = elim (Option-cases (exact_at nil 0)) [
    | inl e ↦
        let none_there : value_at nil none ≡ some v =
          ap (value_at nil) (sym e) ∙ exact_at-value nil ∙ h in
        absurd (no_value nil v none_there)
    | inr (i, e) ↦
        let first : or_else (exact_at nil 0) (last_at nil 0) ≡ exact_at nil 0 = rw e refl in
        get_two_pass nil ∙ ap (value_at nil) first ∙ exact_at-value nil ∙ h
  ]
