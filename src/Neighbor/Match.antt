-- ===== src/Neighbor/Match.antt =====
-- What it means that two neighbour keys match.
use mathlib.Core.Path.{subst}
use osmo_bsc.Base.{true, false, ◌≡◌, ◌≢◌, ◌⊎◌, ◌↔◌, arith, inl, inr, Bool-cases}
use osmo_bsc.Neighbor.{Key, any_bts, bsic_any, neighbor_ident_key_match}

-- Two values agree up to the wildcard `any`.
abbrev pub Agree : {A : Type 0} → A → A → A → Type 0
Agree any a b = (a ≡ any) ⊎ (b ≡ any) ⊎ (a ≡ b)

exact_sound : (a b : Key) → neighbor_ident_key_match a b true ≡ true → a ≡ b
unfolding neighbor_ident_key_match
exact_sound a b h = ground arith

exact_self : (a : Key) → neighbor_ident_key_match a a true ≡ true
unfolding neighbor_ident_key_match
exact_self a = ground arith

by_wildcard_sound :
    (a b : Key)
    → neighbor_ident_key_match a b false ≡ true
    → Agree any_bts a.from_bts b.from_bts × (a.arfcn ≡ b.arfcn) × Agree bsic_any a.bsic b.bsic
unfolding neighbor_ident_key_match
by_wildcard_sound a b h = ground arith

by_wildcard_complete :
    (a b : Key)
    → Agree any_bts a.from_bts b.from_bts × (a.arfcn ≡ b.arfcn) × Agree bsic_any a.bsic b.bsic
    → neighbor_ident_key_match a b false ≡ true
unfolding neighbor_ident_key_match
by_wildcard_complete a b h = ground arith

-- An exact match is equality of keys, also where both have a wildcard. Without exact_match, keys match
-- just if their ARFCNs are equal and their BTS and their BSIC agree up to the wildcard of each, on
-- either side.
pub key_match_iff :
    (a b : Key)
    → ((neighbor_ident_key_match a b true ≡ true) ↔ (a ≡ b))
      × ((neighbor_ident_key_match a b false ≡ true) ↔ (
          Agree any_bts a.from_bts b.from_bts × (a.arfcn ≡ b.arfcn) × Agree bsic_any a.bsic b.bsic))
key_match_iff a b = (
  (exact_sound a b, λ e. subst (λ k. neighbor_ident_key_match a k true ≡ true) e (exact_self a)),
  (by_wildcard_sound a b, by_wildcard_complete a b),
)

pub match_exact_false : (a b : Key) → a ≢ b → neighbor_ident_key_match a b true ≡ false
match_exact_false a b ne = elim (Bool-cases (neighbor_ident_key_match a b true)) [
  | inl e ↦ absurd (ne (exact_sound a b e))
  | inr e ↦ e
]

pub match_exact_true : (a b : Key) → a ≡ b → neighbor_ident_key_match a b true ≡ true
match_exact_true a b e = (key_match_iff a b).0.1 e
