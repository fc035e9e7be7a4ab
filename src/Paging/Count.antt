-- ===== src/Paging/Count.antt =====
-- How many requests of a queue of src/osmo-bsc/paging.c are for a subscriber.
use osmo_bsc.Base.{
  ℕ, zero, suc, ◌+◌, Bool, true, false, some, List, [], ◌∷◌, ◌++◌, ◌≡◌, refl, ap, inl, inr, arith,
  Bool-cases, ◌==◌, if◌then◌else◌, get_elem?,
}
use osmo_bsc.Paging.{Request, remove_at, is_empty, paging_pending_request}

unfoldable pub count : ℕ → List Request → ℕ
count b [] = 0
count b (r ∷ rs) = let rest = count b rs in if r.bsub == b then rest + 1 else rest

abbrev pub one_if : Bool → ℕ
one_if true = 1
one_if false = 0

pub count-append : (b : ℕ) (xs ys : List Request) → count b (xs ++ ys) ≡ count b xs + count b ys
unfolding count
count-append b [] ys = omega arith
count-append b (x ∷ xs) ys = ground (arith, count-append b xs ys)

-- Without the request at a position there is one less for its subscriber.
pub count-remove_at :
    (b : ℕ) (rs : List Request) (i : ℕ) (r : Request)
    → get_elem? rs i ≡ some r
    → count b (remove_at rs i) + one_if (r.bsub == b) ≡ count b rs
unfolding count
count-remove_at b [] i r e = absurd (ground arith)
count-remove_at b (x ∷ xs) zero r e =
    let same : x ≡ r = cc in
    let at : (x.bsub == b) ≡ (r.bsub == b) = ap (λ q. q.bsub == b) same in
    elim (Bool-cases (r.bsub == b)) [
      | inl s ↦ rw (at, s) (omega arith)
      | inr s ↦ rw (at, s) (omega arith)
    ]
count-remove_at b (x ∷ xs) (suc i) r e = ground (arith, count-remove_at b xs i r e)

pub is_empty-remove_at :
    (rs : List Request) (i : ℕ) → is_empty rs ≡ true → is_empty (remove_at rs i) ≡ true
is_empty-remove_at [] i e = refl
is_empty-remove_at (r ∷ rs) i e = absurd (ground arith)

pub not_pending-count :
    (b : ℕ) (rs : List Request) → paging_pending_request b rs ≡ false → count b rs ≡ 0
unfolding count paging_pending_request
not_pending-count b [] e = refl
not_pending-count b (r ∷ rs) e = ground (arith, not_pending-count b rs)
