-- ===== src/Base/Search.antt =====
-- Searches that stop at the first hit, tests on lists, and predicates over lists.
use osmo_bsc.Base.Tests.{Option-cases}
use mathlib.Core.Path.{◌≡◌, refl}
use mathlib.Core.Logic.{inl, inr}
use mathlib.Core.Option.{Option, none, some}
use mathlib.Core.List.{List, [], ◌∷◌, reverse, reverse-cons, Memᴰ}
use mathlib.Core.List.Memᴰ
use native.Mathlib.Omega.{arith}

-- The first of two results, `a` if it is one.
abbrev pub or_else {ℓ} : {A : Type ℓ} → Option A → Option A → Option A
or_else (some a) b = some a
or_else none b = b

-- The loop `for x in xs: if (r = f x) return r; return NULL`.
unfoldable pub first_some {ℓ κ} : {A : Type ℓ} {B : Type κ} → (A → Option B) → List A → Option B
first_some f [] = none
first_some f (x ∷ xs) = or_else (f x) (first_some f xs)

-- A hit comes from an element of the list.
pub first_some-hit {ℓ κ} :
    {A : Type ℓ} {B : Type κ} (f : A → Option B) (xs : List A) (b : B)
    → first_some f xs ≡ some b
    → (x : A) × Memᴰ x xs × (f x ≡ some b)
unfolding first_some
first_some-hit f [] b h = ground arith
first_some-hit f (x ∷ xs) b h = elim (Option-cases (f x)) [
  | inl e ↦ let (y, m, p) = first_some-hit f xs b (ground arith) in (y, Memᴰ.tail m, p)
  | inr (c, e) ↦ (x, Memᴰ.head refl, ground arith)
]

-- No hit means that no element of the list is one.
pub first_some-miss {ℓ κ} :
    {A : Type ℓ} {B : Type κ} (f : A → Option B) (xs : List A) {x : A}
    → first_some f xs ≡ none
    → Memᴰ x xs
    → f x ≡ none
unfolding first_some
first_some-miss f [] h m = elim m [ ]
first_some-miss f (y ∷ ys) {x} h (Memᴰ.head e) = ground arith
first_some-miss f (y ∷ ys) h (Memᴰ.tail m) = first_some-miss f ys (ground arith) m

-- If every element misses, so does the search.
pub first_some-none {ℓ κ} :
    {A : Type ℓ} {B : Type κ} (f : A → Option B) (xs : List A)
    → ((x : A) → f x ≡ none)
    → first_some f xs ≡ none
unfolding first_some
first_some-none f [] h = refl
first_some-none f (x ∷ xs) h = ground (arith, h x, first_some-none f xs h)

-- A predicate on every element of a list, by recursion.
abbrev pub All {ℓ κ} : {A : Type ℓ} → (A → Type κ) → List A → Type κ
All P [] = Unit
All P (x ∷ xs) = P x × All P xs

pub mem-reverse_of_mem {ℓ} : {A : Type ℓ} (xs : List A) {x : A} → Memᴰ x xs → Memᴰ x (reverse xs)
mem-reverse_of_mem [] m = elim m [ ]
mem-reverse_of_mem (y ∷ ys) (Memᴰ.head e) =
    rw (reverse-cons y ys) (Memᴰ.append_right (reverse ys) (Memᴰ.head e))
mem-reverse_of_mem (y ∷ ys) (Memᴰ.tail m) =
    rw (reverse-cons y ys) (Memᴰ.append_left (y ∷ []) (mem-reverse_of_mem ys m))
