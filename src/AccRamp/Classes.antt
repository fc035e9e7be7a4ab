-- ===== src/AccRamp/Classes.antt =====
-- The mask of barred classes as the list of the classes, and how the operations change it.
use Prim.{tt}
use osmo_bsc.Base.{
  All, ltb, ◌++◌, ℕ, zero, suc, ◌+◌, ◌-◌, ◌%◌, true, false, not, ◌||◌, Option, none, some, List, [],
  ◌∷◌, ◌≡◌, ◌⊎◌, ◌↔◌, refl, ◌∙◌, ap, arith, inl, inr, Bool-cases, sym, first_some, if◌then◌else◌,
  ◌==◌,
}
use osmo_bsc.Base.Bits.{bit}
use osmo_bsc.AccRamp.{
  RachBts, accs, octet, number, set_at, ffs, get_barred_t2, get_barred_t3, allow_next,
  allow_available,
}

-- The classes of a list that a mask bars, in the list's order.
abbrev pub barred_among : ℕ → List ℕ → List ℕ
barred_among x [] = []
barred_among x (k ∷ ks) = if bit x k then k ∷ barred_among x ks else barred_among x ks

abbrev first_of : List ℕ → Option ℕ
first_of [] = none
first_of (k ∷ ks) = some (suc k)

pub barred_among_agree :
    (x y : ℕ) (ks : List ℕ)
    → All (λ k. bit y k ≡ bit x k) ks
    → barred_among y ks ≡ barred_among x ks
barred_among_agree x y [] h = refl
barred_among_agree x y (k ∷ ks) (e, h) = rw e (rw (barred_among_agree x y ks h) refl)

barred_among_append :
    (x : ℕ) (ks ls : List ℕ) → barred_among x (ks ++ ls) ≡ barred_among x ks ++ barred_among x ls
barred_among_append x [] ls = refl
barred_among_append x (k ∷ ks) ls = ground (arith, barred_among_append x ks ls)

first_barred : (x : ℕ) (ks : List ℕ) → first_some (set_at x) ks ≡ first_of (barred_among x ks)
unfolding first_some
first_barred x [] = refl
first_barred x (k ∷ ks) = ground (arith, first_barred x ks)

same_test : {a b : ℕ} → a ≡ b → (a == 1) ≡ (b == 1)
same_test e = ap (λ n. n == 1) e

zero_test : {a : ℕ} → a ≡ 0 → (a == 1) ≡ false
zero_test e = ap (λ n. n == 1) e

-- The two bytes that ffs() is called with have the bits of the mask.
octet_bits : (x : ℕ) → All (λ k. bit (get_barred_t3 x) k ≡ bit x k) octet
unfolding bit get_barred_t3
octet_bits x = (
  same_test (omega arith),
  (
    same_test (omega arith),
    (
      same_test (omega arith),
      (
        same_test (omega arith),
        (
          same_test (omega arith),
          (same_test (omega arith), (same_test (omega arith), (same_test (omega arith), tt))),
        ),
      ),
    ),
  ),
)

ffs_t3 : (x : ℕ) → ffs (get_barred_t3 x) ≡ number (first_of (barred_among x octet))
unfolding ffs
ffs_t3 x = ap number (
    first_barred (get_barred_t3 x) octet
    ∙ ap first_of (barred_among_agree _ _ octet (octet_bits x)))

t2_bits :
    (x : ℕ)
    → (bit (get_barred_t2 x) 0 ≡ bit x 8)
      × (bit (get_barred_t2 x) 1 ≡ bit x 9)
      × All (λ k. bit (get_barred_t2 x) k ≡ false) (2 ∷ 3 ∷ 4 ∷ 5 ∷ 6 ∷ 7 ∷ [])
unfolding bit get_barred_t2
t2_bits x = (
  same_test (omega arith),
  same_test (omega arith),
  (
    zero_test (omega arith),
    (
      zero_test (omega arith),
      (
        zero_test (omega arith),
        (zero_test (omega arith), (zero_test (omega arith), (zero_test (omega arith), tt))),
      ),
    ),
  ),
)

abbrev t2_number : List ℕ → ℕ
t2_number [] = 0
t2_number (k ∷ ks) = k - 7

ffs_t2 : (x : ℕ) → ffs (get_barred_t2 x) ≡ t2_number (barred_among x (8 ∷ 9 ∷ []))
unfolding ffs first_some
ffs_t2 x =
    let (e0, e1, (e2, (e3, (e4, (e5, (e6, (e7, u))))))) = t2_bits x in
    rw (e0, e1, e2, e3, e4, e5, e6, e7) (ground arith)

empty-All : (x : ℕ) (ks : List ℕ) → barred_among x ks ≡ [] → All (λ k. bit x k ≡ false) ks
empty-All x [] h = tt
empty-All x (k ∷ ks) h = elim (Bool-cases (bit x k)) [
  | inl e ↦ let h' = simp e at h in cc
  | inr e ↦ let h' = simp e at h in (e, empty-All x ks h')
]

test_zero : (a : ℕ) → (a % 2 == 1) ≡ false → a % 2 ≡ 0
test_zero a h = ground arith

zero_bits : (x : ℕ) → barred_among x octet ≡ [] → get_barred_t3 x ≡ 0
unfolding bit get_barred_t3
zero_bits x h =
    let (e0, (e1, (e2, (e3, (e4, (e5, (e6, (e7, u)))))))) = empty-All x octet h in
    let f0 = test_zero _ e0 in
    let f1 = test_zero _ e1 in
    let f2 = test_zero _ e2 in
    let f3 = test_zero _ e3 in
    let f4 = test_zero _ e4 in
    let f5 = test_zero _ e5 in let f6 = test_zero _ e6 in let f7 = test_zero _ e7 in omega arith

zero_bits_t2 : (x : ℕ) → barred_among x (8 ∷ 9 ∷ []) ≡ [] → get_barred_t2 x ≡ 0
unfolding bit get_barred_t2
zero_bits_t2 x h =
    let (e8, (e9, u)) = empty-All x (8 ∷ 9 ∷ []) h in
    let f8 = test_zero _ e8 in let f9 = test_zero _ e9 in omega arith

t3_bits : (x : ℕ) → get_barred_t3 x ≡ 0 → barred_among x octet ≡ []
unfolding bit
t3_bits x h = sym (barred_among_agree _ _ octet (octet_bits x)) ∙ ap (λ y. barred_among y octet) h

zero_bit : (k : ℕ) → bit 0 k ≡ false
unfolding bit
zero_bit zero = refl
zero_bit (suc k) = zero_bit k

t2_bits_zero : (x : ℕ) → get_barred_t2 x ≡ 0 → barred_among x (8 ∷ 9 ∷ []) ≡ []
t2_bits_zero x h =
    let (e8, e9, u) = t2_bits x in
    let z8 : bit x 8 ≡ false = sym e8 ∙ ap (λ y. bit y 0) h ∙ zero_bit 0 in
    let z9 : bit x 9 ≡ false = sym e9 ∙ ap (λ y. bit y 1) h ∙ zero_bit 1 in rw (z8, z9) refl

List-cases : (xs : List ℕ) → (xs ≡ []) ⊎ ((y : ℕ) × (ys : List ℕ) × (xs ≡ y ∷ ys))
List-cases [] = inl refl
List-cases (y ∷ ys) = inr (y, ys, refl)

-- The classes are those of the one byte and those of the other.
two_bytes : (x : ℕ) → barred_among x accs ≡ barred_among x octet ++ barred_among x (8 ∷ 9 ∷ [])
two_bytes x = barred_among_append x octet (8 ∷ 9 ∷ [])

t2_head :
    (x : ℕ) (k : ℕ) (ks : List ℕ)
    → barred_among x (8 ∷ 9 ∷ []) ≡ k ∷ ks
    → ((k - 7 == 1) || (k - 7 == 2) ≡ true) × (k - 7 - 1 + 8 ≡ k)
t2_head x k ks h = elim (Bool-cases (bit x 8)) [
  | inl e ↦ let h' = simp e at h in ground arith
  | inr e ↦ let h' = simp e at h in ground arith
]

-- The next class to be allowed is the lowest that is barred.
pub allow_next_lowest :
    (bts : RachBts) (x : ℕ) (k : ℕ) (ks : List ℕ)
    → barred_among x accs ≡ k ∷ ks
    → allow_next bts x ≡ some (allow_available bts k x)
unfolding allow_next
allow_next_lowest bts x k ks h = elim (List-cases (barred_among x octet)) [
  | inl e ↦
      let h' : barred_among x (8 ∷ 9 ∷ []) ≡ k ∷ ks =
        sym (two_bytes x ∙ ap (λ b. b ++ barred_among x (8 ∷ 9 ∷ [])) e) ∙ h in
      let n3 : ffs (get_barred_t3 x) ≡ 0 = ffs_t3 x ∙ ap (λ b. number (first_of b)) e in
      let n2 : ffs (get_barred_t2 x) ≡ k - 7 = ffs_t2 x ∙ ap t2_number h' in
      let (p, q) = t2_head x k ks h' in rw (n3, n2, p, q) refl
  | inr (y, ys, e) ↦
      let h' : y ∷ (ys ++ barred_among x (8 ∷ 9 ∷ [])) ≡ k ∷ ks =
        sym (two_bytes x ∙ ap (λ b. b ++ barred_among x (8 ∷ 9 ∷ [])) e) ∙ h in
      let n3 : ffs (get_barred_t3 x) ≡ suc y = ffs_t3 x ∙ ap (λ b. number (first_of b)) e in
      let found : ltb 0 (suc y) ≡ true = ground arith in
      let back : suc y - 1 ≡ k = ground arith in rw (n3, found, back) refl
]

empty_bytes :
    (x : ℕ)
    → barred_among x accs ≡ []
    → (barred_among x octet ≡ []) × (barred_among x (8 ∷ 9 ∷ []) ≡ [])
empty_bytes x h = elim (List-cases (barred_among x octet)) [
  | inl e ↦ (e, sym (two_bytes x ∙ ap (λ b. b ++ barred_among x (8 ∷ 9 ∷ [])) e) ∙ h)
  | inr (y, ys, e) ↦
      let h' : y ∷ (ys ++ barred_among x (8 ∷ 9 ∷ [])) ≡ [] =
        sym (two_bytes x ∙ ap (λ b. b ++ barred_among x (8 ∷ 9 ∷ [])) e) ∙ h in
      cc
]

pub allow_next-none : (bts : RachBts) (x : ℕ) → barred_among x accs ≡ [] → allow_next bts x ≡ none
unfolding allow_next
allow_next-none bts x h =
    let (h3, h2) = empty_bytes x h in
    let n3 : ffs (get_barred_t3 x) ≡ 0 = ffs_t3 x ∙ ap (λ b. number (first_of b)) h3 in
    let n2 : ffs (get_barred_t2 x) ≡ 0 = ffs_t2 x ∙ ap t2_number h2 in rw (n3, n2) refl

-- Both bytes are 0 just if no class is barred.
pub bytes_zero :
    (x : ℕ)
    → not (get_barred_t2 x == 0) || not (get_barred_t3 x == 0) ≡ false ↔ barred_among x accs ≡ []
bytes_zero x = (
  λ h.
      let z2 : get_barred_t2 x ≡ 0 = ground arith in
      let z3 : get_barred_t3 x ≡ 0 = ground arith in
      two_bytes x ∙ rw (t3_bits x z3, t2_bits_zero x z2) refl,
  λ h. let (h3, h2) = empty_bytes x h in rw (zero_bits_t2 x h2, zero_bits x h3) refl,
)
