-- ===== src/Subscriber/Balance.antt =====
-- That references to the subscribers of src/osmo-bsc/bsc_subscriber.c balance.
use Prim.{tt}
use osmo_bsc.Base.{
  ℕ, ◌+◌, ◌-◌, ◌≤◌, ◌<◌, true, false, Option, none, some, List, [], ◌∷◌, ◌++◌, take, ltb, ◌==◌, ◌≡◌,
  refl, ap, ◌∙◌, inl, inr, arith, Bool-cases, either,
}
use osmo_bsc.Subscriber.{
  BscSubscr, SubscrList, reserved_tmsi, bsc_subscr_get, bsc_subscr_put, get_found, find_first,
  imsi_eq, is_empty_imsi, bsc_subscr_find_by_imsi, bsc_subscr_find_by_tmsi, bsc_subscr_alloc,
  or_alloc, bsc_subscr_find_or_create_by_imsi, bsc_subscr_find_or_create_by_tmsi,
}

-- Each struct of the list has a user, and an address below the free ones.
abbrev pub InUse : ℕ → List BscSubscr → Type 0
InUse free [] = Unit
InUse free (b ∷ bs) = ((1 ≤ b.use_count) × (b.address < free)) × InUse free bs

-- Back as it was, after a get and a put.
put-get :
    (free address : ℕ) (bs : List BscSubscr)
    → InUse free bs
    → bsc_subscr_put address (bsc_subscr_get address bs) ≡ bs
unfolding bsc_subscr_get bsc_subscr_put
put-get free address [] h = refl
put-get free address (b ∷ bs) ((u, a), hs) =
    let rest = put-get free address bs hs in
    elim (Bool-cases (b.address == address)) [
      | inl e ↦
          let more : ltb (b.use_count + 1) 2 ≡ false = ground arith in
          let back : b.use_count + 1 - 1 ≡ b.use_count = omega arith in
          rw (e, e, more)
            (ap
                (λ n.
                  record b { use_count = n } ∷ bsc_subscr_put address (bsc_subscr_get address bs))
                back
              ∙ ap (λ l. b ∷ l) rest)
      | inr e ↦ rw (e, e) (ap (λ l. b ∷ l) rest)
    ]

-- A struct at a free address is the only one there.
put-alloc :
    (free : ℕ) (new : BscSubscr) (bs : List BscSubscr)
    → InUse free bs
    → new.address ≡ free
    → new.use_count ≡ 0
    → bsc_subscr_put free (bsc_subscr_get free (bs ++ (new ∷ []))) ≡ bs
unfolding bsc_subscr_get bsc_subscr_put
put-alloc free new [] h a z =
    let here : (new.address == free) ≡ true = ground arith in
    let last : ltb (new.use_count + 1) 2 ≡ true = ground arith in rw (here, here, last) refl
put-alloc free new (b ∷ bs) ((u, a'), hs) a z =
    let other : (b.address == free) ≡ false = ground arith in
    rw (other, other) (ap (λ l. b ∷ l) (put-alloc free new bs hs a z))

get-InUse :
    (free address : ℕ) (bs : List BscSubscr)
    → InUse free bs
    → InUse free (bsc_subscr_get address bs)
unfolding bsc_subscr_get
get-InUse free address [] h = tt
get-InUse free address (b ∷ bs) ((u, a), hs) = (
  either {A = BscSubscr} (λ q. (1 ≤ q.use_count) × (q.address < free)) (b.address == address)
      (omega arith, a) (u, a),
  get-InUse free address bs hs,
)

alloc-InUse :
    (free : ℕ) (new : BscSubscr) (bs : List BscSubscr)
    → InUse free bs
    → new.address ≡ free
    → InUse (free + 1) (bsc_subscr_get free (bs ++ (new ∷ [])))
unfolding bsc_subscr_get
alloc-InUse free new [] h a =
    let here : (new.address == free) ≡ true = ground arith in
    rw here ((omega arith, omega arith), tt)
alloc-InUse free new (b ∷ bs) ((u, a'), hs) a =
    let other : (b.address == free) ≡ false = ground arith in
    rw other ((u, omega arith), alloc-InUse free new bs hs a)

-- A reference was taken at the address: giving it back restores the list, and all are in use.
abbrev Taken : List BscSubscr → ℕ × SubscrList → Type 0
Taken bs (address, l) = (bsc_subscr_put address l.subscrs ≡ bs) × InUse l.free_address l.subscrs

taken :
    (imsi : List ℕ) (tmsi : ℕ) (o : Option ℕ) (l : SubscrList)
    → InUse l.free_address l.subscrs
    → Taken l.subscrs (or_alloc imsi tmsi (get_found o l))
unfolding bsc_subscr_alloc
taken imsi tmsi none l h =
    let new : BscSubscr = record {
      address = l.free_address;
      use_count = 0;
      imsi = take 15 imsi;
      tmsi = tmsi;
    } in
    (
      put-alloc l.free_address new l.subscrs h refl refl,
      alloc-InUse l.free_address new l.subscrs h refl,
    )
taken imsi tmsi (some address) l h =
    (put-get l.free_address address l.subscrs h, get-InUse l.free_address address l.subscrs h)

by_imsi :
    (imsi : List ℕ) (l : SubscrList)
    → InUse l.free_address l.subscrs
    → Taken l.subscrs (bsc_subscr_find_or_create_by_imsi imsi l)
unfolding bsc_subscr_find_or_create_by_imsi bsc_subscr_find_by_imsi
by_imsi imsi l h =
    either (λ p. Taken l.subscrs (or_alloc imsi 0 p)) (is_empty_imsi imsi) (taken imsi 0 none l h)
      (taken imsi 0 (find_first (λ b. imsi_eq b.imsi imsi) l.subscrs) l h)

by_tmsi :
    (tmsi : ℕ) (l : SubscrList)
    → InUse l.free_address l.subscrs
    → Taken l.subscrs (bsc_subscr_find_or_create_by_tmsi tmsi l)
unfolding bsc_subscr_find_or_create_by_tmsi bsc_subscr_find_by_tmsi
by_tmsi tmsi l h =
    either (λ p. Taken l.subscrs (or_alloc [] tmsi p)) (tmsi == reserved_tmsi)
      (taken [] tmsi none l h) (taken [] tmsi (find_first (λ b. b.tmsi == tmsi) l.subscrs) l h)

-- If each subscriber of the list has a user and the free address is above theirs: when a subscriber is
-- looked for, by IMSI or by TMSI, and created where there is none, that stays so; and when the reference
-- is then given back, the list is as it was before.
pub put-find_or_create :
    (imsi : List ℕ) (tmsi : ℕ) (l : SubscrList)
    → InUse l.free_address l.subscrs
    → ((bsc_subscr_put
            (bsc_subscr_find_or_create_by_imsi imsi l).0
            (bsc_subscr_find_or_create_by_imsi imsi l).1.subscrs
          ≡ l.subscrs)
        × InUse
            (bsc_subscr_find_or_create_by_imsi imsi l).1.free_address
            (bsc_subscr_find_or_create_by_imsi imsi l).1.subscrs)
      × ((bsc_subscr_put
              (bsc_subscr_find_or_create_by_tmsi tmsi l).0
              (bsc_subscr_find_or_create_by_tmsi tmsi l).1.subscrs
            ≡ l.subscrs)
          × InUse
              (bsc_subscr_find_or_create_by_tmsi tmsi l).1.free_address
              (bsc_subscr_find_or_create_by_tmsi tmsi l).1.subscrs)
put-find_or_create imsi tmsi l h = (by_imsi imsi l h, by_tmsi tmsi l h)
