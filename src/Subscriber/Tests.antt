-- ===== src/Subscriber/Tests.antt =====
-- One subscriber that is known, one that is not.
use Prim.{tt}
use osmo_bsc.Base.{[], ◌∷◌, ◌≡◌, refl, arith}
use osmo_bsc.Subscriber.{
  BscSubscr, SubscrList, find_first, bsc_subscr_get, bsc_subscr_put, bsc_subscr_alloc,
  bsc_subscr_find_by_imsi, bsc_subscr_find_by_tmsi, bsc_subscr_find_or_create_by_imsi,
  bsc_subscr_find_or_create_by_tmsi,
}
use osmo_bsc.Subscriber.Balance.{InUse, put-find_or_create}

abbrev known : BscSubscr
known = record { address = 0; use_count = 1; imsi = 50 ∷ 54 ∷ 50 ∷ []; tmsi = 7 }

abbrev one : SubscrList
one = record { subscrs = known ∷ []; free_address = 1 }

-- The known subscriber is found by its IMSI, and gets a second user.
found :
    (bsc_subscr_find_or_create_by_imsi (50 ∷ 54 ∷ 50 ∷ []) one).1.subscrs
    ≡ record known { use_count = 2 } ∷ []
unfolding bsc_subscr_find_or_create_by_imsi bsc_subscr_find_by_imsi find_first bsc_subscr_get
found = refl

-- Another TMSI makes a new one.
created :
    (bsc_subscr_find_or_create_by_tmsi 8 one).1.subscrs
    ≡ known ∷ record { address = 1; use_count = 1; imsi = []; tmsi = 8 } ∷ []
unfolding bsc_subscr_find_or_create_by_tmsi bsc_subscr_find_by_tmsi find_first bsc_subscr_get
    bsc_subscr_alloc
created = refl

put-find_or_create_example :
    ((bsc_subscr_put
          (bsc_subscr_find_or_create_by_imsi (50 ∷ 54 ∷ 50 ∷ []) one).0
          (bsc_subscr_find_or_create_by_imsi (50 ∷ 54 ∷ 50 ∷ []) one).1.subscrs
        ≡ one.subscrs)
      × InUse
          (bsc_subscr_find_or_create_by_imsi (50 ∷ 54 ∷ 50 ∷ []) one).1.free_address
          (bsc_subscr_find_or_create_by_imsi (50 ∷ 54 ∷ 50 ∷ []) one).1.subscrs)
    × ((bsc_subscr_put
            (bsc_subscr_find_or_create_by_tmsi 8 one).0
            (bsc_subscr_find_or_create_by_tmsi 8 one).1.subscrs
          ≡ one.subscrs)
        × InUse
            (bsc_subscr_find_or_create_by_tmsi 8 one).1.free_address
            (bsc_subscr_find_or_create_by_tmsi 8 one).1.subscrs)
put-find_or_create_example =
    put-find_or_create (50 ∷ 54 ∷ 50 ∷ []) 8 one ((ground arith, ground arith), tt)
