-- ===== src/Subscriber.antt =====
-- Subscribers, src/osmo-bsc/bsc_subscriber.c: a list of structs that are counted by their users.
pub mod Balance
mod Tests
use osmo_bsc.Base.{
  ℕ, ◌+◌, ◌-◌, ◌^◌, Bool, true, false, ◌&&◌, Option, none, some, List, [], ◌∷◌, ◌++◌, take, ltb,
  ◌==◌, if◌then◌else◌,
}

-- struct bsc_subscr, with its address; the IMSI is its characters. That a count stays below INT_MAX is
-- asserted.
pub record BscSubscr : Type 0 where
  pub address : ℕ
  pub use_count : ℕ
  pub imsi : List ℕ
  pub tmsi : ℕ

-- The list of a network, and an address that is free, as all larger ones are.
pub record SubscrList : Type 0 where
  pub subscrs : List BscSubscr
  pub free_address : ℕ

-- strcmp() of two IMSIs, and GSM_RESERVED_TMSI
abbrev pub imsi_eq : List ℕ → List ℕ → Bool
imsi_eq [] [] = true
imsi_eq [] (d ∷ ds) = false
imsi_eq (c ∷ cs) [] = false
imsi_eq (c ∷ cs) (d ∷ ds) = c == d && imsi_eq cs ds

abbrev pub reserved_tmsi : ℕ
reserved_tmsi = 2 ^ 32 - 1

-- bsc_subscr_get()
unfoldable pub bsc_subscr_get : ℕ → List BscSubscr → List BscSubscr
bsc_subscr_get address [] = []
bsc_subscr_get address (b ∷ bs) =
    (if b.address == address then record b { use_count = b.use_count + 1 } else b)
    ∷ bsc_subscr_get address bs

-- bsc_subscr_put(), which frees a struct whose count falls to 0.
unfoldable pub bsc_subscr_put : ℕ → List BscSubscr → List BscSubscr
bsc_subscr_put address [] = []
bsc_subscr_put address (b ∷ bs) =
    let rest = bsc_subscr_put address bs in
    if b.address == address
    then (if ltb b.use_count 2 then rest else record b { use_count = b.use_count - 1 } ∷ rest)
    else b ∷ rest

-- The first struct of the list that a test tells.
unfoldable pub find_first : (BscSubscr → Bool) → List BscSubscr → Option ℕ
find_first test [] = none
find_first test (b ∷ bs) = let rest = find_first test bs in if test b then some b.address else rest

abbrev pub get_found : Option ℕ → SubscrList → Option ℕ × SubscrList
get_found none l = (none, l)
get_found (some address) l = (some address, record l { subscrs = bsc_subscr_get address l.subscrs })

abbrev pub is_empty_imsi : List ℕ → Bool
is_empty_imsi [] = true
is_empty_imsi (c ∷ cs) = false

unfoldable pub bsc_subscr_find_by_imsi : List ℕ → SubscrList → Option ℕ × SubscrList
bsc_subscr_find_by_imsi imsi l =
    if is_empty_imsi imsi
    then (none, l)
    else get_found (find_first (λ b. imsi_eq b.imsi imsi) l.subscrs) l

unfoldable pub bsc_subscr_find_by_tmsi : ℕ → SubscrList → Option ℕ × SubscrList
bsc_subscr_find_by_tmsi tmsi l =
    if tmsi == reserved_tmsi
    then (none, l)
    else get_found (find_first (λ b. b.tmsi == tmsi) l.subscrs) l

-- bsc_subscr_set_imsi(), which cuts off what does not fit.
abbrev pub bsc_subscr_set_imsi : List ℕ → BscSubscr → BscSubscr
bsc_subscr_set_imsi imsi b = record b { imsi = take 15 imsi }

-- bsc_subscr_alloc(), with the IMSI or the TMSI then set and the reference of the caller.
unfoldable pub bsc_subscr_alloc : List ℕ → ℕ → SubscrList → ℕ × SubscrList
bsc_subscr_alloc imsi tmsi l = (
  l.free_address,
  record {
    subscrs = bsc_subscr_get l.free_address (
        l.subscrs
        ++ (bsc_subscr_set_imsi imsi
              (record { address = l.free_address; use_count = 0; imsi = []; tmsi = tmsi })
            ∷ []));
    free_address = l.free_address + 1;
  },
)

abbrev pub or_alloc : List ℕ → ℕ → Option ℕ × SubscrList → ℕ × SubscrList
or_alloc imsi tmsi (none, l) = bsc_subscr_alloc imsi tmsi l
or_alloc imsi tmsi (some address, l) = (address, l)

unfoldable pub bsc_subscr_find_or_create_by_imsi : List ℕ → SubscrList → ℕ × SubscrList
bsc_subscr_find_or_create_by_imsi imsi l = or_alloc imsi 0 (bsc_subscr_find_by_imsi imsi l)

unfoldable pub bsc_subscr_find_or_create_by_tmsi : ℕ → SubscrList → ℕ × SubscrList
bsc_subscr_find_or_create_by_tmsi tmsi l = or_alloc [] tmsi (bsc_subscr_find_by_tmsi tmsi l)
