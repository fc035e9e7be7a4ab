-- ===== src/Chan/Select.antt =====
-- Channel selection, src/osmo-bsc/lchan_select.c. A pointer to an lchan is the place where it
-- stands: the position of its transceiver in bts->trx_list, of its timeslot and of itself.
pub mod Found
pub mod Suitable
pub mod Frame
mod Tests
use mathlib.Core.Option as Opt
use osmo_bsc.Base.{
  ℕ, zero, suc, ◌+◌, Bool, true, false, not, Option, none, some, List, [], ◌∷◌, reverse, get_elem?,
  set, length, if◌then◌else◌, or_else, first_some,
}
use osmo_bsc.Chan.Types.{
  Pchan, ccch_sdcch4, tch_f, tch_h, sdcch8, tch_f_pdch, ccch_sdcch4_cbch, sdcch8_cbch,
  tch_f_tch_h_pdch, ChanType, lchan_sdcch, lchan_tch_f, lchan_tch_h, LchanState, Lchan, Ts, Trx,
  Bts,
}
use osmo_bsc.Chan.Kinds.{pchan_eq}
use osmo_bsc.Chan.Usable.{
  trx_is_usable, ts_is_usable, lchans_as_pchan, ts_usable_as_pchan, is_unused,
}

pub record Place : Type 0 where
  pub trx : ℕ
  pub ts : ℕ
  pub ss : ℕ

-- The innermost loop of _lc_find_trx(): the position of the first unused lchan.
unfoldable pub first_unused : List (ℕ × Lchan × LchanState) → Option ℕ
first_unused [] = none
first_unused ((i, l, st) ∷ ls) = if is_unused st then some i else first_unused ls

-- One round of the loop over the timeslots in _lc_find_trx().
unfoldable pub find_in_ts : Bts → Trx → Pchan → Pchan → Ts → Option ℕ
find_in_ts bts trx pchan as_pchan ts =
    if not (ts_is_usable bts trx ts)
    then none
    else if not (pchan_eq ts.pchan_on_init pchan)
    then none
    else if not (ts_usable_as_pchan bts trx ts as_pchan)
    then none
    else first_unused (lchans_as_pchan as_pchan 0 ts.lchans)

-- The values of `j` in `for (j = start; j != stop; j += dir)`.
abbrev pub ts_order : Bool → List ℕ
ts_order true = 7 ∷ 6 ∷ 5 ∷ 4 ∷ 3 ∷ 2 ∷ 1 ∷ 0 ∷ []
ts_order false = 0 ∷ 1 ∷ 2 ∷ 3 ∷ 4 ∷ 5 ∷ 6 ∷ 7 ∷ []

-- &trx->ts[j], and the search in it; there is no timeslot past the end of the array.
abbrev pub find_in_slot : Bts → Trx → Pchan → Pchan → ℕ → Option Ts → Option (ℕ × ℕ)
find_in_slot bts trx pchan as_pchan j none = none
find_in_slot bts trx pchan as_pchan j (some ts) =
    Opt.map (λ ss. (j, ss)) (find_in_ts bts trx pchan as_pchan ts)

-- _lc_find_trx()
unfoldable pub lc_find_trx : Bts → Trx → Pchan → Pchan → Option (ℕ × ℕ)
lc_find_trx bts trx pchan as_pchan =
    if not (trx_is_usable bts trx)
    then none
    else first_some (λ j. find_in_slot bts trx pchan as_pchan j (get_elem? trx.ts j))
        (ts_order bts.chan_alloc_reverse)

-- The positions of a list of `n` elements, from `i` on.
pub positions : ℕ → ℕ → List ℕ
positions i zero = []
positions i (suc n) = i ∷ positions (i + 1) n

-- llist_for_each_entry() and llist_for_each_entry_reverse() over bts->trx_list
pub trx_order : Bts → List ℕ
trx_order bts =
    if bts.chan_alloc_reverse
    then reverse (positions 0 (length bts.trx_list))
    else positions 0 (length bts.trx_list)

abbrev pub find_in_trx : Bts → Pchan → Pchan → ℕ → Option Trx → Option Place
find_in_trx bts pchan as_pchan i none = none
find_in_trx bts pchan as_pchan i (some trx) =
    Opt.map (λ (j, ss). record { trx = i; ts = j; ss = ss }) (lc_find_trx bts trx pchan as_pchan)

-- _lc_dyn_find_bts()
pub lc_dyn_find_bts : Bts → Pchan → Pchan → Option Place
lc_dyn_find_bts bts pchan as_pchan =
    first_some (λ i. find_in_trx bts pchan as_pchan i (get_elem? bts.trx_list i)) (trx_order bts)

-- _lc_find_bts()
pub lc_find_bts : Bts → Pchan → Option Place
lc_find_bts bts pchan = lc_dyn_find_bts bts pchan pchan

-- The switch of lchan_select_by_type(), before the type is written to the lchan.
pub find_by_type : Bts → ChanType → Option Place
find_by_type bts lchan_sdcch =
    if bts.chan_alloc_reverse
    then or_else (lc_find_bts bts sdcch8) (
        or_else (lc_find_bts bts sdcch8_cbch)
          (or_else (lc_find_bts bts ccch_sdcch4) (lc_find_bts bts ccch_sdcch4_cbch)))
    else or_else (lc_find_bts bts ccch_sdcch4) (
        or_else (lc_find_bts bts ccch_sdcch4_cbch)
          (or_else (lc_find_bts bts sdcch8) (lc_find_bts bts sdcch8_cbch)))
find_by_type bts lchan_tch_f = or_else (lc_find_bts bts tch_f) (
    or_else (lc_dyn_find_bts bts tch_f_pdch tch_f)
      (if bts.dyn_ts_allow_tch_f then lc_dyn_find_bts bts tch_f_tch_h_pdch tch_f else none))
find_by_type bts lchan_tch_h =
    or_else (lc_find_bts bts tch_h) (lc_dyn_find_bts bts tch_f_tch_h_pdch tch_h)
find_by_type bts _ = none

-- lchan->type = type, through the pointer.
update {ℓ} : {A : Type ℓ} → (A → A) → ℕ → List A → List A
update f i [] = []
update f zero (x ∷ xs) = f x ∷ xs
update f (suc i) (x ∷ xs) = x ∷ update f i xs

in_lchan : ChanType → Lchan → Lchan
in_lchan type l = record l { chan_type = type }

in_ts : ChanType → ℕ → Ts → Ts
unfolding update in_lchan
in_ts type ss ts = record ts { lchans = update (in_lchan type) ss ts.lchans }

in_trx : ChanType → Place → Trx → Trx
unfolding update in_ts
in_trx type p trx = record trx { ts = update (in_ts type p.ss) p.ts trx.ts }

pub set_lchan_type : Bts → Place → ChanType → Bts
unfolding update in_trx
set_lchan_type bts p type = record bts { trx_list = update (in_trx type p) p.trx bts.trx_list }

-- lchan_select_by_type(): the lchan, and the BTS with its type set. In every case that finds an
-- lchan, the local `type` still has the value that was asked for.
pub lchan_select_by_type : Bts → ChanType → Option Place × Bts
lchan_select_by_type bts type = elim (find_by_type bts type) [
  | none ↦ (none, bts)
  | some p ↦ (some p, set_lchan_type bts p type)
]

-- enum gsm48_chan_mode and enum channel_rate, as far as the code names them.
pub data ChanMode : Type 0 where
  cmode_sign cmode_speech_v1 cmode_speech_efr cmode_speech_amr cmode_other : ChanMode

pub data ChanRate : Type 0 where
  rate_sdcch rate_half rate_full rate_other : ChanRate

-- The nested switch of lchan_select_by_chan_mode(): the type to ask for, if any.
pub type_by_chan_mode : ChanMode → ChanRate → Option ChanType
type_by_chan_mode cmode_sign rate_sdcch = some lchan_sdcch
type_by_chan_mode cmode_sign rate_half = some lchan_tch_h
type_by_chan_mode cmode_sign rate_full = some lchan_tch_f
type_by_chan_mode cmode_speech_efr rate_full = some lchan_tch_f
type_by_chan_mode cmode_speech_v1 rate_half = some lchan_tch_h
type_by_chan_mode cmode_speech_v1 rate_full = some lchan_tch_f
type_by_chan_mode cmode_speech_amr rate_half = some lchan_tch_h
type_by_chan_mode cmode_speech_amr rate_full = some lchan_tch_f
type_by_chan_mode _ _ = none

-- lchan_select_by_chan_mode()
pub lchan_select_by_chan_mode : Bts → ChanMode → ChanRate → Option Place × Bts
lchan_select_by_chan_mode bts mode rate = elim (type_by_chan_mode mode rate) [
  | none ↦ (none, bts)
  | some type ↦ lchan_select_by_type bts type
]
