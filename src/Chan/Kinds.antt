-- ===== src/Chan/Kinds.antt =====
-- The tables of src/osmo-bsc/gsm_data.c between physical and logical channel kinds.
use mathlib.Core.Bool.{decide, decide_iff}
use osmo_bsc.Base.{ℕ, Bool, true, false, Option, none, some, ◌≡◌, refl}
use osmo_bsc.Chan.Types.{
  Pchan, ccch, ccch_sdcch4, tch_f, tch_h, sdcch8, pdch, tch_f_pdch, pchan_unknown, ccch_sdcch4_cbch,
  sdcch8_cbch, tch_f_tch_h_pdch, Pchan-discrete, ChanType, lchan_none, lchan_sdcch, lchan_tch_f,
  lchan_tch_h, lchan_ccch, lchan_pdtch,
}

-- `==` on pchan kinds
unfoldable pub pchan_eq : Pchan → Pchan → Bool
unfolding Pchan-discrete decide
pchan_eq a b = decide (Pchan-discrete a b)

pub pchan_eq_sound : (a b : Pchan) → pchan_eq a b ≡ true → a ≡ b
unfolding pchan_eq
pchan_eq_sound a b h = (decide_iff (Pchan-discrete a b)).0 h

pub pchan_eq_self : (a : Pchan) → pchan_eq a a ≡ true
unfolding pchan_eq
pchan_eq_self a = (decide_iff (Pchan-discrete a a)).1 refl

-- subslots_per_pchan[] and pchan_subslots(); a kind with no entry in the table has 0.
unfoldable pub pchan_subslots : Pchan → ℕ
pchan_subslots ccch_sdcch4 = 4
pchan_subslots tch_f = 1
pchan_subslots tch_h = 2
pchan_subslots sdcch8 = 8
pchan_subslots ccch_sdcch4_cbch = 4
pchan_subslots sdcch8_cbch = 8
pchan_subslots tch_f_tch_h_pdch = 2
pchan_subslots tch_f_pdch = 1
pchan_subslots _ = 0

-- pchan_is_tch()
unfoldable pub pchan_is_tch : Pchan → Bool
pchan_is_tch tch_f = true
pchan_is_tch tch_h = true
pchan_is_tch _ = false

-- gsm_lchan_type_by_pchan(); `none` is the -1.
unfoldable pub gsm_lchan_type_by_pchan : Pchan → Option ChanType
gsm_lchan_type_by_pchan tch_f = some lchan_tch_f
gsm_lchan_type_by_pchan tch_h = some lchan_tch_h
gsm_lchan_type_by_pchan sdcch8 = some lchan_sdcch
gsm_lchan_type_by_pchan sdcch8_cbch = some lchan_sdcch
gsm_lchan_type_by_pchan ccch_sdcch4 = some lchan_sdcch
gsm_lchan_type_by_pchan ccch_sdcch4_cbch = some lchan_sdcch
gsm_lchan_type_by_pchan _ = none

-- gsm_pchan_by_lchan_type()
unfoldable pub gsm_pchan_by_lchan_type : ChanType → Pchan
gsm_pchan_by_lchan_type lchan_tch_f = tch_f
gsm_pchan_by_lchan_type lchan_tch_h = tch_h
gsm_pchan_by_lchan_type lchan_none = pdch
gsm_pchan_by_lchan_type lchan_pdtch = pdch
gsm_pchan_by_lchan_type _ = pchan_unknown

-- ts_is_capable_of_pchan(), of ts->pchan_on_init: one clause for each `case`, with the inner
-- switch's `default: return false` as the clause below it.
unfoldable pub capable_of_pchan : Pchan → Pchan → Bool
unfolding pchan_eq
capable_of_pchan tch_f_pdch tch_f = true
capable_of_pchan tch_f_pdch pdch = true
capable_of_pchan tch_f_pdch _ = false
capable_of_pchan tch_f_tch_h_pdch tch_f = true
capable_of_pchan tch_f_tch_h_pdch tch_h = true
capable_of_pchan tch_f_tch_h_pdch pdch = true
capable_of_pchan tch_f_tch_h_pdch _ = false
capable_of_pchan ccch_sdcch4_cbch ccch_sdcch4_cbch = true
capable_of_pchan ccch_sdcch4_cbch ccch_sdcch4 = true
capable_of_pchan ccch_sdcch4_cbch ccch = true
capable_of_pchan ccch_sdcch4_cbch _ = false
capable_of_pchan ccch_sdcch4 ccch_sdcch4 = true
capable_of_pchan ccch_sdcch4 ccch = true
capable_of_pchan ccch_sdcch4 _ = false
capable_of_pchan sdcch8_cbch sdcch8_cbch = true
capable_of_pchan sdcch8_cbch sdcch8 = true
capable_of_pchan sdcch8_cbch _ = false
capable_of_pchan on_init as_pchan = pchan_eq on_init as_pchan

-- ts_is_capable_of_lchant(), of ts->pchan_on_init.
unfoldable pub capable_of_lchant : Pchan → ChanType → Bool
capable_of_lchant tch_f lchan_tch_f = true
capable_of_lchant tch_h lchan_tch_h = true
capable_of_lchant tch_f_pdch lchan_tch_f = true
capable_of_lchant tch_f_pdch lchan_pdtch = true
capable_of_lchant tch_f_tch_h_pdch lchan_tch_f = true
capable_of_lchant tch_f_tch_h_pdch lchan_tch_h = true
capable_of_lchant tch_f_tch_h_pdch lchan_pdtch = true
capable_of_lchant pdch lchan_pdtch = true
capable_of_lchant ccch lchan_ccch = true
capable_of_lchant ccch_sdcch4_cbch lchan_ccch = true
capable_of_lchant ccch_sdcch4_cbch lchan_sdcch = true
capable_of_lchant ccch_sdcch4 lchan_ccch = true
capable_of_lchant ccch_sdcch4 lchan_sdcch = true
capable_of_lchant sdcch8 lchan_ccch = true
capable_of_lchant sdcch8 lchan_sdcch = true
capable_of_lchant sdcch8_cbch lchan_ccch = true
capable_of_lchant sdcch8_cbch lchan_sdcch = true
capable_of_lchant _ _ = false
