-- ===== src/Chan/Types.antt =====
-- The data of include/osmocom/bsc/gsm_data.h, lchan_fsm.h and timeslot_fsm.h that channel
-- allocation reads: a BTS holds transceivers, each with timeslots, each with lchans.
use osmo_bsc.Base.{ℕ, Bool, Option, List}

-- enum gsm_phys_chan_config, by the names that gsm_data.c lists.
pub data Pchan : Type 0 where
  pchan_none ccch ccch_sdcch4 tch_f tch_h sdcch8 pdch tch_f_pdch pchan_unknown : Pchan
  ccch_sdcch4_cbch sdcch8_cbch tch_f_tch_h_pdch : Pchan

unfoldable pub Pchan-discrete : Discrete Pchan
Pchan-discrete = hlevel

-- enum gsm_chan_t
pub data ChanType : Type 0 where
  lchan_none lchan_sdcch lchan_tch_f lchan_tch_h lchan_unknown lchan_ccch lchan_pdtch : ChanType
  lchan_cbch : ChanType

unfoldable pub ChanType-discrete : Discrete ChanType
ChanType-discrete = hlevel

-- enum lchan_fsm_state
pub data LchanState : Type 0 where
  unused cbch wait_ts_ready wait_activ_ack wait_rll_rtp_establish established : LchanState
  wait_rll_rtp_released wait_before_rf_release wait_rf_release_ack : LchanState
  wait_after_error borken : LchanState

-- enum ts_fsm_state
pub data TsState : Type 0 where
  ts_not_initialized ts_unused ts_wait_pdch_act ts_pdch ts_wait_pdch_deact : TsState
  ts_in_use ts_borken : TsState

-- enum nm_opstate and enum nm_avstate of the OML, as far as nm_is_running() tells them apart.
pub record NmState : Type 0 where
  pub enabled : Bool  -- operational == NM_OPSTATE_ENABLED
  pub avail_ok : Bool  -- availability == NM_AVSTATE_OK
  pub avail_unset : Bool  -- availability == 0xff

-- struct gsm_lchan; `fi` is the state of its FSM instance, `none` for a NULL pointer.
pub record Lchan : Type 0 where
  pub nr : ℕ
  pub chan_type : ChanType
  pub fi : Option LchanState

-- struct gsm_bts_trx_ts
pub record Ts : Type 0 where
  pub pchan_from_config : Pchan
  pub pchan_on_init : Pchan
  pub pchan_is : Pchan
  pub fi : Option TsState
  pub mo : NmState
  pub lchans : List Lchan

-- struct gsm_bts_trx
pub record Trx : Type 0 where
  pub mo : NmState
  pub bb_transc : NmState
  pub ts : List Ts

-- struct gsm_bts, with dyn_ts_allow_tch_f of its network.
pub record Bts : Type 0 where
  pub is_ipaccess : Bool
  pub chan_alloc_reverse : Bool
  pub dyn_ts_allow_tch_f : Bool
  pub trx_list : List Trx
