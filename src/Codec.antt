-- ===== src/Codec.antt =====
-- Choice of a speech codec: src/osmo-bsc/codec_pref.c. What libosmocore makes of a multi rate configuration
-- and of a permitted speech value is a parameter.
pub mod Choose
pub mod Advertise
pub mod First
pub mod Rates
mod Tests
use osmo_bsc.Base.{ℕ, Bool, List, Option}
use osmo_bsc.Chan.Types.{Pchan}

-- enum gsm0808_permitted_speech; perm_other is each value that the code does not
-- name, which it never looks for.
pub data PermSpeech : Type 0 where
  perm_fr1 perm_fr2 perm_fr3 perm_fr4 perm_fr5 perm_hr1 perm_hr2 perm_hr3 perm_hr4 perm_hr6 :
      PermSpeech
  perm_other : PermSpeech

unfoldable pub PermSpeech-discrete : Discrete PermSpeech
PermSpeech-discrete = hlevel

-- enum rate_pref, enum channel_rate and enum gsm48_chan_mode, as far as they are used.
pub data RatePref : Type 0 where
  rate_pref_none rate_pref_hr rate_pref_fr : RatePref

pub data ChanRate : Type 0 where
  ch_rate_sdcch ch_rate_half ch_rate_full : ChanRate

pub data SpeechMode : Type 0 where
  cmode_sign cmode_speech_v1 cmode_speech_efr cmode_speech_amr : SpeechMode

-- What match_codec_pref() returns: 0, -1 or -EINVAL.
pub data MatchRc : Type 0 where
  rc_match rc_no_match rc_einval : MatchRc

-- struct channel_mode_and_rate
pub record ModeAndRate : Type 0 where
  pub chan_mode : SpeechMode
  pub chan_rate : ChanRate
  pub s15_s0 : ℕ

-- struct gsm_audio_support
pub record AudioSupport : Type 0 where
  pub hr : Bool
  pub ver : ℕ

-- struct gsm48_multi_rate_conf: its first two bytes, the second with a bit for each rate.
pub record MultiRateConf : Type 0 where
  pub octet : ℕ
  pub rates : ℕ

-- struct gsm_bts: the configured channel of each timeslot of its transceivers, and its codecs.
pub record BtsCodecs : Type 0 where
  pub trx_list : List (List Pchan)
  pub codec_hr : Bool
  pub codec_efr : Bool
  pub codec_amr : Bool
  pub mr_full : MultiRateConf
  pub mr_half : MultiRateConf

-- struct bsc_msc_data: its codecs.
pub record MscCodecs : Type 0 where
  pub audio_support : List AudioSupport
  pub amr_conf : MultiRateConf

-- struct gsm0808_speech_codec
pub record SpeechCodec : Type 0 where
  pub type : ℕ
  pub cfg : ℕ

-- gsm0808_sc_cfg_from_gsm48_mr_cfg() and gsm0808_speech_codec_from_chan_type() of libosmocore
pub record Gsm0808 : Type 0 where
  pub sc_cfg_from_mr_cfg : MultiRateConf → Bool → ℕ
  pub speech_codec_from_chan_type : PermSpeech → Option SpeechCodec
