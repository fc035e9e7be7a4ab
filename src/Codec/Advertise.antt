-- ===== src/Codec/Advertise.antt =====
-- The list of codecs for the MSC and the check of the configuration, in src/osmo-bsc/codec_pref.c.
pub mod Chosen
use osmo_bsc.Base.{
  ℕ, Bool, true, false, not, Option, none, some, List, [], ◌∷◌, ◌==◌, if◌then◌else◌, ◌&&◌,
}
use osmo_bsc.Codec.{AudioSupport, MultiRateConf, BtsCodecs, MscCodecs, SpeechCodec, Gsm0808}
use osmo_bsc.Codec.Choose.{
  audio_support_to_gsm88, test_codec_support_bts, bit_and, gen_bss_supported_amr_s15_s0,
}

module _ (lib : Gsm0808) (msc : MscCodecs) (bts : BtsCodecs) where
  -- gen_bss_supported_codec_list()
  unfoldable pub add_codec : AudioSupport → Option SpeechCodec → List SpeechCodec → List SpeechCodec
  add_codec a none codecs = codecs
  add_codec a (some sc) codecs =
      (if a.ver == 3 then record sc { cfg = gen_bss_supported_amr_s15_s0 lib msc bts a.hr } else sc)
      ∷ codecs

  unfoldable pub codecs_of : List AudioSupport → List SpeechCodec
  codecs_of [] = []
  codecs_of (a ∷ others) =
      let rest = codecs_of others in
      let speech = audio_support_to_gsm88 a in
      if test_codec_support_bts bts speech
      then add_codec a (lib.speech_codec_from_chan_type speech) rest
      else rest

  unfoldable pub gen_bss_supported_codec_list : List SpeechCodec
  gen_bss_supported_codec_list = codecs_of msc.audio_support

-- calc_amr_rate_intersection(c, b, a): none is an empty set.
unfoldable pub calc_amr_rate_intersection : MultiRateConf → MultiRateConf → Option MultiRateConf
calc_amr_rate_intersection b a =
    let rates = bit_and 8 a.rates b.rates in
    if rates == 0 then none else some (record a { rates = rates })

abbrev pub is_some : Option MultiRateConf → Bool
is_some none = false
is_some (some c) = true

abbrev pub is_no_codec : List SpeechCodec → Bool
is_no_codec [] = true
is_no_codec (c ∷ cs) = false

-- check_codec_pref(), of each MSC with the BTSs of its network: whether it returns 0.
module _ (lib : Gsm0808) where
  unfoldable pub check_bts : MscCodecs → BtsCodecs → Bool → Bool
  check_bts msc bts rc =
      let rc' = if is_no_codec (gen_bss_supported_codec_list lib msc bts) then false else rc in
      let rc'' =
        if is_some (calc_amr_rate_intersection msc.amr_conf bts.mr_full) then rc' else false in
      if is_some (calc_amr_rate_intersection msc.amr_conf bts.mr_half) then rc'' else false

  unfoldable pub check_btss : MscCodecs → List BtsCodecs → Bool → Bool
  check_btss msc [] rc = rc
  check_btss msc (b ∷ bs) rc = check_btss msc bs (check_bts msc b rc)

  unfoldable pub check_mscs : List (MscCodecs × List BtsCodecs) → Bool → Bool
  check_mscs [] rc = rc
  check_mscs (m ∷ ms) rc = check_mscs ms (check_btss m.0 m.1 rc)

  unfoldable pub check_codec_pref : List (MscCodecs × List BtsCodecs) → Bool
  check_codec_pref mscs = check_mscs mscs true
