-- ===== src/Codec/Tests.antt =====
-- A BTS with one TCH/F, an MSC that prefers half rate AMR, and the witnesses of what is proved of codecs.
use osmo_bsc.Base.{Option, arith, ℕ, true, false, none, some, List, [], ◌∷◌, ◌≡◌, refl}
use osmo_bsc.Base.Bits.{bit}
use osmo_bsc.Chan.Types.{tch_f}
use osmo_bsc.Codec.{
  PermSpeech, perm_fr1, perm_fr3, PermSpeech-discrete, rate_pref_none, ch_rate_sdcch, ch_rate_full,
  cmode_sign, cmode_speech_amr, ModeAndRate, MultiRateConf, BtsCodecs, MscCodecs, rc_match,
  SpeechCodec, Gsm0808,
}
use osmo_bsc.Codec.Choose.{
  full_rate_from_perm_spch, gsm88_to_chan_mode, audio_support_to_gsm88, in_perm_spch,
  test_codec_pref, carries, ts_carries, rate_match, codec_support, support_at,
  test_codec_support_bts, bit_and, gen_bss_supported_amr_s15_s0, match_amr_s15_s0, discards, is_amr,
  try_amr, try_match, try_rate, try_speech, then_next, match_loop, match_result, match_codec_pref,
}
use osmo_bsc.Codec.First.{answer, first_suiting, match_codec_pref-first}
use osmo_bsc.Codec.Advertise.Chosen.{IsKnown, has_type, speech_of, chosen-has_type}
use osmo_bsc.Codec.Advertise.{gen_bss_supported_codec_list}
use osmo_bsc.Codec.{
  perm_fr2, perm_fr4, perm_fr5, perm_hr1, perm_hr2, perm_hr3, perm_hr4, perm_hr6, perm_other,
}
use osmo_bsc.Codec.Rates.{within, match_amr_s15_s0_rates}
use osmo_bsc.Base.{◌≢◌, ◌%◌}
use mathlib.Core.Bool.{decide}

-- The types of codecs, and none for half rate 2 and what is not named.
abbrev type_of : PermSpeech → Option ℕ
type_of perm_fr1 = some 0
type_of perm_hr1 = some 1
type_of perm_fr2 = some 2
type_of perm_fr3 = some 3
type_of perm_hr3 = some 4
type_of perm_fr4 = some 12
type_of perm_fr5 = some 9
type_of perm_hr4 = some 13
type_of perm_hr6 = some 11
type_of _ = none

abbrev or_zero : Option ℕ → ℕ
or_zero none = 0
or_zero (some n) = n

abbrev codec_of : Option ℕ → Option SpeechCodec
codec_of none = none
codec_of (some n) = some (record { type = n; cfg = 0 })

abbrev codec : PermSpeech → SpeechCodec
codec speech = record { type = or_zero (type_of speech); cfg = 0 }

abbrev lib : Gsm0808
lib = record {
  sc_cfg_from_mr_cfg = λ conf full_rate. conf.rates;
  speech_codec_from_chan_type = λ speech. codec_of (type_of speech);
}

lib-IsKnown : IsKnown lib codec
lib-IsKnown perm_fr1 k = refl
lib-IsKnown perm_fr2 k = refl
lib-IsKnown perm_fr3 k = refl
lib-IsKnown perm_hr1 k = refl
lib-IsKnown perm_hr3 k = refl
lib-IsKnown perm_fr4 k = refl
lib-IsKnown perm_fr5 k = refl
lib-IsKnown perm_hr4 k = refl
lib-IsKnown perm_hr6 k = refl
lib-IsKnown perm_hr2 k = absurd (ground arith)
lib-IsKnown perm_other k = absurd (ground arith)

abbrev conf : MultiRateConf
conf = record { octet = 0; rates = 6 }

abbrev bts : BtsCodecs
bts = record {
  trx_list = (tch_f ∷ []) ∷ [];
  codec_hr = false;
  codec_efr = true;
  codec_amr = true;
  mr_full = conf;
  mr_half = conf;
}

abbrev msc : MscCodecs
msc = record {
  audio_support =
      record { hr = true; ver = 3 }
      ∷ record { hr = false; ver = 3 }
      ∷ record { hr = false; ver = 1 }
      ∷ [];
  amr_conf = conf;
}

abbrev ct : List PermSpeech
ct = perm_fr1 ∷ perm_fr3 ∷ []

abbrev before : ModeAndRate
before = record { chan_mode = cmode_sign; chan_rate = ch_rate_sdcch; s15_s0 = 9 }

abbrev full_amr : ModeAndRate
full_amr = record { chan_mode = cmode_speech_amr; chan_rate = ch_rate_full; s15_s0 = 2 }

full_amr_test : match_codec_pref lib msc bts [] ct rate_pref_none before ≡ (rc_match, full_amr)
unfolding bit full_rate_from_perm_spch gsm88_to_chan_mode audio_support_to_gsm88 in_perm_spch
    test_codec_pref carries ts_carries rate_match codec_support support_at test_codec_support_bts
    bit_and gen_bss_supported_amr_s15_s0 match_amr_s15_s0 discards is_amr try_amr try_match try_rate
    try_speech then_next match_loop match_result match_codec_pref decide PermSpeech-discrete
full_amr_test = refl

match_codec_pref-first_example :
    match_codec_pref lib msc bts [] ct rate_pref_none before
    ≡ answer lib msc bts [] ct rate_pref_none
        (first_suiting lib msc bts [] ct rate_pref_none msc.audio_support)
match_codec_pref-first_example = match_codec_pref-first lib msc bts [] ct rate_pref_none before

chosen-has_type_example :
    has_type (codec (speech_of full_amr)) (gen_bss_supported_codec_list lib msc bts) ≡ true
chosen-has_type_example =
    chosen-has_type lib msc bts codec lib-IsKnown [] ct rate_pref_none before full_amr full_amr_test

match_amr_s15_s0_rates_example : (2 % 256 ≢ 0) × ((within 8 2 6 ≡ true) × (within 8 2 6 ≡ true))
unfolding match_amr_s15_s0 gen_bss_supported_amr_s15_s0 bit_and bit decide PermSpeech-discrete
match_amr_s15_s0_rates_example = match_amr_s15_s0_rates lib msc bts none perm_fr3 2 refl
