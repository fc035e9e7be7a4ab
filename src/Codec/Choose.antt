-- ===== src/Codec/Choose.antt =====
-- The tests and the loop of match_codec_pref() in src/osmo-bsc/codec_pref.c.
use osmo_bsc.Base.{
  ℕ, zero, suc, ◌+◌, ◌*◌, ◌/◌, ◌%◌, Bool, true, false, not, Option, none, some, List, [], ◌∷◌, ◌==◌,
  if◌then◌else◌, ◌&&◌, ◌||◌,
}
use osmo_bsc.Base.Bits.{bit}
use osmo_bsc.Chan.Types.{Pchan, tch_f, tch_h, tch_f_pdch, tch_f_tch_h_pdch}
use osmo_bsc.Codec.{
  PermSpeech, perm_fr1, perm_fr2, perm_fr3, perm_fr4, perm_fr5, perm_hr1, perm_hr2, perm_hr3,
  perm_hr4, perm_hr6, perm_other, PermSpeech-discrete, RatePref, rate_pref_none, rate_pref_hr,
  rate_pref_fr, ChanRate, ch_rate_sdcch, ch_rate_half, ch_rate_full, SpeechMode, cmode_sign,
  cmode_speech_v1, cmode_speech_efr, cmode_speech_amr, ModeAndRate, AudioSupport, MatchRc, rc_match,
  rc_no_match, rc_einval, BtsCodecs, MscCodecs, SpeechCodec, Gsm0808,
}
use mathlib.Core.Bool.{decide}

unfoldable pub full_rate_from_perm_spch : PermSpeech → Option Bool
full_rate_from_perm_spch perm_hr1 = some false
full_rate_from_perm_spch perm_hr2 = some false
full_rate_from_perm_spch perm_hr3 = some false
full_rate_from_perm_spch perm_hr4 = some false
full_rate_from_perm_spch perm_hr6 = some false
full_rate_from_perm_spch perm_fr1 = some true
full_rate_from_perm_spch perm_fr2 = some true
full_rate_from_perm_spch perm_fr3 = some true
full_rate_from_perm_spch perm_fr4 = some true
full_rate_from_perm_spch perm_fr5 = some true
full_rate_from_perm_spch perm_other = none

unfoldable pub gsm88_to_chan_mode : PermSpeech → SpeechMode
gsm88_to_chan_mode perm_hr1 = cmode_speech_v1
gsm88_to_chan_mode perm_fr1 = cmode_speech_v1
gsm88_to_chan_mode perm_fr2 = cmode_speech_efr
gsm88_to_chan_mode _ = cmode_speech_amr

unfoldable pub audio_support_to_gsm88 : AudioSupport → PermSpeech
audio_support_to_gsm88 a =
    if a.hr
    then if a.ver == 2 then perm_hr2 else if a.ver == 3 then perm_hr3 else perm_hr1
    else if a.ver == 2
    then perm_fr2
    else if a.ver == 3
    then perm_fr3
    else perm_fr1

abbrev pub same_speech : PermSpeech → PermSpeech → Bool
same_speech p q = decide (PermSpeech-discrete p q)

-- test_codec_pref(): whether the channel type and the list of codecs permit it, and the codec of the list.
unfoldable pub in_perm_spch : PermSpeech → List PermSpeech → Bool
in_perm_spch speech [] = false
in_perm_spch speech (p ∷ ps) = same_speech p speech || in_perm_spch speech ps

unfoldable pub find_codec : SpeechCodec → List SpeechCodec → Bool × Option SpeechCodec
find_codec sc [] = (false, none)
find_codec sc (c ∷ cs) =
    let rest = find_codec sc cs in if sc.type == c.type then (true, some c) else rest

unfoldable pub find_extrapolated : Option SpeechCodec → List SpeechCodec → Bool × Option SpeechCodec
find_extrapolated none scl = (false, none)
find_extrapolated (some sc) scl = find_codec sc scl

unfoldable pub test_codec_pref :
    Gsm0808 → List SpeechCodec → List PermSpeech → PermSpeech → Bool × Option SpeechCodec
test_codec_pref lib [] ct speech = (in_perm_spch speech ct, none)
test_codec_pref lib (c ∷ cs) ct speech =
    if in_perm_spch speech ct
    then find_extrapolated (lib.speech_codec_from_chan_type speech) (c ∷ cs)
    else (false, none)

-- test_codec_support_bts()
unfoldable pub carries : Bool → Pchan → Bool
carries full_rate tch_f_tch_h_pdch = true
carries true tch_f = true
carries true tch_f_pdch = true
carries false tch_h = true
carries _ _ = false

unfoldable pub ts_carries : Bool → List Pchan → Bool
ts_carries full_rate [] = false
ts_carries full_rate (p ∷ ps) = carries full_rate p || ts_carries full_rate ps

unfoldable pub rate_match : Bool → List (List Pchan) → Bool
rate_match full_rate [] = false
rate_match full_rate (t ∷ ts) = ts_carries full_rate t || rate_match full_rate ts

unfoldable pub codec_support : BtsCodecs → PermSpeech → Bool
codec_support bts perm_fr1 = true
codec_support bts perm_fr2 = bts.codec_efr
codec_support bts perm_fr3 = bts.codec_amr
codec_support bts perm_hr1 = bts.codec_hr
codec_support bts perm_hr3 = bts.codec_amr
codec_support bts _ = false

unfoldable pub support_at : BtsCodecs → PermSpeech → Option Bool → Bool
support_at bts speech none = false
support_at bts speech (some full_rate) =
    rate_match full_rate bts.trx_list && codec_support bts speech

unfoldable pub test_codec_support_bts : BtsCodecs → PermSpeech → Bool
test_codec_support_bts bts speech = support_at bts speech (full_rate_from_perm_spch speech)

-- x & y, of so many bits
unfoldable pub bit_and : ℕ → ℕ → ℕ → ℕ
bit_and zero x y = 0
bit_and (suc width) x y =
    (if x % 2 == 1 && y % 2 == 1 then 1 else 0) + 2 * bit_and width (x / 2) (y / 2)

unfoldable pub gen_bss_supported_amr_s15_s0 : Gsm0808 → MscCodecs → BtsCodecs → Bool → ℕ
gen_bss_supported_amr_s15_s0 lib msc bts hr =
    bit_and 16
      (if hr
        then lib.sc_cfg_from_mr_cfg bts.mr_half false
        else lib.sc_cfg_from_mr_cfg bts.mr_full true)
      (lib.sc_cfg_from_mr_cfg msc.amr_conf true)

-- match_amr_s15_s0(): none is an empty set of rates.
abbrev pub with_cfg : Option SpeechCodec → ℕ → ℕ
with_cfg none supported = supported
with_cfg (some sc) supported = bit_and 16 sc.cfg supported

abbrev pub prefer_s1 : ℕ → ℕ
prefer_s1 s = if bit s 1 then s / 256 * 256 + 2 else s

abbrev pub some_rate : ℕ → Option ℕ
some_rate s = if s % 256 == 0 then none else some s

unfoldable pub match_amr_s15_s0 :
    Gsm0808 → MscCodecs → BtsCodecs → Option SpeechCodec → PermSpeech → Option ℕ
match_amr_s15_s0 lib msc bts sc_match speech = some_rate (
    prefer_s1
      (with_cfg sc_match (gen_bss_supported_amr_s15_s0 lib msc bts (same_speech speech perm_hr3))))

-- One turn of the loop: -EINVAL, on to the next one, or a match.
pub data Tried : Type 0 where
  refused next : ModeAndRate → Tried
  matched : PermSpeech → ModeAndRate → Tried

abbrev pub rate_of : Bool → ChanRate
rate_of full_rate = if full_rate then ch_rate_full else ch_rate_half

unfoldable pub discards : RatePref → Bool → Bool
discards rate_pref_hr full_rate = full_rate
discards rate_pref_fr full_rate = not full_rate
discards rate_pref_none full_rate = false

unfoldable pub is_amr : PermSpeech → Bool
is_amr perm_hr3 = true
is_amr perm_fr3 = true
is_amr _ = false

unfoldable pub try_amr : PermSpeech → ModeAndRate → Option ℕ → Tried
try_amr speech ch none = next (record ch { s15_s0 = 0 })
try_amr speech ch (some s) = matched speech (record ch { s15_s0 = s })

module _ (lib : Gsm0808) (msc : MscCodecs) (bts : BtsCodecs) where
  unfoldable pub try_match : PermSpeech → ModeAndRate → Bool × Option SpeechCodec → Tried
  try_match speech ch (false, sc_match) = next ch
  try_match speech ch (true, sc_match) =
      if is_amr speech
      then try_amr speech ch (match_amr_s15_s0 lib msc bts sc_match speech)
      else matched speech (record ch { s15_s0 = 0 })

  module _ (scl : List SpeechCodec) (ct : List PermSpeech) (pref : RatePref) where
    unfoldable pub try_rate : PermSpeech → ModeAndRate → Option Bool → Tried
    try_rate speech ch none = refused ch
    try_rate speech ch (some full_rate) =
        let ch' = record ch { chan_rate = rate_of full_rate } in
        if discards pref full_rate
        then next ch'
        else if not (test_codec_support_bts bts speech)
        then next ch'
        else try_match speech ch' (test_codec_pref lib scl ct speech)

    unfoldable pub try_speech : PermSpeech → ModeAndRate → Tried
    try_speech speech ch = try_rate speech ch (full_rate_from_perm_spch speech)

    unfoldable pub then_next : Tried → (ModeAndRate → Tried) → Tried
    then_next (next ch) go_on = go_on ch
    then_next t go_on = t

    unfoldable pub match_loop : List AudioSupport → ModeAndRate → Tried
    match_loop [] ch = next ch
    match_loop (a ∷ rest) ch =
        then_next (try_speech (audio_support_to_gsm88 a) ch) (match_loop rest)

    -- What is returned, and the result.
    unfoldable pub match_result : Tried → MatchRc × ModeAndRate
    match_result (refused ch) = (rc_einval, ch)
    match_result (next ch) =
        (rc_no_match, record { chan_mode = cmode_sign; chan_rate = ch_rate_sdcch; s15_s0 = 0 })
    match_result (matched speech ch) =
        (rc_match, record ch { chan_mode = gsm88_to_chan_mode speech })

    unfoldable pub match_codec_pref : ModeAndRate → MatchRc × ModeAndRate
    match_codec_pref ch = match_result (match_loop msc.audio_support ch)
