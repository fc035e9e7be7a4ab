-- ===== src/Codec/First.antt =====
-- The codec that match_codec_pref() of src/osmo-bsc/codec_pref.c chooses.
use osmo_bsc.Base.{
  ℕ, Bool, true, false, not, Option, none, some, List, [], ◌∷◌, ◌==◌, if◌then◌else◌, ◌||◌, either,
  ◌≡◌, refl,
}
use osmo_bsc.Codec.{
  PermSpeech, RatePref, ch_rate_sdcch, cmode_sign, ModeAndRate, AudioSupport, BtsCodecs, MscCodecs,
  MatchRc, rc_match, rc_no_match, SpeechCodec, Gsm0808,
}
use osmo_bsc.Codec.Choose.{
  full_rate_from_perm_spch, gsm88_to_chan_mode, audio_support_to_gsm88, test_codec_pref,
  test_codec_support_bts, match_amr_s15_s0, Tried, next, matched, rate_of, discards, is_amr,
  try_amr, try_match, try_rate, try_speech, then_next, match_loop, match_result, match_codec_pref,
}

-- A configured codec is of the rate that its entry says.
pub full_rate-audio :
    (hr : Bool) (ver : ℕ)
    → full_rate_from_perm_spch (audio_support_to_gsm88 (record { hr = hr; ver = ver }))
      ≡ some (not hr)
unfolding full_rate_from_perm_spch audio_support_to_gsm88
full_rate-audio true ver =
    either {A = PermSpeech} (λ p. full_rate_from_perm_spch p ≡ some false) (ver == 2) refl
      (either {A = PermSpeech} (λ p. full_rate_from_perm_spch p ≡ some false) (ver == 3) refl refl)
full_rate-audio false ver =
    either {A = PermSpeech} (λ p. full_rate_from_perm_spch p ≡ some true) (ver == 2) refl
      (either {A = PermSpeech} (λ p. full_rate_from_perm_spch p ≡ some true) (ver == 3) refl refl)

module _ (lib : Gsm0808) (msc : MscCodecs) (bts : BtsCodecs) (scl : List SpeechCodec)
    (ct : List PermSpeech) (pref : RatePref) where
  -- The rates for a codec of the MSC's list (none but for AMR), if it can be used: it is of the wanted rate, the
  -- BTS supports it, the MSC permits it, and for AMR there is a rate in common.
  abbrev pub permitted : PermSpeech → Bool × Option SpeechCodec
  permitted speech = test_codec_pref lib scl ct speech

  abbrev pub suiting : AudioSupport → Option ℕ
  suiting a =
      let speech = audio_support_to_gsm88 a in
      if discards pref (not a.hr)
        || not (test_codec_support_bts bts speech)
        || not (permitted speech).0
      then none
      else if is_amr speech
      then match_amr_s15_s0 lib msc bts (permitted speech).1 speech
      else some 0

  abbrev pub or_first :
      AudioSupport → Option ℕ → Option (AudioSupport × ℕ) → Option (AudioSupport × ℕ)
  or_first a none rest = rest
  or_first a (some s) rest = some (a, s)

  -- The first that can be used.
  abbrev pub first_suiting : List AudioSupport → Option (AudioSupport × ℕ)
  first_suiting [] = none
  first_suiting (a ∷ others) = or_first a (suiting a) (first_suiting others)

  abbrev pub answer : Option (AudioSupport × ℕ) → MatchRc × ModeAndRate
  answer none =
      (rc_no_match, record { chan_mode = cmode_sign; chan_rate = ch_rate_sdcch; s15_s0 = 0 })
  answer (some (a, s)) = (
    rc_match,
    record {
      chan_mode = gsm88_to_chan_mode (audio_support_to_gsm88 a);
      chan_rate = rate_of (not a.hr);
      s15_s0 = s;
    },
  )

  module _ (a : AudioSupport) (go_on : ModeAndRate → Tried) (rest : Option (AudioSupport × ℕ))
      (h : (ch : ModeAndRate) → match_result lib msc bts scl ct pref (go_on ch) ≡ answer rest)
      (ch : ModeAndRate) where
    abbrev rated : ModeAndRate
    rated = record ch { chan_rate = rate_of (not a.hr) }

    result-amr :
        (amr : Bool) (o : Option ℕ)
        → match_result lib msc bts scl ct pref (
            then_next lib msc bts scl ct pref
              (if amr
                then try_amr (audio_support_to_gsm88 a) rated o
                else matched (audio_support_to_gsm88 a) (record rated { s15_s0 = 0 }))
              go_on)
          ≡ answer (or_first a (if amr then o else some 0) rest)
    unfolding match_result then_next try_amr
    result-amr true none = h _
    result-amr true (some s) = refl
    result-amr false o = refl

    result-tests :
        (discarded supported : Bool) (m : Bool × Option SpeechCodec)
        → match_result lib msc bts scl ct pref (
            then_next lib msc bts scl ct pref
              (if discarded
                then next rated
                else if not supported
                then next rated
                else try_match lib msc bts (audio_support_to_gsm88 a) rated m)
              go_on)
          ≡ answer (
              or_first a
                (if discarded || not supported || not m.0
                  then none
                  else if is_amr (audio_support_to_gsm88 a)
                  then match_amr_s15_s0 lib msc bts m.1 (audio_support_to_gsm88 a)
                  else some 0)
                rest)
    unfolding then_next try_match
    result-tests true supported m = h rated
    result-tests false false m = h rated
    result-tests false true (false, sc) = h rated
    result-tests false true (true, sc) = result-amr (is_amr (audio_support_to_gsm88 a)) _

    result-try :
        match_result lib msc bts scl ct pref (
          then_next lib msc bts scl ct pref
            (try_speech lib msc bts scl ct pref (audio_support_to_gsm88 a) ch)
            go_on)
        ≡ answer (or_first a (suiting a) rest)
    unfolding try_speech try_rate
    result-try = rw (full_rate-audio a.hr a.ver) (
        result-tests (discards pref (not a.hr))
          (test_codec_support_bts bts (audio_support_to_gsm88 a))
          (permitted (audio_support_to_gsm88 a)))

  result-match_loop :
      (others : List AudioSupport) (ch : ModeAndRate)
      → match_result lib msc bts scl ct pref (match_loop lib msc bts scl ct pref others ch)
        ≡ answer (first_suiting others)
  unfolding match_result match_loop
  result-match_loop [] ch = refl
  result-match_loop (a ∷ others) ch =
      result-try a (match_loop lib msc bts scl ct pref others) (first_suiting others)
        (result-match_loop others) ch

  -- match_codec_pref() gives the first codec of the MSC's list that is of the wanted rate, that the BTS supports,
  -- that channel type and codec list permit and that, for AMR, has a rate in common, with channel mode,
  -- rate and AMR rates of that codec; without one it fails with the result for signalling. What the result
  -- was before does not matter.
  pub match_codec_pref-first :
      (ch : ModeAndRate)
      → match_codec_pref lib msc bts scl ct pref ch ≡ answer (first_suiting msc.audio_support)
  unfolding match_codec_pref
  match_codec_pref-first ch = result-match_loop msc.audio_support ch
