-- ===== src/Codec/Advertise/Chosen.antt =====
-- The codecs that src/osmo-bsc/codec_pref.c chooses are among those that it sends to the MSC.
use osmo_bsc.Base.{
  ℕ, Bool, true, false, not, Option, none, some, List, [], ◌∷◌, ◌==◌, if◌then◌else◌, ◌||◌,
  Bool-cases, either, ◌≡◌, inl, inr, refl, sym, ap, ◌∙◌, arith,
}
use mathlib.Core.Path.{subst}
use Prim.{tt}
use osmo_bsc.Base.{Returns, ◌&&◌}
use osmo_bsc.Codec.{
  perm_fr1, perm_fr2, perm_fr3, perm_fr4, perm_fr5, perm_hr1, perm_hr2, perm_hr3, perm_hr4,
  perm_hr6, perm_other, ChanRate, ch_rate_half, ch_rate_full, SpeechMode, cmode_speech_v1,
  cmode_speech_efr, cmode_speech_amr,
}
use osmo_bsc.Codec.Choose.{codec_support, support_at, full_rate_from_perm_spch, rate_of}
use osmo_bsc.Codec.First.{full_rate-audio}
use osmo_bsc.Codec.{
  PermSpeech, RatePref, ModeAndRate, AudioSupport, BtsCodecs, MscCodecs, MatchRc, rc_match,
  rc_no_match, rc_einval, SpeechCodec, Gsm0808,
}
use osmo_bsc.Codec.Choose.{
  gsm88_to_chan_mode, audio_support_to_gsm88, find_codec, test_codec_support_bts, match_codec_pref,
}
use osmo_bsc.Codec.First.{suiting, or_first, first_suiting, answer, match_codec_pref-first}
use osmo_bsc.Codec.Advertise.{add_codec, codecs_of, gen_bss_supported_codec_list}

-- A codec of this type is in the list.
abbrev pub has_type : SpeechCodec → List SpeechCodec → Bool
has_type sc scl = (find_codec sc scl).0

has_type-head :
    (sc c : SpeechCodec) (cs : List SpeechCodec) → sc.type ≡ c.type → has_type sc (c ∷ cs) ≡ true
unfolding find_codec
has_type-head sc c cs e =
    let same : (sc.type == c.type) ≡ true = ground arith in rw (has_type, find_codec, same) refl

has_type-tail :
    (sc c : SpeechCodec) (cs : List SpeechCodec)
    → has_type sc cs ≡ true
    → has_type sc (c ∷ cs) ≡ true
unfolding find_codec
has_type-tail sc c cs h = elim (Bool-cases (sc.type == c.type)) [
  | inl e ↦ rw (has_type, find_codec, e) refl
  | inr e ↦ rw (has_type, find_codec, e) h
]

-- A codec that passes three tests passes the second.
second_test :
    (discarded supported refused : Bool) (o : Option ℕ) (s : ℕ)
    → (if discarded || not supported || refused then none else o) ≡ some s
    → supported ≡ true
second_test true supported refused o s e = absurd (ground arith)
second_test false true refused o s e = refl
second_test false false refused o s e = absurd (ground arith)

-- The speech versions that test_codec_support_bts() may accept. Half rate 2 is not among them: it has no codec.
abbrev pub is_codec : PermSpeech → Bool
is_codec perm_fr1 = true
is_codec perm_fr2 = true
is_codec perm_fr3 = true
is_codec perm_hr1 = true
is_codec perm_hr3 = true
is_codec _ = false

-- gsm0808_speech_codec_from_chan_type() knows their codecs.
abbrev pub IsKnown : Gsm0808 → (PermSpeech → SpeechCodec) → Type 0
IsKnown lib codec =
    (speech : PermSpeech)
    → is_codec speech ≡ true
    → lib.speech_codec_from_chan_type speech ≡ some (codec speech)

-- The speech version of a channel mode and rate.
abbrev pub speech_at : SpeechMode → ChanRate → PermSpeech
speech_at cmode_speech_v1 ch_rate_full = perm_fr1
speech_at cmode_speech_v1 ch_rate_half = perm_hr1
speech_at cmode_speech_efr ch_rate_full = perm_fr2
speech_at cmode_speech_amr ch_rate_full = perm_fr3
speech_at cmode_speech_amr ch_rate_half = perm_hr3
speech_at _ _ = perm_other

abbrev pub speech_of : ModeAndRate → PermSpeech
speech_of r = speech_at r.chan_mode r.chan_rate

and_right : (a b : Bool) → (a && b) ≡ true → b ≡ true
and_right true b e = e
and_right false b e = absurd (ground arith)

supported_codec :
    (bts : BtsCodecs) (speech : PermSpeech)
    → codec_support bts speech ≡ true
    → is_codec speech ≡ true
unfolding codec_support
supported_codec bts perm_fr1 e = refl
supported_codec bts perm_fr2 e = refl
supported_codec bts perm_fr3 e = refl
supported_codec bts perm_hr1 e = refl
supported_codec bts perm_hr3 e = refl
supported_codec bts perm_fr4 e = e
supported_codec bts perm_fr5 e = e
supported_codec bts perm_hr2 e = e
supported_codec bts perm_hr4 e = e
supported_codec bts perm_hr6 e = e
supported_codec bts perm_other e = e

support_at-codec_support :
    (bts : BtsCodecs) (speech : PermSpeech) (o : Option Bool)
    → support_at bts speech o ≡ true
    → codec_support bts speech ≡ true
unfolding support_at
support_at-codec_support bts speech none e = absurd (ground arith)
support_at-codec_support bts speech (some full_rate) e = and_right _ _ e

supported_speech :
    (bts : BtsCodecs) (speech : PermSpeech)
    → test_codec_support_bts bts speech ≡ true
    → is_codec speech ≡ true
unfolding test_codec_support_bts
supported_speech bts speech e = supported_codec bts speech (support_at-codec_support bts speech _ e)

-- Mode and rate of a configured codec that the BTS supports stand for it.
mode_and_rate :
    (speech : PermSpeech) (full_rate : Bool)
    → full_rate_from_perm_spch speech ≡ some full_rate
    → is_codec speech ≡ true
    → speech_at (gsm88_to_chan_mode speech) (rate_of full_rate) ≡ speech
unfolding full_rate_from_perm_spch gsm88_to_chan_mode
mode_and_rate perm_fr1 true e k = refl
mode_and_rate perm_fr1 false e k = absurd (ground arith)
mode_and_rate perm_fr2 true e k = refl
mode_and_rate perm_fr2 false e k = absurd (ground arith)
mode_and_rate perm_fr3 true e k = refl
mode_and_rate perm_fr3 false e k = absurd (ground arith)
mode_and_rate perm_hr1 false e k = refl
mode_and_rate perm_hr1 true e k = absurd (ground arith)
mode_and_rate perm_hr3 false e k = refl
mode_and_rate perm_hr3 true e k = absurd (ground arith)
mode_and_rate perm_fr4 full_rate e k = absurd (ground arith)
mode_and_rate perm_fr5 full_rate e k = absurd (ground arith)
mode_and_rate perm_hr2 full_rate e k = absurd (ground arith)
mode_and_rate perm_hr4 full_rate e k = absurd (ground arith)
mode_and_rate perm_hr6 full_rate e k = absurd (ground arith)
mode_and_rate perm_other full_rate e k = absurd (ground arith)

speech_of-answer :
    (bts : BtsCodecs) (hr : Bool) (ver s : ℕ)
    → test_codec_support_bts bts (audio_support_to_gsm88 (record { hr = hr; ver = ver })) ≡ true
    → speech_at
        (gsm88_to_chan_mode (audio_support_to_gsm88 (record { hr = hr; ver = ver })))
        (rate_of (not hr))
      ≡ audio_support_to_gsm88 (record { hr = hr; ver = ver })
speech_of-answer bts hr ver s e =
    mode_and_rate _ (not hr) (full_rate-audio hr ver) (supported_speech bts _ e)

module _ (lib : Gsm0808) (msc : MscCodecs) (bts : BtsCodecs) where
  add_codec-tail :
      (sc : SpeechCodec) (a : AudioSupport) (o : Option SpeechCodec) (cs : List SpeechCodec)
      → has_type sc cs ≡ true
      → has_type sc (add_codec lib msc bts a o cs) ≡ true
  unfolding add_codec
  add_codec-tail sc a none cs h = h
  add_codec-tail sc a (some c) cs h = has_type-tail sc _ cs h

  add_codec-head :
      (sc : SpeechCodec) (a : AudioSupport) (cs : List SpeechCodec)
      → has_type sc (add_codec lib msc bts a (some sc) cs) ≡ true
  unfolding add_codec
  add_codec-head sc a cs =
      has_type-head sc _ cs
        (either {A = SpeechCodec} (λ c. sc.type ≡ c.type) (a.ver == 3) refl refl)

  module _ (codec : PermSpeech → SpeechCodec) (known : IsKnown lib codec) (scl : List SpeechCodec)
      (ct : List PermSpeech) (pref : RatePref) where
    head-codecs_of :
        (a : AudioSupport) (others : List AudioSupport)
        → test_codec_support_bts bts (audio_support_to_gsm88 a) ≡ true
        → has_type (codec (audio_support_to_gsm88 a)) (codecs_of lib msc bts (a ∷ others)) ≡ true
    unfolding codecs_of
    head-codecs_of a others supported =
        rw (supported, known _ (supported_speech bts _ supported))
          (add_codec-head (codec (audio_support_to_gsm88 a)) a (codecs_of lib msc bts others))

    tail-codecs_of :
        (sc : SpeechCodec) (a : AudioSupport) (others : List AudioSupport)
        → has_type sc (codecs_of lib msc bts others) ≡ true
        → has_type sc (codecs_of lib msc bts (a ∷ others)) ≡ true
    unfolding codecs_of
    tail-codecs_of sc a others h =
        either {A = List SpeechCodec} (λ cs. has_type sc cs ≡ true)
          (test_codec_support_bts bts (audio_support_to_gsm88 a))
          (add_codec-tail sc a _ (codecs_of lib msc bts others) h) h

    -- What the first that suits has.
    Advertised : List AudioSupport → AudioSupport × ℕ → Type 0
    Advertised others r =
        (test_codec_support_bts bts (audio_support_to_gsm88 r.0) ≡ true)
        × (has_type (codec (audio_support_to_gsm88 r.0)) (codecs_of lib msc bts others) ≡ true)

    entry-Advertised :
        (a : AudioSupport) (others : List AudioSupport) (o : Option ℕ)
        → suiting lib msc bts scl ct pref a ≡ o
        → Returns (Advertised others) (first_suiting lib msc bts scl ct pref others)
        → Returns
            (Advertised (a ∷ others))
            (or_first lib msc bts scl ct pref a o (first_suiting lib msc bts scl ct pref others))
    unfolding Advertised
    entry-Advertised a others none e h = later (first_suiting lib msc bts scl ct pref others) h
      where
        later :
            (o : Option (AudioSupport × ℕ))
            → Returns (Advertised others) o
            → Returns (Advertised (a ∷ others)) o
        later none h = tt
        later (some r) h = (h.0, tail-codecs_of _ a others h.1)
    entry-Advertised a others (some s) e h =
        let supported = second_test _ _ _ _ s e in (supported, head-codecs_of a others supported)

    first-Advertised :
        (others : List AudioSupport)
        → Returns (Advertised others) (first_suiting lib msc bts scl ct pref others)
    first-Advertised [] = tt
    first-Advertised (a ∷ others) = entry-Advertised a others _ refl (first-Advertised others)

    -- What a match comes from.
    is_match : MatchRc → Bool
    is_match rc_match = true
    is_match rc_no_match = false
    is_match rc_einval = false

    match-has_type :
        (o : Option (AudioSupport × ℕ)) (r : ModeAndRate)
        → Returns (Advertised msc.audio_support) o
        → answer lib msc bts scl ct pref o ≡ (rc_match, r)
        → has_type (codec (speech_of r)) (gen_bss_supported_codec_list lib msc bts) ≡ true
    unfolding is_match gen_bss_supported_codec_list Advertised
    match-has_type none r h f =
        let no : false ≡ true = ap (λ q. is_match q.0) f in absurd (ground arith)
    match-has_type (some (a, s)) r h f =
        let chosen : speech_of r ≡ audio_support_to_gsm88 a =
          sym (ap (λ q. speech_of q.1) f) ∙ speech_of-answer bts a.hr a.ver s h.0 in
        subst (λ p. has_type (codec p) (codecs_of lib msc bts msc.audio_support) ≡ true)
          (sym chosen) h.1

    -- Let libosmocore know a codec for each of the five speech versions that a BTS may support. If
    -- match_codec_pref() matches, the list that gen_bss_supported_codec_list() makes for the MSC has a codec of
    -- the type of the speech version that channel mode and rate of the result stand for.
    pub chosen-has_type :
        (ch r : ModeAndRate)
        → match_codec_pref lib msc bts scl ct pref ch ≡ (rc_match, r)
        → has_type (codec (speech_of r)) (gen_bss_supported_codec_list lib msc bts) ≡ true
    chosen-has_type ch r e =
        match-has_type (first_suiting lib msc bts scl ct pref msc.audio_support) r
          (first-Advertised msc.audio_support)
          (sym (match_codec_pref-first lib msc bts scl ct pref ch) ∙ e)
