-- ===== src/Codec/Rates.antt =====
-- The AMR rates in src/osmo-bsc/codec_pref.c.
use osmo_bsc.Base.{
  ℕ, zero, suc, not, ◌+◌, ◌*◌, ◌/◌, ◌%◌, ◌<◌, Bool, true, false, Option, none, some, ◌==◌,
  if◌then◌else◌, ◌&&◌, ◌||◌, Bool-cases, ◌≡◌, ◌≢◌, inl, inr, refl, sym, ap, ◌∙◌, arith,
}
use osmo_bsc.Base.Bits.{bit}
use osmo_bsc.Codec.{PermSpeech, perm_hr3, BtsCodecs, MscCodecs, SpeechCodec, Gsm0808}
use osmo_bsc.Codec.Choose.{
  bit_and, gen_bss_supported_amr_s15_s0, with_cfg, prefer_s1, some_rate, match_amr_s15_s0,
  same_speech,
}

abbrev one_if : Bool → ℕ
one_if b = if b then 1 else 0

half_of : (b : Bool) (r : ℕ) → (one_if b + 2 * r) / 2 ≡ r
half_of true r = omega arith
half_of false r = omega arith

odd_of : (b : Bool) (r : ℕ) → ((one_if b + 2 * r) % 2 == 1) ≡ b
odd_of true r = ground arith
odd_of false r = ground arith

pub bit-bit_and : (width k x y : ℕ) → k < width → bit (bit_and width x y) k ≡ (bit x k && bit y k)
unfolding bit bit_and
bit-bit_and zero k x y lt = absurd (omega arith)
bit-bit_and (suc width) zero x y lt =
    odd_of (x % 2 == 1 && y % 2 == 1) (bit_and width (x / 2) (y / 2))
bit-bit_and (suc width) (suc k) x y lt =
    ap (λ z. bit z k) (half_of (x % 2 == 1 && y % 2 == 1) (bit_and width (x / 2) (y / 2)))
    ∙ bit-bit_and width k (x / 2) (y / 2) (omega arith)

both_bits : (a b : Bool) → (a && b) ≡ true → (a ≡ true) × (b ≡ true)
both_bits true b e = (refl, e)
both_bits false b e = absurd (ground arith)

-- Of the rates with S1 preferred, only S1 is left.
bit-only_s1 : (q k : ℕ) → k < 8 → bit (q * 256 + 2) k ≡ true → k ≡ 1
unfolding bit
bit-only_s1 q zero lt e = absurd (ground arith)
bit-only_s1 q (suc zero) lt e = refl
bit-only_s1 q (suc (suc zero)) lt e = absurd (ground arith)
bit-only_s1 q (suc (suc (suc zero))) lt e = absurd (ground arith)
bit-only_s1 q (suc (suc (suc (suc zero)))) lt e = absurd (ground arith)
bit-only_s1 q (suc (suc (suc (suc (suc zero))))) lt e = absurd (ground arith)
bit-only_s1 q (suc (suc (suc (suc (suc (suc zero)))))) lt e = absurd (ground arith)
bit-only_s1 q (suc (suc (suc (suc (suc (suc (suc zero))))))) lt e = absurd (ground arith)
bit-only_s1 q (suc (suc (suc (suc (suc (suc (suc (suc k)))))))) lt e = absurd (omega arith)

bit-prefer_s1 : (s k : ℕ) → k < 8 → bit (prefer_s1 s) k ≡ true → bit s k ≡ true
bit-prefer_s1 s k lt =
    elim (Bool-cases (bit s 1)) as (λ x. bit (prefer_s1 s) k ≡ true → bit s k ≡ true) [
      | inl e ↦ λ b.
          let preferred : prefer_s1 s ≡ s / 256 * 256 + 2 = rw e refl in
          let only : k ≡ 1 = bit-only_s1 (s / 256) k lt (ap (λ z. bit z k) (sym preferred) ∙ b) in
          ap (bit s) only ∙ e
      | inr e ↦ λ b. let kept : prefer_s1 s ≡ s = rw e refl in ap (λ z. bit z k) (sym kept) ∙ b
    ]

bit-with_cfg :
    (sc_match : Option SpeechCodec) (supported k : ℕ)
    → k < 8
    → bit (with_cfg sc_match supported) k ≡ true
    → bit supported k ≡ true
bit-with_cfg none supported k lt b = b
bit-with_cfg (some sc) supported k lt b =
    (both_bits _ _ (sym (bit-bit_and 16 k sc.cfg supported (omega arith)) ∙ b)).1

some_rate_lem : (x s : ℕ) → some_rate x ≡ some s → (x ≡ s) × (s % 256 ≢ 0)
some_rate_lem x s =
    elim (Bool-cases (x % 256 == 0)) as (λ d. some_rate x ≡ some s → (x ≡ s) × (s % 256 ≢ 0)) [
      | inl e ↦ λ f. let no : some_rate x ≡ none = rw e refl in absurd (ground arith)
      | inr e ↦ λ f.
          let yes : some_rate x ≡ some x = rw e refl in
          let same : x ≡ s = ground arith in (same, λ z. absurd (ground arith))
    ]

-- Whether each of the first bits of x is a bit of y.
abbrev pub within : ℕ → ℕ → ℕ → Bool
within zero x y = true
within (suc width) x y = (not (x % 2 == 1) || y % 2 == 1) && within width (x / 2) (y / 2)

implied : (a b rest : Bool) → (a ≡ true → b ≡ true) → rest ≡ true → ((not a || b) && rest) ≡ true
implied true b rest h r = rw (h refl) r
implied false b rest h r = r

within_all :
    (width x y : ℕ)
    → ((k : ℕ) → k < width → bit x k ≡ true → bit y k ≡ true)
    → within width x y ≡ true
unfolding bit
within_all zero x y h = refl
within_all (suc width) x y h =
    implied (x % 2 == 1) (y % 2 == 1) _ (h 0 (omega arith))
      (within_all width (x / 2) (y / 2) (λ k lt. h (suc k) (omega arith)))

abbrev bts_cfg : Gsm0808 → BtsCodecs → PermSpeech → ℕ
bts_cfg lib bts speech =
    if same_speech speech perm_hr3
    then lib.sc_cfg_from_mr_cfg bts.mr_half false
    else lib.sc_cfg_from_mr_cfg bts.mr_full true

rate_supported :
    (lib : Gsm0808) (msc : MscCodecs) (bts : BtsCodecs) (sc_match : Option SpeechCodec)
    (speech : PermSpeech) (s k : ℕ)
    → match_amr_s15_s0 lib msc bts sc_match speech ≡ some s
    → k < 8
    → bit s k ≡ true
    → (bit (bts_cfg lib bts speech) k ≡ true)
      × (bit (lib.sc_cfg_from_mr_cfg msc.amr_conf true) k ≡ true)
unfolding match_amr_s15_s0 gen_bss_supported_amr_s15_s0
rate_supported lib msc bts sc_match speech s k e lt b =
    let found = some_rate_lem _ s e in
    let in_supported =
      bit-with_cfg sc_match _ k lt (bit-prefer_s1 _ k lt (ap (λ z. bit z k) found.0 ∙ b)) in
    both_bits _ _ (sym (bit-bit_and 16 k _ _ (omega arith)) ∙ in_supported)

-- match_amr_s15_s0() succeeds only with a set of AMR rates that is not empty, and each of its rates is one that
-- libosmocore gives for the configuration of the BTS, at half rate or at full rate, and for that of the
-- MSC.
pub match_amr_s15_s0_rates :
    (lib : Gsm0808) (msc : MscCodecs) (bts : BtsCodecs) (sc_match : Option SpeechCodec)
    (speech : PermSpeech) (s : ℕ)
    → match_amr_s15_s0 lib msc bts sc_match speech ≡ some s
    → (s % 256 ≢ 0)
      × ((within 8 s (
              if same_speech speech perm_hr3
              then lib.sc_cfg_from_mr_cfg bts.mr_half false
              else lib.sc_cfg_from_mr_cfg bts.mr_full true)
            ≡ true)
          × (within 8 s (lib.sc_cfg_from_mr_cfg msc.amr_conf true) ≡ true))
unfolding match_amr_s15_s0
match_amr_s15_s0_rates lib msc bts sc_match speech s e = (
  (some_rate_lem _ s e).1,
  (
    within_all 8 s _ (λ k lt b. (rate_supported lib msc bts sc_match speech s k e lt b).0),
    within_all 8 s _ (λ k lt b. (rate_supported lib msc bts sc_match speech s k e lt b).1),
  ),
)
