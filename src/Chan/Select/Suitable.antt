-- ===== src/Chan/Select/Suitable.antt =====
-- lchan_select_by_type() of lchan_select.c against what a channel request asks for.
use osmo_bsc.Base.{
  ◌<◌, true, Option, none, some, get_elem?, ◌≡◌, ◌∙◌, ◌⊎◌, refl, sym, inl, inr, arith, Memᴰ,
  or_else, Bool-cases, Option-cases,
}
use osmo_bsc.Chan.Types.{
  Pchan, ccch_sdcch4, tch_f, tch_h, sdcch8, tch_f_pdch, ccch_sdcch4_cbch, sdcch8_cbch,
  tch_f_tch_h_pdch, ChanType, lchan_sdcch, lchan_tch_f, lchan_tch_h, unused, Lchan, Ts, Trx, Bts,
}
use osmo_bsc.Chan.Kinds.{capable_of_lchant}
use osmo_bsc.Chan.Usable.{trx_is_usable, ts_usable_as_pchan, lchans_as_pchan}
use osmo_bsc.Chan.Select.{Place, lc_dyn_find_bts, lc_find_bts, find_by_type, lchan_select_by_type}
use osmo_bsc.Chan.Select.Found.{Found, lc_dyn_find_bts-Found, lc_dyn_find_bts-miss}

-- As which kind a timeslot set up as `on_init` serves a channel of this type.
abbrev pub serving_pchan : ChanType → Pchan → Pchan
serving_pchan lchan_tch_f _ = tch_f
serving_pchan lchan_tch_h _ = tch_h
serving_pchan _ on_init = on_init

-- The types that are allocated to an MS.
abbrev pub IsAllocatable : ChanType → Type 0
IsAllocatable type = (type ≡ lchan_sdcch) ⊎ (type ≡ lchan_tch_f) ⊎ (type ≡ lchan_tch_h)

-- The lchan at this place can be given out as a channel of this type: its transceiver is usable, its
-- timeslot is capable of the type and currently usable as the kind that serves it, it is free, and
-- full rate on a TCH/F_TCH/H_PDCH timeslot is permitted by the configuration.
pub record Suitable (bts : Bts) (type : ChanType) (p : Place) : Type 0 where
  pub trx : Trx
  pub ts : Ts
  pub lchan : Lchan
  pub trx_here : get_elem? bts.trx_list p.trx ≡ some trx
  pub ts_here : get_elem? trx.ts p.ts ≡ some ts
  pub free :
      Memᴰ (p.ss, lchan, unused) (lchans_as_pchan (serving_pchan type ts.pchan_on_init) 0 ts.lchans)
  pub trx_usable : trx_is_usable bts trx ≡ true
  pub capable : capable_of_lchant ts.pchan_on_init type ≡ true
  pub current : ts_usable_as_pchan bts trx ts (serving_pchan type ts.pchan_on_init) ≡ true
  pub permitted :
      type ≡ lchan_tch_f → ts.pchan_on_init ≡ tch_f_tch_h_pdch → bts.dyn_ts_allow_tch_f ≡ true

-- A found lchan is suitable, if its kind of timeslot serves the type.
Found-Suitable :
    (bts : Bts) (type : ChanType) (pchan : Pchan) (p : Place)
    → capable_of_lchant pchan type ≡ true
    → (type ≡ lchan_tch_f → pchan ≡ tch_f_tch_h_pdch → bts.dyn_ts_allow_tch_f ≡ true)
    → Found bts pchan (serving_pchan type pchan) p
    → Suitable bts type p
Found-Suitable bts type pchan p able perm f = record {
  trx = f.trx;
  ts = f.ts;
  lchan = f.lchan;
  trx_here = f.trx_here;
  ts_here = f.ts_here;
  free = rw f.kind f.visited;
  trx_usable = f.trx_usable;
  capable = rw f.kind able;
  current = simp f.kind f.current;
  permitted = λ a b. perm a (sym f.kind ∙ b);
}

Suitable-Found :
    (bts : Bts) (type : ChanType) (p : Place) (s : Suitable bts type p)
    → Found bts s.ts.pchan_on_init (serving_pchan type s.ts.pchan_on_init) p
Suitable-Found bts type p s = record {
  trx = s.trx;
  ts = s.ts;
  lchan = s.lchan;
  trx_here = s.trx_here;
  ts_here = s.ts_here;
  visited = s.free;
  trx_usable = s.trx_usable;
  kind = refl;
  current = s.current;
}

or_else-cases :
    {A : Type 0} (a b : Option A) (x : A) → or_else a b ≡ some x → (a ≡ some x) ⊎ (b ≡ some x)
or_else-cases none b x h = inr h
or_else-cases (some a) b x h = inl h

module _ (bts : Bts) (p : Place) where
  -- A hit in one kind of timeslot, for SDCCH and for the two TCH types.
  sdcch-Suitable :
      (pchan : Pchan)
      → capable_of_lchant pchan lchan_sdcch ≡ true
      → lc_find_bts bts pchan ≡ some p
      → Suitable bts lchan_sdcch p
  unfolding lc_find_bts
  sdcch-Suitable pchan able h =
      Found-Suitable bts lchan_sdcch pchan p able (λ e. ground arith)
        (lc_dyn_find_bts-Found bts pchan pchan p h)

  find_sdcch-Suitable : find_by_type bts lchan_sdcch ≡ some p → Suitable bts lchan_sdcch p
  unfolding find_by_type capable_of_lchant
  find_sdcch-Suitable h = elim (Bool-cases bts.chan_alloc_reverse) [
    | inl e ↦ elim (or_else-cases _ _ p (simp e at h)) [
      | inl a ↦ sdcch-Suitable sdcch8 refl a
      | inr r ↦ elim (or_else-cases _ _ p r) [
        | inl a ↦ sdcch-Suitable sdcch8_cbch refl a
        | inr q ↦ elim (or_else-cases _ _ p q) [
          | inl a ↦ sdcch-Suitable ccch_sdcch4 refl a
          | inr a ↦ sdcch-Suitable ccch_sdcch4_cbch refl a
        ]
      ]
    ]
    | inr e ↦ elim (or_else-cases _ _ p (simp e at h)) [
      | inl a ↦ sdcch-Suitable ccch_sdcch4 refl a
      | inr r ↦ elim (or_else-cases _ _ p r) [
        | inl a ↦ sdcch-Suitable ccch_sdcch4_cbch refl a
        | inr q ↦ elim (or_else-cases _ _ p q) [
          | inl a ↦ sdcch-Suitable sdcch8 refl a
          | inr a ↦ sdcch-Suitable sdcch8_cbch refl a
        ]
      ]
    ]
  ]

  tch_f-Suitable :
      (pchan : Pchan)
      → capable_of_lchant pchan lchan_tch_f ≡ true
      → (pchan ≡ tch_f_tch_h_pdch → bts.dyn_ts_allow_tch_f ≡ true)
      → lc_dyn_find_bts bts pchan tch_f ≡ some p
      → Suitable bts lchan_tch_f p
  tch_f-Suitable pchan able perm h =
      Found-Suitable bts lchan_tch_f pchan p able (λ _. perm)
        (lc_dyn_find_bts-Found bts pchan tch_f p h)

  find_tch_f-Suitable : find_by_type bts lchan_tch_f ≡ some p → Suitable bts lchan_tch_f p
  unfolding find_by_type lc_find_bts capable_of_lchant
  find_tch_f-Suitable h = elim (or_else-cases _ _ p h) [
    | inl a ↦ tch_f-Suitable tch_f refl (λ e. ground arith) a
    | inr r ↦ elim (or_else-cases _ _ p r) [
      | inl a ↦ tch_f-Suitable tch_f_pdch refl (λ e. ground arith) a
      | inr a ↦ elim (Bool-cases bts.dyn_ts_allow_tch_f) [
        | inl e ↦ tch_f-Suitable tch_f_tch_h_pdch refl (λ _. e) (simp e at a)
        | inr e ↦ ground arith
      ]
    ]
  ]

  tch_h-Suitable :
      (pchan : Pchan)
      → capable_of_lchant pchan lchan_tch_h ≡ true
      → lc_dyn_find_bts bts pchan tch_h ≡ some p
      → Suitable bts lchan_tch_h p
  tch_h-Suitable pchan able h =
      Found-Suitable bts lchan_tch_h pchan p able (λ e. ground arith)
        (lc_dyn_find_bts-Found bts pchan tch_h p h)

  find_tch_h-Suitable : find_by_type bts lchan_tch_h ≡ some p → Suitable bts lchan_tch_h p
  unfolding find_by_type lc_find_bts capable_of_lchant
  find_tch_h-Suitable h = elim (or_else-cases _ _ p h) [
    | inl a ↦ tch_h-Suitable tch_h refl a
    | inr a ↦ tch_h-Suitable tch_f_tch_h_pdch refl a
  ]

find_by_type-Suitable :
    (bts : Bts) (type : ChanType) (p : Place) → find_by_type bts type ≡ some p → Suitable bts type p
unfolding find_by_type
find_by_type-Suitable bts lchan_sdcch p h = find_sdcch-Suitable bts p h
find_by_type-Suitable bts lchan_tch_f p h = find_tch_f-Suitable bts p h
find_by_type-Suitable bts lchan_tch_h p h = find_tch_h-Suitable bts p h
find_by_type-Suitable bts _ p h = ground arith

-- When the search for a type finds nothing, so did the search of each capable kind of timeslot.
capable_of_none :
    (bts : Bts) (type : ChanType) (k : Pchan)
    → IsAllocatable type
    → find_by_type bts type ≡ none
    → capable_of_lchant k type ≡ true
    → (type ≡ lchan_tch_f → k ≡ tch_f_tch_h_pdch → bts.dyn_ts_allow_tch_f ≡ true)
    → lc_dyn_find_bts bts k (serving_pchan type k) ≡ none
unfolding find_by_type lc_find_bts capable_of_lchant
capable_of_none bts lchan_sdcch ccch_sdcch4 a h c perm = ground arith
capable_of_none bts lchan_tch_f tch_f_tch_h_pdch a h c perm = ground (arith, perm refl refl)
capable_of_none bts _ k a h c perm = ground arith

-- A selected lchan is suitable for the requested type: it is free, its transceiver is usable, its
-- timeslot can serve the type now, and TCH/F_TCH/H_PDCH serves full rate only where permitted.
pub select-Suitable :
    (bts : Bts) (type : ChanType) (p : Place)
    → (lchan_select_by_type bts type).0 ≡ some p
    → Suitable bts type p
unfolding lchan_select_by_type
select-Suitable bts type p h = elim (Option-cases (find_by_type bts type)) [
  | inl e ↦ ground arith
  | inr (q, e) ↦ find_by_type-Suitable bts type p (ground arith)
]

-- Selection fails only if there is nothing to select: where lchan_select_by_type() returns NULL for
-- SDCCH, TCH/F or TCH/H, no lchan in the eight timeslots of any transceiver is suitable.
pub select_none-not-Suitable :
    (bts : Bts) (type : ChanType) (p : Place)
    → IsAllocatable type
    → (lchan_select_by_type bts type).0 ≡ none
    → p.ts < 8
    → ¬ Suitable bts type p
unfolding lchan_select_by_type
select_none-not-Suitable bts type p a h small s =
    let k = s.ts.pchan_on_init in
    let e : find_by_type bts type ≡ none = ground arith in
    lc_dyn_find_bts-miss bts k (serving_pchan type k) p
      (capable_of_none bts type k a e s.capable s.permitted) small (Suitable-Found bts type p s)

-- A timeslot that is configured as TCH/F is taken before a dynamic one: while one is free and usable,
-- a request for full rate gets one of that kind.
pub select_tch_f_static :
    (bts : Bts) (p q : Place)
    → (lchan_select_by_type bts lchan_tch_f).0 ≡ some p
    → q.ts < 8
    → Found bts tch_f tch_f q
    → Found bts tch_f tch_f p
unfolding lchan_select_by_type find_by_type lc_find_bts
select_tch_f_static bts p q h small f = elim (Option-cases (lc_dyn_find_bts bts tch_f tch_f)) [
  | inl e ↦ absurd (lc_dyn_find_bts-miss bts tch_f tch_f q e small f)
  | inr (r, e) ↦ lc_dyn_find_bts-Found bts tch_f tch_f p (ground arith)
]
