-- ===== src/Load/Bounds.antt =====
-- The bounds of what the average is computed to.
use native.Mathlib.Nat.{div-zero, div-lt_iff_lt-mul}
use osmo_bsc.Base.{
  ℕ, zero, suc, ◌*◌, ◌/◌, ◌≤◌, ◌<◌, Bool, not, ◌||◌, List, [], ◌∷◌, ◌≡◌, ◌⊎◌, refl, arith, inl, inr,
  Bool-cases, set, ltb, ◌==◌, All,
}
use osmo_bsc.Chan.Types.{Pchan, Lchan, LchanState, Ts, Trx, Bts}
use osmo_bsc.Chan.Kinds.{pchan_eq}
use osmo_bsc.Chan.Usable.{nm_is_running, lchans_as_pchan}
use osmo_bsc.Load.{
  LoadCounter, PchanLoad, count_lchan, count_lchans, count_ts, count_timeslots, count_trx,
  count_transceivers, bts_chan_load, no_load, LoadAverage, all_pchans, sum_kinds, sum_samples,
  load_percent, wait_ind, update_t3122, bts_update_t3122_chan_load,
}

-- No more lchans are in use than there are.
abbrev pub IsCount : LoadCounter → Type 0
IsCount c = c.used ≤ c.total

count_lchans-IsCount :
    (ls : List (ℕ × Lchan × LchanState)) (pl : LoadCounter)
    → IsCount pl
    → IsCount (count_lchans ls pl)
unfolding count_lchans count_lchan
count_lchans-IsCount [] pl h = h
count_lchans-IsCount ((i, l, st) ∷ ls) pl h = count_lchans-IsCount ls _ (ground arith)

count_ts-IsCount :
    (t : Ts) (cl : PchanLoad)
    → ((k : Pchan) → IsCount (cl k))
    → (k : Pchan) → IsCount (count_ts t cl k)
unfolding count_ts
count_ts-IsCount t cl h k = elim (Bool-cases (not (nm_is_running t.mo))) [
  | inl e ↦ rw e (h k)
  | inr e ↦ elim (Bool-cases (pchan_eq k t.pchan_on_init)) [
    | inl f ↦ rw (e, f) (count_lchans-IsCount (lchans_as_pchan t.pchan_is 0 t.lchans) (cl k) (h k))
    | inr f ↦ rw (e, f) (h k)
  ]
]

count_timeslots-IsCount :
    (ts : List Ts) (cl : PchanLoad)
    → ((k : Pchan) → IsCount (cl k))
    → (k : Pchan) → IsCount (count_timeslots ts cl k)
unfolding count_timeslots
count_timeslots-IsCount [] cl h k = h k
count_timeslots-IsCount (t ∷ ts) cl h k =
    count_timeslots-IsCount ts (count_ts t cl) (count_ts-IsCount t cl h) k

count_trx-IsCount :
    (trx : Trx) (cl : PchanLoad)
    → ((k : Pchan) → IsCount (cl k))
    → (k : Pchan) → IsCount (count_trx trx cl k)
unfolding count_trx
count_trx-IsCount trx cl h k =
    elim (Bool-cases (not (nm_is_running trx.mo) || not (nm_is_running trx.bb_transc))) [
      | inl e ↦ rw e (h k)
      | inr e ↦ rw e (count_timeslots-IsCount trx.ts cl h k)
    ]

count_transceivers-IsCount :
    (ts : List Trx) (cl : PchanLoad)
    → ((k : Pchan) → IsCount (cl k))
    → (k : Pchan) → IsCount (count_transceivers ts cl k)
unfolding count_transceivers
count_transceivers-IsCount [] cl h k = h k
count_transceivers-IsCount (t ∷ ts) cl h k =
    count_transceivers-IsCount ts (count_trx t cl) (count_trx-IsCount t cl h) k

-- In every kind, at most as many lchans are used as there are.
pub bts_chan_load-IsCount :
    (bts : Bts) (cl : PchanLoad)
    → ((k : Pchan) → IsCount (cl k))
    → (k : Pchan) → IsCount (bts_chan_load cl bts k)
unfolding bts_chan_load
bts_chan_load-IsCount bts cl h k = count_transceivers-IsCount bts.trx_list cl h k

sum_kinds-IsCount :
    (ks : List Pchan) (pl : PchanLoad) (sum : LoadCounter)
    → ((k : Pchan) → IsCount (pl k))
    → IsCount sum
    → IsCount (sum_kinds ks pl sum)
unfolding sum_kinds
sum_kinds-IsCount [] pl sum h s = s
sum_kinds-IsCount (k ∷ ks) pl sum h s =
    elim (Bool-cases (ltb 65535 (pl k).used || ltb 65535 (pl k).total)) [
      | inl e ↦ rw (sum_kinds, e) (sum_kinds-IsCount ks pl sum h s)
      | inr e ↦ rw (sum_kinds, e) (sum_kinds-IsCount ks pl _ h (omega (arith, h k)))
    ]

sum_samples-IsCount :
    (ss : List LoadCounter) (sum : LoadCounter)
    → All IsCount ss
    → IsCount sum
    → IsCount (sum_samples ss sum)
unfolding sum_samples
sum_samples-IsCount [] sum a s = s
sum_samples-IsCount (c ∷ ss) sum (h, a) s = sum_samples-IsCount ss _ a (omega arith)

set-All :
    (ss : List LoadCounter) (i : ℕ) (c : LoadCounter)
    → All IsCount ss
    → IsCount c
    → All IsCount (set ss i c)
set-All [] i c a h = a
set-All (s ∷ ss) zero c (p, a) h = (h, a)
set-All (s ∷ ss) (suc i) c (p, a) h = (p, set-All ss i c a h)

fixed_point : (u t : ℕ) → u ≤ t → u * 256 / t ≤ 256
fixed_point u zero h = omega (arith, div-zero (u * 256))
fixed_point u (suc t) h =
    let lt : u * 256 / suc t < 257 =
      (div-lt_iff_lt-mul {k = suc t} (omega arith)).1 (omega arith) in
    omega arith

percent_bound : (s : LoadCounter) → IsCount s → load_percent s ≤ 100
unfolding load_percent
percent_bound s h = let f = fixed_point s.used s.total h in omega arith

wait_bounds : (s : LoadCounter) → (10 ≤ wait_ind s) × (wait_ind s ≤ 128)
unfolding wait_ind
wait_bounds s = ground arith

-- The samples are counts, the average is a percentage, and the wait indication is 0, which stands for
-- the default of the network, or between 10 and 128 seconds.
abbrev pub IsAverage : LoadAverage → Type 0
IsAverage b =
    All IsCount b.chan_load_samples
    × (b.chan_load_avg ≤ 100)
    × ((b.t3122 ≡ 0) ⊎ ((10 ≤ b.t3122) × (b.t3122 ≤ 128)))

update_t3122-IsAverage :
    (usable : Bool) (sum : LoadCounter) (b : LoadAverage)
    → IsCount sum
    → IsAverage b
    → IsAverage (update_t3122 usable sum b)
unfolding update_t3122
update_t3122-IsAverage usable sum b s (a, p, w) = elim (Bool-cases (not usable)) [
  | inl e ↦ rw e (a, p, w)
  | inr e ↦ elim (Bool-cases ((sum.total == 0) || ltb sum.total sum.used)) [
    | inl f ↦ rw (e, f) (a, p, inl refl)
    | inr f ↦ elim (Bool-cases (ltb b.chan_load_samples_idx 7)) [
      | inl g ↦ rw (e, f, g) (set-All _ _ sum a s, p, w)
      | inr g ↦
          let all = sum_samples-IsCount b.chan_load_samples sum a s in
          rw (e, f, g) (a, percent_bound _ all, inr (wait_bounds _))
    ]
  ]
]

no_load-IsCount : (k : Pchan) → IsCount (no_load k)
no_load-IsCount k = omega arith

-- Each update, whatever the state of the BTS, keeps the average at most 100, as the code asserts, the
-- wait indication 0 or between 10 and 128, and in every stored sample at most as many lchans used as
-- there are.
pub bts_update_t3122_chan_load-IsAverage :
    (usable : Bool) (bts : Bts) (b : LoadAverage)
    → IsAverage b
    → IsAverage (bts_update_t3122_chan_load usable bts b)
unfolding bts_update_t3122_chan_load
bts_update_t3122_chan_load-IsAverage usable bts b h =
    update_t3122-IsAverage usable _ b
      (sum_kinds-IsCount all_pchans (bts_chan_load no_load bts) (record { total = 0; used = 0 })
        (bts_chan_load-IsCount bts no_load no_load-IsCount) (omega arith))
      h
