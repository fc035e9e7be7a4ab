-- ===== src/Meas/Ring.antt =====
-- A ring of samples as meas_rep.c reads it: calc_initial_idx() gives the index of the sample that was
-- written `num` writes ago, and the loops read on from there, modulo the size of the array.
pub mod Recent
use osmo_bsc.Base.{ℕ, zero, suc, ◌+◌, ◌-◌, ◌%◌, ◌^◌, List, [], ◌∷◌, get_or, leb, if◌then◌else◌}

-- calc_initial_idx(). `offs` is the difference of two unsigned int read as an int, so the first half
-- of its patterns is not negative; the sums are unsigned.
unfoldable pub calc_initial_idx : ℕ → ℕ → ℕ → ℕ
calc_initial_idx array_size meas_rep_idx num_values =
    let offs = (meas_rep_idx + 2 ^ 32 - num_values) % 2 ^ 32 in
    if leb (2 ^ 31) offs then (array_size + offs) % 2 ^ 32 else offs

-- The samples buf[(idx + i) % size], …, for `n` rounds of a loop over `i`.
unfoldable pub read_from {ℓ} : {A : Type ℓ} → A → List A → ℕ → ℕ → ℕ → ℕ → List A
read_from d buf size idx i zero = []
read_from d buf size idx i (suc n) =
    get_or buf ((idx + i) % size) d ∷ read_from d buf size idx (i + 1) n
