-- ===== src/Pml/Llr/Capacity.antt =====
-- The capacity of the replay buffer.
use ss_sbl.Prelude.{
  ℕ, ◌+◌, ◌*◌, ◌^◌, ◌≤◌, ◌<◌, ◌≡◌, ◌⊎◌, inl, inr, ltb, Bool-cases, subst, refl, arith,
}
use ss_sbl.Pml.Llr.{bytes_per_ns, capped, div_round_up, capacity_bytes, calculate_capacity}

bytes_per_ns-le : (mode : ℕ) → bytes_per_ns mode ≤ 25
unfolding bytes_per_ns
bytes_per_ns-le mode = ground arith

-- Up to these sizes the 64-bit arithmetic does not wrap.
capacity_bytes_exact :
    (mode frame loop_time : ℕ)
    → frame < 2 ^ 32
    → loop_time < 2 ^ 32
    → (capacity_bytes mode frame loop_time ≡ loop_time * bytes_per_ns mode + frame * 2)
      × (capacity_bytes mode frame loop_time < 2 ^ 40)
unfolding capacity_bytes bytes_per_ns
capacity_bytes_exact mode frame loop_time hf ht = ground arith

-- A number of blocks that is enough for so many bytes, and no block too many, unless the cap is less
abbrev pub Fits : ℕ → ℕ → ℕ → ℕ → Type 0
Fits bytes block cap n = (n ≤ cap) × (n * block < bytes + block) × ((bytes ≤ n * block) ⊎ (n ≡ cap))

capped-Fits_48 :
    (bytes cap : ℕ) → bytes < 2 ^ 40 → Fits bytes 48 cap (capped (div_round_up bytes 48) cap)
capped-Fits_48 bytes cap h = elim (Bool-cases (ltb cap (div_round_up bytes 48))) [
  | inl over ↦ rw over (omega arith, ground arith, inr refl)
  | inr fits ↦ rw fits (ground arith, omega arith, inl (omega arith))
]

capped-Fits_32 :
    (bytes cap : ℕ) → bytes < 2 ^ 40 → Fits bytes 32 cap (capped (div_round_up bytes 32) cap)
capped-Fits_32 bytes cap h = elim (Bool-cases (ltb cap (div_round_up bytes 32))) [
  | inl over ↦ rw over (omega arith, ground arith, inr refl)
  | inr fits ↦ rw fits (ground arith, omega arith, inl (omega arith))
]

-- The replay buffer gets as many blocks of 48 bytes, and as many sequence numbers for 32 bytes each, as
-- the bytes on their way in the loop time and two frames take, and no more than that rounded up; or as
-- many as its cap, where that is less. The loop time and the frame size are below 2^32.
pub calculate_capacity_lem :
    (mode frame loop_time : ℕ) (cap : ℕ × ℕ)
    → frame < 2 ^ 32
    → loop_time < 2 ^ 32
    → Fits
        (loop_time * bytes_per_ns mode + frame * 2)
        48
        cap.0
        (calculate_capacity mode frame loop_time cap).0
      × Fits
          (loop_time * bytes_per_ns mode + frame * 2)
          32
          cap.1
          (calculate_capacity mode frame loop_time cap).1
unfolding calculate_capacity
calculate_capacity_lem mode frame loop_time (cap_data, cap_seq) hf ht =
    let (e, small) = capacity_bytes_exact mode frame loop_time hf ht in
    (
      subst
          (λ (n : ℕ).
            Fits n 48 cap_data
              (capped (div_round_up (capacity_bytes mode frame loop_time) 48) cap_data))
          e (capped-Fits_48 (capacity_bytes mode frame loop_time) cap_data small),
      subst
          (λ (n : ℕ).
            Fits n 32 cap_seq
              (capped (div_round_up (capacity_bytes mode frame loop_time) 32) cap_seq))
          e (capped-Fits_32 (capacity_bytes mode frame loop_time) cap_seq small),
    )
