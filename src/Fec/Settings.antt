-- ===== src/Fec/Settings.antt =====
-- The setting and clearing of the FEC parameters in sbl_fec.c, and what they promise.
use ss_sbl.Prelude.{
  ℕ, ◌/◌, ◌<◌, ◌≡◌, ◌↔◌, ◌⊎◌, inl, inr, refl, Option, none, some, ℤ, pos, negsuc, arith, ◌==◌,
  if◌then◌else◌, zero, suc,
}
use ss_sbl.Link.{Link, FecPrmts}
use ss_sbl.Link.Consts.{
  enavail, mode_bs_200g, mode_bj_100g, mode_cd_100g, mode_cd_50g, fec_llr_tx_replay_thresh,
}
use ss_sbl.Kernel.{u32}
use ss_sbl.Fec.Rates.{zero_cntrs}
use ss_sbl.Fec.Thresholds.{
  ucw_thresh_hpe, ucw_thresh_ieee, ccw_thresh_hpe, ccw_thresh_ieee, stp_ccw_thresh_hpe,
  stp_ccw_thresh_ieee,
}

-- sbl_fec_thresholds_clear
unfoldable pub thresholds_clear : FecPrmts → FecPrmts
thresholds_clear f = record f { ucw_thresh = 0; ccw_thresh = 0; stp_ccw_thresh = 0; fecl_warn = 0 }

-- The switch on `ucw_in`: -1 is SBL_LINK_FEC_OFF, -2 SBL_LINK_FEC_IEEE, -3 SBL_LINK_FEC_HPE.
unfoldable pub ucw_of : ℤ → Link → Option ℕ
unfolding ucw_thresh_ieee
ucw_of (pos n) l = if n == 0 then none else some n
ucw_of (negsuc zero) l = some 0
ucw_of (negsuc (suc zero)) l = some (ucw_thresh_ieee l)
ucw_of (negsuc (suc (suc zero))) l = some (ucw_thresh_hpe l)
ucw_of (negsuc (suc (suc (suc n)))) l = none

-- The switch on `ccw_in`: the threshold, and the one for saved tuning parameters.
unfoldable pub ccw_of : ℤ → Link → Option (ℕ × ℕ)
unfolding ccw_thresh_hpe ccw_thresh_ieee stp_ccw_thresh_hpe stp_ccw_thresh_ieee
ccw_of (pos n) l = if n == 0 then none else some (n, n)
ccw_of (negsuc zero) l = some (0, 0)
ccw_of (negsuc (suc zero)) l = some (ccw_thresh_ieee l, stp_ccw_thresh_ieee l)
ccw_of (negsuc (suc (suc zero))) l = some (ccw_thresh_hpe l, stp_ccw_thresh_hpe l)
ccw_of (negsuc (suc (suc (suc n)))) l = none

-- The warning threshold for a lane, by link mode.
unfoldable pub fecl_warn_of : ℕ → ℕ → ℕ
fecl_warn_of mode ccw =
    if mode == mode_bs_200g
    then ccw / 8
    else if mode == mode_bj_100g
    then ccw / 8
    else if mode == mode_cd_100g
    then ccw / 4
    else if mode == mode_cd_50g
    then ccw / 2
    else 0

-- sbl_fec_thresholds_set. `status` is the error of sbl_base_link_get_status, and `mode` the link mode
-- that it gives. The warning threshold is stored as a `u32`.
unfoldable pub thresholds_set : ℕ → ℕ → ℤ → ℤ → Link → Link × ℕ
thresholds_set status mode ucw_in ccw_in l = elim (ucw_of ucw_in l) [
  | none ↦ (record l { fec = thresholds_clear l.fec }, enavail)
  | some ucw ↦ elim (ccw_of ccw_in l) [
    | none ↦ (record l { fec = thresholds_clear l.fec }, enavail)
    | some (ccw, stp_ccw) ↦ (
      record l {
        fec = record (l.fec) {
          ucw_thresh = ucw;
          ccw_thresh = ccw;
          stp_ccw_thresh = stp_ccw;
          llr_tx_replay_thresh = fec_llr_tx_replay_thresh;
          fecl_warn = if status == 0 then u32 (fecl_warn_of mode ccw) else 0;
        };
      },
      0,
    )
  ]
]

-- sbl_fec_adjustments_set
unfoldable pub adjustments_set : ℕ → ℕ → FecPrmts → FecPrmts × ℕ
adjustments_set ucw_adj ccw_adj f =
    (record f { ucw_down_thresh_adj = ucw_adj; ccw_down_thresh_adj = ccw_adj }, 0)

-- sbl_fec_txr_rate_set
unfoldable pub txr_rate_set : ℕ → FecPrmts → FecPrmts × ℕ
txr_rate_set txr_rate f = (record f { llr_tx_replay_thresh = txr_rate }, 0)

-- `if (p) field = *p`
abbrev pub or_else : Option ℕ → ℕ → ℕ
or_else none old = old
or_else (some new) old = new

-- sbl_fec_modify_adjustments; a null pointer is `none`.
unfoldable pub modify_adjustments :
    Option ℕ → Option ℕ → Option ℕ → Option ℕ → Option ℕ → FecPrmts → FecPrmts
modify_adjustments ucw_up ccw_up ucw_down ccw_down stp_ccw_up f = record f {
  ucw_up_thresh_adj = or_else ucw_up f.ucw_up_thresh_adj;
  ccw_up_thresh_adj = or_else ccw_up f.ccw_up_thresh_adj;
  ucw_down_thresh_adj = or_else ucw_down f.ucw_down_thresh_adj;
  ccw_down_thresh_adj = or_else ccw_down f.ccw_down_thresh_adj;
  stp_ccw_up_thresh_adj = or_else stp_ccw_up f.stp_ccw_up_thresh_adj;
}

-- sbl_fec_hwms_clear
unfoldable pub hwms_clear : FecPrmts → FecPrmts
hwms_clear f = record f { ucw_hwm = 0; ccw_hwm = 0; llr_tx_replay_hwm = 0 }

-- sbl_zero_all_fec_counts
unfoldable pub zero_all_fec_counts : FecPrmts → FecPrmts
zero_all_fec_counts f = record f {
  curr_cnts = zero_cntrs;
  prev_cnts = zero_cntrs;
  rates = zero_cntrs;
}

-- A value that asks for a threshold: a positive number, or one of the flags -1, -2 and -3.
abbrev pub IsThreshold : ℤ → Type 0
IsThreshold (pos n) = 0 < n
IsThreshold (negsuc n) = n < 3

ucw_of_cases :
    (z : ℤ) (l : Link)
    → ((ucw_of z l ≡ none) × (¬ IsThreshold z)) ⊎ ((v : ℕ) × (ucw_of z l ≡ some v) × IsThreshold z)
unfolding ucw_of
ucw_of_cases (pos zero) l = inl (refl, λ h. omega arith)
ucw_of_cases (pos (suc n)) l = inr (suc n, ground arith, omega arith)
ucw_of_cases (negsuc zero) l = inr (0, refl, omega arith)
ucw_of_cases (negsuc (suc zero)) l = inr (ucw_thresh_ieee l, refl, omega arith)
ucw_of_cases (negsuc (suc (suc zero))) l = inr (ucw_thresh_hpe l, refl, omega arith)
ucw_of_cases (negsuc (suc (suc (suc n)))) l = inl (refl, λ h. omega arith)

ccw_of_cases :
    (z : ℤ) (l : Link)
    → ((ccw_of z l ≡ none) × (¬ IsThreshold z))
      ⊎ ((v : ℕ) × (w : ℕ) × (ccw_of z l ≡ some (v, w)) × IsThreshold z)
unfolding ccw_of
ccw_of_cases (pos zero) l = inl (refl, λ h. omega arith)
ccw_of_cases (pos (suc n)) l = inr (suc n, suc n, ground arith, omega arith)
ccw_of_cases (negsuc zero) l = inr (0, 0, refl, omega arith)
ccw_of_cases (negsuc (suc zero)) l =
    inr (ccw_thresh_ieee l, stp_ccw_thresh_ieee l, refl, omega arith)
ccw_of_cases (negsuc (suc (suc zero))) l =
    inr (ccw_thresh_hpe l, stp_ccw_thresh_hpe l, refl, omega arith)
ccw_of_cases (negsuc (suc (suc (suc n)))) l = inl (refl, λ h. omega arith)

-- sbl_fec_thresholds_set succeeds exactly when both values ask for a threshold. On failure it
-- returns -ENAVAIL and has cleared the codeword thresholds and the warning threshold, so that a half
-- good pair of values does not leave one of them set.
pub thresholds_set_valid :
    (status mode : ℕ) (ucw_in ccw_in : ℤ) (l : Link)
    → (((thresholds_set status mode ucw_in ccw_in l).1 ≡ 0)
        ↔ (IsThreshold ucw_in × IsThreshold ccw_in))
      × (((thresholds_set status mode ucw_in ccw_in l).1 ≡ 0)
          ⊎ (((thresholds_set status mode ucw_in ccw_in l).1 ≡ enavail)
              × ((thresholds_set status mode ucw_in ccw_in l).0.fec ≡ thresholds_clear l.fec)))
unfolding thresholds_set
thresholds_set_valid status mode u c l = elim (ucw_of_cases u l) [
  | inl (none_u, bad) ↦
      rw (none_u, thresholds_set)
        ((λ e. absurd (omega arith), λ h. absurd (bad h.0)), inr (refl, refl))
  | inr (ucw, some_u, good_u) ↦ elim (ccw_of_cases c l) [
    | inl (none_c, bad) ↦
        rw (some_u, none_c, thresholds_set)
          ((λ e. absurd (omega arith), λ h. absurd (bad h.1)), inr (refl, refl))
    | inr (ccw, stp, some_c, good_c) ↦
        rw (some_u, some_c, thresholds_set) ((λ e. (good_u, good_c), λ h. refl), inl refl)
  ]
]
