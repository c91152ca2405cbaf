-- ===== src/Pml/Lanes.antt =====
-- The lanes on which data will arrive: sbl_pml_pcs_determine_active_lanes (sbl_pml_pcs.c).
pub mod Active
use ss_sbl.Prelude.{
  ℕ, zero, suc, ◌+◌, ◌-◌, ◌*◌, ◌^◌, ◌==◌, ltb, Bool, true, false, if◌then◌else◌, ◌≡◌, ◌<◌, ◌≢◌,
  refl, word_or, arith,
}
use ss_sbl.Link.{Link}
use ss_sbl.Link.Consts.{
  ebadrqc, loopback_local, mode_bs_200g, mode_bj_100g, mode_cd_100g, mode_cd_50g,
}

-- link->active_rx_lanes and link->active_fec_lanes, two `u32`
pub record Lanes : Type 0 where
  pub rx : ℕ
  pub fec : ℕ

-- `rx |= 0x1 << i; fec |= 0x3 << 2*i`
unfoldable pub add_lane : ℕ → Lanes → Lanes
add_lane i s = record { rx = word_or 32 s.rx (2 ^ i); fec = word_or 32 s.fec (3 * 2 ^ (2 * i)) }

-- `rx = 0x1 << i; fec = 0x3 << 2*i`
unfoldable pub only_lane : ℕ → Lanes
only_lane i = record { rx = 2 ^ i; fec = 3 * 2 ^ (2 * i) }

-- The loop of the 100G mode over the serdes i, ...: the lanes whose source is 0 or 1. A source is an `int`
-- in the table of the serdes, which holds 0 to 3 and nothing negative.
unfoldable pub lanes_100g : (ℕ → ℕ) → ℕ → ℕ → Lanes → Lanes
unfolding add_lane
lanes_100g source zero i s = s
lanes_100g source (suc n) i s =
    lanes_100g source n (i + 1) (if ltb (source i) 2 then add_lane i s else s)

-- The two loops of the 50G mode: the first lane with source 0, where a break follows, and the last.
unfoldable pub first_lane_50g : (ℕ → ℕ) → ℕ → ℕ → Lanes → Lanes
unfolding only_lane
first_lane_50g source zero i s = s
first_lane_50g source (suc n) i s =
    let rest = first_lane_50g source n (i + 1) s in if source i == 0 then only_lane i else rest

unfoldable pub last_lane_50g : (ℕ → ℕ) → ℕ → ℕ → Lanes → Lanes
unfolding only_lane
last_lane_50g source zero i s = s
last_lane_50g source (suc n) i s =
    last_lane_50g source n (i + 1) (if source i == 0 then only_lane i else s)

-- SBL_SERDES_LANES_PER_PORT
abbrev pub lanes_per_port : ℕ
lanes_per_port = 4

abbrev pub no_lanes : Lanes
no_lanes = record { rx = 0; fec = 0 }

-- sbl_pml_pcs_determine_active_lanes, with the lanes that the link has and what it returns
unfoldable pub determine_active_lanes : (ℕ → ℕ) → (ℕ → ℕ) → ℕ → ℕ → Lanes → Lanes × ℕ
unfolding lanes_100g first_lane_50g last_lane_50g
determine_active_lanes tx_source rx_source mode loopback s =
    if mode == mode_bs_200g
    then (record { rx = 15; fec = 255 }, 0)
    else if mode == mode_bj_100g
    then (record { rx = 15; fec = 15 }, 0)
    else if mode == mode_cd_100g
    then (
      if loopback == loopback_local
          then lanes_100g tx_source lanes_per_port 0 no_lanes
          else lanes_100g rx_source lanes_per_port 0 no_lanes,
      0,
    )
    else if mode == mode_cd_50g
    then (
      if loopback == loopback_local
          then first_lane_50g tx_source lanes_per_port 0 s
          else last_lane_50g rx_source lanes_per_port 0 s,
      0,
    )
    else (s, ebadrqc)

-- The two fields of the link.
abbrev pub lanes_of : Link → Lanes
lanes_of l = record { rx = l.pml.active_rx_lanes; fec = l.pml.active_fec_lanes }

abbrev pub with_lanes : Lanes → Link → Link
with_lanes s l = record l {
  pml = record (l.pml) { active_rx_lanes = s.rx; active_fec_lanes = s.fec };
}
