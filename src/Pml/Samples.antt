-- ===== src/Pml/Samples.antt =====
-- A PML block with hardware whose state is the number of milliseconds that are left until the start
-- timeout of the link: a read of a register takes one, and a pause what it lasts.
use ss_sbl.Prelude.{ℕ, ◌-◌, ◌/◌, ◌%◌, ◌≡◌, refl, true, false, [], arith}
use ss_sbl.Kernel.{tick_1000}
use ss_sbl.Link.{Link}
use ss_sbl.Fec.Thresholds.{Platform}
use ss_sbl.Samples.{timing}
use ss_sbl.Timers.{start_timeout}
use ss_sbl.Pml.Regs.{Reg, Field, ErrFlag, Header}
use ss_sbl.Pml.{Board, State}
use ss_sbl.Pml.Waiting.{RunsOut}

-- The receive status has one digit for each of its fields; the other registers are all one field.
abbrev pub header : Header
header = record { get = field; update = λ f x v. v; dflt = λ r. 0; field_dflt = λ f. 0; flag = bit }
  where
    field : Field → ℕ → ℕ
    field Field.sts_align_status x = x % 10
    field Field.sts_fault x = x / 10 % 10
    field Field.sts_local_fault x = x / 100 % 10
    field Field.sts_hi_ser x = x / 1000 % 10
    field Field.sts_am_lock x = x / 10000
    field _ x = x

    bit : ErrFlag → ℕ
    bit ErrFlag.autoneg_complete = 1
    bit ErrFlag.autoneg_page_received = 2
    bit ErrFlag.pcs_link_down = 3
    bit ErrFlag.pcs_hi_ser = 4
    bit ErrFlag.llr_replay_at_max = 5
    bit ErrFlag.pcs_tx_degrade = 6
    bit ErrFlag.pcs_rx_degrade = 7
    bit ErrFlag.pcs_tx_degrade_failure = 8
    bit ErrFlag.pcs_rx_degrade_failure = 9
    bit ErrFlag.mac_tx_dp_err = 10
    bit ErrFlag.mac_rx_dp_err = 11

-- The receive status `status`, and a loop time of 250 ns
abbrev pub shows : ℕ → Reg → ℕ
shows status Reg.sts_rx_pcs = status
shows status Reg.sts_llr_loop_time = 250
shows status _ = 0

abbrev pub board : ℕ → Board ℕ
board status = record {
  kernel = tick_1000;
  platform = Platform.cassini;
  header = header;
  is_hw = true;
  read = λ r h. (h - 1, shows status r);
  write = λ r v h. h;
  pause = λ us h. h - us / 1000;
  jiffies = λ h. 21001 - h;
  cancelled = λ h. false;
  intr_op = λ op flags h. (h, 0);
  check_eyes = λ h. (h, 0);
  hm_timeout = 0;
  tx_lane_source = λ i. i;
  rx_lane_source = λ i. i;
  max_frame_size = 9216;
  edge_cap = (4096, 4096);
  fabric_cap = (4096, 4096);
}

pub expired : start_timeout tick_1000 21001 timing ≡ true
unfolding start_timeout
expired = refl

abbrev pub runs_out : (status : ℕ) → RunsOut (board status) timing
runs_out status = record {
  left = λ h. h;
  over = λ h e. rw e expired;
  left_read = λ r h. omega arith;
  left_write = λ r v h. omega arith;
  left_eyes = λ h. omega arith;
  left_pause = λ us h. omega arith;
}

abbrev pub at : ℕ → Link → State ℕ
at left l = record { hw = left; link = l; log = [] }

-- All lanes are locked and the PCS is aligned, with and without a fault.
abbrev pub good_status : ℕ
good_status = 2550001

abbrev pub faulty_status : ℕ
faulty_status = 2550011
