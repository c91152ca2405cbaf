-- ===== src/Pml/Bringup/Tests.antt =====
-- A bring-up that is refused, on hardware with the registers of the MAC.
use ss_sbl.Prelude.{ℕ, ◌≡◌, ◌≢◌, refl, true, false, some, [], test_bit, clear_bit}
use ss_sbl.Kernel.{tick_1000}
use ss_sbl.Fec.Thresholds.{Platform}
use ss_sbl.Link.Consts.{enolink}
use ss_sbl.Samples.{link_down}
use ss_sbl.Pml.Regs.{Reg}
use ss_sbl.Pml.{Board, State, read64, write64, modify, flush}
use ss_sbl.Media.{debug_option}
use ss_sbl.Pml.Pcs.{pcs_disable_alignment}
use ss_sbl.BaseLink.{link_info_clear}
use ss_sbl.Pml.Mac.{mac_stop}
use ss_sbl.Pml.Bringup.{pml_start, start_out_err}
use ss_sbl.Pml.Bringup.Failure.{KeepsMac, MacOff, pml_start-MacOff}
use ss_sbl.Pml.Samples.{header}

-- Hardware whose state is the two configuration registers of the MAC; no time goes by.
abbrev mac_write : Reg → ℕ → ℕ × ℕ → ℕ × ℕ
mac_write Reg.cfg_tx_mac v (tx, rx) = (v, rx)
mac_write Reg.cfg_rx_mac v (tx, rx) = (tx, v)
mac_write _ v h = h

abbrev mac_read : Reg → ℕ × ℕ → ℕ
mac_read Reg.cfg_tx_mac (tx, rx) = tx
mac_read Reg.cfg_rx_mac (tx, rx) = rx
mac_read _ h = 0

abbrev mac_board : Board (ℕ × ℕ)
mac_board = record {
  kernel = tick_1000;
  platform = Platform.cassini;
  header = header;
  is_hw = true;
  read = λ r h. (h, mac_read r h);
  write = mac_write;
  pause = λ us h. h;
  jiffies = λ h. 20000;
  cancelled = λ h. false;
  intr_op = λ op flags h. (h, 0);
  check_eyes = λ h. (h, 0);
  hm_timeout = 0;
  tx_lane_source = λ i. i;
  rx_lane_source = λ i. i;
  max_frame_size = 9216;
  edge_cap = (4096, 4096);
  fabric_cap = (4096, 4096);
}

mac_write-tx : (r : Reg) (v : ℕ) (h : ℕ × ℕ) → r ≢ Reg.cfg_tx_mac → (mac_write r v h).0 ≡ h.0
mac_write-tx Reg.cfg_tx_mac v h n = absurd (n refl)
mac_write-tx Reg.cfg_rx_mac v h n = refl
mac_write-tx _ v h n = refl

mac_write-rx : (r : Reg) (v : ℕ) (h : ℕ × ℕ) → r ≢ Reg.cfg_rx_mac → (mac_write r v h).1 ≡ h.1
mac_write-rx Reg.cfg_tx_mac v h n = refl
mac_write-rx Reg.cfg_rx_mac v h n = absurd (n refl)
mac_write-rx _ v h n = refl

abbrev keeps_mac : KeepsMac mac_board
keeps_mac = record {
  tx = λ h. h.0;
  rx = λ h. h.1;
  tx_read = λ r h. refl;
  rx_read = λ r h. refl;
  tx_written = λ v h. refl;
  rx_written = λ v h. refl;
  tx_kept = mac_write-tx;
  rx_kept = mac_write-rx;
  tx_zero = λ x. refl;
  rx_zero = λ x. refl;
}

-- The serdes do not run, and the MAC does at first.
abbrev mac_at : ℕ × ℕ → State (ℕ × ℕ)
mac_at macs = record { hw = macs; link = link_down; log = [] }

start_refused : pml_start mac_board 5 (mac_at (1, 1)) ≡ some (mac_at (0, 0), enolink)
unfolding pml_start start_out_err debug_option test_bit mac_stop link_info_clear flush modify
    pcs_disable_alignment clear_bit read64 write64
start_refused = refl

pml_start-MacOff_example : MacOff mac_board keeps_mac (mac_at (0, 0))
pml_start-MacOff_example =
    pml_start-MacOff mac_board keeps_mac 5 (mac_at (1, 1)) (mac_at (0, 0)) 66 start_refused
