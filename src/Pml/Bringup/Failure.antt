-- ===== src/Pml/Bringup/Failure.antt =====
-- What a bring-up of the PML block that fails leaves behind.
use ss_sbl.Prelude.{
  ℕ, zero, suc, ◌≡◌, ◌≢◌, ◌∙◌, ap, false, Option, none, some, if_rec, test_bit, test_bit-clear_bit,
  test_bit-clear_bit_ne, subst, not, ◌==◌, some_pair, arith,
}
use ss_sbl.Link.{is_running}
use ss_sbl.Link.Consts.{
  info_pcs_align_en, info_mac_op, info_pcs_tx_am, enolink, enodata, debug_inhibit_cleanup,
  ecanceled,
}
use ss_sbl.Media.{debug_option}
use ss_sbl.BaseLink.{link_info_clear}
use ss_sbl.Pml.Regs.{Reg, Field}
use ss_sbl.Pml.{Board, State, P, get, put, modify, flush, read64, write64}
use ss_sbl.Pml.Mac.{mac_stop, mac_start}
use ss_sbl.Pml.Pcs.{pcs_disable_alignment}
use ss_sbl.Pml.PcsConfig.{enable_auto_lane_degrade}
use ss_sbl.Pml.PcsWait.{pcs_wait}
use ss_sbl.Pml.LlrStart.{llr_start}
use ss_sbl.Pml.Bringup.{
  start_out_err, start_out_err_invalidate, start_done, llr_result, start_mac_llr, start_configure,
  pml_start,
}

-- Hardware that keeps what is written to the two configuration registers of the MAC, whose contents are
-- `tx` and `rx`, and fields of them that read as zero once they are set to zero.
pub record KeepsMac {H : Type 0} (b : Board H) : Type 0 where
  pub tx : H → ℕ
  pub rx : H → ℕ
  pub tx_read : (r : Reg) (h : H) → tx (b.read r h).0 ≡ tx h
  pub rx_read : (r : Reg) (h : H) → rx (b.read r h).0 ≡ rx h
  pub tx_written : (v : ℕ) (h : H) → tx (b.write Reg.cfg_tx_mac v h) ≡ v
  pub rx_written : (v : ℕ) (h : H) → rx (b.write Reg.cfg_rx_mac v h) ≡ v
  pub tx_kept : (r : Reg) (v : ℕ) (h : H) → r ≢ Reg.cfg_tx_mac → tx (b.write r v h) ≡ tx h
  pub rx_kept : (r : Reg) (v : ℕ) (h : H) → r ≢ Reg.cfg_rx_mac → rx (b.write r v h) ≡ rx h
  pub tx_zero : (x : ℕ) → get b Field.tx_mac_operational (put b Field.tx_mac_operational 0 x) ≡ 0
  pub rx_zero : (x : ℕ) → get b Field.rx_mac_operational (put b Field.rx_mac_operational 0 x) ≡ 0

module _ {H : Type 0} (b : Board H) (k : KeepsMac b) where
  -- The MAC is stopped: its transmitter and its receiver are not operational, and the information of the
  -- link tells so.
  pub record MacOff (s : State H) : Type 0 where
    pub tx_off : get b Field.tx_mac_operational (k.tx s.hw) ≡ 0
    pub rx_off : get b Field.rx_mac_operational (k.rx s.hw) ≡ 0
    pub shown : test_bit info_mac_op s.link.link_info ≡ false

  mac_stop-MacOff : (s : State H) → MacOff (mac_stop b s).0
  unfolding mac_stop link_info_clear modify flush read64 write64
  mac_stop-MacOff s =
      let (h₁, v₁) = b.read Reg.cfg_rx_mac s.hw in
      let w₁ = put b Field.rx_mac_operational 0 v₁ in
      let h₂ = b.write Reg.cfg_rx_mac w₁ h₁ in
      let h₃ = (b.read Reg.cfg_rx_mac h₂).0 in
      let (h₄, v₂) = b.read Reg.cfg_tx_mac h₃ in
      let w₂ = put b Field.tx_mac_operational 0 v₂ in
      let h₅ = b.write Reg.cfg_tx_mac w₂ h₄ in
      let tx_final : k.tx (b.read Reg.cfg_tx_mac h₅).0 ≡ w₂ =
        k.tx_read Reg.cfg_tx_mac h₅ ∙ k.tx_written w₂ h₄ in
      let rx_final : k.rx (b.read Reg.cfg_tx_mac h₅).0 ≡ w₁ =
        k.rx_read Reg.cfg_tx_mac h₅
        ∙ k.rx_kept Reg.cfg_tx_mac w₂ h₄ (λ e. cc)
        ∙ k.rx_read Reg.cfg_tx_mac h₃
        ∙ k.rx_read Reg.cfg_rx_mac h₂
        ∙ k.rx_written w₁ h₁ in
      record {
        tx_off = ap (get b Field.tx_mac_operational) tx_final ∙ k.tx_zero v₂;
        rx_off = ap (get b Field.rx_mac_operational) rx_final ∙ k.rx_zero v₁;
        shown = test_bit-clear_bit info_mac_op s.link.link_info;
      }

  disable_alignment-MacOff : (s : State H) → MacOff s → MacOff (pcs_disable_alignment b s).0
  unfolding pcs_disable_alignment modify read64 write64 link_info_clear
  disable_alignment-MacOff s off =
      let (h, v) = b.read Reg.cfg_rx_pcs s.hw in
      let w = put b Field.rx_pcs_enable_lock 0 v in
      record {
        tx_off =
            ap (get b Field.tx_mac_operational)
              (k.tx_kept Reg.cfg_rx_pcs w h (λ e. cc) ∙ k.tx_read Reg.cfg_rx_pcs s.hw)
            ∙ off.tx_off;
        rx_off =
            ap (get b Field.rx_mac_operational)
              (k.rx_kept Reg.cfg_rx_pcs w h (λ e. cc) ∙ k.rx_read Reg.cfg_rx_pcs s.hw)
            ∙ off.rx_off;
        shown =
            test_bit-clear_bit_ne info_mac_op info_pcs_align_en s.link.link_info (ground arith)
            ∙ off.shown;
      }

  start_out_err-MacOff : (err : ℕ) (s : State H) → MacOff (start_out_err b err s).0
  unfolding start_out_err
  start_out_err-MacOff err s =
      let stopped = mac_stop-MacOff s in
      if_rec (λ (p : State H × Unit {0}). MacOff p.0)
        (not (debug_option debug_inhibit_cleanup (mac_stop b s).0.link))
        (disable_alignment-MacOff _ stopped) stopped

  -- A result of sbl_pml_start that is an error comes with the MAC stopped.
  abbrev OnError : Option (State H × ℕ) → Type 0
  OnError r = (s : State H) (err : ℕ) → r ≡ some (s, suc err) → MacOff s

  out_err-OnError : (err : ℕ) (s : State H) → OnError (some (start_out_err b err s))
  out_err-OnError err s s' e q = subst MacOff (some_pair q).0 (start_out_err-MacOff err s)

  invalidate-OnError : (err : ℕ) (s : State H) → OnError (some (start_out_err_invalidate b err s))
  unfolding start_out_err_invalidate
  invalidate-OnError err s = out_err-OnError err _

  done-OnError : (s : State H) → OnError (some (start_done b s))
  unfolding start_done
  done-OnError s s' e q = absurd (ground (arith, (some_pair q).1))

  none-OnError : OnError none
  none-OnError s e q = absurd (ground arith)

  -- A function that waits hands on its error, or ends before it gives one.
  elim-OnError :
      {A : Type 0} (f : State H → A → Option (State H × ℕ)) (o : Option (State H × A))
      → ((s : State H) (a : A) → OnError (f s a))
      → OnError (elim o [ none ↦ none | some (s, a) ↦ f s a ])
  elim-OnError f none h = none-OnError
  elim-OnError f (some (s, a)) h = h s a

  llr_result-OnError : (err : ℕ) (s : State H) → OnError (some (llr_result b err s))
  unfolding llr_result
  llr_result-OnError zero s = done-OnError s
  llr_result-OnError (suc err) s = out_err-OnError (suc err) s

  start_mac_llr-OnError : (fuel err : ℕ) (s : State H) → OnError (start_mac_llr b fuel err s)
  unfolding start_mac_llr
  start_mac_llr-OnError fuel zero s =
      elim-OnError
        (λ s₁ u. elim (llr_start b fuel (mac_start b s₁).0) [
          | none ↦ none
          | some (s₂, err) ↦ some (llr_result b err s₂)
        ])
        (enable_auto_lane_degrade b fuel s)
        (λ s₁ u.
          elim-OnError (λ s₂ e. some (llr_result b e s₂)) (llr_start b fuel (mac_start b s₁).0)
            (λ s₂ e. llr_result-OnError e s₂))
  start_mac_llr-OnError fuel (suc err) s =
      if_rec (λ (m : P H ℕ). OnError (some (m s))) (suc err == ecanceled)
        (out_err-OnError (suc err) s) (invalidate-OnError (suc err) s)

  -- Where sbl_pml_start returns an error, whichever step it comes from, the MAC is stopped, on hardware that
  -- keeps what is written to its configuration: the fields that make the transmitter and the receiver
  -- operational are zero in their registers, and the information of the link no longer shows the MAC.
  pub pml_start-MacOff :
      (fuel : ℕ) (s s' : State H) (err : ℕ) → pml_start b fuel s ≡ some (s', suc err) → MacOff s'
  unfolding pml_start
  pml_start-MacOff fuel s =
      let s₁ = (start_configure b s).0 in
      if_rec OnError (not (is_running s.link.sstate)) (out_err-OnError enolink s) (
        if_rec OnError (not (test_bit info_pcs_tx_am s.link.link_info)) (out_err-OnError enodata s)
          (if_rec OnError (not ((start_configure b s).1 == 0))
            (out_err-OnError (start_configure b s).1 s₁)
            (elim-OnError (λ s₂ e. start_mac_llr b fuel e s₂) (pcs_wait b fuel s₁)
              (λ s₂ e. start_mac_llr-OnError fuel e s₂))))
