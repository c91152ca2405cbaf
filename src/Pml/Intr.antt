-- ===== src/Pml/Intr.antt =====
-- The handler of the interrupts of a port and the error flags: drivers/net/ethernet/hpe/sbl/sbl_pml.c.
pub mod Subset
use ss_sbl.Prelude.{
  ℕ, ◌==◌, ◌∷◌, Bool, true, false, not, ◌||◌, if◌then◌else◌, word_and, word_and_not,
}
use ss_sbl.Link.{Link}
use ss_sbl.Link.Consts.{einval, ealready}
use ss_sbl.Pml.Regs.{Reg}
use ss_sbl.Pml.{
  Board, State, P, Event, IntrOp, return, ◌>>=◌, ◌>>◌, the_link, update, tell, read64, write64,
}

-- `(err_flags & ~link->intr_err_flgs) || !(err_flags & link->intr_err_flgs)`
unfoldable pub flags_refused : ℕ → ℕ → Bool
flags_refused flags installed =
    not (word_and_not 64 flags installed == 0) || word_and 64 flags installed == 0

module _ {H : Type 0} (b : Board H) where
  -- A callback of the instance on the interrupts
  unfoldable pub intr_op : IntrOp → ℕ → P H ℕ
  intr_op op flags s =
      let (h, err) = b.intr_op op flags s.hw in
      (record s { hw = h; log = Event.intr op flags ∷ s.log }, err)

  -- sbl_pml_install_intr_handler
  unfoldable pub install_intr_handler : ℕ → P H ℕ
  install_intr_handler flags = do
    l ← the_link
    if not (l.intr_err_flgs == 0)
        then return ealready
        else (do update (λ k. record k { intr_err_flgs = flags }); intr_op IntrOp.install flags)

  -- sbl_pml_enable_intr_handler and sbl_pml_disable_intr_handler
  unfoldable pub change_intr_handler : IntrOp → ℕ → P H ℕ
  change_intr_handler op flags = do
    l ← the_link
    if l.intr_err_flgs == 0
        then return 0
        else if flags_refused flags l.intr_err_flgs
        then return einval
        else intr_op op flags

  unfoldable pub enable_intr_handler : ℕ → P H ℕ
  enable_intr_handler flags = change_intr_handler IntrOp.enable flags

  unfoldable pub disable_intr_handler : ℕ → P H ℕ
  disable_intr_handler flags = change_intr_handler IntrOp.disable flags

  -- sbl_pml_remove_intr_handler
  unfoldable pub remove_intr_handler : P H ℕ
  remove_intr_handler = do
    l ← the_link
    if l.intr_err_flgs == 0 then return 0 else (do
      err ← intr_op IntrOp.remove l.intr_err_flgs
      update (λ k. record k { intr_err_flgs = 0 })
      return err)

  -- sbl_pml_err_flgs_test, sbl_pml_err_flgs_clear and sbl_pml_err_flgs_clear_all
  unfoldable pub err_flgs_test : ℕ → P H Bool
  err_flgs_test flags = do v ← read64 b Reg.err_flg; return (not (word_and 64 v flags == 0))

  unfoldable pub err_flgs_clear : ℕ → P H (Unit {0})
  err_flgs_clear flags = write64 b Reg.err_clr flags

  unfoldable pub err_flgs_clear_all : P H (Unit {0})
  err_flgs_clear_all = do v ← read64 b Reg.err_flg; write64 b Reg.err_clr v
