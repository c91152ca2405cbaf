-- ===== src/Pml.antt =====
-- The PML block of a port: the files sbl_pml*.c of drivers/net/ethernet/hpe/sbl. Its registers are
-- read and written through the callbacks sbl_read64 and sbl_write64 of the instance. What they reach
-- is a state H of the hardware, which a read may change too, since time goes by between two reads.
pub mod Regs
pub mod Mac
pub mod Lanes
pub mod Pcs
pub mod Waiting
pub mod PcsConfig
pub mod PcsWait
pub mod Llr
pub mod LlrMode
pub mod LlrStart
pub mod Intr
pub mod Bringup
pub mod Recovery
pub mod Handler
pub mod SerdesOp
pub mod Samples
mod Tests
use ss_sbl.Prelude.{ℕ, ◌==◌, Bool, List, ◌∷◌, if◌then◌else◌}
use ss_sbl.Link.{Link}
use ss_sbl.Kernel.{Kernel}
use ss_sbl.Fec.Thresholds.{Platform}
use ss_sbl.BaseLink.{link_info_set, link_info_clear}
use ss_sbl.Timers.{start_timeout}
use ss_sbl.Pml.Regs.{Reg, Field, Header}

-- The callbacks of the instance on the interrupts of a port
pub data IntrOp : Type 0 where
  install enable disable remove : IntrOp

-- What a function of the PML block tells others: the callbacks on the interrupts with their flags,
-- sbl_async_alert with its type and the origin or the lanes it carries, the completion that autonegotiation waits
-- for, the timer of the recovery monitor, set for a tick or deleted, and the mutex of the serdes.
pub data Event : Type 0 where
  intr : IntrOp → ℕ → Event
  async_alert : ℕ → ℕ → Event
  degrade_alert : ℕ → ℕ → ℕ → Event
  complete_an : Event
  timer_set : ℕ → Event
  timer_delete : Event
  invalidate_tuning_params : Event
  lock_serdes_mtx unlock_serdes_mtx : Event

-- The instance around one port. `pause` is a sleep or a delay of so many microseconds at least;
-- `cancelled` is link->start_cancelled, which another thread sets; `check_eyes` is
-- sbl_port_check_eyes, and `hm_timeout` is usecs_to_jiffies(HM_TIMEOUT). `tx_lane_source` and
-- `rx_lane_source` are the serdes of the port as switch_info tells them; the capacities and the
-- frame size are fields too.
pub record Board (H : Type 0) : Type 0 where
  pub kernel : Kernel
  pub platform : Platform
  pub header : Header
  pub is_hw : Bool
  pub read : Reg → H → H × ℕ
  pub write : Reg → ℕ → H → H
  pub pause : ℕ → H → H
  pub jiffies : H → ℕ
  pub cancelled : H → Bool
  pub intr_op : IntrOp → ℕ → H → H × ℕ
  pub check_eyes : H → H × ℕ
  pub hm_timeout : ℕ
  pub tx_lane_source : ℕ → ℕ
  pub rx_lane_source : ℕ → ℕ
  pub max_frame_size : ℕ
  pub edge_cap : ℕ × ℕ
  pub fabric_cap : ℕ × ℕ

pub record State (H : Type 0) : Type 0 where
  pub hw : H
  pub link : Link
  pub log : List Event

-- A function of the PML block, with what it returns.
abbrev pub P : Type 0 → Type 0 → Type 0
P H A = State H → State H × A

module _ {H : Type 0} where
  abbrev pub return : {A : Type 0} → A → P H A
  return a s = (s, a)

  infixl 5 ◌>>=◌ ◌>>◌
  abbrev pub ◌>>=◌ : {A B : Type 0} → P H A → (A → P H B) → P H B
  ◌>>=◌ m f s = let (s', a) = m s in f a s'

  abbrev pub ◌>>◌ : {A B : Type 0} → P H A → P H B → P H B
  ◌>>◌ m k s = let (s', a) = m s in k s'

  -- The link record, one use of it, and an update.
  abbrev pub the_link : P H Link
  the_link s = (s, s.link)

  abbrev pub gets : {A : Type 0} → (Link → A) → P H A
  gets f s = (s, f s.link)

  -- What is known of the state without touching the hardware
  abbrev pub ask : {A : Type 0} → (State H → A) → P H A
  ask f s = (s, f s)

  abbrev pub update : (Link → Link) → P H (Unit {0})
  update f s = (record s { link = f s.link }, tt)

  abbrev pub tell : Event → P H (Unit {0})
  tell e s = (record s { log = e ∷ s.log }, tt)

  -- sbl_link_info_set and sbl_link_info_clear
  abbrev pub info_set : ℕ → P H (Unit {0})
  info_set bit = update (link_info_set bit)

  abbrev pub info_clear : ℕ → P H (Unit {0})
  info_clear bit = update (link_info_clear bit)

  -- `if (test) m;`
  abbrev pub when : Bool → P H (Unit {0}) → P H (Unit {0})
  when test m s = if test then m s else (s, tt)

  module _ (b : Board H) where
    -- sbl_read64 and sbl_write64
    unfoldable pub read64 : Reg → P H ℕ
    read64 r s = let (h, v) = b.read r s.hw in (record s { hw = h }, v)

    unfoldable pub write64 : Reg → ℕ → P H (Unit {0})
    write64 r v s = (record s { hw = b.write r v s.hw }, tt)

    unfoldable pub pause : ℕ → P H (Unit {0})
    pause us s = (record s { hw = b.pause us s.hw }, tt)

    -- `val64 = sbl_read64(r); val64 = f(val64); sbl_write64(r, val64);`
    unfoldable pub modify : Reg → (ℕ → ℕ) → P H (Unit {0})
    unfolding read64 write64
    modify r f = do v ← read64 r; write64 r (f v)

    -- The read that flushes a write.
    unfoldable pub flush : Reg → P H (Unit {0})
    unfolding read64
    flush r = do v ← read64 r; return tt

    abbrev pub get : Field → ℕ → ℕ
    get f x = b.header.get f x

    -- One `..._UPDATE`, to compose them in the order of the source.
    abbrev pub put : Field → ℕ → ℕ → ℕ
    put f v x = b.header.update f x v

    -- The value of `jiffies`, sbl_start_timeout and sbl_base_link_start_cancelled.
    unfoldable pub now : State H → ℕ
    now s = b.jiffies s.hw

    unfoldable pub timed_out : State H → Bool
    timed_out s = start_timeout b.kernel (b.jiffies s.hw) s.link.timing

    unfoldable pub was_cancelled : State H → Bool
    was_cancelled s = b.cancelled s.hw
