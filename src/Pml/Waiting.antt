-- ===== src/Pml/Waiting.antt =====
-- Functions of the PML block that wait: their loops run on fuel, and `none` tells that it is over
-- while the loop goes on. The waits end by the start timeout, which a clock that runs brings about.
use ss_sbl.Prelude.{ℕ, ◌-◌, ◌≤◌, ◌≡◌, ◌⊎◌, inl, inr, refl, true, Option, none, some}
use ss_sbl.Link.{Timing}
use ss_sbl.Timers.{start_timeout}
use ss_sbl.Pml.Regs.{Reg}
use ss_sbl.Pml.{Board, State, P}

-- How a round of a loop ends: the function returns with an error or 0, the loop goes on, the loop is
-- over, or the function starts again at its label `restart`.
pub data Turn : Type 0 where
  stop : ℕ → Turn
  again onward restart : Turn

pub turn_cases :
    (t : Turn)
    → ((err : ℕ) × (t ≡ Turn.stop err)) ⊎ (t ≡ Turn.again) ⊎ (t ≡ Turn.onward) ⊎ (t ≡ Turn.restart)
turn_cases (Turn.stop err) = inl (err, refl)
turn_cases Turn.again = inr (inl refl)
turn_cases Turn.onward = inr (inr (inl refl))
turn_cases Turn.restart = inr (inr (inr refl))

abbrev pub W : Type 0 → Type 0 → Type 0
W H A = State H → Option (State H × A)

module _ {H : Type 0} where
  abbrev pub give : {A : Type 0} → A → W H A
  give a s = some (s, a)

  -- A function that does not wait.
  abbrev pub run : {A : Type 0} → P H A → W H A
  run m s = some (m s)

  infixl 5 ◌>>=◌ ◌>>◌
  abbrev pub ◌>>=◌ : {A B : Type 0} → W H A → (A → W H B) → W H B
  ◌>>=◌ m f s = elim (m s) [ none ↦ none | some (s', a) ↦ f a s' ]

  abbrev pub ◌>>◌ : {A B : Type 0} → W H A → W H B → W H B
  ◌>>◌ m k s = elim (m s) [ none ↦ none | some (s', a) ↦ k s' ]

-- A start timeout that runs out: the number `left` of a state of the hardware is zero only when the
-- timeout has passed. A read of a register, which takes some time, lessens it, and nothing raises it.
pub record RunsOut {H : Type 0} (b : Board H) (t : Timing) : Type 0 where
  pub left : H → ℕ
  pub over : (h : H) → left h ≡ 0 → start_timeout b.kernel (b.jiffies h) t ≡ true
  pub left_read : (r : Reg) (h : H) → left (b.read r h).0 ≤ left h - 1
  pub left_write : (r : Reg) (v : ℕ) (h : H) → left (b.write r v h) ≤ left h
  pub left_eyes : (h : H) → left (b.check_eyes h).0 ≤ left h
  pub left_pause : (us : ℕ) (h : H) → left (b.pause us h) ≤ left h
