-- ===== src/Proc/Signals/Delivery.antt =====
-- Proc/Signals: a signal to kill, and what else may happen to the process before it is checked.
use onyx_kernel.Prelude.{
  ℕ, ◌≡◌, refl, ap, ◌∙◌, true, Option, none, some, List, [], ◌∷◌, arith, inl, inr, ◌⊎◌,
}
use onyx_kernel.Proc.Signals.{
  sig_kill, Mask, TrapFrame, SigProc, receive, UserPtr, null, unmapped, to, Action, sigaction,
  sigprocmask, sigreturn, Check, exits, signal_check,
}
use onyx_kernel.Proc.Signals.Masks.{receives, acts, masks, checks, Step, event, returns}

-- The outcome of the first check of the signals in a history.
pub first_check : List Step → SigProc → Option Check
first_check [] p = none
first_check (event (checks tf) ∷ steps) p = some (signal_check tf p).0
first_check (event (receives signal) ∷ steps) p = first_check steps (receive signal p).0
first_check (event (acts signum act) ∷ steps) p = first_check steps (sigaction signum act p).2
first_check (event (masks how set_ptr) ∷ steps) p = first_check steps (sigprocmask how set_ptr p).2
first_check (returns tf ∷ steps) p = first_check steps (sigreturn tf p).1

abbrev IsDoomed : SigProc → Type 0
IsDoomed p = p.pending_signals sig_kill ≡ true

receive-IsDoomed : (signal : ℕ) (p : SigProc) → IsDoomed p → IsDoomed (receive signal p).0
unfolding receive
receive-IsDoomed signal p h = ground (arith, h)

sigaction-pending :
    (signum : ℕ) (act : UserPtr Action) (p : SigProc)
    → (sigaction signum act p).2.pending_signals ≡ p.pending_signals
unfolding sigaction
sigaction-pending signum null p = ground arith
sigaction-pending signum unmapped p = ground arith
sigaction-pending signum (to a) p = ground arith

sigprocmask-pending :
    (how : ℕ) (set_ptr : UserPtr Mask) (p : SigProc)
    → (sigprocmask how set_ptr p).2.pending_signals ≡ p.pending_signals
unfolding sigprocmask
sigprocmask-pending how null p = refl
sigprocmask-pending how unmapped p = refl
sigprocmask-pending how (to new) p = ground arith

sigreturn-pending :
    (tf : TrapFrame) (p : SigProc) → (sigreturn tf p).1.pending_signals ≡ p.pending_signals
unfolding sigreturn
sigreturn-pending tf p = ground arith

check-IsDoomed : (tf : TrapFrame) (p : SigProc) → IsDoomed p → (signal_check tf p).0 ≡ exits 137
unfolding signal_check
check-IsDoomed tf p h = rw h refl

first_check-IsDoomed :
    (steps : List Step) (p : SigProc)
    → IsDoomed p
    → (first_check steps p ≡ none) ⊎ (first_check steps p ≡ some (exits 137))
unfolding first_check
first_check-IsDoomed [] p h = inl refl
first_check-IsDoomed (event (checks tf) ∷ steps) p h = inr (ap some (check-IsDoomed tf p h))
first_check-IsDoomed (event (receives signal) ∷ steps) p h =
    first_check-IsDoomed steps (receive signal p).0 (receive-IsDoomed signal p h)
first_check-IsDoomed (event (acts signum act) ∷ steps) p h =
    first_check-IsDoomed steps (sigaction signum act p).2
      (ap (λ m. m sig_kill) (sigaction-pending signum act p) ∙ h)
first_check-IsDoomed (event (masks how set_ptr) ∷ steps) p h =
    first_check-IsDoomed steps (sigprocmask how set_ptr p).2
      (ap (λ m. m sig_kill) (sigprocmask-pending how set_ptr p) ∙ h)
first_check-IsDoomed (returns tf ∷ steps) p h =
    first_check-IsDoomed steps (sigreturn tf p).1
      (ap (λ m. m sig_kill) (sigreturn-pending tf p) ∙ h)

-- A process that gets SIGKILL exits with 137 at the first check of its signals, whatever its masks and
-- handlers are and whatever signals, actions and masks come before that check.
pub first_check-receive :
    (steps : List Step) (p : SigProc)
    → (first_check steps (receive sig_kill p).0 ≡ none)
      ⊎ (first_check steps (receive sig_kill p).0 ≡ some (exits 137))
unfolding receive
first_check-receive steps p = first_check-IsDoomed steps (receive sig_kill p).0 (ground arith)
