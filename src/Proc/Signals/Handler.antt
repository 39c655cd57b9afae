-- ===== src/Proc/Signals/Handler.antt =====
-- Proc/Signals: the entry of a handler, and the return from it.
use onyx_kernel.Prelude.{
  ℕ, ◌≡◌, refl, sym, ap, ◌∙◌, subst, Bool, true, false, Option, none, some, List, [], ◌∷◌,
  if◌then◌else◌, arith, Bool-cases, inl, inr,
}
use onyx_kernel.Proc.State.{stopped}
use onyx_kernel.Proc.Signals.{
  sig_kill, sig_stop, Mask, TrapFrame, SigProc, receive, UserPtr, null, unmapped, to, Action,
  sigaction, sigprocmask, sigreturn, lowest, Check, resume, resched, exits, default_action,
  dispatch, picked, deliverable, consumed, signal_check,
}
use onyx_kernel.Proc.Signals.Masks.{Event, receives, acts, masks, checks, happen}

-- A handler runs that is to return to this frame and this mask.
pub record IsInside (tf : TrapFrame) (m : Mask) (p : SigProc) : Type 0 where
  pub handling : p.in_signal_handler ≡ true
  pub frame : p.saved_tf ≡ tf
  pub mask : p.saved_mask ≡ m

-- The fields of a handler that is running.
abbrev saved : SigProc → Bool × TrapFrame × Mask
saved p = (p.in_signal_handler, p.saved_tf, p.saved_mask)

IsInside-saved :
    (tf : TrapFrame) (m : Mask) (p q : SigProc)
    → saved q ≡ saved p
    → IsInside tf m p
    → IsInside tf m q
IsInside-saved tf m p q e v = record {
  handling = ap (λ s. s.0) e ∙ v.handling;
  frame = ap (λ s. s.1) e ∙ v.frame;
  mask = ap (λ s. s.2) e ∙ v.mask;
}

sigaction-saved :
    (signum : ℕ) (act : UserPtr Action) (p : SigProc) → saved (sigaction signum act p).2 ≡ saved p
unfolding sigaction
sigaction-saved signum null p = ground arith
sigaction-saved signum unmapped p = ground arith
sigaction-saved signum (to a) p = ground arith

sigprocmask-saved :
    (how : ℕ) (set_ptr : UserPtr Mask) (p : SigProc) → saved (sigprocmask how set_ptr p).2 ≡ saved p
unfolding sigprocmask
sigprocmask-saved how null p = refl
sigprocmask-saved how unmapped p = refl
sigprocmask-saved how (to new) p = ground arith

receive-saved : (signal : ℕ) (p : SigProc) → saved (receive signal p).0 ≡ saved p
unfolding receive
receive-saved signal p = refl

check-saved :
    (tf : TrapFrame) (p : SigProc)
    → p.in_signal_handler ≡ true
    → saved (signal_check tf p).2 ≡ saved p
unfolding signal_check
check-saved tf p h = ground (arith, h)

happen-IsInside :
    (tf : TrapFrame) (m : Mask) (e : Event) (p : SigProc)
    → IsInside tf m p
    → IsInside tf m (happen e p)
unfolding happen
happen-IsInside tf m (receives signal) p v =
    IsInside-saved tf m p (receive signal p).0 (receive-saved signal p) v
happen-IsInside tf m (acts signum act) p v =
    IsInside-saved tf m p (sigaction signum act p).2 (sigaction-saved signum act p) v
happen-IsInside tf m (masks how set_ptr) p v =
    IsInside-saved tf m p (sigprocmask how set_ptr p).2 (sigprocmask-saved how set_ptr p) v
happen-IsInside tf m (checks f) p v =
    IsInside-saved tf m p (signal_check f p).2 (check-saved f p v.handling) v

pub events : List Event → SigProc → SigProc
events [] p = p
events (e ∷ es) p = events es (happen e p)

events-IsInside :
    (tf : TrapFrame) (m : Mask) (es : List Event) (p : SigProc)
    → IsInside tf m p
    → IsInside tf m (events es p)
unfolding events
events-IsInside tf m [] p v = v
events-IsInside tf m (e ∷ es) p v =
    events-IsInside tf m es (happen e p) (happen-IsInside tf m e p v)

default_action-in_signal_handler :
    (signum : ℕ) (p : SigProc) → (default_action signum p).1.in_signal_handler ≡ p.in_signal_handler
default_action-in_signal_handler signum p = ground arith

dispatch-IsInside :
    (signum : ℕ) (tf : TrapFrame) (p : SigProc)
    → p.in_signal_handler ≡ false
    → (dispatch signum tf p).2.in_signal_handler ≡ true
    → IsInside tf p.signal_mask (dispatch signum tf p).2
dispatch-IsInside signum tf p out e = record {
  handling = e;
  frame = ground (arith, e, out);
  mask = ground (arith, e, out);
}

picked-IsInside :
    (o : Option ℕ) (tf : TrapFrame) (p : SigProc)
    → p.in_signal_handler ≡ false
    → (picked o tf p).2.in_signal_handler ≡ true
    → IsInside tf p.signal_mask (picked o tf p).2
picked-IsInside none tf p out e = absurd (cc)
picked-IsInside (some signum) tf p out e = dispatch-IsInside signum tf (consumed signum p) out e

-- What an outcome says of a process that ran no handler.
abbrev Enters : TrapFrame → Mask → Check × TrapFrame × SigProc → Type 0
Enters tf m r = r.2.in_signal_handler ≡ true → IsInside tf m r.2

signal_check-IsInside :
    (tf : TrapFrame) (p : SigProc)
    → p.in_signal_handler ≡ false
    → Enters tf p.signal_mask (signal_check tf p)
unfolding signal_check
signal_check-IsInside tf p out =
    let rest = picked (lowest 31 1 (deliverable p)) tf p in
    let third : Bool → Check × TrapFrame × SigProc = λ b. if b then (resume, tf, p) else rest in
    let second : Bool → Check × TrapFrame × SigProc = λ b.
      if b
      then (resched, tf, record (consumed sig_stop p) { state = stopped })
      else third p.in_signal_handler in
    let first : Bool → Check × TrapFrame × SigProc = λ b.
      if b then (exits 137, tf, consumed sig_kill p) else second (p.pending_signals sig_stop) in
    elim (Bool-cases (p.pending_signals sig_kill)) [
      | inl f ↦ subst (λ b. Enters tf p.signal_mask (first b)) (sym f) (λ e. absurd (cc))
      | inr f ↦
          subst (λ b. Enters tf p.signal_mask (first b)) (sym f)
            (elim (Bool-cases (p.pending_signals sig_stop)) [
              | inl g ↦ subst (λ b. Enters tf p.signal_mask (second b)) (sym g) (λ e. absurd (cc))
              | inr g ↦
                  subst (λ b. Enters tf p.signal_mask (second b)) (sym g)
                    (subst (λ b. Enters tf p.signal_mask (third b)) (sym out)
                      (picked-IsInside (lowest 31 1 (deliverable p)) tf p out))
            ])
    ]

-- Where a check of the signals enters a handler, and the handler changes any registers, asks for
-- actions and masks, gets signals and is checked before it returns, the return restores the registers
-- and the mask from before the check.
pub sigreturn-signal_check :
    (tf tf' : TrapFrame) (p : SigProc) (es : List Event)
    → p.in_signal_handler ≡ false
    → (signal_check tf p).2.in_signal_handler ≡ true
    → let (back, q) = sigreturn tf' (events es (signal_check tf p).2) in
      (back ≡ tf) × (q.signal_mask ≡ p.signal_mask) × (q.in_signal_handler ≡ false)
unfolding sigreturn
sigreturn-signal_check tf tf' p es out e =
    let v =
      events-IsInside tf p.signal_mask es (signal_check tf p).2
        (signal_check-IsInside tf p out e) in
    let q = events es (signal_check tf p).2 in
    let back : Bool → TrapFrame × SigProc = λ b.
      if b
      then (q.saved_tf, record q { in_signal_handler = false; signal_mask = q.saved_mask })
      else (tf', q) in
    subst
      (λ b.
        ((back b).0 ≡ tf)
        × ((back b).1.signal_mask ≡ p.signal_mask)
        × ((back b).1.in_signal_handler ≡ false))
      (sym v.handling) (v.frame, v.mask, refl)
