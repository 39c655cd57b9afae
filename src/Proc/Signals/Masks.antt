-- ===== src/Proc/Signals/Masks.antt =====
-- Proc/Signals: what holds of a process after any calls and signals.
use onyx_kernel.Prelude.{
  ℕ, zero, suc, ◌≡◌, refl, sym, subst, Bool, false, ◌&&◌, ◌||◌, Option, none, some, List, [], ◌∷◌,
  leb, ◌==◌, if◌then◌else◌, arith, Bool-cases, Option-cases, inl, inr,
}
use onyx_kernel.Proc.State.{stopped}
use onyx_kernel.Proc.Signals.{
  sigchld, sigcont, sig_kill, sig_stop, sig_tstp, sigwinch, Mask, without_bit, TrapFrame, SigProc,
  add_pending, receive, UserPtr, null, unmapped, to, Action, install, sigaction, changed_mask,
  sigprocmask, sigreturn, lowest, Check, resume, default_action, dispatch, picked, deliverable,
  consumed, signal_check,
}

-- What may happen to a process while a handler of it runs.
pub data Event : Type 0 where
  receives : ℕ → Event
  acts : ℕ → UserPtr Action → Event
  masks : ℕ → UserPtr Mask → Event
  checks : TrapFrame → Event

unfoldable pub happen : Event → SigProc → SigProc
happen (receives signal) p = (receive signal p).0
happen (acts signum act) p = (sigaction signum act p).2
happen (masks how set_ptr) p = (sigprocmask how set_ptr p).2
happen (checks tf) p = (signal_check tf p).2

-- The same, or the return from a handler.
pub data Step : Type 0 where
  event : Event → Step
  returns : TrapFrame → Step

unfoldable pub step : Step → SigProc → SigProc
step (event e) p = happen e p
step (returns tf) p = (sigreturn tf p).1

unfoldable pub history : List Step → SigProc → SigProc
history [] p = p
history (s ∷ steps) p = history steps (step s p)

-- Neither SIGKILL nor SIGSTOP is blocked or handled, and a signal to continue is not pending beside
-- one to stop.
pub record IsSig (p : SigProc) : Type 0 where
  pub unblocked : (p.signal_mask sig_kill || p.signal_mask sig_stop) ≡ false
  pub unblocked_saved : (p.saved_mask sig_kill || p.saved_mask sig_stop) ≡ false
  pub no_kill : p.signal_handlers sig_kill ≡ 0
  pub no_stop : p.signal_handlers sig_stop ≡ 0
  pub exclusive :
      (p.pending_signals sigcont && (p.pending_signals sig_stop || p.pending_signals sig_tstp))
      ≡ false

add_pending_exclusive :
    (signal : ℕ) (m : Mask)
    → (m sigcont && (m sig_stop || m sig_tstp)) ≡ false
    → (add_pending signal m sigcont
        && (add_pending signal m sig_stop || add_pending signal m sig_tstp))
      ≡ false
add_pending_exclusive signal m h = ground (arith, h)

without_bit_exclusive :
    (k : ℕ) (m : Mask)
    → (m sigcont && (m sig_stop || m sig_tstp)) ≡ false
    → (without_bit m k sigcont && (without_bit m k sig_stop || without_bit m k sig_tstp)) ≡ false
without_bit_exclusive k m h = ground (arith, h)

receive-IsSig : (signal : ℕ) (p : SigProc) → IsSig p → IsSig (receive signal p).0
unfolding receive
receive-IsSig signal p v = record {
  unblocked = v.unblocked;
  unblocked_saved = v.unblocked_saved;
  no_kill = v.no_kill;
  no_stop = v.no_stop;
  exclusive = add_pending_exclusive signal p.pending_signals v.exclusive;
}

install-IsSig :
    (signum : ℕ) (a : Action) (p : SigProc)
    → ((signum == sig_kill) || (signum == sig_stop)) ≡ false
    → IsSig p
    → IsSig (install signum a p)
install-IsSig signum a p h v = record {
  unblocked = v.unblocked;
  unblocked_saved = v.unblocked_saved;
  no_kill = ground (arith, h, v.no_kill);
  no_stop = ground (arith, h, v.no_stop);
  exclusive = v.exclusive;
}

-- The action on the pointer of a signal that may be handled.
abbrev acted : ℕ → UserPtr Action → SigProc → SigProc
acted signum null p = p
acted signum unmapped p = p
acted signum (to a) p = install signum a p

acted-IsSig :
    (signum : ℕ) (act : UserPtr Action) (p : SigProc)
    → ((signum == sig_kill) || (signum == sig_stop)) ≡ false
    → IsSig p
    → IsSig (acted signum act p)
acted-IsSig signum null p h v = v
acted-IsSig signum unmapped p h v = v
acted-IsSig signum (to a) p h v = install-IsSig signum a p h v

sigaction-acted :
    (signum : ℕ) (act : UserPtr Action) (p : SigProc)
    → ((signum == 0) || leb 32 signum) ≡ false
    → ((signum == sig_kill) || (signum == sig_stop)) ≡ false
    → (sigaction signum act p).2 ≡ acted signum act p
unfolding sigaction
sigaction-acted signum null p e f = rw (e, f) refl
sigaction-acted signum unmapped p e f = rw (e, f) refl
sigaction-acted signum (to a) p e f = rw (e, f) refl

sigaction-IsSig :
    (signum : ℕ) (act : UserPtr Action) (p : SigProc) → IsSig p → IsSig (sigaction signum act p).2
unfolding sigaction
sigaction-IsSig signum act p v = elim (Bool-cases ((signum == 0) || leb 32 signum)) [
  | inl e ↦ rw e v
  | inr e ↦ elim (Bool-cases ((signum == sig_kill) || (signum == sig_stop))) [
    | inl f ↦ rw (e, f) v
    | inr f ↦ subst IsSig (sym (sigaction-acted signum act p e f)) (acted-IsSig signum act p f v)
  ]
]

changed_mask_unblocked :
    (how : ℕ) (new m n : Mask)
    → (m sig_kill || m sig_stop) ≡ false
    → changed_mask how new m ≡ some n
    → (n sig_kill || n sig_stop) ≡ false
changed_mask_unblocked zero new m n h e =
    subst (λ o. elim o [ none ↦ Unit | some k ↦ (k sig_kill || k sig_stop) ≡ false ]) e
      (ground (arith, h))
changed_mask_unblocked (suc zero) new m n h e =
    subst (λ o. elim o [ none ↦ Unit | some k ↦ (k sig_kill || k sig_stop) ≡ false ]) e
      (ground (arith, h))
changed_mask_unblocked (suc (suc zero)) new m n h e =
    subst (λ o. elim o [ none ↦ Unit | some k ↦ (k sig_kill || k sig_stop) ≡ false ]) e
      (ground (arith, h))
changed_mask_unblocked (suc (suc (suc how))) new m n h e = absurd (cc)

sigprocmask-IsSig :
    (how : ℕ) (set_ptr : UserPtr Mask) (p : SigProc) → IsSig p → IsSig (sigprocmask how set_ptr p).2
unfolding sigprocmask
sigprocmask-IsSig how null p v = v
sigprocmask-IsSig how unmapped p v = v
sigprocmask-IsSig how (to new) p v = elim (Option-cases (changed_mask how new p.signal_mask)) [
  | inl e ↦ rw (e, sigprocmask) v
  | inr (m, e) ↦
      rw (e, sigprocmask)
        (record {
          unblocked = changed_mask_unblocked how new p.signal_mask m v.unblocked e;
          unblocked_saved = v.unblocked_saved;
          no_kill = v.no_kill;
          no_stop = v.no_stop;
          exclusive = v.exclusive;
        })
]

sigreturn-IsSig : (tf : TrapFrame) (p : SigProc) → IsSig p → IsSig (sigreturn tf p).1
unfolding sigreturn
sigreturn-IsSig tf p v =
    let back : Bool → TrapFrame × SigProc = λ b.
      if b
      then (p.saved_tf, record p { in_signal_handler = false; signal_mask = p.saved_mask })
      else (tf, p) in
    elim (Bool-cases p.in_signal_handler) [
      | inl e ↦
          subst (λ b. IsSig (back b).1) (sym e)
            (record {
              unblocked = v.unblocked_saved;
              unblocked_saved = v.unblocked_saved;
              no_kill = v.no_kill;
              no_stop = v.no_stop;
              exclusive = v.exclusive;
            })
      | inr e ↦ subst (λ b. IsSig (back b).1) (sym e) v
    ]

consumed-IsSig : (signum : ℕ) (p : SigProc) → IsSig p → IsSig (consumed signum p)
consumed-IsSig signum p v = record {
  unblocked = v.unblocked;
  unblocked_saved = v.unblocked_saved;
  no_kill = v.no_kill;
  no_stop = v.no_stop;
  exclusive = without_bit_exclusive signum p.pending_signals v.exclusive;
}

stopped-IsSig : (p : SigProc) → IsSig p → IsSig (record p { state = stopped })
stopped-IsSig p v = record {
  unblocked = v.unblocked;
  unblocked_saved = v.unblocked_saved;
  no_kill = v.no_kill;
  no_stop = v.no_stop;
  exclusive = v.exclusive;
}

default_action-IsSig : (signum : ℕ) (p : SigProc) → IsSig p → IsSig (default_action signum p).1
default_action-IsSig signum p v = elim (Bool-cases (signum == sig_tstp)) [
  | inl e ↦ rw e (stopped-IsSig p v)
  | inr e ↦ elim (Bool-cases ((signum == sigcont) || (signum == sigchld) || (signum == sigwinch))) [
    | inl f ↦ rw (e, f) v
    | inr f ↦ rw (e, f) v
  ]
]

dispatch-IsSig :
    (signum : ℕ) (tf : TrapFrame) (p : SigProc) → IsSig p → IsSig (dispatch signum tf p).2
dispatch-IsSig signum tf p v = elim (Bool-cases (p.signal_handlers signum == 0)) [
  | inl e ↦ rw e (default_action-IsSig signum p v)
  | inr e ↦ elim (Bool-cases (p.signal_handlers signum == 1)) [
    | inl f ↦ rw (e, f) v
    | inr f ↦
        rw (e, f)
          (record {
            unblocked = ground arith;
            unblocked_saved = v.unblocked;
            no_kill = v.no_kill;
            no_stop = v.no_stop;
            exclusive = v.exclusive;
          })
  ]
]

picked-IsSig : (o : Option ℕ) (tf : TrapFrame) (p : SigProc) → IsSig p → IsSig (picked o tf p).2
picked-IsSig none tf p v = v
picked-IsSig (some signum) tf p v =
    dispatch-IsSig signum tf (consumed signum p) (consumed-IsSig signum p v)

unstopped-IsSig :
    (tf : TrapFrame) (p : SigProc)
    → IsSig p
    → IsSig
        (if p.in_signal_handler
          then (resume, tf, p)
          else picked (lowest 31 1 (deliverable p)) tf p).2
unstopped-IsSig tf p v =
    let next : Bool → Check × TrapFrame × SigProc =
      λ b. if b then (resume, tf, p) else picked (lowest 31 1 (deliverable p)) tf p in
    elim (Bool-cases p.in_signal_handler) [
      | inl e ↦ subst (λ b. IsSig (next b).2) (sym e) v
      | inr e ↦
          subst (λ b. IsSig (next b).2) (sym e) (picked-IsSig (lowest 31 1 (deliverable p)) tf p v)
    ]

signal_check-IsSig : (tf : TrapFrame) (p : SigProc) → IsSig p → IsSig (signal_check tf p).2
unfolding signal_check
signal_check-IsSig tf p v = elim (Bool-cases (p.pending_signals sig_kill)) [
  | inl e ↦ rw e (consumed-IsSig sig_kill p v)
  | inr e ↦ elim (Bool-cases (p.pending_signals sig_stop)) [
    | inl f ↦ rw (e, f) (stopped-IsSig (consumed sig_stop p) (consumed-IsSig sig_stop p v))
    | inr f ↦ rw (e, f) (unstopped-IsSig tf p v)
  ]
]

happen-IsSig : (e : Event) (p : SigProc) → IsSig p → IsSig (happen e p)
unfolding happen
happen-IsSig (receives signal) p v = receive-IsSig signal p v
happen-IsSig (acts signum act) p v = sigaction-IsSig signum act p v
happen-IsSig (masks how set_ptr) p v = sigprocmask-IsSig how set_ptr p v
happen-IsSig (checks tf) p v = signal_check-IsSig tf p v

-- Whatever signals a process gets and whatever it asks for, SIGKILL and SIGSTOP stay unblocked and
-- without a handler, and a signal to continue never pends beside one to stop.
pub history-IsSig : (steps : List Step) (p : SigProc) → IsSig p → IsSig (history steps p)
unfolding history step
history-IsSig [] p v = v
history-IsSig (event e ∷ steps) p v = history-IsSig steps (happen e p) (happen-IsSig e p v)
history-IsSig (returns tf ∷ steps) p v =
    history-IsSig steps (sigreturn tf p).1 (sigreturn-IsSig tf p v)
