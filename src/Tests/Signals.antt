-- ===== src/Tests/Signals.antt =====
-- The properties of signals at concrete inputs.
use onyx_kernel.Prelude.{
  ◌≡◌, refl, true, false, none, some, List, [], ◌∷◌, ◌⊎◌, ◌==◌, if◌then◌else◌,
}
use onyx_kernel.Proc.State.{running}
use onyx_kernel.Proc.Signals.{
  sig_kill, sigint, TrapFrame, SigProc, no_signals, with_bit, null, to, receive, sigreturn, lowest,
  exits, signal_check,
}
use onyx_kernel.Proc.Signals.Masks.{
  Event, receives, acts, masks, checks, Step, event, returns, history, IsSig, history-IsSig,
}
use onyx_kernel.Proc.Signals.Delivery.{first_check, first_check-receive}
use onyx_kernel.Proc.Signals.Handler.{events, sigreturn-signal_check}

abbrev frame : TrapFrame
frame = record { sepc = 65536; sp = 131072; a0 = 7; others = λ i. i }

-- A process with a handler for SIGINT, which is pending.
abbrev a_process : SigProc
a_process = record {
  pid = 5;
  state = running;
  pending_signals = with_bit no_signals sigint;
  signal_mask = no_signals;
  signal_handlers = λ i. if i == sigint then 4096 else 0;
  signal_handler_masks = λ i. no_signals;
  saved_mask = no_signals;
  saved_tf = frame;
  in_signal_handler = false;
  no_cldwait = false;
}

a_process-IsSig : IsSig a_process
a_process-IsSig = record {
  unblocked = refl;
  unblocked_saved = refl;
  no_kill = refl;
  no_stop = refl;
  exclusive = refl;
}

-- It blocks all it may, handles the signal, and is stopped and continued.
abbrev life : List Step
life =
    event (masks 0 (to (λ i. true)))
    ∷ event (checks frame)
    ∷ event (receives 19)
    ∷ event (receives 18)
    ∷ returns frame
    ∷ []

history-IsSig_example : IsSig (history life a_process)
history-IsSig_example = history-IsSig life a_process a_process-IsSig

first_check-receive_example :
    (first_check life (receive sig_kill a_process).0 ≡ none)
    ⊎ (first_check life (receive sig_kill a_process).0 ≡ some (exits 137))
first_check-receive_example = first_check-receive life a_process

abbrev handling : List Event
handling = masks 2 (to (λ i. true)) ∷ receives 15 ∷ checks frame ∷ acts sigint null ∷ []

handler_entered : (signal_check frame a_process).2.in_signal_handler ≡ true
unfolding signal_check lowest
handler_entered = refl

sigreturn-signal_check_example :
    let (back, q) = sigreturn frame (events handling (signal_check frame a_process).2) in
    (back ≡ frame) × (q.signal_mask ≡ a_process.signal_mask) × (q.in_signal_handler ≡ false)
sigreturn-signal_check_example =
    sigreturn-signal_check frame frame a_process handling refl handler_entered
