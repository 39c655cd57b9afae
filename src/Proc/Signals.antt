-- ===== src/Proc/Signals.antt =====
-- kernel/src/proc/signals: mod.rs, sending, actions and masks, and handler.rs, what a process does with
-- its signals when it returns from a trap. A u32 of signals is the set of its bits. Registers are
-- those of 64 bits. What the translation of a user pointer finds is an argument.
pub mod Masks
pub mod Delivery
pub mod Handler
use onyx_kernel.Prelude.{
  ℕ, zero, suc, ◌+◌, ◌-◌, ◌*◌, ◌/◌, ◌%◌, ◌^◌, Bool, true, false, not, ◌&&◌, ◌||◌, Option, none,
  some, List, [], ◌∷◌, ltb, leb, ◌==◌, if◌then◌else◌,
}
use onyx_kernel.Core.Errno.{KResult, ok, err, inval, no_ent}
use onyx_kernel.Proc.State.{
  ProcState, free, ready, running, exited, waiting, creating, stopped, assign,
}
use onyx_kernel.Proc.Runqueue.{Queues, enqueue}

abbrev pub sigint : ℕ
sigint = 2

abbrev pub sigchld : ℕ
sigchld = 17

abbrev pub sigcont : ℕ
sigcont = 18

abbrev pub sig_kill : ℕ
sig_kill = 9

abbrev pub sig_stop : ℕ
sig_stop = 19

abbrev pub sig_tstp : ℕ
sig_tstp = 20

abbrev pub sigwinch : ℕ
sigwinch = 28

abbrev pub Mask : Type 0
Mask = ℕ → Bool

abbrev pub no_signals : Mask
no_signals i = false

-- `mask | (1 << k)` and `mask & !(1 << k)`
abbrev pub with_bit : Mask → ℕ → Mask
with_bit m k i = if i == k then true else m i

abbrev pub without_bit : Mask → ℕ → Mask
without_bit m k i = if i == k then false else m i

abbrev pub protected_mask : Mask
protected_mask i = (i == sig_kill) || (i == sig_stop)

abbrev pub unprotected : Mask → Mask
unprotected m i = m i && not (protected_mask i)

pub record TrapFrame : Type 0 where
  pub sepc : ℕ
  pub sp : ℕ
  pub a0 : ℕ
  pub others : ℕ → ℕ

-- The fields of `Proc` that signals use.
pub record SigProc : Type 0 where
  pub pid : ℕ
  pub state : ProcState
  pub pending_signals : Mask
  pub signal_mask : Mask
  pub signal_handlers : ℕ → ℕ
  pub signal_handler_masks : ℕ → Mask
  pub saved_mask : Mask
  pub saved_tf : TrapFrame
  pub in_signal_handler : Bool
  pub no_cldwait : Bool

-- The signal among those pending, and stop and continue cancel each other.
abbrev pub add_pending : ℕ → Mask → Mask
add_pending signal m =
    with_bit
      (if signal == sigcont
        then without_bit (without_bit m sig_stop) sig_tstp
        else if (signal == sig_stop) || (signal == sig_tstp)
        then without_bit m sigcont
        else m)
      signal

abbrev pub resumes : ProcState → ℕ → Bool
resumes waiting signal = true
resumes stopped signal = (signal == sigcont) || (signal == sig_kill)
resumes free signal = false
resumes ready signal = false
resumes running signal = false
resumes exited signal = false
resumes creating signal = false

-- What `signal_send` does to its target, and whether the target is put into a queue.
unfoldable pub receive : ℕ → SigProc → SigProc × Bool
receive signal p =
    let up = resumes p.state signal in
    (
      record p {
        pending_signals = add_pending signal (p.pending_signals);
        state = if up then ready else p.state;
      },
      up,
    )

-- The processes, in the order of the list of all, and the queues.
pub record World : Type 0 where
  pub all_procs : List ℕ
  pub proc : ℕ → SigProc
  pub queues : Queues

abbrev pub is_free : ProcState → Bool
is_free free = true
is_free ready = false
is_free running = false
is_free exited = false
is_free waiting = false
is_free creating = false
is_free stopped = false

abbrev pub is_exited : ProcState → Bool
is_exited exited = true
is_exited free = false
is_exited ready = false
is_exited running = false
is_exited waiting = false
is_exited creating = false
is_exited stopped = false

abbrev pub by_pid : ℕ → List ℕ → (ℕ → SigProc) → Option ℕ
by_pid pid [] proc = none
by_pid pid (a ∷ rest) proc =
    if ((proc a).pid == pid) && not (is_free (proc a).state) then some a else by_pid pid rest proc

unfoldable pub signal_send : ℕ → ℕ → ℕ → World → KResult (Unit {0}) × World
signal_send hart pid signal w =
    if (signal == 0) || leb 32 signal
    then (err inval, w)
    else elim (by_pid pid w.all_procs w.proc) [
      | none ↦ (err no_ent, w)
      | some a ↦
          (let (p, up) = receive signal (w.proc a) in
            (
              ok tt,
              record w {
                proc = assign (w.proc) a p;
                queues = if up then enqueue hart a (w.queues) else w.queues;
              },
            ))
    ]

-- `fg` is `G_FG_PID`.
unfoldable pub signal_foreground : ℕ → ℕ → ℕ → World → KResult (Unit {0}) × World
signal_foreground hart fg signal w =
    if (signal == 0) || leb 32 signal
    then (err inval, w)
    else if fg == 0
    then (ok tt, w)
    else elim (by_pid fg w.all_procs w.proc) [
      | none ↦ (ok tt, w)
      | some a ↦ if is_exited (w.proc a).state then (ok tt, w) else signal_send hart fg signal w
    ]

-- A user pointer: null, not mapped, or to a value.
pub data UserPtr {ℓ} (A : Type ℓ) : Type ℓ where
  null unmapped : UserPtr A
  to : A → UserPtr A

pub record Action : Type 0 where
  pub handler : ℕ
  pub extra_mask : Mask
  pub nocldwait : Bool

abbrev pub install : ℕ → Action → SigProc → SigProc
install signum a p = record p {
  signal_handlers = assign (p.signal_handlers) signum (a.handler);
  signal_handler_masks = assign (p.signal_handler_masks) signum (unprotected (a.extra_mask));
  no_cldwait = if signum == sigchld then a.nocldwait else p.no_cldwait;
}

-- The old handler and flag, which go to `oldact`, are a result.
unfoldable pub sigaction :
    ℕ → UserPtr Action → SigProc → KResult (Unit {0}) × Option (ℕ × Bool) × SigProc
sigaction signum act p =
    let old = some (p.signal_handlers signum, p.no_cldwait) in
    if (signum == 0) || leb 32 signum
    then (err inval, none, p)
    else if (signum == sig_kill) || (signum == sig_stop)
    then (err inval, none, p)
    else elim act [
      | null ↦ (ok tt, old, p)
      | unmapped ↦ (err inval, old, p)
      | to a ↦ (ok tt, old, install signum a p)
    ]

-- The new mask, if `how` is one of three ways.
abbrev pub changed_mask : ℕ → Mask → Mask → Option Mask
changed_mask zero new m = some (λ i. m i || unprotected new i)
changed_mask (suc zero) new m = some (λ i. m i && not (unprotected new i))
changed_mask (suc (suc zero)) new m = some (unprotected new)
changed_mask (suc (suc (suc how))) new m = none

unfoldable pub sigprocmask : ℕ → UserPtr Mask → SigProc → KResult (Unit {0}) × Mask × SigProc
sigprocmask how set_ptr p = elim set_ptr [
  | null ↦ (ok tt, p.signal_mask, p)
  | unmapped ↦ (err inval, p.signal_mask, p)
  | to new ↦ elim (changed_mask how new p.signal_mask) [
    | none ↦ (err inval, p.signal_mask, p)
    | some m ↦ (ok tt, p.signal_mask, record p { signal_mask = m })
  ]
]

unfoldable pub sigreturn : TrapFrame → SigProc → TrapFrame × SigProc
sigreturn tf p =
    if p.in_signal_handler
    then (p.saved_tf, record p { in_signal_handler = false; signal_mask = p.saved_mask })
    else (tf, p)

-- The loop of `signal_check` at `i`, with `n` rounds left.
unfoldable pub lowest : ℕ → ℕ → Mask → Option ℕ
lowest zero i m = none
lowest (suc n) i m = if m i then some i else lowest n (i + 1) m

-- What is left to do: nothing, an exit with a code, or a switch to another process.
pub data Check : Type 0 where
  resume resched : Check
  exits : ℕ → Check

-- The actions where no handler is set.
abbrev pub default_action : ℕ → SigProc → Check × SigProc
default_action signum p =
    if signum == sig_tstp
    then (resched, record p { state = stopped })
    else if (signum == sigcont) || (signum == sigchld) || (signum == sigwinch)
    then (resume, p)
    else (exits (128 + signum), p)

-- The frame at the entry of a handler. `(sp - 256) & !15`, with the wrap of a u64.
abbrev pub handler_frame : ℕ → ℕ → TrapFrame → TrapFrame
handler_frame handler signum tf =
    let sp = (tf.sp + 2 ^ 64 - 256) % 2 ^ 64 in
    record tf { sepc = handler; a0 = signum; sp = sp - sp % 16 }

abbrev pub entered : ℕ → TrapFrame → SigProc → SigProc
entered signum tf p = record p {
  saved_tf = tf;
  in_signal_handler = true;
  saved_mask = p.signal_mask;
  signal_mask = unprotected (λ i. p.signal_mask i || p.signal_handler_masks signum i);
}

abbrev pub dispatch : ℕ → TrapFrame → SigProc → Check × TrapFrame × SigProc
dispatch signum tf p =
    let handler = p.signal_handlers signum in
    let (c, q) = default_action signum p in
    if handler == 0
    then (c, tf, q)
    else if handler == 1
    then (resume, tf, p)
    else (resume, handler_frame handler signum tf, entered signum tf p)

abbrev pub deliverable : SigProc → Mask
deliverable p i = p.pending_signals i && not (p.signal_mask i)

abbrev pub consumed : ℕ → SigProc → SigProc
consumed signum p = record p { pending_signals = without_bit (p.pending_signals) signum }

-- The signal that is found, if there is one.
abbrev pub picked : Option ℕ → TrapFrame → SigProc → Check × TrapFrame × SigProc
picked none tf p = (resume, tf, p)
picked (some signum) tf p = dispatch signum tf (consumed signum p)

-- `signal_check` of the current process. `exits` is the call of `exit` and the flag to reschedule.
unfoldable pub signal_check : TrapFrame → SigProc → Check × TrapFrame × SigProc
signal_check tf p =
    if p.pending_signals sig_kill
    then (exits (128 + sig_kill), tf, consumed sig_kill p)
    else if p.pending_signals sig_stop
    then (resched, tf, record (consumed sig_stop p) { state = stopped })
    else if p.in_signal_handler
    then (resume, tf, p)
    else picked (lowest 31 1 (deliverable p)) tf p
