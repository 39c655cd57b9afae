-- ===== src/Proc/State.antt =====
-- kernel/src/proc/process/types.rs: the states of a process, and the store of the processes' fields
-- that the wait lists of the IPC channels change.
use onyx_kernel.Prelude.{ℕ, ◌≡◌, ◌≢◌, Option, arith, ◌==◌, if◌then◌else◌}

-- `enum ProcState`
pub data ProcState : Type 0 where
  free ready running exited waiting creating stopped : ProcState

pub ProcState-discrete : Discrete ProcState
ProcState-discrete = hlevel

-- A process is named by its address. The fields `state` and `wait_next` of every `Proc` node.
pub record Procs : Type 0 where
  pub state : ℕ → ProcState
  pub wait_next : ℕ → Option ℕ

-- Assignment through a pointer.
abbrev pub assign {ℓ} : {A : Type ℓ} → (ℕ → A) → ℕ → A → ℕ → A
assign f p v q = if q == p then v else f q

module _ {ℓ} {A : Type ℓ} (f : ℕ → A) (p : ℕ) (v : A) where
  pub assign_self : assign f p v p ≡ v
  assign_self = ground arith

  pub assign_ne : (q : ℕ) → q ≢ p → assign f p v q ≡ f q
  assign_ne q h = ground arith
