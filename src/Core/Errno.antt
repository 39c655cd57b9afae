-- ===== src/Core/Errno.antt =====
-- core/src/errno: the kernel's error codes, the result type `KResult`, and the translation of a
-- system call's result to the numbers that user space expects.
pub mod Laws
use onyx_kernel.Prelude.{
  ℕ, zero, suc, ◌≡◌, refl, ◌⊎◌, inl, inr, Bool, true, false, Option, none, some, ◌==◌,
  if◌then◌else◌,
}
use onyx_kernel.Prelude.Int.{ℤ, pos, negsuc, neg}

-- `enum Errno`; `Ok` is `no_error`, since `ok` is the constructor of `KResult`.
pub data Errno : Type 0 where
  no_error no_mem inval no_ent io perm range no_sys busy no_space not_dir is_dir bad_fd exist pipe
        overflow child not_empty loop again fault :
      Errno

-- `KResult<T>`
pub data KResult {ℓ} (A : Type ℓ) : Type ℓ where
  ok : A → KResult A
  err : Errno → KResult A

infixl 5 ◌>>=◌ ◌>>◌
abbrev pub ◌>>=◌ {ℓ κ} : {A : Type ℓ} {B : Type κ} → KResult A → (A → KResult B) → KResult B
ok a >>= f = f a
err e >>= f = err e

abbrev pub ◌>>◌ {ℓ κ} : {A : Type ℓ} {B : Type κ} → KResult A → KResult B → KResult B
m >> k = m >>= λ _. k

-- `opt.ok_or(e)`
abbrev pub ok_or {ℓ} : {A : Type ℓ} → Option A → Errno → KResult A
ok_or none e = err e
ok_or (some a) e = ok a

abbrev pub is_ok {ℓ} : {A : Type ℓ} → KResult A → Bool
is_ok (ok a) = true
is_ok (err e) = false

-- To split on a computed result and keep the equation.
pub KResult-cases {ℓ} :
    {A : Type ℓ} (r : KResult A) → ((a : A) × (r ≡ ok a)) ⊎ ((e : Errno) × (r ≡ err e))
KResult-cases (ok a) = inl (a, refl)
KResult-cases (err e) = inr (e, refl)

-- The discriminant, negated.
ordinal : Errno → ℕ
ordinal no_error = 0
ordinal no_mem = 1
ordinal inval = 2
ordinal no_ent = 3
ordinal io = 4
ordinal perm = 5
ordinal range = 6
ordinal no_sys = 7
ordinal busy = 8
ordinal no_space = 9
ordinal not_dir = 10
ordinal is_dir = 11
ordinal bad_fd = 12
ordinal exist = 13
ordinal pipe = 14
ordinal overflow = 15
ordinal child = 16
ordinal not_empty = 17
ordinal loop = 18
ordinal again = 19
ordinal fault = 20

unfoldable pub as_i64 : Errno → ℤ
unfolding ordinal
as_i64 e = neg (ordinal e)

-- The arms of `from_i64`, by the negated code.
from_ordinal : ℕ → Option Errno
from_ordinal n =
    if n == 1
    then some no_mem
    else if n == 2
    then some inval
    else if n == 3
    then some no_ent
    else if n == 4
    then some io
    else if n == 5
    then some perm
    else if n == 6
    then some range
    else if n == 7
    then some no_sys
    else if n == 8
    then some busy
    else if n == 9
    then some no_space
    else if n == 10
    then some not_dir
    else if n == 11
    then some is_dir
    else if n == 12
    then some bad_fd
    else if n == 13
    then some exist
    else if n == 14
    then some pipe
    else if n == 15
    then some overflow
    else if n == 16
    then some child
    else if n == 17
    then some not_empty
    else if n == 18
    then some loop
    else if n == 19
    then some again
    else if n == 20
    then some fault
    else none

unfoldable pub from_i64 : ℤ → Option Errno
unfolding from_ordinal
from_i64 (pos n) = none
from_i64 (negsuc n) = from_ordinal (suc n)

unfoldable pub to_posix : Errno → ℕ
to_posix no_error = 0
to_posix perm = 1
to_posix no_ent = 2
to_posix io = 5
to_posix bad_fd = 9
to_posix child = 10
to_posix again = 11
to_posix no_mem = 12
to_posix busy = 16
to_posix exist = 17
to_posix not_dir = 20
to_posix is_dir = 21
to_posix inval = 22
to_posix no_space = 28
to_posix pipe = 32
to_posix range = 34
to_posix no_sys = 38
to_posix not_empty = 39
to_posix loop = 40
to_posix overflow = 75
to_posix fault = 14

-- What a system call that returned `raw` hands to user space.
unfoldable pub translate_syscall_result : ℤ → ℤ
unfolding from_i64 to_posix
translate_syscall_result (pos n) = pos n
translate_syscall_result (negsuc n) = elim (from_i64 (negsuc n)) [
  | some e ↦ neg (to_posix e)
  | none ↦ negsuc n
]
