-- ===== src/Core/Errno/Laws.antt =====
-- The encodings of the errors of core/src/errno, and how they are read back.
use onyx_kernel.Prelude.{
  ℕ, suc, ◌≡◌, ◌≢◌, refl, ap, sym, ◌∙◌, Option, some, arith, ◌==◌, if◌then◌else◌,
}
use onyx_kernel.Prelude.Int.{ℤ, pos, negsuc, neg}
use onyx_kernel.Core.Errno.{
  Errno, no_error, no_mem, inval, no_ent, io, perm, range, no_sys, busy, no_space, not_dir, is_dir,
  bad_fd, exist, pipe, overflow, child, not_empty, loop, again, fault, ordinal, from_ordinal,
  as_i64, from_i64, to_posix, translate_syscall_result,
}

-- Every error but `Ok` is read back by `from_i64` from its code `as_i64`.
pub from_i64-as_i64 : (e : Errno) → e ≢ no_error → from_i64 (as_i64 e) ≡ some e
unfolding from_i64 as_i64
from_i64-as_i64 no_error h = absurd (h refl)
from_i64-as_i64 _ h = refl

from_ordinal-ordinal : (n : ℕ) {e : Errno} → from_ordinal n ≡ some e → ordinal e ≡ n
unfolding from_ordinal ordinal
from_ordinal-ordinal n h = ground arith

-- What `from_i64` accepts is the code of the error that it returns, and that error is not `Ok`.
pub as_i64-from_i64 : (c : ℤ) {e : Errno} → from_i64 c ≡ some e → (as_i64 e ≡ c) × (e ≢ no_error)
unfolding from_i64 as_i64
as_i64-from_i64 (pos n) h = absurd (cc)
as_i64-from_i64 (negsuc n) {e} h =
    let code : ordinal e ≡ suc n = from_ordinal-ordinal (suc n) h in
    (rw code, λ q. absurd (unfold ordinal in omega (arith, code, ap ordinal q)))

-- The glibc numbers, read back.
from_posix : ℕ → Option Errno
from_posix n =
    if n == 1
    then some perm
    else if n == 2
    then some no_ent
    else if n == 5
    then some io
    else if n == 9
    then some bad_fd
    else if n == 10
    then some child
    else if n == 11
    then some again
    else if n == 12
    then some no_mem
    else if n == 14
    then some fault
    else if n == 16
    then some busy
    else if n == 17
    then some exist
    else if n == 20
    then some not_dir
    else if n == 21
    then some is_dir
    else if n == 22
    then some inval
    else if n == 28
    then some no_space
    else if n == 32
    then some pipe
    else if n == 34
    then some range
    else if n == 38
    then some no_sys
    else if n == 39
    then some not_empty
    else if n == 40
    then some loop
    else if n == 75
    then some overflow
    else some no_error

from_posix-to_posix : (e : Errno) → from_posix (to_posix e) ≡ some e
unfolding from_posix to_posix
from_posix-to_posix no_error = refl
from_posix-to_posix _ = refl

neg-injective : (m n : ℕ) → neg m ≡ neg n → m ≡ n
neg-injective m n h = ground arith

translate-as_i64 : (e : Errno) → translate_syscall_result (as_i64 e) ≡ neg (to_posix e)
unfolding translate_syscall_result as_i64
translate-as_i64 no_error = refl
translate-as_i64 _ = refl

-- User space can tell any two errors apart: two errors whose codes the system call boundary
-- translates to the same number are the same error.
pub translate-injective :
    (a b : Errno)
    → translate_syscall_result (as_i64 a) ≡ translate_syscall_result (as_i64 b)
    → a ≡ b
translate-injective a b h =
    let same : to_posix a ≡ to_posix b =
      neg-injective _ _ (sym (translate-as_i64 a) ∙ h ∙ translate-as_i64 b) in
    cc (from_posix-to_posix a, from_posix-to_posix b, same)
