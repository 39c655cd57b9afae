-- ===== src/Syscall/Acl/Laws.antt =====
-- What the table of permissions grants.
use onyx_kernel.Prelude.{
  ℕ, ◌+◌, ◌≤◌, ◌≡◌, refl, Bool, true, false, ◌||◌, Option, some, arith, leb, if◌then◌else◌,
}
use onyx_kernel.Syscall.Numbers.{Syscall, sys_write, number}
use onyx_kernel.Syscall.Acl.{
  is_one_of, every_ring, root_ring, network_admin, file_admin, is_root, syscall_allowed_uid,
}

abbrev one_if : Bool → ℕ
one_if b = if b then 1 else 0

-- How many arms of the table name the number.
abbrev pub arms : ℕ → ℕ
arms nr =
    one_if (is_one_of nr every_ring)
    + one_if (is_one_of nr root_ring)
    + one_if (is_one_of nr network_admin)
    + one_if (is_one_of nr file_admin)

-- Each system call is named by exactly one arm of the table, so none is forgotten.
pub arms-number : (s : Syscall) → arms (number s) ≡ 1
unfolding number
arms-number sys_write = refl
arms-number _ = refl

-- A process that may make a call may also make it from a ring of more privilege.
pub syscall_allowed_uid_mono :
    (nr ring inner : ℕ) (uid : Option ℕ)
    → inner ≤ ring
    → syscall_allowed_uid nr ring uid ≡ true
    → syscall_allowed_uid nr inner uid ≡ true
unfolding syscall_allowed_uid
syscall_allowed_uid_mono nr ring inner uid h a = ground (arith, h, a)

user_arms :
    (a b c d r : Bool)
    → r ≡ false
    → (if a
        then true
        else if b
        then leb 2 1
        else if c
        then leb 2 1 || r
        else if d
        then leb 2 1 || r
        else false)
      ≡ a
user_arms a b c d r h = ground (arith, h)

-- A process in the ring of users whose user is not root may make exactly the calls of the first arm.
pub syscall_allowed_uid_user :
    (nr uid : ℕ) → syscall_allowed_uid nr 2 (some (uid + 1)) ≡ is_one_of nr every_ring
unfolding syscall_allowed_uid
syscall_allowed_uid_user nr uid =
    user_arms (is_one_of nr every_ring) (is_one_of nr root_ring) (is_one_of nr network_admin)
      (is_one_of nr file_admin) (is_root (some (uid + 1))) (ground arith)
