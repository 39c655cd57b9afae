-- ===== src/Fs/Vfs/Fd/Token.antt =====
-- Which tokens the table of descriptors accepts.
use onyx_kernel.Prelude.{
  ℕ, suc, ◌+◌, ◌%◌, ◌≤◌, ◌<◌, ◌≡◌, ◌≢◌, ap, ◌∙◌, true, false, not, ◌&&◌, ◌||◌, Bool-cases, inl, inr,
  List, [], ◌∷◌, length, get_or, get_or-set_self, set, leb, ◌==◌, if◌then◌else◌, arith,
}
use onyx_kernel.Core.Errno.{ok, err, bad_fd}
use onyx_kernel.Fs.Vfs.Node.{VfsFd, default_fd, vfs_max_fds, fd_token, fd_token_idx, fd_token_epoch}
use onyx_kernel.Fs.Vfs.Fd.{
  Files, table, with_table, fd_get, next_epoch, alloc_from, alloc_fd, fd_check,
}

-- Both tables have all their slots.
pub record HasTables (f : Files) : Type 0 where
  pub kernel : length f.kernel_fds ≡ vfs_max_fds
  pub own : length f.fds ≡ vfs_max_fds

pub table-length : (f : Files) → HasTables f → length (table f) ≡ vfs_max_fds
table-length f v = ground (arith, v.kernel, v.own)

-- The two parts of a token are read back from it.
pub fd_token-parts :
    (idx epoch : ℕ)
    → idx < 16
    → (fd_token_idx (fd_token idx epoch) ≡ idx)
      × (fd_token_epoch (fd_token idx epoch) ≡ epoch % 4096)
unfolding fd_token fd_token_idx fd_token_epoch
fd_token-parts idx epoch h = omega arith

-- The check of a token, in terms of the slot and the epoch that the token was made of.
pub fd_check-fd_token :
    (f : Files) (idx epoch : ℕ)
    → idx < 16
    → fd_check f (fd_token idx epoch) ≡ (
        if (fd_get f idx).used && (fd_get f idx).epoch % 4096 == epoch % 4096
        then ok idx
        else err bad_fd)
unfolding fd_check
fd_check-fd_token f idx epoch h =
    let parts = fd_token-parts idx epoch h in rw (parts.0, parts.1) (ground (arith, h))

-- What the slot holds once it is claimed.
abbrev pub claimed : ℕ → VfsFd → VfsFd
claimed perms fd = record fd { used = true; perms = perms; epoch = next_epoch fd.epoch }

-- The slot `k` of `t` was free, and has been claimed as the descriptor `j`.
abbrev IsClaim : ℕ → ℕ → ℕ → List VfsFd → ℕ → ℕ → Type 0
IsClaim first i perms t j k =
    (j ≡ i + k)
    × (first ≤ j)
    × (k < length t)
    × ((get_or t k default_fd).used ≡ false)
    × ((alloc_from first i perms t).1 ≡ set t k (claimed perms (get_or t k default_fd)))

alloc_from_ok :
    (first i perms : ℕ) (t : List VfsFd) {j : ℕ}
    → (alloc_from first i perms t).0 ≡ ok j
    → (k : ℕ) × IsClaim first i perms t j k
unfolding alloc_from
alloc_from_ok first i perms [] h = absurd (cc)
alloc_from_ok first i perms (fd ∷ t) {j} h = elim (Bool-cases (leb first i && not fd.used)) [
  | inl e ↦ (0, ground (arith, e, h))
  | inr e ↦
      let next : (alloc_from first (suc i) perms t).0 ≡ ok j = ground (arith, e, h) in
      let (k, c) = alloc_from_ok first (suc i) perms t next in
      (suc k, ground (arith, e, c.0, c.1, c.2, c.3, c.4))
]

pub table-with_table : (f : Files) (t : List VfsFd) → table (with_table f t) ≡ t
table-with_table f t = ground arith

-- A call of `alloc_fd` that succeeds claims a slot that was free, no console slot in a process,
-- changes no other slot, and the token of the claimed slot is accepted.
pub alloc_fd_lem :
    (f : Files) (perms : ℕ) {j : ℕ}
    → HasTables f
    → (alloc_fd f perms).0 ≡ ok j
    → let g = (alloc_fd f perms).1 in
      (j < 16)
      × ((f.is_kernel_boot || leb 3 j) ≡ true)
      × ((fd_get f j).used ≡ false)
      × (table g ≡ set (table f) j (claimed perms (fd_get f j)))
      × (fd_check g (fd_token j (fd_get g j).epoch) ≡ ok j)
unfolding alloc_fd
alloc_fd_lem f perms {j} v h =
    let (k, c) = alloc_from_ok (if f.is_kernel_boot then 0 else 3) 0 perms (table f) h in
    let g = (alloc_fd f perms).1 in
    let same : k ≡ j = omega (arith, c.0) in
    let inside : j < 16 = omega (arith, c.0, c.2, table-length f v) in
    let after : table g ≡ set (table f) j (claimed perms (fd_get f j)) =
      table-with_table f (alloc_from (if f.is_kernel_boot then 0 else 3) 0 perms (table f)).1
      ∙ rw (← same) c.4 in
    let slot : fd_get g j ≡ claimed perms (fd_get f j) =
      ap (λ t. get_or t j default_fd) after
      ∙ get_or-set_self (table f) j (claimed perms (fd_get f j)) default_fd
          (omega (arith, inside, table-length f v)) in
    (
      inside,
      ground (arith, c.1),
      rw (← same) c.3,
      after,
      fd_check-fd_token g j (fd_get g j).epoch inside ∙ ground (arith, slot),
    )

-- A token is refused once the epoch of its slot has moved on by at least one and at most 4095.
pub fd_check_stale :
    (f : Files) (idx epoch uses : ℕ)
    → idx < 16
    → 0 < uses
    → uses < 4096
    → (fd_get f idx).epoch ≡ epoch + uses
    → fd_check f (fd_token idx epoch) ≡ err bad_fd
fd_check_stale f idx epoch uses i p u e =
    let differ : (fd_get f idx).epoch % 4096 ≢ epoch % 4096 =
      λ q. absurd (omega (arith, p, u, e, q)) in
    fd_check-fd_token f idx epoch i ∙ ground (arith, differ)
