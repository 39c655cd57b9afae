-- ===== src/Ipc/Registry/Race.antt =====
-- `create_named` checks the name before it claims a slot, under no common lock.
use onyx_kernel.Prelude.{ℕ, ◌≡◌, List, ◌∷◌, arith}
use onyx_kernel.Core.Errno.{ok}
use onyx_kernel.Ipc.Channel.{Channel}
use onyx_kernel.Ipc.Registry.{check_name, claim_name}
use onyx_kernel.Ipc.Registry.Names.{
  count_named, find_from-none, check_name_ok, claim_name_lem, list_eq_refl,
}

-- Where two processes have both passed the check for one name before either has claimed its slot,
-- and both then get a slot, two channels in use have the name.
pub claim_name_race :
    (t : List Channel) (b : ℕ) (q : List ℕ) (first second : ℕ) {i j : ℕ}
    → check_name t (b ∷ q) ≡ ok tt
    → (claim_name t (b ∷ q) first).0 ≡ ok i
    → (claim_name (claim_name t (b ∷ q) first).1 (b ∷ q) second).0 ≡ ok j
    → count_named (b ∷ q) (claim_name (claim_name t (b ∷ q) first).1 (b ∷ q) second).1 ≡ 2
claim_name_race t b q first second {i} {j} h e f =
    let (ne, short, free) = check_name_ok t (b ∷ q) h in
    ground (
      arith,
      (claim_name_lem t (b ∷ q) first {id = i} ne short e).1 b q,
      (claim_name_lem (claim_name t (b ∷ q) first).1 (b ∷ q) second {id = j} ne short f).1 b q,
      find_from-none 0 t (b ∷ q) free,
      list_eq_refl (b ∷ q),
    )
