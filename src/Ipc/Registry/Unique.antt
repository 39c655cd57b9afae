-- ===== src/Ipc/Registry/Unique.antt =====
-- Uniqueness of channel names under any sequence of complete calls on the table.
use onyx_kernel.Prelude.{
  ℕ, zero, suc, ◌≤◌, ◌≡◌, ap, inl, inr, some, Option-cases, List, [], ◌∷◌, set, get_elem?,
  replicate, arith,
}
use onyx_kernel.Core.Errno.{KResult, ok, err, inval, no_ent, KResult-cases}
use onyx_kernel.Ipc.Channel.{Channel, zeroed, chan_max}
use onyx_kernel.Ipc.Registry.{
  create, has_name, find_by_name, check_name, claim_name, at_slot, create_named, open_on,
  open_by_name, disconnect_on, disconnect, connect_on, connect, close_on, close,
}
use onyx_kernel.Ipc.Registry.Names.{
  one_if, count_named, IsUnique, list_eq-eq, find_from-none, check_name_ok, claim_name_lem,
  claim_name_err, count_named-create,
}

-- One call on the table.
pub data Call : Type 0 where
  create_call : ℕ → Call
  named_call : List ℕ → ℕ → Call
  open_call : List ℕ → ℕ → Call
  connect_call : ℕ → ℕ → Call
  disconnect_call : ℕ → ℕ → Call
  close_call : ℕ → Call

pub apply : List Channel → Call → List Channel
apply t (create_call owner) = (create t owner).1
apply t (named_call name owner) = (create_named t name owner).1
apply t (open_call name pid) = (open_by_name t name pid).1
apply t (connect_call id pid) = (connect t id pid).1
apply t (disconnect_call id pid) = (disconnect t id pid).1
apply t (close_call id) = (close t id).1

-- The calls in order.
pub apply_all : List Channel → List Call → List Channel
apply_all t [] = t
apply_all t (c ∷ calls) = apply_all (apply t c) calls

-- `G_CHANNELS` at boot
abbrev pub boot_table : List Channel
boot_table = replicate chan_max zeroed

module _ (name : List ℕ) where
  -- A change of one slot that gives it no name.
  count_named-set :
      (t : List Channel) (i : ℕ) (ch' ch : Channel)
      → get_elem? t i ≡ some ch
      → one_if (has_name ch' name) ≤ one_if (has_name ch name)
      → count_named name (set t i ch') ≤ count_named name t
  count_named-set [] i ch' ch e h = absurd (cc)
  count_named-set (d ∷ t) zero ch' ch e h =
      let same : d ≡ ch = cc in omega (arith, h, ap (λ c. one_if (has_name c name)) same)
  count_named-set (d ∷ t) (suc i) ch' ch e h = omega (arith, count_named-set t i ch' ch e h)

  count_named-at_slot {ℓ} :
      {A : Type ℓ} (t : List Channel) (id : ℕ) (out : KResult A) (f : Channel → KResult A × Channel)
      → ((ch : Channel) → one_if (has_name (f ch).1 name) ≤ one_if (has_name ch name))
      → count_named name (at_slot t id out f).1 ≤ count_named name t
  count_named-at_slot t id out f h = elim (Option-cases (get_elem? t id)) [
    | inl e ↦ ground arith
    | inr (ch, e) ↦ ground (arith, count_named-set t id (f ch).1 ch e (h ch))
  ]

  open_on-name :
      (id pid : ℕ) (ch : Channel)
      → one_if (has_name (open_on id ch pid).1 name) ≤ one_if (has_name ch name)
  unfolding open_on
  open_on-name id pid ch = ground arith

  connect_on-name :
      (pid : ℕ) (ch : Channel)
      → one_if (has_name (connect_on ch pid).1 name) ≤ one_if (has_name ch name)
  unfolding connect_on
  connect_on-name pid ch = ground arith

  disconnect_on-name :
      (pid : ℕ) (ch : Channel)
      → one_if (has_name (disconnect_on ch pid).1 name) ≤ one_if (has_name ch name)
  unfolding disconnect_on
  disconnect_on-name pid ch = ground arith

  close_on-name :
      (ch : Channel) → one_if (has_name (close_on ch).1 name) ≤ one_if (has_name ch name)
  unfolding close_on
  close_on-name ch = ground arith

  -- Calls on a channel name none.
  open-names :
      (t : List Channel) (n : List ℕ) (pid : ℕ)
      → count_named name (open_by_name t n pid).1 ≤ count_named name t
  unfolding open_by_name
  open-names t n pid = elim (Option-cases (find_by_name t n)) [
    | inl e ↦ ground arith
    | inr (id, e) ↦ ground (
      arith,
      count_named-at_slot t id (err no_ent) (λ ch. open_on id ch pid) (open_on-name id pid),
    )
  ]

  connect-names :
      (t : List Channel) (id pid : ℕ) → count_named name (connect t id pid).1 ≤ count_named name t
  unfolding connect
  connect-names t id pid =
      ground (
        arith,
        count_named-at_slot t id (err inval) (λ ch. connect_on ch pid) (connect_on-name pid),
      )

  disconnect-names :
      (t : List Channel) (id pid : ℕ)
      → count_named name (disconnect t id pid).1 ≤ count_named name t
  unfolding disconnect
  disconnect-names t id pid = ground (
    arith,
    count_named-at_slot t id (ok tt) (λ ch. disconnect_on ch pid) (disconnect_on-name pid),
  )

  close-names : (t : List Channel) (id : ℕ) → count_named name (close t id).1 ≤ count_named name t
  unfolding close
  close-names t id = ground (arith, count_named-at_slot t id (err inval) close_on close_on-name)

-- A name is only given to a channel that no other channel in use has.
create_named-names :
    (b : ℕ) (q : List ℕ) (t : List Channel) (name : List ℕ) (owner : ℕ)
    → count_named (b ∷ q) t ≤ 1
    → count_named (b ∷ q) (create_named t name owner).1 ≤ 1
unfolding create_named
create_named-names b q t name owner u = elim (KResult-cases (check_name t name)) [
  | inr (e, failed) ↦ ground (arith, failed)
  | inl (_, passed) ↦ elim (KResult-cases (claim_name t name owner).0) [
    | inr (e, failed) ↦ ground (arith, claim_name_err t name owner b q)
    | inl (id, claims) ↦
        let (ne, short, free) = check_name_ok t name passed in
        ground (
          arith,
          (claim_name_lem t name owner ne short claims).1 b q,
          list_eq-eq name (b ∷ q),
          find_from-none 0 t name free,
        )
  ]
]

apply-names :
    (b : ℕ) (q : List ℕ) (t : List Channel) (c : Call)
    → count_named (b ∷ q) t ≤ 1
    → count_named (b ∷ q) (apply t c) ≤ 1
unfolding apply
apply-names b q t (create_call owner) u =
    unfold create in omega (arith, count_named-create 0 t owner b q)
apply-names b q t (named_call name owner) u = create_named-names b q t name owner u
apply-names b q t (open_call name pid) u = omega (arith, open-names (b ∷ q) t name pid)
apply-names b q t (connect_call id pid) u = omega (arith, connect-names (b ∷ q) t id pid)
apply-names b q t (disconnect_call id pid) u = omega (arith, disconnect-names (b ∷ q) t id pid)
apply-names b q t (close_call id) u = omega (arith, close-names (b ∷ q) t id)

apply_all-IsUnique :
    (t : List Channel) (calls : List Call) → IsUnique t → IsUnique (apply_all t calls)
unfolding apply_all
apply_all-IsUnique t [] v = v
apply_all-IsUnique t (c ∷ calls) v =
    apply_all-IsUnique (apply t c) calls
      (record { at_most_one = λ b q. apply-names b q t c (v.at_most_one b q) })

-- After any sequence of complete calls from boot, at most one channel in use has a given name.
pub reachable-IsUnique : (calls : List Call) → IsUnique (apply_all boot_table calls)
unfolding zeroed
reachable-IsUnique calls =
    apply_all-IsUnique boot_table calls (record { at_most_one = λ b q. omega arith })
