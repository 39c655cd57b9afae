-- ===== src/Ipc/Registry/Names.antt =====
-- The names of channels in kernel/src/ipc/channel/chan.rs: how many channels in use have one, and the
-- search for it.
use onyx_kernel.Prelude.{
  ℕ, suc, ◌+◌, ◌-◌, ◌≤◌, ◌<◌, ◌≡◌, ◌≢◌, refl, sym, ap, ◌∙◌, Bool, true, false, Bool-cases, inl, inr,
  none, some, List, [], ◌∷◌, length, min, if◌then◌else◌, arith, take-append_self, take_of_length-le,
}
use onyx_kernel.Core.Errno.{ok, is_ok}
use onyx_kernel.Ipc.Channel.{Channel, zeroed, chan_name_max}
use onyx_kernel.Ipc.Registry.{
  list_eq, create_from, has_name, find_from, find_by_name, with_name, update, check_name,
  claim_name, create_named,
}

abbrev pub one_if : Bool → ℕ
one_if b = if b then 1 else 0

-- How many channels in use have the name.
abbrev pub count_named : List ℕ → List Channel → ℕ
count_named name [] = 0
count_named name (ch ∷ t) = one_if (has_name ch name) + count_named name t

-- No two channels in use share a name. A name has at least one byte.
pub record IsUnique (t : List Channel) : Type 0 where
  pub at_most_one : (b : ℕ) (name : List ℕ) → count_named (b ∷ name) t ≤ 1

pub list_eq_refl : (xs : List ℕ) → list_eq xs xs ≡ true
list_eq_refl [] = refl
list_eq_refl (x ∷ xs) = ground (arith, list_eq_refl xs)

list_eq-length : (xs ys : List ℕ) → list_eq xs ys ≡ true → length xs ≡ length ys
list_eq-length [] [] h = refl
list_eq-length [] (y ∷ ys) h = absurd (cc)
list_eq-length (x ∷ xs) [] h = absurd (cc)
list_eq-length (x ∷ xs) (y ∷ ys) h = ground (arith, list_eq-length xs ys)

pub find_from-none :
    (i : ℕ) (t : List Channel) (name : List ℕ) → find_from i t name ≡ none → count_named name t ≡ 0
unfolding find_from
find_from-none i [] name h = refl
find_from-none i (ch ∷ t) name h = ground (arith, find_from-none (suc i) t name)

-- A slot that has just been claimed for the name.
abbrev named_slot : List ℕ → ℕ → Channel
named_slot name owner = with_name name (record zeroed { owner_pid = owner; used = true })

has_name-named_slot :
    (name : List ℕ) (owner b : ℕ) (q : List ℕ)
    → length name < chan_name_max
    → has_name (named_slot name owner) (b ∷ q) ≡ list_eq name (b ∷ q)
unfolding zeroed
has_name-named_slot name owner b q h =
    let whole : min (length name) (chan_name_max - 1) ≡ length name = omega arith in
    rw (whole, take_of_length-le (length name) name (omega arith), take-append_self name)
      (ground (arith, list_eq-length name (b ∷ q)))

find_cons_none :
    (i : ℕ) (ch : Channel) (t : List Channel) (name : List ℕ)
    → find_from i (ch ∷ t) name ≡ none
    → (has_name ch name ≡ false) × (find_from (suc i) t name ≡ none)
unfolding find_from
find_cons_none i ch t name h = ground arith

find_cons_skip :
    (i : ℕ) (ch : Channel) (t : List Channel) (name : List ℕ)
    → has_name ch name ≡ false
    → find_from i (ch ∷ t) name ≡ find_from (suc i) t name
unfolding find_from
find_cons_skip i ch t name h = rw h

find_cons_here :
    (i : ℕ) (ch : Channel) (t : List Channel) (name : List ℕ)
    → has_name ch name ≡ true
    → find_from i (ch ∷ t) name ≡ some i
unfolding find_from
find_cons_here i ch t name h = rw h

-- A slot that has been created and not named has no name.
has_name-zeroed :
    (owner b : ℕ) (q : List ℕ)
    → has_name (record zeroed { owner_pid = owner; used = true }) (b ∷ q) ≡ false
unfolding zeroed
has_name-zeroed owner b q = ground arith

-- Creating a channel names none.
pub count_named-create :
    (i : ℕ) (t : List Channel) (owner b : ℕ) (q : List ℕ)
    → count_named (b ∷ q) (create_from i t owner).1 ≡ count_named (b ∷ q) t
unfolding create_from
count_named-create i [] owner b q = refl
count_named-create i (ch ∷ t) owner b q =
    ground (arith, has_name-zeroed owner b q, count_named-create (suc i) t owner b q)

create_cons_used :
    (i : ℕ) (ch : Channel) (t : List Channel) (owner : ℕ)
    → ch.used ≡ true
    → create_from i (ch ∷ t) owner
      ≡ ((create_from (suc i) t owner).0, ch ∷ (create_from (suc i) t owner).1)
unfolding create_from
create_cons_used i ch t owner u = ground arith

create_cons_free :
    (i : ℕ) (ch : Channel) (t : List Channel) (owner : ℕ)
    → ch.used ≡ false
    → create_from i (ch ∷ t) owner ≡ (ok i, record zeroed { owner_pid = owner; used = true } ∷ t)
unfolding create_from
create_cons_free i ch t owner u = ground arith

-- The slot that `create` returns is the one that it has claimed.
claimed :
    (i : ℕ) (t : List Channel) (name : List ℕ) (owner : ℕ) {id : ℕ}
    → length name < chan_name_max
    → name ≢ []
    → (create_from i t owner).0 ≡ ok id
    → (j : ℕ) × (id ≡ i + j)
      × (find_from i t name ≡ none
          → find_from i (update (create_from i t owner).1 j (with_name name)) name ≡ some id)
      × ((b : ℕ) (q : List ℕ)
          → count_named (b ∷ q) (update (create_from i t owner).1 j (with_name name))
            ≡ one_if (list_eq name (b ∷ q)) + count_named (b ∷ q) t)
claimed i [] name owner h ne e = absurd (unfold create_from in cc)
claimed i (ch ∷ t) [] owner h ne e = absurd (ne refl)
claimed i (ch ∷ t) (c ∷ name) owner {id} h ne e = elim (Bool-cases ch.used) [
  | inl u ↦
      let eq = create_cons_used i ch t owner u in
      let (j, at_j, finds, counts) =
        claimed (suc i) t (c ∷ name) owner h ne (ap (λ r. r.0) (sym eq) ∙ e) in
      rw eq (
        suc j,
        omega (arith, at_j),
        (λ n.
            let skip = find_cons_none i ch t (c ∷ name) n in
            find_cons_skip i ch _ (c ∷ name) skip.0 ∙ finds skip.1),
        λ b q. omega (arith, counts b q),
      )
  | inr u ↦
      let eq = create_cons_free i ch t owner u in
      let e' : i ≡ id = cc (e, eq) in
      rw eq (
        0,
        omega arith,
        (λ n.
            find_cons_here i (named_slot (c ∷ name) owner) t (c ∷ name)
              (has_name-named_slot (c ∷ name) owner c name h ∙ list_eq_refl (c ∷ name))
            ∙ ap some e'),
        λ b q. ground (arith, has_name-named_slot (c ∷ name) owner b q h, u),
      )
]

pub list_eq-eq : (xs ys : List ℕ) → list_eq xs ys ≡ true → xs ≡ ys
list_eq-eq [] [] h = refl
list_eq-eq [] (y ∷ ys) h = absurd (cc)
list_eq-eq (x ∷ xs) [] h = absurd (cc)
list_eq-eq (x ∷ xs) (y ∷ ys) h = ground (arith, list_eq-eq xs ys)

-- What the checks of `create_named` establish.
pub check_name_ok :
    (t : List Channel) (name : List ℕ)
    → check_name t name ≡ ok tt
    → (name ≢ []) × (length name < chan_name_max) × (find_from 0 t name ≡ none)
unfolding check_name
check_name_ok t [] h = absurd (cc)
check_name_ok t (c ∷ name) h = ground arith

claim_ok :
    (t : List Channel) (name : List ℕ) (owner : ℕ) {id : ℕ}
    → (claim_name t name owner).0 ≡ ok id
    → ((create_from 0 t owner).0 ≡ ok id)
      × ((claim_name t name owner).1 ≡ update (create_from 0 t owner).1 id (with_name name))
unfolding claim_name
claim_ok t name owner e = ground arith

-- A claim that succeeds adds one channel of that name, and no other name.
pub claim_name_lem :
    (t : List Channel) (name : List ℕ) (owner : ℕ) {id : ℕ}
    → name ≢ []
    → length name < chan_name_max
    → (claim_name t name owner).0 ≡ ok id
    → (find_by_name t name ≡ none → find_by_name (claim_name t name owner).1 name ≡ some id)
      × ((b : ℕ) (q : List ℕ)
          → count_named (b ∷ q) (claim_name t name owner).1
            ≡ one_if (list_eq name (b ∷ q)) + count_named (b ∷ q) t)
unfolding claim_name find_by_name
claim_name_lem t name owner {id} ne h e =
    let (created, table) = claim_ok t name owner e in
    let (j, at_j, finds, counts) = claimed 0 t name owner h ne created in
    let slot : update (create_from 0 t owner).1 j (with_name name) ≡ (claim_name t name owner).1 =
      ap (λ k. update (create_from 0 t owner).1 k (with_name name)) (omega (arith, at_j))
      ∙ sym table in
    (
      (λ n. ap (λ s. find_from 0 s name) (sym slot) ∙ finds n),
      λ b q. ap (count_named (b ∷ q)) (sym slot) ∙ counts b q,
    )

pub created :
    (t : List Channel) (name : List ℕ) (owner : ℕ) {id : ℕ}
    → (create_named t name owner).0 ≡ ok id
    → (check_name t name ≡ ok tt)
      × ((claim_name t name owner).0 ≡ ok id)
      × ((create_named t name owner).1 ≡ (claim_name t name owner).1)
unfolding create_named
created t name owner e = ground arith

-- A name that `create_named` has taken was free before, and is then found at the channel created.
pub create_named_lem :
    (t : List Channel) (name : List ℕ) (owner : ℕ) {id : ℕ}
    → (create_named t name owner).0 ≡ ok id
    → (find_by_name t name ≡ none) × (find_by_name (create_named t name owner).1 name ≡ some id)
unfolding find_by_name
create_named_lem t name owner e =
    let (checked, claims, table) = created t name owner e in
    let (ne, short, free) = check_name_ok t name checked in
    (
      free,
      ap (λ s. find_from 0 s name) table ∙ (claim_name_lem t name owner ne short claims).0 free,
    )

-- A claim that fails names no channel.
pub claim_name_err :
    (t : List Channel) (name : List ℕ) (owner b : ℕ) (q : List ℕ)
    → is_ok (claim_name t name owner).0 ≡ false
    → count_named (b ∷ q) (claim_name t name owner).1 ≡ count_named (b ∷ q) t
unfolding claim_name
claim_name_err t name owner b q h = ground (arith, count_named-create 0 t owner b q)
