-- ===== src/Ipc/Registry.antt =====
-- kernel/src/ipc/channel/chan.rs: the table of channels. Each function takes the table and returns
-- it; a function that takes several locks in turn is composed of one step for each.
pub mod Names
pub mod Clients
pub mod Unique
pub mod Race
use onyx_kernel.Prelude.{
  ℕ, zero, suc, ◌+◌, ◌-◌, ◌≡◌, Bool, true, false, not, ◌&&◌, ◌||◌, Option, none, some, List, [],
  ◌∷◌, ◌++◌, length, get_elem?, get_or, set, take, drop, min, ltb, leb, ◌==◌, if◌then◌else◌,
}
use onyx_kernel.Core.Errno.{KResult, ok, err, inval, no_ent, no_mem, exist}
use onyx_kernel.Ipc.Channel.{Channel, zeroed, contains, chan_max, chan_name_max, chan_max_clients}

-- Equality of byte slices.
abbrev pub list_eq : List ℕ → List ℕ → Bool
list_eq [] [] = true
list_eq [] (y ∷ ys) = false
list_eq (x ∷ xs) [] = false
list_eq (x ∷ xs) (y ∷ ys) = x == y && list_eq xs ys

-- `create`: the first slot that is not in use, reset and given to the owner, and its index.
pub create_from : ℕ → List Channel → ℕ → KResult ℕ × List Channel
create_from i [] owner = (err no_mem, [])
create_from i (ch ∷ t) owner =
    let (r, rest) = create_from (suc i) t owner in
    if not ch.used
    then (ok i, record zeroed { owner_pid = owner; used = true } ∷ t)
    else (r, ch ∷ rest)

unfoldable pub create : List Channel → ℕ → KResult ℕ × List Channel
unfolding create_from zeroed
create t owner = create_from 0 t owner

-- The test of `find_by_name` on one slot.
abbrev pub has_name : Channel → List ℕ → Bool
has_name ch name = ch.used && ch.name_len == length name && list_eq (take ch.name_len ch.name) name

pub find_from : ℕ → List Channel → List ℕ → Option ℕ
find_from i [] name = none
find_from i (ch ∷ t) name =
    let rest = find_from (suc i) t name in if has_name ch name then some i else rest

unfoldable pub find_by_name : List Channel → List ℕ → Option ℕ
unfolding find_from
find_by_name t name = find_from 0 t name

-- The last part of `create_named`, under the slot's lock; `name_len` is a u8.
abbrev pub with_name : List ℕ → Channel → Channel
with_name name ch =
    let nlen = min (length name) (chan_name_max - 1) in
    record ch { name = take nlen name ++ drop nlen ch.name; name_len = nlen }

abbrev pub update : List Channel → ℕ → (Channel → Channel) → List Channel
update [] i f = []
update (ch ∷ t) zero f = f ch ∷ t
update (ch ∷ t) (suc i) f = ch ∷ update t i f

-- The first part of `create_named`: the checks, which lock nothing.
unfoldable pub check_name : List Channel → List ℕ → KResult (Unit {0})
unfolding find_by_name
check_name t name =
    if length name == 0 || ltb (chan_name_max - 1) (length name)
    then err inval
    else elim (find_by_name t name) [ some id ↦ err exist | none ↦ ok tt ]

-- The rest of it.
unfoldable pub claim_name : List Channel → List ℕ → ℕ → KResult ℕ × List Channel
unfolding create
claim_name t name owner =
    let (r, t') = create t owner in
    elim r [ err e ↦ (err e, t') | ok id ↦ (ok id, update t' id (with_name name)) ]

unfoldable pub create_named : List Channel → List ℕ → ℕ → KResult ℕ × List Channel
create_named t name owner = elim (check_name t name) [
  | err e ↦ (err e, t)
  | ok _ ↦ claim_name t name owner
]

abbrev pub add_client : Channel → ℕ → Channel
add_client ch pid = record ch {
  clients = set ch.clients ch.num_clients pid;
  num_clients = ch.num_clients + 1;
}

-- `open_by_name` from the point where the channel is locked.
unfoldable pub open_on : ℕ → Channel → ℕ → KResult ℕ × Channel
open_on id ch pid =
    if leb chan_max_clients ch.num_clients
    then (err no_mem, ch)
    else if contains (take ch.num_clients ch.clients) pid
    then (ok id, ch)
    else (ok id, add_client ch pid)

-- The change of one slot; an index out of the table, which the callers rule out, changes nothing.
abbrev at_slot {ℓ} :
    {A : Type ℓ}
    → List Channel
    → ℕ
    → KResult A
    → (Channel → KResult A × Channel)
    → KResult A × List Channel
at_slot t id out f = elim (get_elem? t id) [
  | none ↦ (out, t)
  | some ch ↦ let (r, ch') = f ch in (r, set t id ch')
]

unfoldable pub open_by_name : List Channel → List ℕ → ℕ → KResult ℕ × List Channel
unfolding find_by_name open_on
open_by_name t name pid = elim (find_by_name t name) [
  | none ↦ (err no_ent, t)
  | some id ↦ at_slot t id (err no_ent) (λ ch. open_on id ch pid)
]

-- The loop of `disconnect` over `clients[i..num_clients]`, `n` rounds: the index of the first `pid`.
abbrev pub client_index : ℕ → List ℕ → ℕ → Option ℕ
client_index i [] pid = none
client_index i (c ∷ cs) pid =
    let rest = client_index (suc i) cs pid in if c == pid then some i else rest

unfoldable pub disconnect_on : Channel → ℕ → KResult (Unit {0}) × Channel
disconnect_on ch pid =
    if not ch.used
    then (ok tt, ch)
    else elim (client_index 0 (take ch.num_clients ch.clients) pid) [
      | none ↦ (ok tt, ch)
      | some i ↦ (
        ok tt,
        record ch {
          clients = set ch.clients i (get_or ch.clients (ch.num_clients - 1) 0);
          num_clients = ch.num_clients - 1;
        },
      )
    ]

-- `disconnect` returns nothing, so its result is always `ok`.
unfoldable pub disconnect : List Channel → ℕ → ℕ → KResult (Unit {0}) × List Channel
unfolding disconnect_on
disconnect t id pid =
    if leb chan_max id then (ok tt, t) else at_slot t id (ok tt) (λ ch. disconnect_on ch pid)

unfoldable pub connect_on : Channel → ℕ → KResult (Unit {0}) × Channel
connect_on ch pid =
    if not ch.used
    then (err no_ent, ch)
    else if leb chan_max_clients ch.num_clients
    then (err no_mem, ch)
    else (ok tt, add_client ch pid)

unfoldable pub connect : List Channel → ℕ → ℕ → KResult (Unit {0}) × List Channel
unfolding connect_on
connect t id pid =
    if leb chan_max id then (err inval, t) else at_slot t id (err inval) (λ ch. connect_on ch pid)

unfoldable pub close_on : Channel → KResult (Unit {0}) × Channel
close_on ch =
    if not ch.used then (err no_ent, ch) else (ok tt, record ch { closed = true; used = false })

unfoldable pub close : List Channel → ℕ → KResult (Unit {0}) × List Channel
unfolding close_on
close t id = if leb chan_max id then (err inval, t) else at_slot t id (err inval) close_on

abbrev pub is_named : Channel → Bool
is_named ch = ch.used && ltb 0 ch.name_len

unfoldable pub named_count : List Channel → ℕ
named_count [] = 0
named_count (ch ∷ t) = (if is_named ch then 1 else 0) + named_count t

-- `n` named channels have been passed, and the slot is `i`.
pub named_from : ℕ → ℕ → List Channel → ℕ → Option (List ℕ × ℕ)
named_from n i [] idx = none
named_from n i (ch ∷ t) idx =
    let rest = named_from (if is_named ch then n + 1 else n) (suc i) t idx in
    if is_named ch && n == idx then some (take ch.name_len ch.name, i) else rest

unfoldable pub named_by_index : List Channel → ℕ → Option (List ℕ × ℕ)
unfolding named_from
named_by_index t idx = named_from 0 0 t idx
