-- ===== src/Ipc/Registry/Clients.antt =====
-- Who is registered with a channel: what connecting, opening and disconnecting do to it.
use onyx_kernel.Prelude.{
  ℕ, zero, suc, ◌+◌, ◌-◌, ◌≤◌, ◌<◌, ◌≡◌, refl, sym, ap, ap₂, ◌∙◌, Bool, ◌&&◌, ◌||◌, Bool-cases, inl,
  inr, none, some, Option-cases, List, [], ◌∷◌, length, get_or, set, take, max, ltb, dec_lt,
  get_or-set_self, ◌==◌, if◌then◌else◌, arith, length-set, length-take,
}
use onyx_kernel.Core.Errno.{is_ok}
use onyx_kernel.Ipc.Channel.{Channel, contains, chan_max_clients, pid_allowed}
use onyx_kernel.Ipc.Registry.{client_index, add_client, open_on, connect_on, disconnect_on}

abbrev pub one_if : Bool → ℕ
one_if b = if b then 1 else 0

-- How often `q` stands in the list.
abbrev pub count : ℕ → List ℕ → ℕ
count q [] = 0
count q (x ∷ xs) = one_if (x == q) + count q xs

-- How often the process `q` is registered with the channel.
abbrev pub registrations : Channel → ℕ → ℕ
registrations ch q = count q (take ch.num_clients ch.clients)

-- The array of clients, and how much of it is in use.
pub record HasClients (ch : Channel) : Type 0 where
  pub slots : length ch.clients ≡ chan_max_clients
  pub in_use : ch.num_clients ≤ chan_max_clients

count-take-suc :
    (q m : ℕ) (xs : List ℕ)
    → m < length xs
    → count q (take (suc m) xs) ≡ count q (take m xs) + one_if (get_or xs m 0 == q)
count-take-suc q m [] h = absurd (omega arith)
count-take-suc q zero (x ∷ xs) h = omega arith
count-take-suc q (suc m) (x ∷ xs) h = omega (arith, count-take-suc q m xs (omega arith))

count-set :
    (q i m v : ℕ) (xs : List ℕ)
    → i < m
    → m ≤ length xs
    → count q (take m (set xs i v)) + one_if (get_or xs i 0 == q)
      ≡ count q (take m xs) + one_if (v == q)
count-set q i zero v xs h l = absurd (omega arith)
count-set q i (suc m) v [] h l = absurd (omega arith)
count-set q zero (suc m) v (x ∷ xs) h l = omega arith
count-set q (suc i) (suc m) v (x ∷ xs) h l =
    omega (arith, count-set q i m v xs (omega arith) (omega arith))

take-set_out : (i m v : ℕ) (xs : List ℕ) → m ≤ i → take m (set xs i v) ≡ take m xs
take-set_out i zero v xs h = refl
take-set_out i (suc m) v [] h = refl
take-set_out zero (suc m) v (x ∷ xs) h = absurd (omega arith)
take-set_out (suc i) (suc m) v (x ∷ xs) h = ap (λ t. x ∷ t) (take-set_out i m v xs (omega arith))

-- Taking out the entry at `i` by moving the last one there.
swap_remove :
    (q i m : ℕ) (xs : List ℕ)
    → i ≤ m
    → m < length xs
    → count q (take m (set xs i (get_or xs m 0))) + one_if (get_or xs i 0 == q)
      ≡ count q (take (suc m) xs)
swap_remove q i m xs h l = elim (dec_lt i m) [
  | yes lt ↦ count-set q i m (get_or xs m 0) xs lt (omega arith) ∙ sym (count-take-suc q m xs l)
  | no ge ↦
      ap (λ t. count q t + one_if (get_or xs i 0 == q))
        (take-set_out i m (get_or xs m 0) xs (omega arith))
      ∙ ap (λ k. count q (take m xs) + one_if (get_or xs k 0 == q)) (omega arith)
      ∙ sym (count-take-suc q m xs l)
]

get_or-take : (xs : List ℕ) (i n : ℕ) → i < n → get_or (take n xs) i 0 ≡ get_or xs i 0
get_or-take [] i zero h = refl
get_or-take [] i (suc n) h = refl
get_or-take (x ∷ xs) i zero h = absurd (omega arith)
get_or-take (x ∷ xs) zero (suc n) h = refl
get_or-take (x ∷ xs) (suc i) (suc n) h = get_or-take xs i n (omega arith)

client_index-some :
    (k pid : ℕ) (xs : List ℕ) {i : ℕ}
    → client_index k xs pid ≡ some i
    → (j : ℕ) × (i ≡ k + j) × (j < length xs) × (get_or xs j 0 ≡ pid)
client_index-some k pid [] h = absurd (cc)
client_index-some k pid (x ∷ xs) {i} h = elim (Bool-cases (x == pid)) [
  | inl e ↦ (0, ground arith, omega arith, ground arith)
  | inr e ↦
      let (j, at_j, in_j, is_j) = client_index-some (suc k) pid xs {i = i} (ground arith) in
      (suc j, omega arith, omega arith, is_j)
]

client_index-none : (k pid : ℕ) (xs : List ℕ) → client_index k xs pid ≡ none → count pid xs ≡ 0
client_index-none k pid [] h = refl
client_index-none k pid (x ∷ xs) h = ground (arith, client_index-none (suc k) pid xs)

contains-count : (xs : List ℕ) (pid : ℕ) → contains xs pid ≡ ltb 0 (count pid xs)
contains-count [] pid = refl
contains-count (x ∷ xs) pid = ground (arith, contains-count xs pid)

-- A process may use a channel exactly if it owns it or is registered with it.
pub pid_allowed_iff :
    (ch : Channel) (pid : ℕ)
    → pid_allowed ch pid ≡ (pid == ch.owner_pid || ltb 0 (registrations ch pid))
unfolding pid_allowed
pid_allowed_iff ch pid = rw (contains-count (take ch.num_clients ch.clients) pid)

disconnect_at :
    (ch : Channel) (pid q i : ℕ)
    → HasClients ch
    → client_index 0 (take ch.num_clients ch.clients) pid ≡ some i
    → (count q (
            take (ch.num_clients - 1) (set ch.clients i (get_or ch.clients (ch.num_clients - 1) 0)))
          + one_if (pid == q)
        ≡ registrations ch q)
      × (0 < ch.num_clients)
disconnect_at ch pid q i v h =
    let (j, at_j, in_j, is_j) = client_index-some 0 pid (take ch.num_clients ch.clients) h in
    let j_lt : j < ch.num_clients = omega (arith, length-take ch.num_clients ch.clients) in
    let here : get_or ch.clients i 0 ≡ pid =
      ap (λ k. get_or ch.clients k 0) (omega (arith, at_j))
      ∙ sym (get_or-take ch.clients j ch.num_clients j_lt)
      ∙ is_j in
    let last : suc (ch.num_clients - 1) ≡ ch.num_clients = omega arith in
    (
      ap
            (λ x.
              count q (
                take (ch.num_clients - 1)
                  (set ch.clients i (get_or ch.clients (ch.num_clients - 1) 0)))
              + one_if (x == q))
            (sym here)
          ∙ swap_remove q i (ch.num_clients - 1) ch.clients (omega arith)
              (omega (arith, v.slots, v.in_use))
          ∙ ap (λ k. count q (take k ch.clients)) last,
      omega arith,
    )

-- `disconnect` takes away one registration of the process, if the channel is in use and the process
-- has one, and none of any other process.
pub disconnect_on_lem :
    (ch : Channel) (pid q : ℕ)
    → HasClients ch
    → let ch' = (disconnect_on ch pid).1 in
      (registrations ch' q + one_if (ch.used && pid == q && ltb 0 (registrations ch pid))
        ≡ registrations ch q)
      × HasClients ch'
unfolding disconnect_on
disconnect_on_lem ch pid q v =
    elim (Option-cases (client_index 0 (take ch.num_clients ch.clients) pid)) [
      | inl e ↦ ground (arith, e, client_index-none 0 pid (take ch.num_clients ch.clients) e)
      | inr (i, e) ↦ ground (
        arith,
        e,
        disconnect_at ch pid q i v e,
        disconnect_at ch pid pid i v e,
        length-set ch.clients i (get_or ch.clients (ch.num_clients - 1) 0),
      )
    ]

-- A client is added behind the others.
added :
    (ch : Channel) (pid q : ℕ)
    → HasClients ch
    → ch.num_clients < chan_max_clients
    → registrations (add_client ch pid) q ≡ registrations ch q + one_if (pid == q)
added ch pid q v h =
    let n = ch.num_clients in
    let grown = set ch.clients n pid in
    let next : n + 1 ≡ suc n = omega arith in
    ap (λ k. count q (take k grown)) next
    ∙ count-take-suc q n grown (omega (arith, length-set ch.clients n pid, v.slots))
    ∙ ap₂ (λ t x. count q t + one_if (x == q)) (take-set_out n n pid ch.clients (omega arith))
        (get_or-set_self ch.clients n pid 0 (omega (arith, v.slots)))

-- `connect` adds one registration of the process exactly when it succeeds, and it succeeds exactly on
-- a channel in use with room.
pub connect_on_lem :
    (ch : Channel) (pid q : ℕ)
    → HasClients ch
    → let (r, ch') = connect_on ch pid in
      (registrations ch' q ≡ registrations ch q + one_if (is_ok r && pid == q))
      × (is_ok r ≡ (ch.used && ltb ch.num_clients chan_max_clients))
      × HasClients ch'
unfolding connect_on
connect_on_lem ch pid q v =
    ground (arith, added ch pid q v, length-set ch.clients ch.num_clients pid)

-- Opening a channel by name registers the process, once at most.
pub open_on_lem :
    (id : ℕ) (ch : Channel) (pid q : ℕ)
    → HasClients ch
    → let (r, ch') = open_on id ch pid in
      (registrations ch' q
        ≡ (if is_ok r && pid == q then max 1 (registrations ch q) else registrations ch q))
      × (is_ok r ≡ ltb ch.num_clients chan_max_clients)
      × HasClients ch'
unfolding open_on
open_on_lem id ch pid q v = ground (
  arith,
  added ch pid q v,
  length-set ch.clients ch.num_clients pid,
  contains-count (take ch.num_clients ch.clients) pid,
)
