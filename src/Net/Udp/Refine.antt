-- ===== src/Net/Udp/Refine.antt =====
-- Net/Udp: a queue of datagrams as a bounded list of messages.
use onyx_kernel.Prelude.{
  ℕ, suc, ◌+◌, ◌-◌, ◌%◌, ◌≤◌, ◌<◌, ◌≡◌, refl, sym, ap, ap₂, ◌∙◌, subst, min, Bool, true, false,
  Option, none, some, List, [], ◌∷◌, ◌++◌, length, length-set, length-drop, length-take, get_or,
  set, take, drop, take-take, not, ◌&&◌, ltb, leb, ◌==◌, if◌then◌else◌, arith, Bool-cases, inl, inr,
}
use onyx_kernel.Net.Tcp.{write_ring}
use onyx_kernel.Net.Tcp.Ring.{
  ring_bytes, length-ring_bytes, length-write_ring, ring_bytes-write_ring, ring_bytes-advance,
  ring_bytes-take,
}
use onyx_kernel.Net.Tcp.Sock.{read_ring}
use onyx_kernel.Net.Tcp.Sock.Stream.{read_ring_lem}
use onyx_kernel.Net.Udp.{queue_bytes, queue_messages, Peer, empty_peer, DatagramQueue, push, pop}
use onyx_kernel.Net.Udp.Slots.{slots_from, length-slots_from, slots_from-set, slots_from-first}
use onyx_kernel.Net.Udp.Queue.{
  total, cut, held, sizes, senders, waiting, IsQueue, total-append, cut-append, has_room,
}

abbrev pub Mail : Type 0
Mail = List (List ℕ × Peer)

abbrev pub mail_bytes : Mail → ℕ
mail_bytes [] = 0
mail_bytes ((bytes, p) ∷ m) = length bytes + mail_bytes m

-- A message is taken whole, where the bytes and the messages stay within their bounds, or refused.
abbrev pub put_mail : List ℕ → Peer → Mail → Bool × Mail
put_mail payload peer m =
    if leb (mail_bytes m + length payload) queue_bytes && not (length m == queue_messages)
    then (true, m ++ (payload, peer) ∷ [])
    else (false, m)

-- The oldest message goes, cut at the room of the reader.
abbrev pub get_mail : ℕ → Mail → Option (List ℕ × Peer) × Mail
get_mail room [] = (none, [])
get_mail room ((bytes, p) ∷ m) = (some (take room bytes, p), m)

length-cut :
    (ns : List ℕ) (ps : List Peer) (bytes : List ℕ)
    → length ns ≡ length ps
    → length (cut ns ps bytes) ≡ length ns
length-cut [] ps bytes e = refl
length-cut (n ∷ ns) [] bytes e = absurd (omega (arith, e))
length-cut (n ∷ ns) (p ∷ ps) bytes e = ap suc (length-cut ns ps (drop n bytes) (omega (arith, e)))

mail_bytes-cut :
    (ns : List ℕ) (ps : List Peer) (bytes : List ℕ)
    → length ns ≡ length ps
    → total ns ≡ length bytes
    → mail_bytes (cut ns ps bytes) ≡ total ns
mail_bytes-cut [] ps bytes e f = refl
mail_bytes-cut (n ∷ ns) [] bytes e f = absurd (omega (arith, e))
mail_bytes-cut (n ∷ ns) (p ∷ ps) bytes e f =
    let rest =
      mail_bytes-cut ns ps (drop n bytes) (omega (arith, e))
        (omega (arith, f, length-drop n bytes)) in
    omega (arith, rest, length-take n bytes, f)

module _ (q : DatagramQueue) (v : IsQueue q) where
  same_length : length (sizes q) ≡ length (senders q)
  same_length =
      length-slots_from 0 q.messages q.first q.lengths
      ∙ sym (length-slots_from empty_peer q.messages q.first q.peers)

  all_held : total (sizes q) ≡ length (held q)
  all_held = v.whole ∙ sym (length-ring_bytes q.used 0 q.head q.bytes)

  pub length-waiting : length (waiting q) ≡ q.messages
  length-waiting =
      length-cut (sizes q) (senders q) (held q) same_length
      ∙ length-slots_from 0 q.messages q.first q.lengths

  pub mail_bytes-waiting : mail_bytes (waiting q) ≡ q.used
  mail_bytes-waiting = mail_bytes-cut (sizes q) (senders q) (held q) same_length all_held ∙ v.whole

-- The queue with a message in it that it has room for.
abbrev stored : List ℕ → Peer → DatagramQueue → DatagramQueue
stored payload peer q = record q {
  bytes = write_ring (q.bytes) ((q.head + q.used) % queue_bytes) 0 payload;
  used = q.used + length payload;
  lengths = set (q.lengths) ((q.first + q.messages) % queue_messages) (length payload);
  peers = set (q.peers) ((q.first + q.messages) % queue_messages) peer;
  messages = q.messages + 1;
}

stored_lem :
    (payload : List ℕ) (peer : Peer) (q : DatagramQueue)
    → IsQueue q
    → q.used + length payload ≤ queue_bytes
    → q.messages < queue_messages
    → (waiting (stored payload peer q) ≡ waiting q ++ (payload, peer) ∷ [])
      × IsQueue (stored payload peer q)
stored_lem payload peer q v room slot =
    let at = (q.first + q.messages) % queue_messages in
    let more : q.messages + 1 ≡ suc q.messages = omega arith in
    let ns : sizes (stored payload peer q) ≡ sizes q ++ length payload ∷ [] =
      ap (λ n. slots_from 0 n q.first (set q.lengths at (length payload))) more
      ∙ slots_from-set 0 q.messages q.first at (length payload) q.lengths v.length_slots refl
          slot in
    let ps : senders (stored payload peer q) ≡ senders q ++ peer ∷ [] =
      ap (λ n. slots_from empty_peer n q.first (set q.peers at peer)) more
      ∙ slots_from-set empty_peer q.messages q.first at peer q.peers v.peer_slots refl slot in
    let nothing : q.used + 0 ≡ q.used = omega arith in
    let bs : held (stored payload peer q) ≡ held q ++ payload =
      ap
        (λ n.
          ring_bytes (n + length payload) 0 q.head
            (write_ring q.bytes ((q.head + q.used) % queue_bytes) 0 payload))
        (sym nothing)
      ∙ ring_bytes-write_ring q.bytes q.head q.used 0 payload v.cells (omega (arith, room))
      ∙ ap (λ n. ring_bytes n 0 q.head q.bytes ++ payload) nothing in
    (
      ap (λ k. cut k (senders (stored payload peer q)) (held (stored payload peer q))) ns
          ∙ ap₂ (λ k bytes. cut (sizes q ++ length payload ∷ []) k bytes) ps bs
          ∙ cut-append (sizes q) (senders q) (held q) payload peer (all_held q v) (same_length q v),
      record {
        cells = length-write_ring q.bytes ((q.head + q.used) % queue_bytes) 0 payload ∙ v.cells;
        length_slots = length-set q.lengths at (length payload) ∙ v.length_slots;
        peer_slots = length-set q.peers at peer ∙ v.peer_slots;
        head_lt = v.head_lt;
        first_lt = v.first_lt;
        messages_le = omega (arith, slot);
        used_le = room;
        whole =
            ap total ns
            ∙ total-append (sizes q) (length payload)
            ∙ ap (λ n. n + length payload) v.whole;
      },
    )

-- The queue without its oldest message.
abbrev taken : DatagramQueue → DatagramQueue
taken q =
    let len = get_or q.lengths q.first 0 in
    record q {
      head = (q.head + len) % queue_bytes;
      used = q.used - len;
      first = (q.first + 1) % queue_messages;
      messages = q.messages - 1;
    }

taken_lem :
    (q : DatagramQueue)
    → IsQueue q
    → 0 < q.messages
    → (waiting q
        ≡ (take (get_or q.lengths q.first 0) (held q), get_or q.peers q.first empty_peer)
          ∷ waiting (taken q))
      × IsQueue (taken q)
      × (get_or q.lengths q.first 0 ≤ q.used)
taken_lem q v h =
    let len = get_or q.lengths q.first 0 in
    let ns : sizes q ≡ len ∷ sizes (taken q) =
      slots_from-first 0 q.messages q.first q.lengths v.first_lt h in
    let ps = slots_from-first empty_peer q.messages q.first q.peers v.first_lt h in
    let sum : len + total (sizes (taken q)) ≡ q.used = ap total (sym ns) ∙ v.whole in
    let bs : held (taken q) ≡ drop len (held q) =
      ring_bytes-advance q.used len q.head q.bytes (omega (arith, sum)) in
    (
      ap₂ (λ k ss. cut k ss (held q)) ns ps
          ∙ ap
              (λ bytes.
                (take len (held q), get_or q.peers q.first empty_peer)
                ∷ cut (sizes (taken q)) (senders (taken q)) bytes)
              (sym bs),
      record {
        cells = v.cells;
        length_slots = v.length_slots;
        peer_slots = v.peer_slots;
        head_lt = omega arith;
        first_lt = omega arith;
        messages_le = omega (arith, v.messages_le);
        used_le = omega (arith, v.used_le);
        whole = omega (arith, sum);
      },
      omega (arith, sum),
    )

push_eq :
    (payload : List ℕ) (peer : Peer) (q : DatagramQueue)
    → q.used ≤ queue_bytes
    → push payload peer q
      ≡ (if has_room q payload then (true, stored payload peer q) else (false, q))
unfolding push
push_eq payload peer q h = elim (Bool-cases (q.messages == queue_messages)) [
  | inl e ↦ elim (Bool-cases (leb (q.used + length payload) queue_bytes)) [
    | inl f ↦
        let fits : ltb (queue_bytes - q.used) (length payload) ≡ false = ground (arith, f, h) in
        rw (e, f, fits) refl
    | inr f ↦
        let full : ltb (queue_bytes - q.used) (length payload) ≡ true = ground (arith, f, h) in
        rw (e, f, full) refl
  ]
  | inr e ↦ elim (Bool-cases (leb (q.used + length payload) queue_bytes)) [
    | inl f ↦
        let fits : ltb (queue_bytes - q.used) (length payload) ≡ false = ground (arith, f, h) in
        rw (e, f, fits) refl
    | inr f ↦
        let full : ltb (queue_bytes - q.used) (length payload) ≡ true = ground (arith, f, h) in
        rw (e, f, full) refl
  ]
]

-- A push does to the messages what `put_mail` does.
pub push_lem :
    (payload : List ℕ) (peer : Peer) (q : DatagramQueue)
    → IsQueue q
    → let (accepted, r) = push payload peer q in
      ((accepted, waiting r) ≡ put_mail payload peer (waiting q)) × IsQueue r
push_lem payload peer q v =
    let step = push_eq payload peer q v.used_le in
    let same : has_room q payload ≡ (
        leb (mail_bytes (waiting q) + length payload) queue_bytes
        && not (length (waiting q) == queue_messages)) =
      ap₂ (λ m n. leb (m + length payload) queue_bytes && not (n == queue_messages))
        (sym (mail_bytes-waiting q v)) (sym (length-waiting q v)) in
    let spec : Bool → Bool × Mail =
      λ b. if b then (true, waiting q ++ (payload, peer) ∷ []) else (false, waiting q) in
    elim (Bool-cases (has_room q payload)) [
      | inl e ↦
          let done : push payload peer q ≡ (true, stored payload peer q) = step ∙ rw e refl in
          let slot : q.messages < queue_messages = ground (arith, e, v.messages_le) in
          let room : q.used + length payload ≤ queue_bytes = ground (arith, e) in
          let (f, w) = stored_lem payload peer q v room slot in
          (
            ap (λ r. (r.0, waiting r.1)) done
                ∙ ap (λ k. (true, k)) f
                ∙ ap spec (sym e)
                ∙ ap spec same,
            subst IsQueue (sym (ap (λ r. r.1) done)) w,
          )
      | inr e ↦
          let done : push payload peer q ≡ (false, q) = step ∙ rw e refl in
          (
            ap (λ r. (r.0, waiting r.1)) done ∙ ap spec (sym e) ∙ ap spec same,
            subst IsQueue (sym (ap (λ r. r.1) done)) v,
          )
    ]

-- A pop does what `get_mail` does.
pub pop_lem :
    (room : ℕ) (q : DatagramQueue)
    → IsQueue q
    → let (got, r) = pop room q in ((got, waiting r) ≡ get_mail room (waiting q)) × IsQueue r
unfolding pop
pop_lem room q v = elim (Bool-cases (q.messages == 0)) [
  | inl e ↦
      let none_left : q.messages ≡ 0 = ground (arith, e) in
      let nobody : waiting q ≡ [] =
        ap (λ n. cut (slots_from 0 n q.first q.lengths) (senders q) (held q)) none_left in
      rw e (ap (λ k. (none, k)) nobody ∙ ap (get_mail room) (sym nobody), v)
  | inr e ↦
      let len = get_or q.lengths q.first 0 in
      let (f, w, h) = taken_lem q v (ground (arith, e)) in
      let front : read_ring (min len room) 0 q.head q.bytes ≡ take room (take len (held q)) =
        read_ring_lem (min len room) 0 q.head q.bytes
        ∙ sym (ring_bytes-take q.used (min len room) 0 q.head q.bytes (omega (arith, h)))
        ∙ sym (take-take room len (held q)) in
      rw e (
        ap (λ k. (some (k, get_or q.peers q.first empty_peer), waiting (taken q))) front
            ∙ ap (get_mail room) (sym f),
        w,
      )
]

pub data Op : Type 0 where
  put : List ℕ → Peer → Op
  get : ℕ → Op

pub data Answer : Type 0 where
  took : Bool → Answer
  gave : Option (List ℕ × Peer) → Answer

-- The answers of a queue to calls in order, and those of the list of messages.
pub run : DatagramQueue → List Op → List Answer
run q [] = []
run q (put payload peer ∷ ops) = let (b, r) = push payload peer q in took b ∷ run r ops
run q (get room ∷ ops) = let (m, r) = pop room q in gave m ∷ run r ops

pub mail_run : Mail → List Op → List Answer
mail_run m [] = []
mail_run m (put payload peer ∷ ops) =
    let (b, r) = put_mail payload peer m in took b ∷ mail_run r ops
mail_run m (get room ∷ ops) = let (a, r) = get_mail room m in gave a ∷ mail_run r ops

-- A queue that is well formed answers any calls as the list of its messages does: at most eight of
-- them and 2048 bytes, each with its own bounds and its peer, in the order in which they came.
pub run_lem : (q : DatagramQueue) (ops : List Op) → IsQueue q → run q ops ≡ mail_run (waiting q) ops
unfolding run mail_run
run_lem q [] v = refl
run_lem q (put payload peer ∷ ops) v =
    let (f, w) = push_lem payload peer q v in
    ap (λ k. took (push payload peer q).0 ∷ k) (run_lem (push payload peer q).1 ops w)
    ∙ ap (λ k. took k.0 ∷ mail_run k.1 ops) f
run_lem q (get room ∷ ops) v =
    let (f, w) = pop_lem room q v in
    ap (λ k. gave (pop room q).0 ∷ k) (run_lem (pop room q).1 ops w)
    ∙ ap (λ k. gave k.0 ∷ mail_run k.1 ops) f
