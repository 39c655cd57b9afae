-- ===== src/Net/Udp/Queue.antt =====
-- Net/Udp: the datagrams that a queue holds, each with its peer.
use onyx_kernel.Prelude.{
  ℕ, ◌+◌, ◌≤◌, ◌<◌, ◌≡◌, ap, Bool, List, [], ◌∷◌, ◌++◌, length, length-drop, take, drop, not, ◌&&◌,
  take-append_le, drop-append_le, take_of_length-le, leb, ◌==◌, arith,
}
use onyx_kernel.Net.Tcp.Ring.{ring_bytes}
use onyx_kernel.Net.Udp.{queue_bytes, queue_messages, Peer, empty_peer, DatagramQueue}
use onyx_kernel.Net.Udp.Slots.{slots_from}

abbrev pub total : List ℕ → ℕ
total [] = 0
total (n ∷ ns) = n + total ns

-- The bytes cut at the lengths, each piece with its peer.
abbrev pub cut : List ℕ → List Peer → List ℕ → List (List ℕ × Peer)
cut [] peers bytes = []
cut (n ∷ ns) [] bytes = []
cut (n ∷ ns) (p ∷ peers) bytes = (take n bytes, p) ∷ cut ns peers (drop n bytes)

abbrev pub held : DatagramQueue → List ℕ
held q = ring_bytes q.used 0 q.head q.bytes

abbrev pub sizes : DatagramQueue → List ℕ
sizes q = slots_from 0 q.messages q.first q.lengths

abbrev pub senders : DatagramQueue → List Peer
senders q = slots_from empty_peer q.messages q.first q.peers

-- The datagrams in the order in which they came.
abbrev pub waiting : DatagramQueue → List (List ℕ × Peer)
waiting q = cut (sizes q) (senders q) (held q)

pub record IsQueue (q : DatagramQueue) : Type 0 where
  pub cells : length q.bytes ≡ queue_bytes
  pub length_slots : length q.lengths ≡ queue_messages
  pub peer_slots : length q.peers ≡ queue_messages
  pub head_lt : q.head < queue_bytes
  pub first_lt : q.first < queue_messages
  pub messages_le : q.messages ≤ queue_messages
  pub used_le : q.used ≤ queue_bytes
  pub whole : total (sizes q) ≡ q.used

pub total-append : (ns : List ℕ) (n : ℕ) → total (ns ++ n ∷ []) ≡ total ns + n
total-append [] n = omega arith
total-append (m ∷ ns) n = omega (arith, total-append ns n)

pub cut-append :
    (ns : List ℕ) (ps : List Peer) (bytes payload : List ℕ) (p : Peer)
    → total ns ≡ length bytes
    → length ns ≡ length ps
    → cut (ns ++ length payload ∷ []) (ps ++ p ∷ []) (bytes ++ payload)
      ≡ cut ns ps bytes ++ (payload, p) ∷ []
cut-append [] [] [] payload p e f =
    ap (λ k. (k, p) ∷ []) (take_of_length-le (length payload) payload (omega arith))
cut-append [] [] (b ∷ bytes) payload p e f = absurd (omega (arith, e))
cut-append [] (q ∷ ps) bytes payload p e f = absurd (omega (arith, f))
cut-append (n ∷ ns) [] bytes payload p e f = absurd (omega (arith, f))
cut-append (n ∷ ns) (q ∷ ps) bytes payload p e f =
    let front = take-append_le n bytes payload (omega (arith, e)) in
    let behind = drop-append_le n bytes payload (omega (arith, e)) in
    let left : total ns ≡ length (drop n bytes) = omega (arith, e, length-drop n bytes) in
    rw (front, behind)
      (ap (λ k. (take n bytes, q) ∷ k)
        (cut-append ns ps (drop n bytes) payload p left (omega (arith, f))))

-- Whether the queue takes a payload.
abbrev pub has_room : DatagramQueue → List ℕ → Bool
has_room q payload = leb (q.used + length payload) queue_bytes && not (q.messages == queue_messages)
