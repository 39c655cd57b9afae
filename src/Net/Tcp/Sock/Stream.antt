-- ===== src/Net/Tcp/Sock/Stream.antt =====
-- Net/Tcp/Sock: the two byte streams of a connection, seen by its user.
use onyx_kernel.Prelude.{
  ℕ, zero, suc, ◌+◌, ◌%◌, ◌≤◌, ◌≡◌, ◌≢◌, refl, sym, ap, ◌∙◌, subst, false, not, ◌&&◌, List, [], ◌∷◌,
  ◌++◌, append_assoc, min, length, get_or, take, drop, length-take, length-drop, length-append,
  take-append_self, ltb, ◌==◌, if◌then◌else◌, arith, ◌⊎◌,
}
use onyx_kernel.Core.Errno.{ok, err, io, no_ent}
use onyx_kernel.Net.Tcp.{TcpConn, buf_size}
use onyx_kernel.Net.Tcp.Ring.{ring_bytes, ring_bytes-advance, ring_bytes-take}
use onyx_kernel.Net.Tcp.Invariant.{in_flight, IsConn, unacked}
use onyx_kernel.Net.Tcp.Receive.{received}
use onyx_kernel.Net.Tcp.Sock.{read_ring, read_received, send_room, send_bytes, closing}

pub read_ring_lem : (n i head : ℕ) (buf : List ℕ) → read_ring n i head buf ≡ ring_bytes n i head buf
unfolding read_ring
read_ring_lem zero i head buf = refl
read_ring_lem (suc n) i head buf =
    ap (λ bs. get_or buf ((head + i) % buf_size) 0 ∷ bs) (read_ring_lem n (i + 1) head buf)

-- Reading gives the oldest bytes, as many as there are and as the buffer takes, and leaves the
-- others; a failed connection is an error, and an empty one is the end of the stream after the
-- peer's FIN and an error before.
pub read_received_lem :
    (c : TcpConn) (room : ℕ)
    → let n = min room c.recv_len in
      let (result, after) = read_received c room in
      (c.state ≡ 6 → (result ≡ err io))
      × (c.state ≢ 6
          → c.recv_len ≡ 0
          → result ≡ (if c.peer_fin then ok ([], false) else err no_ent))
      × (c.state ≢ 6
          → c.recv_len ≢ 0
          → (result ≡ ok (take n (received c), ltb 0 n && not c.peer_fin))
            × (received after ≡ drop n (received c)))
unfolding read_received
read_received_lem c room =
    let n = min room c.recv_len in
    (
      (λ e. ground (arith, e)),
      (λ m e. ground (arith, m, e)),
      (λ m e.
          let not_6 : (c.state == 6) ≡ false = ground (arith, m) in
          let not_0 : (c.recv_len == 0) ≡ false = ground (arith, e) in
          let le : n ≤ c.recv_len = omega arith in
          rw not_6 (
            rw not_0 (
              ap (λ bs. ok (bs, ltb 0 n && not c.peer_fin))
                  (read_ring_lem n 0 c.recv_head c.recv_buf
                    ∙ sym (ring_bytes-take c.recv_len n 0 c.recv_head c.recv_buf le)),
              ring_bytes-advance c.recv_len n c.recv_head c.recv_buf le,
            ))),
    )

-- Sending appends the bytes that are taken to those that wait for an acknowledgement, and keeps the
-- numbers of the connection in agreement.
pub send_bytes_lem :
    (c : TcpConn) (bytes : List ℕ) (now : ℕ)
    → (c.state ≡ 2) ⊎ (c.state ≡ 7)
    → IsConn c
    → (unacked (send_bytes c bytes now) ≡ unacked c ++ take (send_room c (length bytes)) bytes)
      × IsConn (send_bytes c bytes now)
unfolding send_bytes
send_bytes_lem c bytes now st v =
    let flight : in_flight c.state ≡ 0 = ground (arith, st) in
    let n = send_room c (length bytes) in
    let taken = take n bytes in
    let before = unacked c in
    let rest = drop (c.send_len + n) c.send_buf in
    let room : c.send_len + n ≤ buf_size = omega (arith, v.send_fits) in
    let len_before : length before ≡ c.send_len =
      omega (arith, length-take c.send_len c.send_buf, v.send_cells, v.send_fits) in
    let len_taken : length taken ≡ n = omega (arith, length-take n bytes) in
    let len_both : length (before ++ taken) ≡ c.send_len + n =
      omega (arith, length-append before taken, len_before, len_taken) in
    (
      ap (take (c.send_len + n)) (sym (append_assoc before taken rest))
          ∙ subst (λ k. take k ((before ++ taken) ++ rest) ≡ before ++ taken) len_both
              (take-append_self (before ++ taken) rest),
      record {
        send_cells = omega (
          arith,
          length-append before (taken ++ rest),
          length-append taken rest,
          length-drop (c.send_len + n) c.send_buf,
          len_before,
          len_taken,
          v.send_cells,
          room,
        );
        recv_cells = v.recv_cells;
        send_fits = room;
        recv_fits = v.recv_fits;
        una = v.una;
        nxt = omega arith;
        outstanding = λ m. omega (arith, v.outstanding m, flight, v.una, v.nxt, room);
        handshake = (λ e. absurd (ground (arith, st, e)), λ e. absurd (ground (arith, st, e)));
      },
    )

-- Closing from state 2 or 7 keeps the numbers in agreement, and what waits for an acknowledgement.
pub closing-IsConn :
    (c : TcpConn) (now : ℕ) → (c.state ≡ 2) ⊎ (c.state ≡ 7) → IsConn c → IsConn (closing c now)
closing-IsConn c now st v =
    let flight : in_flight c.state ≡ 0 = ground (arith, st) in
    record {
      send_cells = v.send_cells;
      recv_cells = v.recv_cells;
      send_fits = v.send_fits;
      recv_fits = omega arith;
      una = v.una;
      nxt = omega arith;
      outstanding = λ m. omega (
        arith,
        v.outstanding (λ e. absurd (ground (arith, st, e))),
        flight,
        v.una,
        v.nxt,
        v.send_fits,
      );
      handshake = (λ e. absurd (omega (arith, e)), λ e. absurd (omega (arith, e)));
    }
