-- ===== src/Net/Tcp/Invariant.antt =====
-- Net/Tcp: connections whose numbers and buffers agree.
use onyx_kernel.Prelude.{
  ℕ, ℕ_discrete, dec_lt, drop-take, drop_of_length-le, take-append_self, ◌+◌, ◌-◌, ◌^◌, ◌≤◌, ◌<◌,
  ◌≡◌, ◌≢◌, refl, sym, ap, ◌∙◌, subst, true, false, not, ◌&&◌, ◌||◌, List, ◌++◌, min, length, take,
  drop, length-append, length-take, length-drop, ltb, ◌==◌, if◌then◌else◌, arith, Bool-cases, ◌⊎◌,
  inl, inr,
}
use onyx_kernel.Net.Tcp.{TcpConn, buf_size, sub_seq, drop_sent, drain_acked}

-- The number that a SYN or a FIN of ours takes while it is not acknowledged.
abbrev pub in_flight : ℕ → ℕ
in_flight state = if (state == 1) || (state == 3) || (state == 5) then 1 else 0

-- The bytes and the sequence numbers of a connection agree: what is sent and not acknowledged is
-- what the send buffer holds, and a SYN or FIN in flight.
pub record IsConn (c : TcpConn) : Type 0 where
  pub send_cells : length c.send_buf ≡ buf_size
  pub recv_cells : length c.recv_buf ≡ buf_size
  pub send_fits : c.send_len ≤ buf_size
  pub recv_fits : c.recv_len ≤ buf_size
  pub una : c.snd_una < 2 ^ 32
  pub nxt : c.snd_nxt < 2 ^ 32
  pub outstanding : c.state ≢ 6 → sub_seq c.snd_nxt c.snd_una ≡ c.send_len + in_flight c.state
  pub handshake : (c.state ≡ 1 → c.send_len ≡ 0) × (c.state ≡ 5 → c.send_len ≡ 0)

pub length-drop_sent :
    (c : TcpConn) (n ack : ℕ)
    → n ≤ c.send_len
    → c.send_len ≤ length c.send_buf
    → length (drop_sent c n ack).send_buf ≡ length c.send_buf
length-drop_sent c n ack h f =
    let k = c.send_len - n in
    omega (
      arith,
      length-append (take k (drop n c.send_buf)) (drop k c.send_buf),
      length-take k (drop n c.send_buf),
      length-drop n c.send_buf,
      length-drop k c.send_buf,
      h,
      f,
    )

flight_cases :
    (state ack nxt : ℕ)
    → state ≢ 1
    → state ≢ 5
    → (state ≡ 3 → ack ≢ nxt)
    → (in_flight state ≡ 0) ⊎ ((in_flight state ≡ 1) × (ack ≢ nxt))
flight_cases state ack nxt n1 n5 n3 = elim (ℕ_discrete state 3) [
  | yes e ↦ inr (rw e refl, n3 e)
  | no n ↦ inl (ground (arith, n1, n5, n))
]

drained_outstanding :
    (una nxt ack len flight : ℕ)
    → ack < 2 ^ 32
    → una < 2 ^ 32
    → nxt < 2 ^ 32
    → sub_seq nxt una ≡ len + flight
    → sub_seq ack una ≤ sub_seq nxt una
    → (flight ≡ 0) ⊎ ((flight ≡ 1) × (ack ≢ nxt))
    → sub_seq nxt ack ≡ len - min (sub_seq ack una) len + flight
drained_outstanding una nxt ack len flight ha hu hn o le (inl z) =
    omega (arith, ha, hu, hn, o, le, z)
drained_outstanding una nxt ack len flight ha hu hn o le (inr (z, n)) =
    omega (arith, ha, hu, hn, o, le, z, n)

pub drain_acked-IsConn :
    (c : TcpConn) (ack : ℕ)
    → ack < 2 ^ 32
    → c.state ≢ 1
    → c.state ≢ 5
    → (c.state ≡ 3 → ack ≢ c.snd_nxt)
    → IsConn c
    → IsConn (drain_acked c ack)
unfolding drain_acked
drain_acked-IsConn c ack h n1 n5 n3 v =
    let acked = sub_seq ack c.snd_una in
    let fin_ack = (c.state == 3) && (ack == c.snd_nxt) && (acked == c.send_len + 1) in
    elim (Bool-cases ((acked == 0) || ltb (sub_seq c.snd_nxt c.snd_una) acked)) [
      | inl e ↦ rw e v
      | inr e ↦ rw e (elim (Bool-cases (ltb c.send_len acked && not fin_ack)) [
        | inl f ↦ rw f v
        | inr f ↦ rw f (record {
          send_cells =
              length-drop_sent c (min acked c.send_len) ack (omega arith)
                (omega (arith, v.send_cells, v.send_fits))
              ∙ v.send_cells;
          recv_cells = v.recv_cells;
          send_fits = omega (arith, v.send_fits);
          recv_fits = v.recv_fits;
          una = h;
          nxt = v.nxt;
          outstanding = λ n.
              drained_outstanding c.snd_una c.snd_nxt ack c.send_len (in_flight c.state) h v.una
                v.nxt (v.outstanding n) (ground (arith, e))
                (flight_cases c.state ack c.snd_nxt n1 n5 n3);
          handshake = (λ s. absurd (n1 s), λ s. absurd (n5 s));
        })
      ])
    ]

-- In state 3 an acknowledgement of everything, the FIN included, empties the buffer.
pub drain_acked_all :
    (c : TcpConn)
    → c.state ≡ 3
    → IsConn c
    → drain_acked c c.snd_nxt ≡ drop_sent c c.send_len c.snd_nxt
unfolding drain_acked
drain_acked_all c e v =
    let all : sub_seq c.snd_nxt c.snd_una ≡ c.send_len + 1 =
      v.outstanding (λ f. absurd (omega (arith, e, f))) ∙ rw e refl in
    let some_acked : ((sub_seq c.snd_nxt c.snd_una == 0)
          || ltb (sub_seq c.snd_nxt c.snd_una) (sub_seq c.snd_nxt c.snd_una))
        ≡ false =
      ground (arith, all) in
    let fin : (ltb c.send_len (sub_seq c.snd_nxt c.snd_una)
          && not (
              (c.state == 3)
              && (c.snd_nxt == c.snd_nxt)
              && (sub_seq c.snd_nxt c.snd_una == c.send_len + 1)))
        ≡ false =
      ground (arith, all, e) in
    let whole : min (sub_seq c.snd_nxt c.snd_una) c.send_len ≡ c.send_len = omega (arith, all) in
    rw some_acked (rw fin (rw whole refl))

-- The bytes that are sent and not acknowledged.
abbrev pub unacked : TcpConn → List ℕ
unacked c = take c.send_len c.send_buf

drop-min : (n k : ℕ) (bytes : List ℕ) → n ≡ min k (length bytes) → drop n bytes ≡ drop k bytes
drop-min n k bytes e = elim (dec_lt k (length bytes)) [
  | yes p ↦ ap (λ m. drop m bytes) (omega (arith, e, p))
  | no p ↦
      drop_of_length-le n bytes (omega (arith, e, p))
      ∙ sym (drop_of_length-le k bytes (omega (arith, p)))
]

same_ack :
    (ack nxt una : ℕ)
    → ack < 2 ^ 32
    → nxt < 2 ^ 32
    → una < 2 ^ 32
    → sub_seq ack una ≡ sub_seq nxt una
    → ack ≡ nxt
same_ack ack nxt una ha hn hu e = omega (arith, ha, hn, hu, e)

unacked-drop_sent :
    (c : TcpConn) (n k ack : ℕ)
    → n ≡ min k c.send_len
    → c.send_len ≤ length c.send_buf
    → unacked (drop_sent c n ack) ≡ drop k (unacked c)
unacked-drop_sent c n k ack e f =
    let rest = take (c.send_len - n) (drop n c.send_buf) in
    let full : length rest ≡ c.send_len - n =
      omega
        (arith, length-take (c.send_len - n) (drop n c.send_buf), length-drop n c.send_buf, e, f) in
    subst (λ m. take m (rest ++ drop (c.send_len - n) c.send_buf) ≡ rest) full
      (take-append_self rest (drop (c.send_len - n) c.send_buf))
    ∙ sym (drop-take n c.send_len c.send_buf)
    ∙ drop-min n k (unacked c) (omega (arith, e, f, length-take c.send_len c.send_buf))

-- Outside the handshake an acknowledgement of bytes that are outstanding takes them, and no others,
-- from the front of the unacknowledged bytes; any other acknowledgement changes nothing.
pub drain_acked_lem :
    (c : TcpConn) (ack : ℕ)
    → c.state ≢ 1
    → c.state ≢ 5
    → c.state ≢ 6
    → ack < 2 ^ 32
    → IsConn c
    → let acked = sub_seq ack c.snd_una in
      let outstanding = sub_seq c.snd_nxt c.snd_una in
      ((acked ≡ 0) ⊎ (outstanding < acked) → drain_acked c ack ≡ c)
      × (0 < acked
          → acked ≤ outstanding
          → (unacked (drain_acked c ack) ≡ drop acked (unacked c))
            × ((drain_acked c ack).snd_una ≡ ack))
unfolding drain_acked
drain_acked_lem c ack n1 n5 n6 h v =
    let acked = sub_seq ack c.snd_una in
    let o = v.outstanding n6 in
    let all = λ (e : acked ≡ sub_seq c.snd_nxt c.snd_una).
      same_ack ack c.snd_nxt c.snd_una h v.nxt v.una e in
    (
      (λ bad.
          let refused : ((acked == 0) || ltb (sub_seq c.snd_nxt c.snd_una) acked) ≡ true =
            ground (arith, bad) in
          rw refused refl),
      (λ p q.
          let good : ((acked == 0) || ltb (sub_seq c.snd_nxt c.snd_una) acked) ≡ false =
            ground (arith, p, q) in
          let fin : (ltb c.send_len acked
                && not ((c.state == 3) && (ack == c.snd_nxt) && (acked == c.send_len + 1)))
              ≡ false =
            ground (arith, p, q, o, all, n1, n5) in
          rw good (
            rw fin (
              unacked-drop_sent c (min acked c.send_len) acked ack refl
                  (omega (arith, v.send_cells, v.send_fits)),
              refl,
            ))),
    )
