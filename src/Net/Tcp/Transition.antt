-- ===== src/Net/Tcp/Transition.antt =====
-- Net/Tcp: what a segment does to a connection, as a whole.
use onyx_kernel.Prelude.{
  ℕ, ◌+◌, ◌-◌, ◌%◌, ◌^◌, ◌<◌, ◌≡◌, refl, sym, ◌∙◌, subst, Bool, true, false, not, ◌&&◌, ◌||◌, List,
  min, length, take, ◌==◌, if◌then◌else◌, arith, inl, inr, ◌⊎◌,
}
use onyx_kernel.Net.Tcp.{
  TcpConn, buf_size, add_seq, has_fin, has_ack, has_syn, seg_ack, seg_none, timewait_us,
  drain_acked, accept_payload, accept_fin, is_empty, data_arm, tcp_transition,
}
use onyx_kernel.Net.Tcp.Ring.{length-write_ring}
use onyx_kernel.Net.Tcp.Invariant.{length-drop_sent, IsConn, drain_acked-IsConn, drain_acked_all}

pub accept_payload-IsConn :
    (c : TcpConn) (payload : List ℕ) → IsConn c → IsConn (accept_payload c payload)
unfolding accept_payload
accept_payload-IsConn c payload v =
    let n = min (length payload) (buf_size - c.recv_len) in
    record {
      send_cells = v.send_cells;
      recv_cells =
          length-write_ring c.recv_buf ((c.recv_head + c.recv_len) % buf_size) 0 (take n payload)
          ∙ v.recv_cells;
      send_fits = v.send_fits;
      recv_fits = omega (arith, v.recv_fits);
      una = v.una;
      nxt = v.nxt;
      outstanding = v.outstanding;
      handshake = v.handshake;
    }

accept_fin-IsConn : (c : TcpConn) (now : ℕ) → IsConn c → IsConn (accept_fin c now)
accept_fin-IsConn c now v = record {
  send_cells = v.send_cells;
  recv_cells = v.recv_cells;
  send_fits = v.send_fits;
  recv_fits = v.recv_fits;
  una = v.una;
  nxt = v.nxt;
  outstanding = λ n. ground (arith, v.outstanding, n);
  handshake = (λ e. ground (arith, v.handshake.0, e), λ e. ground (arith, v.handshake.1, e));
}

pub if_elim {ℓ κ} :
    {A : Type ℓ} (P : A → Type κ) (b : Bool) (x y : A) → P x → P y → P (if b then x else y)
if_elim P true x y p q = p
if_elim P false x y p q = q

data_arm-IsConn :
    (c : TcpConn) (seq ack flags : ℕ) (payload : List ℕ) (now : ℕ)
    → ack < 2 ^ 32
    → (c.state ≡ 2) ⊎ ((c.state ≡ 4) ⊎ (c.state ≡ 7))
    → IsConn c
    → IsConn (data_arm c seq ack flags payload now).0
unfolding data_arm
data_arm-IsConn c seq ack flags payload now h st v =
    let c1 = drain_acked c ack in
    let v1 =
      drain_acked-IsConn c ack h (λ e. ground (arith, st, e)) (λ e. ground (arith, st, e))
        (λ e. absurd (ground (arith, st, e))) v in
    let takes = (seq == c1.rcv_nxt) && not (is_empty payload) in
    let c2 = if takes then accept_payload c1 payload else c1 in
    let v2 =
      if_elim IsConn takes (accept_payload c1 payload) c1 (accept_payload-IsConn c1 payload v1)
        v1 in
    if_elim IsConn (has_fin flags && (add_seq seq (length payload % 2 ^ 32) == c2.rcv_nxt))
      (accept_fin c2 now) c2 (accept_fin-IsConn c2 now v2) v2

pub if_split {ℓ κ} :
    {A : Type ℓ} (P : A → Type κ) (b : Bool) (x y : A)
    → (b ≡ true → P x)
    → (b ≡ false → P y)
    → P (if b then x else y)
if_split P true x y p q = p refl
if_split P false x y p q = q refl

drain_acked-nxt : (c : TcpConn) (ack : ℕ) → (drain_acked c ack).snd_nxt ≡ c.snd_nxt
unfolding drain_acked
drain_acked-nxt c ack = ground arith

-- A handshake completed by an acknowledgement of all that is outstanding.
opened-IsConn :
    (c : TcpConn) (ack rcv_nxt deadline : ℕ)
    → ack < 2 ^ 32
    → (c.state ≡ 1) ⊎ (c.state ≡ 5)
    → IsConn c
    → IsConn (record c {
      state = 2;
      snd_nxt = ack;
      snd_una = ack;
      rcv_nxt = rcv_nxt;
      tw_deadline_us = deadline;
    })
opened-IsConn c ack rcv_nxt deadline h st v =
    let none_sent : c.send_len ≡ 0 = elim st [
      | inl e ↦ v.handshake.0 e
      | inr e ↦ v.handshake.1 e
    ] in
    record {
      send_cells = v.send_cells;
      recv_cells = v.recv_cells;
      send_fits = v.send_fits;
      recv_fits = v.recv_fits;
      una = h;
      nxt = h;
      outstanding = λ n. omega (arith, none_sent, h);
      handshake = (λ e. none_sent, λ e. none_sent);
    }

-- The FIN of ours acknowledged.
closed-IsConn :
    (c : TcpConn) (deadline : ℕ)
    → c.state ≡ 3
    → IsConn c
    → IsConn (record (drain_acked c c.snd_nxt) { state = 4; tw_deadline_us = deadline })
closed-IsConn c deadline e v =
    subst (λ d. IsConn (record d { state = 4; tw_deadline_us = deadline }))
      (sym (drain_acked_all c e v))
      (record {
        send_cells =
            length-drop_sent c c.send_len c.snd_nxt (omega arith)
              (omega (arith, v.send_cells, v.send_fits))
            ∙ v.send_cells;
        recv_cells = v.recv_cells;
        send_fits = omega arith;
        recv_fits = v.recv_fits;
        una = v.nxt;
        nxt = v.nxt;
        outstanding = λ n. omega (arith, v.nxt);
        handshake = (λ f. omega arith, λ f. omega arith);
      })

fin_arm-IsConn :
    (c : TcpConn) (ack now : ℕ)
    → ack < 2 ^ 32
    → c.state ≡ 3
    → IsConn c
    → let d = drain_acked c ack in
      IsConn
        (if ack == d.snd_nxt then record d { state = 4; tw_deadline_us = now + timewait_us } else d)
fin_arm-IsConn c ack now h e v =
    let d = drain_acked c ack in
    if_split IsConn (ack == d.snd_nxt) (record d { state = 4; tw_deadline_us = now + timewait_us })
      d
      (λ t.
        let all : c.snd_nxt ≡ ack = ground (arith, t, drain_acked-nxt c ack) in
        subst
          (λ a. IsConn (record (drain_acked c a) { state = 4; tw_deadline_us = now + timewait_us }))
          all (closed-IsConn c (now + timewait_us) e v))
      (λ f.
        drain_acked-IsConn c ack h (λ g. absurd (omega (arith, e, g)))
          (λ g. absurd (omega (arith, e, g)))
          (λ g a. absurd (ground (arith, f, a, drain_acked-nxt c ack))) v)

-- Every segment keeps the numbers and the buffers of a connection in agreement, in every state.
pub tcp_transition-IsConn :
    (c : TcpConn) (seq ack flags : ℕ) (payload : List ℕ) (now : ℕ)
    → ack < 2 ^ 32
    → IsConn c
    → IsConn (tcp_transition c seq ack flags payload now).0
unfolding tcp_transition
tcp_transition-IsConn c seq ack flags payload now h v =
    let P : TcpConn × ℕ × ℕ → Type 0 = λ r. IsConn r.0 in
    let d = drain_acked c ack in
    let arm = data_arm c seq ack flags payload now in
    let opened = record c { state = 2; snd_una = ack; tw_deadline_us = 0 } in
    let opened_arm = data_arm opened seq ack flags payload now in
    let fin_arm : TcpConn × ℕ × ℕ = (
      (if ack == d.snd_nxt then record d { state = 4; tw_deadline_us = now + timewait_us } else d),
      seg_none,
      seg_none,
    ) in
    let stay : TcpConn × ℕ × ℕ = (c, seg_none, seg_none) in
    let is_3 = (c.state == 3) && has_ack flags in
    let is_data = (c.state == 2) || (c.state == 4) || (c.state == 7) in
    let is_5 = (c.state == 5) && has_ack flags && (ack == c.snd_nxt) && (seq == c.rcv_nxt) in
    let at_3 = if is_3 then fin_arm else stay in
    let at_data = if is_data then arm else at_3 in
    let at_5 = if is_5 then opened_arm else at_data in
    if_split P ((c.state == 1) && (has_syn flags && has_ack flags) && (ack == c.snd_nxt))
      (
        record c { state = 2; snd_nxt = ack; snd_una = ack; rcv_nxt = add_seq seq 1 },
        seg_ack,
        seg_none,
      )
      at_5 (λ t. opened-IsConn c ack (add_seq seq 1) c.tw_deadline_us h (inl (ground (arith, t))) v)
      (λ f1.
        if_split P is_5 opened_arm at_data
          (λ t.
            let all : ack ≡ c.snd_nxt = ground (arith, t) in
            data_arm-IsConn opened seq ack flags payload now h (inl refl) (
              subst
                (λ n.
                  IsConn (record c { state = 2; snd_nxt = n; snd_una = ack; tw_deadline_us = 0 }))
                all (opened-IsConn c ack c.rcv_nxt 0 h (inr (ground (arith, t))) v)))
          (λ f5.
            if_split P is_data arm at_3
              (λ t. data_arm-IsConn c seq ack flags payload now h (ground (arith, t)) v)
              (λ f.
                if_split P is_3 fin_arm stay (λ t. fin_arm-IsConn c ack now h (ground (arith, t)) v)
                  (λ n. v))))
