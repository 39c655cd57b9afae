-- ===== src/Net/Tcp/Listen/Queue.antt =====
-- Net/Tcp/Listen: the connections that wait in a listener.
use onyx_kernel.Prelude.{
  ℕ, zero, suc, ◌+◌, ◌-◌, ◌%◌, ◌≤◌, ◌<◌, ◌≡◌, ◌≢◌, refl, sym, ap, ap₂, subst, ◌∙◌, true, false,
  Option, none, some, List, [], ◌∷◌, ◌++◌, length, length-set, get_or, get_or-set_self,
  get_or-set_ne, set, drop, ltb, if◌then◌else◌, arith, Bool-cases, Option-cases, inl, inr, ◌⊎◌,
}
use onyx_kernel.Core.Errno.{KResult, ok, err, no_ent}
use onyx_kernel.Net.Tcp.{TcpConn, no_listener}
use onyx_kernel.Net.Tcp.Sock.{Conns, conn_at}
use onyx_kernel.Net.Tcp.Listen.{
  backlog, Listener, Sockets, listener_at, advanced, pushed, acceptable, hand_out, accept,
  established,
}

abbrev pub ring_from : ℕ → ℕ → List ℕ → List ℕ
ring_from zero first queue = []
ring_from (suc n) first queue = get_or queue (first % backlog) 0 ∷ ring_from n (first + 1) queue

-- The connections in the queue, in the order in which they came.
abbrev pub waiting : Listener → List ℕ
waiting l = ring_from l.len l.first l.queue

pub record IsListener (l : Listener) : Type 0 where
  pub slots : length l.queue ≡ backlog
  pub first_lt : l.first < backlog
  pub len_le : l.len ≤ backlog

ring_from-set :
    (n first at cid : ℕ) (queue : List ℕ)
    → length queue ≡ backlog
    → at ≡ (first + n) % backlog
    → n < backlog
    → ring_from (suc n) first (set queue at cid) ≡ ring_from n first queue ++ cid ∷ []
ring_from-set zero first at cid queue l e h =
    let here : first % backlog ≡ at = omega (arith, e) in
    rw here (ap (λ b. b ∷ []) (get_or-set_self queue at cid 0 (omega (arith, l, e))))
ring_from-set (suc n) first at cid queue l e h =
    let apart : at ≢ first % backlog = λ f. omega (arith, e, f, h) in
    ap₂ (λ b bs. b ∷ bs) (get_or-set_ne queue cid 0 apart)
      (ring_from-set n (first + 1) at cid queue l (omega (arith, e)) (omega (arith, h)))

ring_from-mod :
    (n first : ℕ) (queue : List ℕ) → ring_from n (first % backlog) queue ≡ ring_from n first queue
ring_from-mod zero first queue = refl
ring_from-mod (suc n) first queue =
    let head : first % backlog % backlog ≡ first % backlog = omega arith in
    let tail : ring_from n (first % backlog + 1) queue ≡ ring_from n (first + 1) queue =
      sym (ring_from-mod n (first % backlog + 1) queue)
      ∙ ap (λ k. ring_from n k queue) (omega arith)
      ∙ ring_from-mod n (first + 1) queue in
    ap₂ (λ k bs. get_or queue k 0 ∷ bs) head tail

-- A connection that is put into a queue with room stands behind the others.
pub waiting-pushed :
    (l : Listener) (cid : ℕ)
    → IsListener l
    → l.len < backlog
    → (waiting (pushed cid l) ≡ waiting l ++ cid ∷ []) × IsListener (pushed cid l)
waiting-pushed l cid v h =
    let more : l.len + 1 ≡ suc l.len = omega arith in
    (
      ap (λ n. ring_from n l.first (set l.queue ((l.first + l.len) % backlog) cid)) more
          ∙ ring_from-set l.len l.first ((l.first + l.len) % backlog) cid l.queue v.slots refl h,
      record {
        slots = length-set l.queue ((l.first + l.len) % backlog) cid ∙ v.slots;
        first_lt = v.first_lt;
        len_le = omega (arith, h);
      },
    )

-- The one that is taken is the oldest.
pub waiting-advanced :
    (l : Listener)
    → IsListener l
    → 0 < l.len
    → (waiting l ≡ get_or l.queue l.first 0 ∷ waiting (advanced l)) × IsListener (advanced l)
waiting-advanced l v h =
    let one : l.len ≡ suc (l.len - 1) = omega (arith, h) in
    let front : l.first % backlog ≡ l.first = omega (arith, v.first_lt) in
    (
      ap (λ n. ring_from n l.first l.queue) one
          ∙ ap₂ (λ k bs. get_or l.queue k 0 ∷ bs) front
              (sym (ring_from-mod (l.len - 1) (l.first + 1) l.queue)),
      record { slots = v.slots; first_lt = omega arith; len_le = omega (arith, v.len_le) },
    )

-- The listener at `i` has these connections waiting.
pub record Holds (s : Sockets) (i : ℕ) (cids : List ℕ) : Type 0 where
  pub listener : Listener
  pub here : listener_at s.listeners i ≡ some listener
  pub valid : IsListener listener
  pub queued : waiting listener ≡ cids

-- The connection in the slot is one of the listener at `i` that is established, or closed by its peer only.
abbrev pub IsAcceptable : ℕ → TcpConn → Type 0
IsAcceptable i c = (c.listener ≡ i) × ((c.state ≡ 2) ⊎ (c.state ≡ 7))

-- There is no connection any more, or one of another listener or in another state.
abbrev pub IsRefused : ℕ → Option TcpConn → Type 0
IsRefused i none = Unit
IsRefused i (some c) = (c.listener ≢ i) ⊎ ((c.state ≢ 2) × (c.state ≢ 7))

-- What `accept` is to do where these connections wait: nothing if there is none; otherwise the first
-- leaves the queue, and is given out, apart from its listener, or is refused and left as it is.
abbrev pub Accepts : Sockets → ℕ → List ℕ → KResult ℕ × Sockets → Type 0
Accepts s i [] r = r ≡ (err no_ent, s)
Accepts s i (cid ∷ rest) r =
    Holds r.1 i rest
    × (((c : TcpConn) × (conn_at s.conns cid ≡ some c)
          × IsAcceptable i c
          × (r.0 ≡ ok cid)
          × (r.1.conns ≡ set s.conns cid (some (record c { listener = no_listener }))))
        ⊎ (IsRefused i (conn_at s.conns cid) × (r.0 ≡ err no_ent) × (r.1.conns ≡ s.conns)))

acceptable-IsAcceptable : (i : ℕ) (c : TcpConn) → acceptable i c ≡ true → IsAcceptable i c
acceptable-IsAcceptable i c e = ground (arith, e)

acceptable-IsRefused : (i : ℕ) (c : TcpConn) → acceptable i c ≡ false → IsRefused i (some c)
acceptable-IsRefused i c e = ground (arith, e)

-- What the handing out of a connection comes to.
hand_out_cases :
    (i cid : ℕ) (conns : Conns)
    → ((c : TcpConn) × (conn_at conns cid ≡ some c)
        × IsAcceptable i c
        × (hand_out i cid conns
            ≡ (ok cid, set conns cid (some (record c { listener = no_listener })))))
      ⊎ (IsRefused i (conn_at conns cid) × (hand_out i cid conns ≡ (err no_ent, conns)))
hand_out_cases i cid conns = elim (Option-cases (conn_at conns cid)) [
  | inl e ↦ inr (subst (IsRefused i) (sym e) tt, rw (e, hand_out) refl)
  | inr (c, e) ↦ elim (Bool-cases (acceptable i c)) [
    | inl t ↦ inl (c, e, acceptable-IsAcceptable i c t, rw (e, hand_out) (rw t refl))
    | inr t ↦
        inr (subst (IsRefused i) (sym e) (acceptable-IsRefused i c t), rw (e, hand_out) (rw t refl))
  ]
]

pub listener_at_lt :
    (ls : List (Option Listener)) (i : ℕ) (l : Listener) → listener_at ls i ≡ some l → i < length ls
listener_at_lt [] i l e = absurd (cc)
listener_at_lt (x ∷ ls) zero l e = omega arith
listener_at_lt (x ∷ ls) (suc i) l e = let h = listener_at_lt ls i l e in omega (arith, h)

length-ring_from : (n first : ℕ) (queue : List ℕ) → length (ring_from n first queue) ≡ n
length-ring_from zero first queue = refl
length-ring_from (suc n) first queue = ap suc (length-ring_from n (first + 1) queue)

accept_eq :
    (i : ℕ) (s : Sockets) (l : Listener)
    → listener_at s.listeners i ≡ some l
    → 0 < l.len
    → accept i s ≡ (
      (hand_out i (get_or l.queue l.first 0) s.conns).0,
      record {
        listeners = set (s.listeners) i (some (advanced l));
        conns = (hand_out i (get_or l.queue l.first 0) s.conns).1;
      },
    )
unfolding accept
accept_eq i s l e h =
    let some_left : ltb 0 l.len ≡ true = ground (arith, h) in rw (e, accept) (rw some_left refl)

accept-some :
    (i : ℕ) (s : Sockets) (l : Listener) (cid : ℕ) (rest : List ℕ)
    → listener_at s.listeners i ≡ some l
    → IsListener l
    → waiting l ≡ cid ∷ rest
    → Accepts s i (cid ∷ rest) (accept i s)
accept-some i s l cid rest e v w =
    let long : l.len ≡ suc (length rest) =
      sym (length-ring_from l.len l.first l.queue) ∙ ap length w in
    let pop = waiting-advanced l v (omega (arith, long)) in
    let both : get_or l.queue l.first 0 ∷ waiting (advanced l) ≡ cid ∷ rest = sym pop.0 ∙ w in
    let front : get_or l.queue l.first 0 ≡ cid = ap (λ k. get_or k 0 0) both in
    let step = accept_eq i s l e (omega (arith, long)) in
    let result : (accept i s).0 ≡ (hand_out i cid s.conns).0 =
      ap (λ r. r.0) step ∙ ap (λ c. (hand_out i c s.conns).0) front in
    let left : (accept i s).1.conns ≡ (hand_out i cid s.conns).1 =
      ap (λ r. r.1.conns) step ∙ ap (λ c. (hand_out i c s.conns).1) front in
    (
      record {
        listener = advanced l;
        here =
            ap (λ r. listener_at r.1.listeners i) step
            ∙ get_or-set_self s.listeners i (some (advanced l)) none
                (listener_at_lt s.listeners i l e);
        valid = pop.1;
        queued = ap (drop 1) both;
      },
      elim (hand_out_cases i cid s.conns) [
        | inl (c, f, v, g) ↦ inl (c, f, v, result ∙ ap (λ k. k.0) g, left ∙ ap (λ k. k.1) g)
        | inr (n, g) ↦ inr (n, result ∙ ap (λ k. k.0) g, left ∙ ap (λ k. k.1) g)
      ],
    )

accept_none :
    (i : ℕ) (s : Sockets) (l : Listener)
    → listener_at s.listeners i ≡ some l
    → waiting l ≡ []
    → accept i s ≡ (err no_ent, s)
unfolding accept
accept_none i s l e w =
    let long : l.len ≡ 0 = sym (length-ring_from l.len l.first l.queue) ∙ ap length w in
    let nothing : ltb 0 l.len ≡ false = ground (arith, long) in rw (e, accept) (rw nothing refl)

-- Where connections wait in a listener, `accept` takes the first of them out of the queue. It gives it out,
-- apart from the listener, if it is one of the listener's that is established or closed by its peer only,
-- and otherwise fails and changes no connection; where none waits, it fails and changes nothing.
pub accept_lem :
    (i : ℕ) (s : Sockets) (cids : List ℕ) → Holds s i cids → Accepts s i cids (accept i s)
accept_lem i s [] v = accept_none i s v.listener v.here v.queued
accept_lem i s (cid ∷ rest) v = accept-some i s v.listener cid rest v.here v.valid v.queued

established-some :
    (cid parent : ℕ) (s : Sockets) (l : Listener)
    → listener_at s.listeners parent ≡ some l
    → established cid parent s ≡ (
        if ltb l.len backlog
        then record s { listeners = set (s.listeners) parent (some (pushed cid l)) }
        else record s { conns = set (s.conns) cid none })
unfolding established
established-some cid parent s l e = rw (e, established) refl

-- A connection whose handshake ends comes behind the others where there is room in the queue, and is
-- freed where there is none.
pub established_lem :
    (cid parent : ℕ) (s : Sockets) (cids : List ℕ)
    → Holds s parent cids
    → ((length cids < backlog)
        × Holds (established cid parent s) parent (cids ++ cid ∷ [])
        × ((established cid parent s).conns ≡ s.conns))
      ⊎ ((length cids ≡ backlog)
          × (established cid parent s ≡ record s { conns = set (s.conns) cid none }))
established_lem cid parent s cids v =
    let l = v.listener in
    let long : l.len ≡ length cids =
      sym (length-ring_from l.len l.first l.queue) ∙ ap length v.queued in
    let step = established-some cid parent s l v.here in
    elim (Bool-cases (ltb l.len backlog)) [
      | inl t ↦
          let r = record s { listeners = set (s.listeners) parent (some (pushed cid l)) } in
          let push = waiting-pushed l cid v.valid (ground (arith, t)) in
          let here : established cid parent s ≡ r = step ∙ rw t refl in
          inl (
            ground (arith, t, long),
            subst (λ q. Holds q parent (cids ++ cid ∷ [])) (sym here)
                (record {
                  listener = pushed cid l;
                  here =
                      get_or-set_self s.listeners parent (some (pushed cid l)) none
                        (listener_at_lt s.listeners parent l v.here);
                  valid = push.1;
                  queued = push.0 ∙ ap (λ k. k ++ cid ∷ []) v.queued;
                }),
            ap (λ q. q.conns) here,
          )
      | inr t ↦ inr (ground (arith, t, long, v.valid.len_le), step ∙ rw t refl)
    ]
