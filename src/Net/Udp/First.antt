-- ===== src/Net/Udp/First.antt =====
-- Net/Udp: which socket a datagram is for, and what it gets.
use onyx_kernel.Prelude.{
  ℕ, ◌%◌, ◌≡◌, ◌≢◌, refl, sym, ap, ap₂, ◌∙◌, Bool, true, false, not, ◌&&◌, ◌||◌, none, some, List,
  [], ◌∷◌, ◌++◌, ◌==◌, arith, Bool-cases, inl, inr, ◌⊎◌,
}
use onyx_kernel.Net.Udp.{any_iface, Peer, UdpSocket, Socks, push, same_bytes, matches, deliver}
use onyx_kernel.Net.Udp.Queue.{waiting, IsQueue}
use onyx_kernel.Net.Udp.Refine.{put_mail, push_lem}

-- A socket that is bound to the port, on the interface or on any, and connected to nobody or to the sender.
abbrev pub IsFor : ℕ → List ℕ → ℕ → ℕ → UdpSocket → Type 0
IsFor active src sport dport s =
    (s.bound ≡ true)
    × (s.local_port ≡ dport)
    × ((s.iface ≡ active) ⊎ (s.iface ≡ any_iface))
    × ((s.connected ≡ false) ⊎ ((s.remote_ip ≡ src) × (s.remote_port ≡ sport)))

-- None of these sockets is one that the datagram is for.
abbrev pub IsUnwanted : ℕ → List ℕ → ℕ → ℕ → Socks → Type 0
IsUnwanted active src sport dport [] = Unit
IsUnwanted active src sport dport (none ∷ socks) = IsUnwanted active src sport dport socks
IsUnwanted active src sport dport (some s ∷ socks) =
    (¬ IsFor active src sport dport s) × IsUnwanted active src sport dport socks

abbrev pub AreQueues : Socks → Type 0
AreQueues [] = Unit
AreQueues (none ∷ socks) = AreQueues socks
AreQueues (some s ∷ socks) = IsQueue s.datagrams × AreQueues socks

-- Nobody wants the datagram, or the first socket that it is for has it behind its other messages, with the
-- address, the port and the interface that it came from, if there is room for it.
abbrev pub Delivered : ℕ → List ℕ → ℕ → ℕ → List ℕ → Socks → Socks → Type 0
Delivered active src sport dport payload socks after =
    (IsUnwanted active src sport dport socks × (after ≡ socks))
    ⊎ ((pre : Socks) × (s r : UdpSocket) × (post : Socks) × (socks ≡ pre ++ some s ∷ post)
        × (after ≡ pre ++ some r ∷ post)
        × IsUnwanted active src sport dport pre
        × IsFor active src sport dport s
        × (r ≡ record s { datagrams = r.datagrams })
        × IsQueue r.datagrams
        × (waiting r.datagrams
            ≡ (put_mail payload (record { ip = src; port = sport; iface = active % 256 })
                (waiting s.datagrams)).1))

same_bytes_sound : (a b : List ℕ) → same_bytes a b ≡ true → a ≡ b
same_bytes_sound [] [] e = refl
same_bytes_sound [] (y ∷ b) e = absurd (ground (arith, e))
same_bytes_sound (x ∷ a) [] e = absurd (ground (arith, e))
same_bytes_sound (x ∷ a) (y ∷ b) e =
    let (f, g) = both (x == y) (same_bytes a b) e in
    ap₂ (λ k ks. k ∷ ks) (equal x y f) (same_bytes_sound a b g)
  where
    both : (p q : Bool) → (p && q) ≡ true → (p ≡ true) × (q ≡ true)
    both p q h = ground (arith, h)

    equal : (m n : ℕ) → (m == n) ≡ true → m ≡ n
    equal m n h = ground (arith, h)

same_bytes_refl : (a : List ℕ) → same_bytes a a ≡ true
same_bytes_refl [] = refl
same_bytes_refl (x ∷ a) =
    let here : (x == x) ≡ true = ground arith in rw (here, same_bytes_refl a) refl

-- Whether a socket matches, where `same` tells whether it has the address of the sender.
guards_cases :
    {A : Type 0} (x y : A) (bound connected same : Bool) (port dport iface active rport sport : ℕ)
    → ((same ≡ true) × (x ≡ y)) ⊎ ((same ≡ false) × (x ≢ y))
    → let flag =
        bound
        && (port == dport)
        && ((iface == active) || (iface == any_iface))
        && (not connected || (same && (rport == sport))) in
      let wanted =
        (bound ≡ true)
        × (port ≡ dport)
        × ((iface ≡ active) ⊎ (iface ≡ any_iface))
        × ((connected ≡ false) ⊎ ((x ≡ y) × (rport ≡ sport))) in
      ((flag ≡ true) × wanted) ⊎ ((flag ≡ false) × (¬ wanted))
guards_cases x y bound connected same port dport iface active rport sport cases =
    ground (arith, cases)

matches_cases :
    (active : ℕ) (src : List ℕ) (sport dport : ℕ) (s : UdpSocket)
    → ((matches active src sport dport s ≡ true) × IsFor active src sport dport s)
      ⊎ ((matches active src sport dport s ≡ false) × (¬ IsFor active src sport dport s))
matches_cases active src sport dport s =
    guards_cases s.remote_ip src s.bound s.connected (same_bytes s.remote_ip src) s.local_port dport
      s.iface active s.remote_port sport
      (elim (Bool-cases (same_bytes s.remote_ip src)) [
        | inl e ↦ inl (e, same_bytes_sound s.remote_ip src e)
        | inr e ↦ inr (
          e,
          λ f.
              let clash = sym (same_bytes_refl src) ∙ ap (λ k. same_bytes k src) (sym f) ∙ e in
              absurd (ground (arith, clash)),
        )
      ])

-- The loop over the sockets delivers.
pub deliver-Delivered :
    (active : ℕ) (src : List ℕ) (sport dport : ℕ) (payload : List ℕ) (socks : Socks)
    → AreQueues socks
    → Delivered active src sport dport payload socks (deliver active src sport dport payload socks)
unfolding deliver
deliver-Delivered active src sport dport payload [] v = inl (tt, refl)
deliver-Delivered active src sport dport payload (none ∷ socks) v =
    elim (deliver-Delivered active src sport dport payload socks v) [
      | inl (n, e) ↦ inl (n, ap (λ k. none ∷ k) e)
      | inr (pre, t, r, post, e, f, n, w, d, q, m) ↦
          inr (none ∷ pre, t, r, post, ap (λ k. none ∷ k) e, ap (λ k. none ∷ k) f, n, w, d, q, m)
    ]
deliver-Delivered active src sport dport payload (some s ∷ socks) v =
    let peer : Peer = record { ip = src; port = sport; iface = active % 256 } in
    elim (matches_cases active src sport dport s) [
      | inl (m, w) ↦
          let (same, valid) = push_lem payload peer s.datagrams v.0 in
          inr (
            [],
            s,
            record s { datagrams = (push payload peer s.datagrams).1 },
            socks,
            refl,
            rw m refl,
            tt,
            w,
            refl,
            valid,
            ap (λ k. k.1) same,
          )
      | inr (m, w) ↦ elim (deliver-Delivered active src sport dport payload socks v.1) [
        | inl (n, e) ↦ inl ((w, n), rw m (ap (λ k. some s ∷ k) e))
        | inr (pre, t, r, post, e, f, n, w2, d, q, m2) ↦ inr (
          some s ∷ pre,
          t,
          r,
          post,
          ap (λ k. some s ∷ k) e,
          rw m (ap (λ k. some s ∷ k) f),
          (w, n),
          w2,
          d,
          q,
          m2,
        )
      ]
    ]
