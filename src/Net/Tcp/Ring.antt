-- ===== src/Net/Tcp/Ring.antt =====
-- Net/Tcp: the bytes that the receive ring holds.
use onyx_kernel.Prelude.{
  ℕ, zero, suc, ◌+◌, ◌-◌, ◌%◌, ◌≤◌, ◌<◌, ◌≡◌, ◌≢◌, refl, sym, ap, ap₂, ◌∙◌, List, [], ◌∷◌, ◌++◌,
  append_assoc, append-nil, length, get_or, set, take, drop, length-set, get_or-set_self,
  get_or-set_ne, arith,
}
use onyx_kernel.Net.Tcp.{buf_size, write_ring}

-- The `n` bytes of the ring from `head` on, at the index `i`.
abbrev pub ring_bytes : ℕ → ℕ → ℕ → List ℕ → List ℕ
ring_bytes zero i head buf = []
ring_bytes (suc n) i head buf = get_or buf ((head + i) % buf_size) 0 ∷ ring_bytes n (i + 1) head buf

pub length-ring_bytes : (n i head : ℕ) (buf : List ℕ) → length (ring_bytes n i head buf) ≡ n
length-ring_bytes zero i head buf = refl
length-ring_bytes (suc n) i head buf = ap suc (length-ring_bytes n (i + 1) head buf)

-- A byte written behind the last one.
ring_bytes-set :
    (n i head at x : ℕ) (buf : List ℕ)
    → length buf ≡ buf_size
    → at ≡ (head + (i + n)) % buf_size
    → i + n < buf_size
    → ring_bytes (suc n) i head (set buf at x) ≡ ring_bytes n i head buf ++ x ∷ []
ring_bytes-set zero i head at x buf l e h =
    let here : (head + i) % buf_size ≡ at = omega (arith, e) in
    rw here (ap (λ b. b ∷ []) (get_or-set_self buf at x 0 (omega (arith, l, e))))
ring_bytes-set (suc n) i head at x buf l e h =
    let apart : at ≢ (head + i) % buf_size = λ f. omega (arith, e, f, h) in
    ap₂ (λ b bs. b ∷ bs) (get_or-set_ne buf x 0 apart)
      (ring_bytes-set n (i + 1) head at x buf l (omega (arith, e)) (omega (arith, h)))

pub length-write_ring :
    (buf : List ℕ) (start j : ℕ) (payload : List ℕ)
    → length (write_ring buf start j payload) ≡ length buf
unfolding write_ring
length-write_ring buf start j [] = refl
length-write_ring buf start j (b ∷ payload) =
    length-write_ring (set buf ((start + j) % buf_size) b) start (j + 1) payload
    ∙ length-set buf ((start + j) % buf_size) b

-- A payload written behind the `u + j` bytes that the ring holds.
pub ring_bytes-write_ring :
    (buf : List ℕ) (head u j : ℕ) (payload : List ℕ)
    → length buf ≡ buf_size
    → u + j + length payload ≤ buf_size
    → ring_bytes (u + j + length payload) 0 head (write_ring buf ((head + u) % buf_size) j payload)
      ≡ ring_bytes (u + j) 0 head buf ++ payload
unfolding write_ring
ring_bytes-write_ring buf head u j [] l h =
    ap (λ n. ring_bytes n 0 head buf) (omega arith)
    ∙ sym (append-nil (ring_bytes (u + j) 0 head buf))
ring_bytes-write_ring buf head u j (b ∷ payload) l h =
    let at = ((head + u) % buf_size + j) % buf_size in
    let longer : u + j + suc (length payload) ≡ u + (j + 1) + length payload = omega arith in
    let one : u + (j + 1) ≡ suc (u + j) = omega arith in
    rw longer (
      ring_bytes-write_ring (set buf at b) head u (j + 1) payload (length-set buf at b ∙ l)
        (omega (arith, h))
      ∙ rw one (
          ap (λ bs. bs ++ payload)
            (ring_bytes-set (u + j) 0 head at b buf l (omega arith) (omega (arith, h)))
          ∙ append_assoc (ring_bytes (u + j) 0 head buf) (b ∷ []) payload))

ring_bytes-shift :
    (n i j head front : ℕ) (buf : List ℕ)
    → (head + i) % buf_size ≡ (front + j) % buf_size
    → ring_bytes n i head buf ≡ ring_bytes n j front buf
ring_bytes-shift zero i j head front buf e = refl
ring_bytes-shift (suc n) i j head front buf e =
    ap₂ (λ b bs. b ∷ bs) (ap (λ k. get_or buf k 0) e)
      (ring_bytes-shift n (i + 1) (j + 1) head front buf (omega (arith, e)))

-- What is left of the ring behind its first `k` bytes.
pub ring_bytes-drop :
    (n k i head : ℕ) (buf : List ℕ)
    → k ≤ n
    → drop k (ring_bytes n i head buf) ≡ ring_bytes (n - k) (i + k) head buf
ring_bytes-drop n zero i head buf h =
    ap₂ (λ m j. ring_bytes m j head buf) (omega arith) (omega arith)
ring_bytes-drop zero (suc k) i head buf h = absurd (omega arith)
ring_bytes-drop (suc n) (suc k) i head buf h =
    ring_bytes-drop n k (i + 1) head buf (omega arith)
    ∙ ap₂ (λ m j. ring_bytes m j head buf) (omega arith) (omega arith)

pub ring_bytes-advance :
    (n k head : ℕ) (buf : List ℕ)
    → k ≤ n
    → ring_bytes (n - k) 0 ((head + k) % buf_size) buf ≡ drop k (ring_bytes n 0 head buf)
ring_bytes-advance n k head buf h =
    ring_bytes-shift (n - k) 0 (0 + k) ((head + k) % buf_size) head buf (omega arith)
    ∙ sym (ring_bytes-drop n k 0 head buf h)

pub ring_bytes-take :
    (n k i head : ℕ) (buf : List ℕ)
    → k ≤ n
    → take k (ring_bytes n i head buf) ≡ ring_bytes k i head buf
ring_bytes-take n zero i head buf h = refl
ring_bytes-take zero (suc k) i head buf h = absurd (omega arith)
ring_bytes-take (suc n) (suc k) i head buf h =
    ap (λ bs. get_or buf ((head + i) % buf_size) 0 ∷ bs)
      (ring_bytes-take n k (i + 1) head buf (omega arith))
