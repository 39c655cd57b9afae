-- ===== src/Net/Udp/Deliver.antt =====
-- Net/Udp: a datagram that is sent, received.
use onyx_kernel.Prelude.{
  IsByte, ℕ, zero, suc, ◌+◌, ◌-◌, ◌*◌, ◌%◌, ◌^◌, ◌≤◌, ◌<◌, ◌≡◌, ◌≢◌, refl, sym, subst, ap, ap₂, ◌∙◌,
  false, List, [], ◌∷◌, ◌++◌, length, length-append, get_or, take, drop, drop-append_self,
  drop-drop, drop-append_le, take-append_le, length-drop, All, ltb, ◌==◌, arith, Bool-cases, inl,
  inr, take_of_length-le,
}
use onyx_kernel.Net.Checksum.{pseudo_checksum}
use onyx_kernel.Net.Checksum.Verify.{
  with_field, IsSegment, pseudo_checksum-pseudo_checksum, pseudo_checksum_ones, pseudo_checksum_lt,
}
use onyx_kernel.Net.Udp.First.{AreQueues, Delivered, deliver-Delivered}
use onyx_kernel.Net.Udp.{
  udp_hlen, udp_head, udp_segment, udp_sum, be_16, slice, Socks, deliver, handle_udp,
}

get_or-behind :
    (pre rest : List ℕ) (i : ℕ) → get_or (pre ++ rest) (length pre + i) 0 ≡ get_or rest i 0
get_or-behind [] rest i = ap (λ k. get_or rest k 0) (omega arith)
get_or-behind (x ∷ pre) rest i =
    let next : suc (length pre) + i ≡ suc (length pre + i) = omega arith in
    ap (λ k. get_or (x ∷ (pre ++ rest)) k 0) next ∙ get_or-behind pre rest i

get_or-append_lt : (xs ys : List ℕ) (i : ℕ) → i < length xs → get_or (xs ++ ys) i 0 ≡ get_or xs i 0
get_or-append_lt [] ys i h = absurd (omega arith)
get_or-append_lt (x ∷ xs) ys zero h = refl
get_or-append_lt (x ∷ xs) ys (suc i) h = get_or-append_lt xs ys i (omega arith)

drop-behind : (pre rest : List ℕ) (i : ℕ) → drop (length pre + i) (pre ++ rest) ≡ drop i rest
drop-behind pre rest i =
    sym (drop-drop i (length pre) (pre ++ rest)) ∙ ap (drop i) (drop-append_self pre rest)

be_16-behind : (pre rest : List ℕ) (i : ℕ) → be_16 (pre ++ rest) (length pre + i) ≡ be_16 rest i
be_16-behind pre rest i =
    let next : length pre + i + 1 ≡ length pre + (i + 1) = omega arith in
    ap₂ (λ a b. 256 * a + b) (get_or-behind pre rest i)
      (ap (λ k. get_or (pre ++ rest) k 0) next ∙ get_or-behind pre rest (i + 1))

udp_sum-pseudo_checksum :
    (src dst : List ℕ) (local remote : ℕ) (bytes : List ℕ)
    → All IsByte src
    → All IsByte dst
    → All IsByte bytes
    → local < 2 ^ 16
    → remote < 2 ^ 16
    → length bytes ≤ 1472
    → (pseudo_checksum src dst 17
          (udp_segment local remote (udp_sum src dst local remote bytes) bytes)
        ≡ 0)
      × (udp_sum src dst local remote bytes < 2 ^ 16)
      × (udp_sum src dst local remote bytes ≢ 0)
unfolding udp_sum
udp_sum-pseudo_checksum src dst local remote bytes vs vd vb hl hr short =
    let before = udp_head local remote (udp_hlen + length bytes) in
    let seg : IsSegment before bytes = record {
      even = refl;
      before_bytes = omega (arith, hl, hr);
      after_bytes = vb;
      short = omega (arith, short);
    } in
    let sum = pseudo_checksum src dst 17 (with_field before 0 bytes) in
    elim (Bool-cases (sum == 0)) [
      | inl e ↦ rw e (
        pseudo_checksum_ones src dst 17 before bytes vs vd (omega arith) seg (ground (arith, e)),
        omega arith,
        λ f. omega (arith, f),
      )
      | inr e ↦ rw e (
        pseudo_checksum-pseudo_checksum src dst 17 before bytes vs vd (omega arith) seg,
        pseudo_checksum_lt src dst 17 (udp_segment local remote 0 bytes),
        λ f. absurd (ground (arith, e, f)),
      )
    ]

-- A frame that passes every test.
handle_udp_valid :
    (active : ℕ) (frame : List ℕ) (ip len : ℕ) (socks : Socks)
    → get_or frame ip 0 % 16 ≡ 5
    → be_16 frame (ip + 20 + 4) ≡ len
    → udp_hlen ≤ len
    → ip + 20 + len ≤ length frame
    → pseudo_checksum
        (slice (ip + 12) 4 frame)
        (slice (ip + 16) 4 frame)
        17
        (slice (ip + 20) len frame)
      ≡ 0
    → handle_udp active frame ip socks
      ≡ deliver active
          (slice (ip + 12) 4 frame)
          (be_16 frame (ip + 20))
          (be_16 frame (ip + 20 + 2))
          (slice (ip + 20 + udp_hlen) (len - udp_hlen) frame)
          socks
unfolding handle_udp
handle_udp_valid active frame ip len socks nibble field long fits valid =
    let has_ip : ltb (length frame) (ip + 20) ≡ false = ground (arith, fits) in
    let has_head : ltb (length frame) (ip + 20 + udp_hlen) ≡ false = ground (arith, fits, long) in
    let whole : ltb (length frame) (ip + 20 + len) ≡ false = ground (arith, fits) in
    let enough : ltb len udp_hlen ≡ false = ground (arith, long) in
    elim (Bool-cases (be_16 frame (ip + 20 + 6) == 0)) [
      | inl e ↦ rw (nibble, has_ip, has_head, field, enough, whole, e) refl
      | inr e ↦ rw (nibble, has_ip, has_head, field, enough, whole, e, valid) refl
    ]

-- The frame reaches the loop over the sockets.
handled :
    (active : ℕ) (link header src dst : List ℕ) (local remote : ℕ) (bytes : List ℕ) (socks : Socks)
    → length header ≡ 20
    → get_or header 0 0 % 16 ≡ 5
    → slice 12 4 header ≡ src
    → slice 16 4 header ≡ dst
    → All IsByte src
    → All IsByte dst
    → All IsByte bytes
    → local < 2 ^ 16
    → remote < 2 ^ 16
    → length bytes ≤ 1472
    → handle_udp active
        (link ++ (header ++ udp_segment local remote (udp_sum src dst local remote bytes) bytes))
        (length link)
        socks
      ≡ deliver active src local remote bytes socks
handled active link header src dst local remote bytes socks lh nibble es ed vs vd vb hl hr short =
    let sum = udp_sum src dst local remote bytes in
    let seg = udp_segment local remote sum bytes in
    let (valid, small, filled) =
      udp_sum-pseudo_checksum src dst local remote bytes vs vd vb hl hr short in
    let packet = header ++ seg in
    let frame = link ++ packet in
    let len = udp_hlen + length bytes in
    let ip = length link in
    let in_ip : (k : ℕ) → drop (ip + k) frame ≡ drop k packet = λ k. drop-behind link packet k in
    let in_udp : (k : ℕ) → drop (ip + 20 + k) frame ≡ drop k seg = λ k.
      let where_ : ip + 20 + k ≡ ip + (length header + k) = omega (arith, lh) in
      ap (λ n. drop n frame) where_ ∙ in_ip (length header + k) ∙ drop-behind header seg k in
    let word : (k : ℕ) → be_16 frame (ip + 20 + k) ≡ be_16 seg k = λ k.
      let where_ : ip + 20 + k ≡ ip + (length header + k) = omega (arith, lh) in
      ap (be_16 frame) where_
      ∙ be_16-behind link packet (length header + k)
      ∙ be_16-behind header seg k in
    let in_header : (k : ℕ) → k + 4 ≤ 20 → slice (ip + k) 4 frame ≡ slice k 4 header = λ k h.
      ap (take 4) (in_ip k ∙ drop-append_le k header seg (omega (arith, h, lh)))
      ∙ take-append_le 4 (drop k header) seg (omega (arith, h, lh, length-drop k header)) in
    let start : ip + 20 ≡ ip + 20 + 0 = omega arith in
    let first_word : be_16 frame (ip + 20) ≡ local =
      ap (be_16 frame) start ∙ word 0 ∙ omega arith in
    let second_word : be_16 frame (ip + 20 + 2) ≡ remote = word 2 ∙ omega arith in
    let third_word : be_16 frame (ip + 20 + 4) ≡ len = word 4 ∙ omega (arith, short) in
    let front : get_or frame ip 0 % 16 ≡ 5 =
      let here : ip ≡ ip + 0 = omega arith in
      ap (λ k. get_or frame k 0 % 16) here
      ∙ ap (λ b. b % 16)
          (get_or-behind link packet 0 ∙ get_or-append_lt header seg 0 (omega (arith, lh)))
      ∙ nibble in
    let size : length seg ≡ len = omega arith in
    let total : length frame ≡ ip + 20 + len =
      omega (arith, length-append link packet, length-append header seg, lh, size) in
    let body : slice (ip + 20) len frame ≡ seg =
      ap (λ k. take len (drop k frame)) start
      ∙ ap (take len) (in_udp 0)
      ∙ take_of_length-le len seg (omega (arith, size)) in
    let payload : slice (ip + 20 + udp_hlen) (len - udp_hlen) frame ≡ bytes =
      ap (take (len - udp_hlen)) (in_udp udp_hlen)
      ∙ take_of_length-le (len - udp_hlen) bytes (omega arith) in
    let from = in_header 12 (omega arith) ∙ es in
    let to = in_header 16 (omega arith) ∙ ed in
    handle_udp_valid active frame ip len socks front third_word (omega arith) (omega (arith, total))
      (ap₂ (λ a b. pseudo_checksum a b 17 (slice (ip + 20) len frame)) from to
        ∙ ap (pseudo_checksum src dst 17) body
        ∙ valid)
    ∙ ap₂
        (λ a b.
          deliver active a b (be_16 frame (ip + 20 + 2))
            (slice (ip + 20 + udp_hlen) (len - udp_hlen) frame) socks)
        from first_word
    ∙ ap₂ (λ a b. deliver active src local a b socks) second_word payload

-- A frame with an IPv4 header of 20 bytes between the header of its link and a UDP segment that was
-- sent with the addresses of that header, where a payload has at most 1472 bytes and the queues of the sockets
-- are well formed: the first socket that the datagram is for has the payload behind its other messages, with
-- the address and the port of the sender, if it has room for it, and nothing else is changed.
pub handle_udp-udp_segment :
    (active : ℕ) (link header src dst : List ℕ) (local remote : ℕ) (bytes : List ℕ) (socks : Socks)
    → length header ≡ 20
    → get_or header 0 0 % 16 ≡ 5
    → slice 12 4 header ≡ src
    → slice 16 4 header ≡ dst
    → All IsByte src
    → All IsByte dst
    → All IsByte bytes
    → local < 2 ^ 16
    → remote < 2 ^ 16
    → length bytes ≤ 1472
    → AreQueues socks
    → Delivered active src local remote bytes socks (
        handle_udp active
          (link ++ (header ++ udp_segment local remote (udp_sum src dst local remote bytes) bytes))
          (length link)
          socks)
handle_udp-udp_segment active link header src dst local remote bytes socks lh nibble es ed vs vd vb
      hl hr short queues =
    subst (Delivered active src local remote bytes socks)
      (sym (
        handled active link header src dst local remote bytes socks lh nibble es ed vs vd vb hl hr
          short))
      (deliver-Delivered active src local remote bytes socks queues)
