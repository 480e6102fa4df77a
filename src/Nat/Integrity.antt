-- ===== src/Nat/Integrity.antt =====
-- The IPv4 and transport checksums of a packet that nat.c rewrites, as sums of words.
use burst_kernel_virtual_mac.Base.{
  ℕ, ◌+◌, ◌-◌, ◌*◌, ◌/◌, ◌%◌, ◌^◌, ◌≤◌, ◌<◌, ◌≡◌, ◌≢◌, refl, ap, sym, some, ◌∙◌, ◌⊎◌, inl, inr,
  arith, ◌==◌, false, Bool-cases,
}
use burst_kernel_virtual_mac.Packet.{Buffer, word16, word32, put16}
use burst_kernel_virtual_mac.Checksum.{
  csum_replace2, csum_replace4, csum_replace2-lt, csum_replace2_mod, csum_replace4-lt,
  csum_replace4_mod,
}
use burst_kernel_virtual_mac.Checksum.Words.{
  word_sum, IsBytes, put16-IsBytes, put32-IsBytes, word_sum-put16, word_sum-put16-Outside,
  word_sum-put32, word_sum-put32_outside,
}
use burst_kernel_virtual_mac.Nat.{translate, l4_checksum_at}
use burst_kernel_virtual_mac.Nat.Rewrite.{l4_fixed, ip_fixed, rewritten, translate_lem}

-- The two words of an address, added up.
abbrev pub half_sum : ℕ → ℕ
half_sum ip = ip / 2 ^ 16 + ip % 2 ^ 16

module _ (old_ip new_ip old_port new_port : ℕ) (f : ℕ → ℕ) (bytes : IsBytes f)
    (new_fits : new_ip < 2 ^ 32) where
  -- One's complement sums over the IPv4 header of `n` words, which holds the address at `ip_at`.
  ip_fixed-word_sum :
      (ip_at n : ℕ)
      → 10 ≤ n
      → (ip_at ≡ 26) ⊎ (ip_at ≡ 30)
      → old_ip ≡ word32 f ip_at
      → word_sum (ip_fixed old_ip new_ip old_port new_port ip_at f) 14 n % 0xFFFF
        ≡ word_sum f 14 n % 0xFFFF
  ip_fixed-word_sum ip_at n hn place old =
      let c = csum_replace4 (word16 f 24) old_ip new_ip in
      let k = (ip_at - 14) / 2 in
      let g = put16 f 24 c in
      let kept₁ : word16 g ip_at ≡ word16 f ip_at = ground arith in
      let kept₂ : word16 g (ip_at + 2) ≡ word16 f (ip_at + 2) = ground arith in
      let sum_fits : word16 f 24 < 2 ^ 16 = omega (arith, bytes 24, bytes (24 + 1)) in
      let lo_fits : word16 f ip_at < 2 ^ 16 = omega (arith, bytes ip_at, bytes (ip_at + 1)) in
      let hi_fits : word16 f (ip_at + 2) < 2 ^ 16 =
        omega (arith, bytes (ip_at + 2), bytes (ip_at + 2 + 1)) in
      omega (
        arith,
        csum_replace4-lt (word16 f 24) old_ip new_ip,
        csum_replace4_mod (word16 f 24) old_ip new_ip sum_fits (omega arith) new_fits,
        word_sum-put16 f 14 n 5 24 c (omega arith) refl,
        word_sum-put32 g 14 n k ip_at new_ip (omega arith) (omega arith) new_fits,
      )

  l4_fixed-word_sum_outside :
      (at n : ℕ) (g : ℕ → ℕ)
      → 14 + 2 * n ≤ at
      → word_sum (l4_fixed old_ip new_ip old_port new_port at g) 14 n ≡ word_sum g 14 n
  l4_fixed-word_sum_outside at n g h = elim (Bool-cases (word16 g at == 0)) [
    | inl z ↦ rw z
    | inr t ↦ rw t (word_sum-put16-Outside g 14 n at _ (inr h) (inr (omega arith)))
  ]

  -- The rewriting of a translation, of an address below 2^32 at byte 26 or 30 of a packet of
  -- bytes, leaves the sum modulo 0xFFFF of the IPv4 header of at least 10 words as it was, its
  -- checksum among them, if the transport checksum and the port stand behind the header.
  rewritten-header_sum :
      (at ip_at port_at n : ℕ)
      → 10 ≤ n
      → (ip_at ≡ 26) ⊎ (ip_at ≡ 30)
      → old_ip ≡ word32 f ip_at
      → 14 + 2 * n ≤ at
      → 14 + 2 * n ≤ port_at
      → word_sum (rewritten old_ip new_ip old_port new_port at ip_at port_at f) 14 n % 0xFFFF
        ≡ word_sum f 14 n % 0xFFFF
  rewritten-header_sum at ip_at port_at n hn place old above beside =
      let f₁ = ip_fixed old_ip new_ip old_port new_port ip_at f in
      let f₂ = l4_fixed old_ip new_ip old_port new_port at f₁ in
      ap (λ t. t % 0xFFFF)
        (word_sum-put16-Outside f₂ 14 n port_at new_port (inr beside) (inr (omega arith))
          ∙ l4_fixed-word_sum_outside at n f₁ above)
      ∙ ip_fixed-word_sum ip_at n hn place old

  -- The rewriting of a translation, of an address at byte 30 or below and of a port that stands
  -- before the checksum in the transport segment, leaves the sum modulo 0xFFFF of the segment
  -- and of the two words of the address as it was, if the segment begins at byte 34 or behind,
  -- its checksum is not 0, and the addresses and ports are in range.
  rewritten-segment_sum :
      (p k j n ip_at : ℕ)
      → 34 ≤ p
      → k < n
      → j < k
      → ip_at ≤ 30
      → word16 f (p + 2 * k) ≢ 0
      → old_ip < 2 ^ 32
      → old_port ≡ word16 f (p + 2 * j)
      → new_port < 2 ^ 16
      → (word_sum (rewritten old_ip new_ip old_port new_port (p + 2 * k) ip_at (p + 2 * j) f) p n
            + half_sum new_ip)
          % 0xFFFF
        ≡ (word_sum f p n + half_sum old_ip) % 0xFFFF
  rewritten-segment_sum p k j n ip_at hp hk hj ha checked old_fits old port_fits =
      let at = p + 2 * k in
      let port_at = p + 2 * j in
      let c = csum_replace4 (word16 f 24) old_ip new_ip in
      let f₁ = ip_fixed old_ip new_ip old_port new_port ip_at f in
      let sum : word_sum f₁ p n ≡ word_sum f p n =
        word_sum-put32_outside (put16 f 24 c) p n ip_at new_ip (inl (omega arith))
        ∙ word_sum-put16-Outside f p n 24 c (inl (omega arith)) (inl (omega arith)) in
      let same : word16 f₁ at ≡ word16 f at = ground arith in
      let c₄ = csum_replace4 (word16 f₁ at) old_ip new_ip in
      let c₂ = csum_replace2 c₄ old_port new_port in
      let open_case : (word16 f₁ at == 0) ≡ false = ground arith in
      let f₂ = put16 f₁ at c₂ in
      let port : word16 f₂ port_at ≡ word16 f port_at = ground arith in
      let sum_fits : word16 f₁ at < 2 ^ 16 = omega (arith, same, bytes at, bytes (at + 1)) in
      let port_in : old_port < 2 ^ 16 = omega (arith, old, bytes port_at, bytes (port_at + 1)) in
      rw open_case (
        omega (
          arith,
          sum,
          port,
          csum_replace4-lt (word16 f₁ at) old_ip new_ip,
          csum_replace4_mod (word16 f₁ at) old_ip new_ip sum_fits old_fits new_fits,
          csum_replace2-lt c₄ old_port new_port,
          csum_replace2_mod c₄ old_port new_port (csum_replace4-lt _ _ _) port_in port_fits,
          word_sum-put16 f₁ p n k at c₂ hk refl,
          word_sum-put16 f₂ p n j port_at new_port (omega arith) refl,
        ))

-- A rewritten packet is made of bytes again.
pub rewritten-IsBytes :
    (old_ip new_ip old_port new_port at ip_at port_at : ℕ) (f : ℕ → ℕ)
    → IsBytes f
    → IsBytes (rewritten old_ip new_ip old_port new_port at ip_at port_at f)
rewritten-IsBytes old_ip new_ip old_port new_port at ip_at port_at f bytes =
    let f₁ = put16 f 24 (csum_replace4 (word16 f 24) old_ip new_ip) in
    let f₂ = ip_fixed old_ip new_ip old_port new_port ip_at f in
    let f₃ = l4_fixed old_ip new_ip old_port new_port at f₂ in
    let fixed : IsBytes f₂ = put32-IsBytes f₁ ip_at new_ip (put16-IsBytes f 24 _ bytes) in
    put16-IsBytes f₃ port_at new_port (elim (Bool-cases (word16 f₂ at == 0)) [
      | inl z ↦ rw z fixed
      | inr n ↦ rw n (put16-IsBytes f₂ at _ fixed)
    ])

-- Translating a TCP or UDP packet of bytes with an IPv4 header of 20 to 60 bytes, the address
-- at byte 26 or 30 and the port in the first or second word behind the header, returns, and
-- leaves the sum modulo 0xFFFF of the first `n` words of the header as it was, for every `n`
-- from 10 to the length of the header: the header checksum verifies as it did.
pub translate-header_sum :
    (protocol ihl ip_at port_at old_port new_ip new_port n : ℕ) (b : Buffer)
    → IsBytes b.at
    → 92 ≤ b.size
    → ihl ≤ 60
    → (ip_at ≡ 26) ⊎ (ip_at ≡ 30)
    → (port_at ≡ 14 + ihl) ⊎ (port_at ≡ 14 + ihl + 2)
    → new_ip < 2 ^ 32
    → 10 ≤ n
    → 2 * n ≤ ihl
    → (b' : Buffer) × (translate protocol ihl ip_at port_at
          (word32 b.at ip_at)
          new_ip
          old_port
          new_port
          b
        ≡ some b')
      × (word_sum b'.at 14 n % 0xFFFF ≡ word_sum b.at 14 n % 0xFFFF)
translate-header_sum protocol ihl ip_at port_at old_port new_ip new_port n b bytes size le place
      port fits hn words =
    (
      _,
      translate_lem (word32 b.at ip_at) new_ip old_port new_port protocol ihl ip_at port_at b size
          le (omega arith) (omega arith),
      rewritten-header_sum (word32 b.at ip_at) new_ip old_port new_port b.at bytes fits
          (l4_checksum_at protocol ihl) ip_at port_at n hn place refl (ground arith) (omega arith),
    )

-- Translating a packet of bytes as above, whose transport checksum is not 0 and whose old port
-- is the one in the packet, returns, and leaves the sum modulo 0xFFFF of the segment and of the
-- two words of the address as it was, for a segment of `n` words that holds its checksum (the
-- ninth word with TCP, else the fourth): the transport checksum verifies as it did.
pub translate-segment_sum :
    (protocol ihl ip_at port_at new_ip new_port n : ℕ) (b : Buffer)
    → IsBytes b.at
    → 92 ≤ b.size
    → 20 ≤ ihl
    → ihl ≤ 60
    → (ip_at ≡ 26) ⊎ (ip_at ≡ 30)
    → (port_at ≡ 14 + ihl) ⊎ (port_at ≡ 14 + ihl + 2)
    → new_ip < 2 ^ 32
    → new_port < 2 ^ 16
    → l4_checksum_at protocol ihl < 14 + ihl + 2 * n
    → word16 b.at (l4_checksum_at protocol ihl) ≢ 0
    → (b' : Buffer) × (translate protocol ihl ip_at port_at
          (word32 b.at ip_at)
          new_ip
          (word16 b.at port_at)
          new_port
          b
        ≡ some b')
      × ((word_sum b'.at (14 + ihl) n + half_sum new_ip) % 0xFFFF
          ≡ (word_sum b.at (14 + ihl) n + half_sum (word32 b.at ip_at)) % 0xFFFF)
translate-segment_sum protocol ihl ip_at port_at new_ip new_port n b bytes size ge le place port
      fits port_fits inside checked =
    let k = (l4_checksum_at protocol ihl - (14 + ihl)) / 2 in
    let j = (port_at - (14 + ihl)) / 2 in
    let at : 14 + ihl + 2 * k ≡ l4_checksum_at protocol ihl = ground arith in
    let at_port : 14 + ihl + 2 * j ≡ port_at = omega arith in
    let old_fits : word32 b.at ip_at < 2 ^ 32 =
      omega (arith, bytes ip_at, bytes (ip_at + 1), bytes (ip_at + 2), bytes (ip_at + 2 + 1)) in
    let s =
      rewritten-segment_sum (word32 b.at ip_at) new_ip (word16 b.at port_at) new_port b.at bytes
        fits (14 + ihl) k j n ip_at (omega arith) (omega arith) (ground arith) (omega arith)
        (λ z. checked (ap (word16 b.at) (sym at) ∙ z)) old_fits (ap (word16 b.at) (sym at_port))
        port_fits in
    (
      _,
      translate_lem (word32 b.at ip_at) new_ip (word16 b.at port_at) new_port protocol ihl ip_at
          port_at b size le (omega arith) (omega arith),
      rw (at, at_port) at s,
    )
