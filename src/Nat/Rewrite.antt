-- ===== src/Nat/Rewrite.antt =====
-- The bytes that the rewriting of a packet (`translate` in Nat.antt) leaves in memory. It
-- reaches 92 bytes: 14 of Ethernet, 60 of the longest IPv4 header, and the end of the TCP
-- checksum.
use burst_kernel_virtual_mac.Base.{
  ℕ, ◌+◌, ◌∙◌, ◌^◌, ◌⊎◌, ◌≤◌, ◌<◌, ◌≡◌, inl, inr, some, arith, ◌==◌, if◌then◌else◌, Bool-cases,
}
use burst_kernel_virtual_mac.Packet.{
  Buffer, word16, word32, put16, put32, load16_lem, store16_lem, store32_lem, put16_frame,
  put32_frame, word16-put16, word32-put32,
}
use burst_kernel_virtual_mac.Checksum.{csum_replace2, csum_replace4}
use burst_kernel_virtual_mac.Nat.{fix_l4_checksum, translate, l4_checksum_at}

module _ (old_ip new_ip old_port new_port : ℕ) where
  abbrev pub l4_fixed : ℕ → (ℕ → ℕ) → ℕ → ℕ
  l4_fixed at f =
      if word16 f at == 0
      then f
      else put16 f at (csum_replace2 (csum_replace4 (word16 f at) old_ip new_ip) old_port new_port)

  abbrev pub ip_fixed : ℕ → (ℕ → ℕ) → ℕ → ℕ
  ip_fixed ip_at f = put32 (put16 f 24 (csum_replace4 (word16 f 24) old_ip new_ip)) ip_at new_ip

  abbrev pub rewritten : ℕ → ℕ → ℕ → (ℕ → ℕ) → ℕ → ℕ
  rewritten at ip_at port_at f = put16 (l4_fixed at (ip_fixed ip_at f)) port_at new_port

  fix_l4_checksum_lem :
      (at : ℕ) (b : Buffer)
      → at + 1 < b.size
      → fix_l4_checksum at old_ip new_ip old_port new_port b
        ≡ some (record b { at = l4_fixed at b.at })
  unfolding fix_l4_checksum
  fix_l4_checksum_lem at b h = elim (Bool-cases (word16 b.at at == 0)) [
    | inl z ↦ rw (load16_lem b at h, z)
    | inr n ↦ rw (load16_lem b at h, n) (store16_lem b at _ h)
  ]

  -- The rewriting does not fault, and this is the packet that it leaves.
  pub translate_lem :
      (protocol ihl ip_at port_at : ℕ) (b : Buffer)
      → 92 ≤ b.size
      → ihl ≤ 60
      → ip_at ≤ 30
      → port_at ≤ 76
      → translate protocol ihl ip_at port_at old_ip new_ip old_port new_port b
        ≡ some (record b { at = rewritten (l4_checksum_at protocol ihl) ip_at port_at b.at })
  unfolding translate
  translate_lem protocol ihl ip_at port_at b h hi ha hp =
      let at = l4_checksum_at protocol ihl in
      let at_in : at + 1 < b.size = ground arith in
      let b₁ : Buffer = record b {
        at = put16 b.at 24 (csum_replace4 (word16 b.at 24) old_ip new_ip);
      } in
      let b₂ : Buffer = record b { at = ip_fixed ip_at b.at } in
      let b₃ : Buffer = record b { at = l4_fixed at (ip_fixed ip_at b.at) } in
      rw
        (
          load16_lem b 24 (omega arith),
          store16_lem b 24 (csum_replace4 (word16 b.at 24) old_ip new_ip) (omega arith),
          store32_lem b₁ ip_at new_ip (omega arith),
          fix_l4_checksum_lem at b₂ at_in,
        )
        (store16_lem b₃ port_at new_port (omega arith))

  l4_fixed_frame : (at : ℕ) (f : ℕ → ℕ) (i : ℕ) → (i < at) ⊎ (at + 2 ≤ i) → l4_fixed at f i ≡ f i
  l4_fixed_frame at f i h = elim (Bool-cases (word16 f at == 0)) [
    | inl z ↦ rw z
    | inr n ↦ rw n (put16_frame f at _ i h)
  ]

  -- What the rewriting writes, and what it leaves alone: the address and the port are new, and no
  -- byte changes but theirs and those of the two checksums.
  pub rewritten_frame :
      (at ip_at port_at : ℕ) (f : ℕ → ℕ) (i : ℕ)
      → (i < 24) ⊎ (26 ≤ i)
      → (i < ip_at) ⊎ (ip_at + 4 ≤ i)
      → (i < at) ⊎ (at + 2 ≤ i)
      → (i < port_at) ⊎ (port_at + 2 ≤ i)
      → rewritten at ip_at port_at f i ≡ f i
  rewritten_frame at ip_at port_at f i csum ip l4 port =
      put16_frame (l4_fixed at (ip_fixed ip_at f)) port_at new_port i port
      ∙ l4_fixed_frame at (ip_fixed ip_at f) i l4
      ∙ put32_frame (put16 f 24 (csum_replace4 (word16 f 24) old_ip new_ip)) ip_at new_ip i ip
      ∙ put16_frame f 24 (csum_replace4 (word16 f 24) old_ip new_ip) i csum

  rewritten-ip_fixed :
      (at ip_at port_at : ℕ) (f : ℕ → ℕ) (i : ℕ)
      → i < 34
      → 34 ≤ at
      → 34 ≤ port_at
      → rewritten at ip_at port_at f i ≡ ip_fixed ip_at f i
  rewritten-ip_fixed at ip_at port_at f i h ha hp =
      put16_frame (l4_fixed at (ip_fixed ip_at f)) port_at new_port i (inl (omega arith))
      ∙ l4_fixed_frame at (ip_fixed ip_at f) i (inl (omega arith))

  pub rewritten-ip :
      (at ip_at port_at : ℕ) (f : ℕ → ℕ)
      → ip_at ≤ 30
      → 34 ≤ at
      → 34 ≤ port_at
      → new_ip < 2 ^ 32
      → word32 (rewritten at ip_at port_at f) ip_at ≡ new_ip
  rewritten-ip at ip_at port_at f hi ha hp fits = omega (
    arith,
    rewritten-ip_fixed at ip_at port_at f ip_at (omega arith) ha hp,
    rewritten-ip_fixed at ip_at port_at f (ip_at + 1) (omega arith) ha hp,
    rewritten-ip_fixed at ip_at port_at f (ip_at + 2) (omega arith) ha hp,
    rewritten-ip_fixed at ip_at port_at f (ip_at + 2 + 1) (omega arith) ha hp,
    word32-put32 (put16 f 24 (csum_replace4 (word16 f 24) old_ip new_ip)) ip_at new_ip,
  )

  pub rewritten-port :
      (at ip_at port_at : ℕ) (f : ℕ → ℕ)
      → new_port < 2 ^ 16
      → word16 (rewritten at ip_at port_at f) port_at ≡ new_port
  rewritten-port at ip_at port_at f fits =
      omega (arith, word16-put16 (l4_fixed at (ip_fixed ip_at f)) port_at new_port)
