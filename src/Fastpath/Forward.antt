-- ===== src/Fastpath/Forward.antt =====
-- The rewriting of a forwarded packet (`rewrite_header` in Fastpath.antt), from the TTL to the
-- MAC addresses.
use burst_kernel_virtual_mac.Base.{
  ℕ, zero, suc, ◌+◌, ◌-◌, ◌/◌, ◌%◌, ◌^◌, ◌≤◌, ◌<◌, ◌≡◌, ◌⊎◌, inr, refl, some, List, arith, length,
  get_or, get_elem?-eq-get_or, dec_lt,
}
use burst_kernel_virtual_mac.Packet.{
  Buffer, update, put16, word16, load8_lem, store8_lem, store16_lem,
}
use burst_kernel_virtual_mac.Checksum.{ip_checksum}
use burst_kernel_virtual_mac.Checksum.Words.{
  IsBytes, put16-IsBytes, word_sum, word_sum-put16, word_sum_ext,
}
use burst_kernel_virtual_mac.Checksum.Full.{Folds, ip_checksum_lem, ip_checksum-zero_iff}
use burst_kernel_virtual_mac.Nat.{header_length}
use burst_kernel_virtual_mac.Fastpath.{copy_macs, rewrite_header}

-- `out` is `pkt` with bytes `lo` up to 6 of both addresses written.
pub record IsCopied (next_hop mac : List ℕ) (lo : ℕ) (pkt out : Buffer) : Type 0 where
  pub size : out.size ≡ pkt.size
  pub dest : (i : ℕ) → lo ≤ i → i < 6 → out.at i ≡ get_or next_hop i 0 % 2 ^ 8
  pub source : (i : ℕ) → lo ≤ i → i < 6 → out.at (i + 6) ≡ get_or mac i 0 % 2 ^ 8
  pub kept : (j : ℕ) → (j < lo) ⊎ ((6 ≤ j) × (j < lo + 6) ⊎ (12 ≤ j)) → out.at j ≡ pkt.at j

copy_macs_lem :
    (left i : ℕ) (next_hop mac : List ℕ) (pkt : Buffer)
    → i + left ≡ 6
    → length next_hop ≡ 6
    → length mac ≡ 6
    → 12 ≤ pkt.size
    → (out : Buffer) × (copy_macs left i next_hop mac pkt ≡ some out)
      × IsCopied next_hop mac i pkt out
unfolding copy_macs
copy_macs_lem zero i next_hop mac pkt e hn hm hs = (
  pkt,
  refl,
  record {
    size = refl;
    dest = λ j lo hi. absurd (omega arith);
    source = λ j lo hi. absurd (omega arith);
    kept = λ j h. refl;
  },
)
copy_macs_lem (suc left) i next_hop mac pkt e hn hm hs =
    let d = get_or next_hop i 0 in
    let s = get_or mac i 0 in
    let pkt₁ : Buffer = record pkt { at = update pkt.at i (d % 2 ^ 8) } in
    let pkt₂ : Buffer = record pkt { at = update pkt₁.at (i + 6) (s % 2 ^ 8) } in
    let (out, run, c) = copy_macs_lem left (i + 1) next_hop mac pkt₂ (omega arith) hn hm hs in
    (
      out,
      rw
          (
            get_elem?-eq-get_or next_hop i 0 (omega arith),
            store8_lem pkt i d (omega arith),
            get_elem?-eq-get_or mac i 0 (omega arith),
            store8_lem pkt₁ (i + 6) s (omega arith),
          )
          run,
      record {
        size = c.size;
        dest = λ j lo hi. ground (arith, c.dest j, c.kept j);
        source = λ j lo hi. ground (arith, c.source j, c.kept (j + 6));
        kept = λ j h. ground (arith, c.kept j);
      },
    )

-- A packet on its way: one hop less to live, a valid header checksum, the two link addresses, and
-- else the bytes that it came with.
pub record IsForwarded (ttl : ℕ) (next_hop mac : List ℕ) (pkt out : Buffer) : Type 0 where
  pub size : out.size ≡ pkt.size
  pub bytes : IsBytes out.at
  pub dest : (i : ℕ) → i < 6 → out.at i ≡ get_or next_hop i 0 % 2 ^ 8
  pub source : (i : ℕ) → i < 6 → out.at (i + 6) ≡ get_or mac i 0 % 2 ^ 8
  pub hop : out.at 22 ≡ (ttl - 1) % 2 ^ 8
  pub kept : (j : ℕ) → ((12 ≤ j) × (j < 22)) ⊎ ((j ≡ 23) ⊎ (26 ≤ j)) → out.at j ≡ pkt.at j
  pub checksum :
      20 ≤ header_length (pkt.at 14) → ip_checksum out 14 (header_length (pkt.at 14)) ≡ some 0

IsCopied-IsBytes :
    {next_hop mac : List ℕ} {pkt out : Buffer}
    → IsCopied next_hop mac 0 pkt out
    → IsBytes pkt.at
    → IsBytes out.at
IsCopied-IsBytes {next_hop} {mac} {pkt} {out} c bytes i = elim (dec_lt i 6) [
  | yes low ↦ omega (arith, c.dest i (omega arith) low)
  | no high ↦ elim (dec_lt i 12) [
    | yes mid ↦
        let e : i - 6 + 6 ≡ i = omega arith in
        let h : out.at (i - 6 + 6) < 2 ^ 8 =
          omega (arith, c.source (i - 6) (omega arith) (omega arith)) in
        rw e at h
    | no top ↦ omega (arith, c.kept i (inr (inr (omega arith))), bytes i)
  ]
]

-- The words of a header with the complement of their folded sum in an empty checksum field.
checked_sum :
    (sum r total : ℕ)
    → Folds sum r
    → total ≡ sum + (0xFFFF - r)
    → (total % 0xFFFF ≡ 0) × (0 < total)
checked_sum sum r total folds e = elim (dec_lt 0 sum) [
  | yes some_words ↦ omega arith
  | no nothing ↦ (omega arith, omega (arith, folds.2.1))
]

module _ (ttl : ℕ) (next_hop mac : List ℕ) (pkt : Buffer) (bytes : IsBytes pkt.at)
    (room : 92 ≤ pkt.size) (six : length next_hop ≡ 6) (six' : length mac ≡ 6) where
  abbrev emptied : Buffer
  emptied = record pkt {
    at = update (update (update pkt.at 22 ((ttl - 1) % 2 ^ 8)) 24 (0 % 2 ^ 8)) 25 (0 % 2 ^ 8);
  }

  emptied-IsBytes : IsBytes emptied.at
  emptied-IsBytes i = ground (arith, bytes i)

  abbrev ihl : ℕ
  ihl = header_length (pkt.at 14)

  -- The words of the finished header add up to a multiple of 0xFFFF.
  checksum_passes :
      (r : ℕ)
      → Folds (word_sum emptied.at 14 (ihl / 2)) r
      → (out : Buffer)
      → IsCopied next_hop mac 0 (record pkt { at = put16 emptied.at 24 (0xFFFF - r) }) out
      → 20 ≤ ihl
      → ip_checksum out 14 ihl ≡ some 0
  checksum_passes r folds out c long =
      let checked = put16 emptied.at 24 (0xFFFF - r) in
      let out_bytes =
        IsCopied-IsBytes c (put16-IsBytes emptied.at 24 (0xFFFF - r) emptied-IsBytes) in
      let same : word_sum out.at 14 (ihl / 2) ≡ word_sum checked 14 (ihl / 2) =
        word_sum_ext out.at checked 14 (ihl / 2) (λ i lo hi. c.kept i (inr (inr (omega arith)))) in
      let empty : word16 emptied.at 24 ≡ 0 = refl in
      let written : word_sum checked 14 (ihl / 2) + word16 emptied.at 24
          ≡ word_sum emptied.at 14 (ihl / 2) + (0xFFFF - r) % 2 ^ 16 =
        word_sum-put16 emptied.at 14 (ihl / 2) 5 24 (0xFFFF - r) (omega arith) refl in
      let sums =
        checked_sum (word_sum emptied.at 14 (ihl / 2)) r (word_sum out.at 14 (ihl / 2)) folds
          (omega (arith, same, empty, written)) in
      (ip_checksum-zero_iff out 14 ihl out_bytes (omega (arith, c.size)) (omega arith)).1 sums

  -- The rewriting returns, and the result is on its way.
  pub rewrite_header_lem :
      (out : Buffer) × (rewrite_header ttl next_hop mac pkt ≡ some out)
      × IsForwarded ttl next_hop mac pkt out
  unfolding rewrite_header
  rewrite_header_lem =
      let pkt₁ : Buffer = record pkt { at = update pkt.at 22 ((ttl - 1) % 2 ^ 8) } in
      let pkt₂ : Buffer = record pkt { at = update pkt₁.at 24 (0 % 2 ^ 8) } in
      let (r, csum, folds) =
        ip_checksum_lem emptied 14 ihl emptied-IsBytes (omega arith) (omega arith) in
      let pkt₄ : Buffer = record pkt { at = put16 emptied.at 24 (0xFFFF - r) } in
      let (out, run, c) =
        copy_macs_lem 6 0 next_hop mac pkt₄ (omega arith) six six' (omega arith) in
      (
        out,
        rw
            (
              store8_lem pkt 22 (ttl - 1) (omega arith),
              store8_lem pkt₁ 24 0 (omega arith),
              store8_lem pkt₂ 25 0 (omega arith),
              load8_lem emptied 14 (omega arith),
              csum,
              store16_lem emptied 24 (0xFFFF - r) (omega arith),
            )
            run,
        record {
          size = c.size;
          bytes = IsCopied-IsBytes c (put16-IsBytes emptied.at 24 (0xFFFF - r) emptied-IsBytes);
          dest = λ i h. c.dest i (omega arith) h;
          source = λ i h. c.source i (omega arith) h;
          hop = ground (arith, c.kept 22);
          kept = λ j h. ground (arith, c.kept j);
          checksum = checksum_passes r folds out c;
        },
      )
