-- ===== src/Nat.antt =====
-- nat.c: the translation table and its operations. The table is a list of 2048 entries, and a packet
-- is a buffer of bytes that the operations rewrite in place; an access outside it is a fault.
-- The integers `in_use` of the entries, which are 0 or 1, are Booleans here.
pub mod Rewrite
pub mod Integrity
pub mod Table
pub mod Session
pub mod Outbound
pub mod Inbound
pub mod Steps
pub mod Spec
pub mod Refine
pub mod Owner
pub mod Answers
pub mod Traces
pub mod RoundTrip
mod Tests
use burst_kernel_virtual_mac.Base.{
  ℕ, ◌+◌, ◌*◌, ◌/◌, ◌%◌, ◌^◌, Bool, true, false, not, ◌&&◌, Option, none, some, List, ltb, ◌==◌,
  if◌then◌else◌, ◌>>=◌, replicate, get_elem?, set, find_index,
}
use burst_kernel_virtual_mac.Packet.{Buffer, load8, load16, load32, store16, store32}
use burst_kernel_virtual_mac.Checksum.{csum_replace2, csum_replace4}

-- `struct nat_entry`. Addresses and ports are as the packet has them, read little-endian.
pub record NatEntry : Type 0 where
  pub internal_ip : ℕ
  pub internal_port : ℕ
  pub external_port : ℕ
  pub protocol : ℕ
  pub last_active : ℕ
  pub in_use : Bool

-- `nat_table`, `next_port` and `nat_ticks`.
pub record Nat : Type 0 where
  pub table : List NatEntry
  pub next_port : ℕ
  pub ticks : ℕ

abbrev pub max_nat_entries : ℕ
max_nat_entries = 2048

abbrev pub proto_tcp : ℕ
proto_tcp = 6

abbrev pub proto_udp : ℕ
proto_udp = 17

-- 10.0.2.15, the address of the WAN side, as the packet's bytes read.
abbrev pub wan_ip : ℕ
wan_ip = 0x0F02000A

abbrev pub cleared : NatEntry
cleared = record {
  internal_ip = 0;
  internal_port = 0;
  external_port = 0;
  protocol = 0;
  last_active = 0;
  in_use = false;
}

-- `memset` of the table, and the two counters.
unfoldable pub nat_init : Nat
nat_init = record { table = replicate max_nat_entries cleared; next_port = 50000; ticks = 0 }

-- The allocated port, and `next_port` after it.
unfoldable pub allocate_port : ℕ → ℕ × ℕ
allocate_port next_port =
    let next = (next_port + 1) % 2 ^ 16 in (next_port, if ltb 65000 next then 50000 else next)

-- `(p << 8) | (p >> 8)` cut to 16 bits; the two shifted parts share no bit.
abbrev pub swap_bytes : ℕ → ℕ
swap_bytes p = (p * 2 ^ 8 + p / 2 ^ 8) % 2 ^ 16

-- The tests of the searches of `nat_outbound` and `nat_inbound`.
unfoldable pub is_session : ℕ → ℕ → ℕ → NatEntry → Bool
is_session src_ip src_port protocol e =
    e.in_use && e.internal_ip == src_ip && e.internal_port == src_port && e.protocol == protocol

unfoldable pub is_mapping : ℕ → ℕ → NatEntry → Bool
is_mapping port protocol e = e.in_use && e.external_port == port && e.protocol == protocol

abbrev pub is_free : NatEntry → Bool
is_free e = not e.in_use

-- "Create new session": the entry's index and the state with it, if there is a free entry.
unfoldable pub create_session : ℕ → ℕ → ℕ → Nat → Option (ℕ × Nat)
create_session src_ip src_port protocol s = do
  i ← find_index is_free s.table
  e ← get_elem? s.table i
  let port = allocate_port s.next_port
  some (
    i,
    record s {
      table = set s.table i (record e {
        internal_ip = src_ip;
        internal_port = src_port;
        external_port = swap_bytes port.0;
        protocol = protocol;
        in_use = true;
      });
      next_port = port.1;
    },
  )

-- "Find existing session", and failing that a new one.
unfoldable pub find_session : ℕ → ℕ → ℕ → Nat → Option (ℕ × Nat)
find_session src_ip src_port protocol s =
    elim (find_index (is_session src_ip src_port protocol) s.table) [
      | some i ↦ some (i, s)
      | none ↦ create_session src_ip src_port protocol s
    ]

-- `nat_table[i].last_active = nat_ticks++`, with the entry.
unfoldable pub touch : ℕ → Nat → Option (NatEntry × Nat)
touch i s = do
  e ← get_elem? s.table i
  let e' : NatEntry = record e { last_active = s.ticks }
  some (e', record s { table = set s.table i e'; ticks = (s.ticks + 1) % 2 ^ 32 })

-- The header length in bytes, `(pkt[14] & 0x0F) * 4`.
abbrev pub header_length : ℕ → ℕ
header_length b = b % 2 ^ 4 * 4

-- Where the checksum of the transport header stands.
abbrev pub l4_checksum_at : ℕ → ℕ → ℕ
l4_checksum_at protocol ihl = if protocol == proto_tcp then 14 + ihl + 16 else 14 + ihl + 6

-- `if (l4_csum && *l4_csum != 0) { ... }`, the update of the transport checksum.
unfoldable pub fix_l4_checksum : ℕ → ℕ → ℕ → ℕ → ℕ → Buffer → Option Buffer
fix_l4_checksum at old_ip new_ip old_port new_port pkt = do
  sum ← load16 pkt at
  let sum' = csum_replace2 (csum_replace4 sum old_ip new_ip) old_port new_port
  if sum == 0 then some pkt else store16 pkt at sum'

-- "Perform Translation": the rewriting that both directions do, of the address at `ip_at` and of
-- the port at `port_at`.
unfoldable pub translate : ℕ → ℕ → ℕ → ℕ → ℕ → ℕ → ℕ → ℕ → Buffer → Option Buffer
translate protocol ihl ip_at port_at old_ip new_ip old_port new_port pkt = do
  sum ← load16 pkt 24
  pkt₁ ← store16 pkt 24 (csum_replace4 sum old_ip new_ip)
  pkt₂ ← store32 pkt₁ ip_at new_ip
  pkt₃ ← fix_l4_checksum (l4_checksum_at protocol ihl) old_ip new_ip old_port new_port pkt₂
  store16 pkt₃ port_at new_port

-- What a call leaves behind: its result, 1 or 0, as a Boolean, the table and the packet.
pub record Outcome : Type 0 where
  pub translated : Bool
  pub nat : Nat
  pub packet : Buffer

abbrev pub unchanged : Nat → Buffer → Option Outcome
unchanged s pkt = some (record { translated = false; nat = s; packet = pkt })

abbrev pub is_translated_protocol : ℕ → Bool
is_translated_protocol p = if p == proto_tcp then true else p == proto_udp

-- `nat_outbound` from the search for a session on.
unfoldable pub send_session : ℕ → ℕ → ℕ → ℕ → Nat → Buffer → Option Outcome
send_session protocol ihl src_ip src_port s pkt = elim (find_session src_ip src_port protocol s) [
  | none ↦ unchanged s pkt
  | some (i, s') ↦ do
    (e, s'') ← touch i s'
    pkt' ← translate protocol ihl 26 (14 + ihl) src_ip wan_ip src_port e.external_port pkt
    some (record { translated = true; nat = s''; packet = pkt' })
]

-- `nat_outbound` behind its guards.
unfoldable pub outbound_session : ℕ → Nat → Buffer → Option Outcome
outbound_session protocol s pkt = do
  src_ip ← load32 pkt 26
  version ← load8 pkt 14
  src_port ← load16 pkt (14 + header_length version)
  send_session protocol (header_length version) src_ip src_port s pkt

unfoldable pub nat_outbound : Nat → Buffer → ℕ → Option Outcome
nat_outbound s pkt len = if ltb len 34 then unchanged s pkt else do
  protocol ← load8 pkt 23
  if is_translated_protocol protocol then outbound_session protocol s pkt else unchanged s pkt

-- `nat_inbound` from the search for a session on.
unfoldable pub receive_session : ℕ → ℕ → ℕ → ℕ → Nat → Buffer → Option Outcome
receive_session protocol ihl dst_ip dst_port s pkt =
    elim (find_index (is_mapping dst_port protocol) s.table) [
      | none ↦ unchanged s pkt
      | some i ↦ do
        (e, s') ← touch i s
        pkt' ←
            translate protocol ihl 30 (14 + ihl + 2) dst_ip e.internal_ip dst_port e.internal_port
              pkt
        some (record { translated = true; nat = s'; packet = pkt' })
    ]

-- `nat_inbound` behind its guards.
unfoldable pub inbound_session : ℕ → ℕ → Nat → Buffer → Option Outcome
inbound_session protocol dst_ip s pkt = do
  version ← load8 pkt 14
  dst_port ← load16 pkt (14 + header_length version + 2)
  receive_session protocol (header_length version) dst_ip dst_port s pkt

unfoldable pub inbound_address : ℕ → Nat → Buffer → Option Outcome
inbound_address protocol s pkt = do
  dst_ip ← load32 pkt 30
  if dst_ip == wan_ip then inbound_session protocol dst_ip s pkt else unchanged s pkt

unfoldable pub nat_inbound : Nat → Buffer → ℕ → Option Outcome
nat_inbound s pkt len = if ltb len 34 then unchanged s pkt else do
  protocol ← load8 pkt 23
  if is_translated_protocol protocol then inbound_address protocol s pkt else unchanged s pkt

-- The internal address behind an external port, or 0.
unfoldable pub nat_get_internal_ip : Nat → ℕ → ℕ → ℕ
nat_get_internal_ip s external_port protocol =
    elim (find_index (is_mapping external_port protocol) s.table) [
      | none ↦ 0
      | some i ↦ elim (get_elem? s.table i) [ none ↦ 0 | some e ↦ e.internal_ip ]
    ]
