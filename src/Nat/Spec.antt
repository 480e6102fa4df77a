-- ===== src/Nat/Spec.antt =====
-- What the NAT of nat.c is for, without its table: the flows from inside that it knows, in the order in
-- which they came. The n-th flow has the n-th port from 50000 on.
use burst_kernel_virtual_mac.Base.{
  ℕ, ◌+◌, ◌-◌, Bool, true, false, ◌&&◌, not, Option, none, some, List, [], ◌∷◌, ◌++◌, ltb, leb,
  ◌==◌, length, get_elem?, find_index, if◌then◌else◌, ◌>>=◌,
}
use burst_kernel_virtual_mac.Packet.{Buffer}
use burst_kernel_virtual_mac.Nat.{
  Nat, Outcome, max_nat_entries, wan_ip, swap_bytes, is_translated_protocol, nat_outbound,
  nat_inbound,
}
use burst_kernel_virtual_mac.Nat.Outbound.{protocol_of, src_ip_of, src_port_of, with_source}
use burst_kernel_virtual_mac.Nat.Inbound.{dst_ip_of, dst_port_of, with_destination}

-- The inner end of a flow.
pub record Flow : Type 0 where
  pub ip : ℕ
  pub port : ℕ
  pub protocol : ℕ

abbrev pub is_flow : Flow → Flow → Bool
is_flow f g = g.ip == f.ip && g.port == f.port && g.protocol == f.protocol

abbrev pub flow_of : Buffer → Flow
flow_of pkt = record { ip = src_ip_of pkt; port = src_port_of pkt; protocol = protocol_of pkt }

-- The outer port of the n-th flow, in the order of the bytes in a packet.
abbrev pub outer_port : ℕ → ℕ
outer_port n = swap_bytes (50000 + n)

-- The number of a flow, which is new if it is not known. There is room for 2048.
unfoldable pub lease : Flow → List Flow → Option (ℕ × List Flow)
lease f fs = elim (find_index (is_flow f) fs) [
  | some n ↦ some (n, fs)
  | none ↦ if ltb (length fs) max_nat_entries then some (length fs, fs ++ f ∷ []) else none
]

-- The flow that has an outer port, which tells its number.
unfoldable pub owner : ℕ → ℕ → List Flow → Option Flow
owner port protocol fs =
    let number = swap_bytes port in
    if leb 50000 number
    then (do f ← get_elem? fs (number - 50000); if f.protocol == protocol then some f else none)
    else none

-- A packet from one side or the other, and the length that the card gave.
pub data Event : Type 0 where
  outward : Buffer → ℕ → Event
  inward : Buffer → ℕ → Event

abbrev pub packet_of : Event → Buffer
packet_of (outward pkt len) = pkt
packet_of (inward pkt len) = pkt

abbrev pub is_candidate : ℕ → Buffer → Bool
is_candidate len pkt = not (ltb len 34) && is_translated_protocol (protocol_of pkt)

-- Whether the packet was translated, the packet, and the flows after it.
unfoldable pub answer : Event → List Flow → (Bool × Buffer) × List Flow
answer (outward pkt len) fs =
    if is_candidate len pkt
    then (elim (lease (flow_of pkt) fs) [
      | none ↦ ((false, pkt), fs)
      | some (n, fs') ↦ ((true, with_source (outer_port n) pkt), fs')
    ])
    else ((false, pkt), fs)
answer (inward pkt len) fs =
    if is_candidate len pkt && dst_ip_of pkt == wan_ip
    then (elim (owner (dst_port_of pkt) (protocol_of pkt) fs) [
      | none ↦ ((false, pkt), fs)
      | some f ↦ ((true, with_destination f.ip f.port pkt), fs)
    ])
    else ((false, pkt), fs)

unfoldable pub answers : List Event → List Flow → List (Bool × Buffer)
answers [] fs = []
answers (e ∷ es) fs = (answer e fs).0 ∷ answers es (answer e fs).1

-- The same with the code of nat.c.
unfoldable pub translate_one : Event → Nat → Option Outcome
translate_one (outward pkt len) s = nat_outbound s pkt len
translate_one (inward pkt len) s = nat_inbound s pkt len

unfoldable pub translate_all : List Event → Nat → Option (List (Bool × Buffer))
translate_all [] s = some []
translate_all (e ∷ es) s = do
  o ← translate_one e s
  rest ← translate_all es o.nat
  some ((o.translated, o.packet) ∷ rest)
