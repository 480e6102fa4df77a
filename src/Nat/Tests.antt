-- ===== src/Nat/Tests.antt =====
-- Runs of the translation.
use burst_kernel_virtual_mac.Base.{
  ℕ, ◌+◌, ◌%◌, ◌≡◌, refl, true, false, Option, none, some, List, [], ◌∷◌, arith, inl, find_index,
}
use burst_kernel_virtual_mac.Samples.{
  of_list, outward as outward_bytes, inward as inward_bytes, outward-IsBytes, inward-IsBytes,
}
use burst_kernel_virtual_mac.Packet.{
  load8, load16, load32, store8, store16, store32, Buffer, word16, word32,
}
use burst_kernel_virtual_mac.Checksum.{csum_replace2, csum_replace4}
use burst_kernel_virtual_mac.Checksum.Words.{word_sum}
use burst_kernel_virtual_mac.Nat.{
  Outcome, nat_init, nat_outbound, nat_inbound, outbound_session, send_session, find_session,
  create_session, touch, translate, fix_l4_checksum, is_session, allocate_port, wan_ip,
}
use burst_kernel_virtual_mac.Nat.Table.{nat_init-IsWf}
use burst_kernel_virtual_mac.Nat.Integrity.{half_sum, translate-header_sum, translate-segment_sum}
use burst_kernel_virtual_mac.Nat.Outbound.{
  Returns, OutboundResult, src_ip_of, src_port_of, protocol_of, nat_outbound_lem,
}
use burst_kernel_virtual_mac.Nat.Inbound.{InboundResult, dst_ip_of, dst_port_of, nat_inbound_lem}
use burst_kernel_virtual_mac.Nat.Spec.{Event, outward, inward, answers, translate_all}
use burst_kernel_virtual_mac.Nat.Refine.{nat_init-Shows}
use burst_kernel_virtual_mac.Nat.Traces.{translate_all-answers}
use burst_kernel_virtual_mac.Nat.Steps.{done, more, outbound, Evolves, Steps-Evolves}
use burst_kernel_virtual_mac.Nat.RoundTrip.{IsReply, reply_returns}

abbrev untranslated : Outcome
untranslated = record { translated = false; nat = nat_init; packet = of_list outward_bytes }

abbrev outcome_or : Option Outcome → Outcome
outcome_or none = untranslated
outcome_or (some o) = o

abbrev first : Outcome
first = outcome_or (nat_outbound nat_init (of_list outward_bytes) 54)

first_returns : nat_outbound nat_init (of_list outward_bytes) 54 ≡ some first
unfolding nat_outbound outbound_session send_session find_session create_session touch translate
    fix_l4_checksum load8 load16 load32 store8 store16 store32 is_session find_index nat_init
first_returns = refl

abbrev second : Outcome
second = outcome_or (nat_outbound first.nat (of_list outward_bytes) 54)

second_returns : nat_outbound first.nat (of_list outward_bytes) 54 ≡ some second
unfolding nat_outbound outbound_session send_session find_session create_session touch translate
    fix_l4_checksum load8 load16 load32 store8 store16 store32 is_session find_index nat_init
second_returns = refl

first_translated : first.translated ≡ true
unfolding nat_outbound outbound_session send_session find_session create_session touch translate
    fix_l4_checksum load8 load16 load32 store8 store16 store32 is_session find_index nat_init
first_translated = refl

answered : IsReply first (protocol_of (of_list outward_bytes)) (of_list inward_bytes) 54
unfolding nat_outbound outbound_session send_session find_session create_session touch translate
    fix_l4_checksum load8 load16 load32 store8 store16 store32 is_session find_index nat_init
    csum_replace4 csum_replace2 allocate_port
answered = record {
  candidate = (omega arith, inl refl);
  proto = refl;
  ip = refl;
  port = refl;
  header = omega arith;
  room = omega arith;
}

reply_returns_example :
    (o : Outcome) × (nat_inbound second.nat (of_list inward_bytes) 54 ≡ some o)
    × (o.translated ≡ true)
    × (dst_ip_of o.packet ≡ src_ip_of (of_list outward_bytes))
    × (dst_port_of o.packet ≡ src_port_of (of_list outward_bytes))
reply_returns_example =
    reply_returns nat_init-IsWf (of_list outward_bytes) 54 (omega arith) outward-IsBytes
      (omega arith) first first_returns first_translated second.nat
      (more done (outbound (of_list outward_bytes) 54 second (omega arith) second_returns))
      (of_list inward_bytes) 54 answered

nat_outbound_lem_example :
    Returns
      (nat_outbound nat_init (of_list outward_bytes) 54)
      (OutboundResult 0 nat_init (of_list outward_bytes) 54)
nat_outbound_lem_example = nat_outbound_lem nat_init-IsWf (of_list outward_bytes) 54 (omega arith)

nat_inbound_lem_example :
    Returns
      (nat_inbound nat_init (of_list inward_bytes) 54)
      (InboundResult 0 nat_init (of_list inward_bytes) 54)
nat_inbound_lem_example = nat_inbound_lem nat_init-IsWf (of_list inward_bytes) 54 (omega arith)

Steps-Evolves_example : Evolves 0 nat_init first.nat
Steps-Evolves_example =
    Steps-Evolves nat_init-IsWf
      (more done (outbound (of_list outward_bytes) 54 first (omega arith) first_returns))

abbrev outward_at : ℕ → ℕ
outward_at = (of_list outward_bytes).at

header_sum_example :
    (b' : Buffer) × (translate 6 20 26 34
        (word32 outward_at 26)
        wan_ip
        0x3412
        0x50C3
        (of_list outward_bytes)
      ≡ some b')
    × (word_sum b'.at 14 10 % 0xFFFF ≡ word_sum outward_at 14 10 % 0xFFFF)
header_sum_example =
    translate-header_sum 6 20 26 34 0x3412 wan_ip 0x50C3 10 (of_list outward_bytes) outward-IsBytes
      (omega arith) (omega arith) (inl refl) (inl refl) (omega arith) (omega arith) (omega arith)

segment_sum_example :
    (b' : Buffer) × (translate 6 20 26 34
        (word32 outward_at 26)
        wan_ip
        (word16 outward_at 34)
        0x50C3
        (of_list outward_bytes)
      ≡ some b')
    × ((word_sum b'.at 34 10 + half_sum wan_ip) % 0xFFFF
        ≡ (word_sum outward_at 34 10 + half_sum (word32 outward_at 26)) % 0xFFFF)
segment_sum_example =
    translate-segment_sum 6 20 26 34 wan_ip 0x50C3 10 (of_list outward_bytes) outward-IsBytes
      (omega arith) (omega arith) (omega arith) (inl refl) (inl refl) (omega arith) (omega arith)
      (omega arith) (ground arith)

-- A packet from inside, twice, and one from outside.
abbrev three_frames : List Event
three_frames =
    outward (of_list outward_bytes) 54
    ∷ outward (of_list outward_bytes) 54
    ∷ inward (of_list inward_bytes) 54
    ∷ []

translate_all-answers_example : translate_all three_frames nat_init ≡ some (answers three_frames [])
translate_all-answers_example = translate_all-answers three_frames [] nat_init nat_init-Shows (
  outward-IsBytes,
  omega arith,
  (outward-IsBytes, omega arith, (inward-IsBytes, omega arith, tt)),
)
