-- ===== src/Nat/Owner.antt =====
-- The search for an outer port in nat.c against the number that the port stands for.
use burst_kernel_virtual_mac.Base.{
  ℕ, ◌+◌, ◌-◌, ◌^◌, ◌<◌, ◌≡◌, ◌∙◌, refl, sym, true, Option, none, some, List, arith, leb, ◌==◌,
  get_elem?, find_index, find_index-FirstMatch, find_index-none, inl, inr, Bool-cases, Option-cases,
}
use mathlib.Core.Bool.{false≢true}
use burst_kernel_virtual_mac.Nat.{NatEntry, Nat, swap_bytes, is_mapping}
use burst_kernel_virtual_mac.Nat.Table.{IsWf-live-lt}
use burst_kernel_virtual_mac.Nat.Inbound.{IsMapped, is_mapping-IsMapped, IsMapped-is_mapping}
use burst_kernel_virtual_mac.Nat.Spec.{Flow, owner}
use burst_kernel_virtual_mac.Nat.Refine.{IsOf, Shows, shown}

-- What the two searches for a port answer.
pub data Owned (port protocol : ℕ) (s : Nat) : Option Flow → Option ℕ → Type 0 where
  owned :
      (n : ℕ) (f : Flow) (e : NatEntry)
      → get_elem? s.table n ≡ some e
      → e.in_use ≡ true
      → IsOf f e
      → Owned port protocol s (some f) (some n)
  nobody : Owned port protocol s none none

-- The port of entry `n` tells its number.
port-number : (n port : ℕ) → n < 2048 → swap_bytes (50000 + n) ≡ port → swap_bytes port ≡ 50000 + n
port-number n port lt h = omega arith

number-port :
    (n port : ℕ) → port < 2 ^ 16 → swap_bytes port ≡ 50000 + n → swap_bytes (50000 + n) ≡ port
number-port n port lt h = omega arith

-- A port that an entry maps.
mapped-Owned :
    (port protocol n : ℕ) (fs : List Flow) (s : Nat) (e : NatEntry)
    → Shows fs s
    → get_elem? s.table n ≡ some e
    → IsMapped port protocol e
    → Owned port protocol s (owner port protocol fs) (some n)
unfolding owner
mapped-Owned port protocol n fs s e v at_n mapped =
    let lt = IsWf-live-lt v.wf n e at_n mapped.live in
    let (f, found, for) = shown fs s n e v at_n mapped.live in
    let number =
      port-number n port (omega (arith, v.wf.few))
        (sym (v.wf.used n e at_n lt).1 ∙ mapped.external) in
    let below : leb 50000 (swap_bytes port) ≡ true = ground (arith, number) in
    let index : swap_bytes port - 50000 ≡ n = omega (arith, number) in
    let same : (f.protocol == protocol) ≡ true = ground (arith, for.proto, mapped.proto) in
    rw (below, index, found, same) (owned n f e at_n mapped.live for)

-- A port that no entry maps.
unmapped-none :
    (port protocol : ℕ) (fs : List Flow) (s : Nat)
    → Shows fs s
    → port < 2 ^ 16
    → find_index (is_mapping port protocol) s.table ≡ none
    → owner port protocol fs ≡ none
unfolding owner
unmapped-none port protocol fs s v lt missed = elim (Bool-cases (leb 50000 (swap_bytes port))) [
  | inr above ↦ rw above refl
  | inl below ↦ elim (Option-cases (get_elem? fs (swap_bytes port - 50000))) [
    | inl absent ↦ rw (below, absent) refl
    | inr (f, found) ↦ elim (Bool-cases (f.protocol == protocol)) [
      | inr other ↦ rw (below, found, other) refl
      | inl same ↦
          let (e, at_n, for) = v.held (swap_bytes port - 50000) f found in
          let n_lt = IsWf-live-lt v.wf (swap_bytes port - 50000) e at_n for.live in
          let port_of = (v.wf.used (swap_bytes port - 50000) e at_n n_lt).1 in
          let mapped : IsMapped port protocol e = record {
            live = for.live;
            external =
                port_of ∙ number-port (swap_bytes port - 50000) port lt (ground (arith, below));
            proto = for.proto ∙ ground arith;
          } in
          absurd (
            false≢true (
              sym (find_index-none (is_mapping port protocol) s.table missed _ e at_n)
              ∙ IsMapped-is_mapping port protocol e mapped))
    ]
  ]
]

pub owner-Owned :
    (port protocol : ℕ) (fs : List Flow) (s : Nat)
    → Shows fs s
    → port < 2 ^ 16
    → Owned port protocol s (owner port protocol fs) (find_index (is_mapping port protocol) s.table)
owner-Owned port protocol fs s v lt =
    elim (Option-cases (find_index (is_mapping port protocol) s.table)) [
      | inl missed ↦ rw (missed, unmapped-none port protocol fs s v lt missed) nobody
      | inr (n, found) ↦
          let m = find_index-FirstMatch (is_mapping port protocol) s.table n found in
          rw found (
            mapped-Owned port protocol n fs s m.elem v m.at_index
              (is_mapping-IsMapped port protocol m.elem m.matches))
    ]
