-- ===== src/Nat/Session.antt =====
-- Sessions of nat.c: the search for one, the creation of one, and the invariant of the table.
use burst_kernel_virtual_mac.Base.{
  ℕ, ◌+◌, ◌%◌, ◌^◌, ◌≤◌, ◌<◌, ◌≡◌, refl, sym, ap, ◌∙◌, subst, true, not, some, none, Option, arith,
  get_elem?, set, find_index, find_index-FirstMatch, find_index-none, find_index_of_FirstMatch,
  get_elem?_lt, get_elem?_of_lt, dec_lt, inl, inr, Option-cases,
}
use mathlib.Core.Bool.{false≢true}
use mathlib.Core.Option.{some-injective}
use burst_kernel_virtual_mac.Nat.{
  NatEntry, Nat, max_nat_entries, swap_bytes, allocate_port, is_session, is_free, create_session,
  find_session, touch,
}
use burst_kernel_virtual_mac.Nat.Table.{
  IsWf, SameSession, Extends, enlarged-IsWf, enlarged-at, Extends-enlarged, refreshed,
  refreshed-IsWf, refreshed-at, Extends-refreshed, Extends-refl,
}

-- An entry in use for the internal address, port and protocol.
pub record IsFor (src_ip src_port protocol : ℕ) (e : NatEntry) : Type 0 where
  pub live : e.in_use ≡ true
  pub ip : e.internal_ip ≡ src_ip
  pub port : e.internal_port ≡ src_port
  pub proto : e.protocol ≡ protocol

is_session-IsFor :
    (ip port protocol : ℕ) (e : NatEntry)
    → is_session ip port protocol e ≡ true
    → IsFor ip port protocol e
unfolding is_session
is_session-IsFor ip port protocol e h = ground arith

IsFor-is_session :
    (ip port protocol : ℕ) (e : NatEntry)
    → IsFor ip port protocol e
    → is_session ip port protocol e ≡ true
unfolding is_session
IsFor-is_session ip port protocol e h = ground arith

-- Below 2048 sessions the port counter is far from its wrap.
allocate_port_lem :
    (k : ℕ) → k < max_nat_entries → allocate_port (50000 + k) ≡ (50000 + k, 50000 + k + 1)
unfolding allocate_port
allocate_port_lem k h = ground arith

-- The first free entry of a well-formed table is the one behind those in use.
free_index :
    {k : ℕ} {s : Nat} → IsWf k s → k < max_nat_entries → find_index is_free s.table ≡ some k
free_index {k} {s} w room =
    let (e, at) = get_elem?_of_lt s.table k (omega (arith, w.size)) in
    find_index_of_FirstMatch is_free s.table k (record {
      elem = e;
      at_index = at;
      matches = ap not (w.free k e at (omega arith));
      earlier = λ j y lt h. ap not (w.used j y h lt).0;
    })

no_free_index : {s : Nat} → IsWf max_nat_entries s → find_index is_free s.table ≡ none
no_free_index {s} w = elim (Option-cases (find_index is_free s.table)) [
  | inl e ↦ e
  | inr r ↦
      let m = find_index-FirstMatch is_free s.table r.0 r.1 in
      let lt = get_elem?_lt s.table r.0 m.at_index in
      let u = w.used r.0 m.elem m.at_index (omega (arith, w.size)) in
      absurd (false≢true (ap not (sym u.0) ∙ m.matches))
]

-- The entry that `create_session` writes over the free entry `e`.
abbrev pub new_entry : ℕ → ℕ → ℕ → ℕ → NatEntry → NatEntry
new_entry src_ip src_port protocol k e = record e {
  internal_ip = src_ip;
  internal_port = src_port;
  external_port = swap_bytes (50000 + k);
  protocol = protocol;
  in_use = true;
}

-- No entry in use is for the internal address, port and protocol.
abbrev pub IsUnknown : ℕ → ℕ → ℕ → Nat → Type 0
IsUnknown src_ip src_port protocol s =
    (i : ℕ) (e : NatEntry) → get_elem? s.table i ≡ some e → ¬ IsFor src_ip src_port protocol e

-- The three ways in which the search for a session can end.
pub data SessionResult (src_ip src_port protocol k : ℕ) (s : Nat) : Option (ℕ × Nat) → Type 0 where
  existing :
      (i : ℕ) (e : NatEntry)
      → get_elem? s.table i ≡ some e
      → IsFor src_ip src_port protocol e
      → SessionResult src_ip src_port protocol k s (some (i, s))
  fresh :
      (e : NatEntry)
      → k < max_nat_entries
      → IsUnknown src_ip src_port protocol s
      → SessionResult src_ip src_port protocol k s (
          some (
            k,
            record s {
              table = set s.table k (new_entry src_ip src_port protocol k e);
              next_port = 50000 + k + 1;
            },
          ))
  full :
      k ≡ max_nat_entries
      → IsUnknown src_ip src_port protocol s
      → SessionResult src_ip src_port protocol k s none

create_session_lem :
    {k : ℕ} {s : Nat} (src_ip src_port protocol : ℕ)
    → IsWf k s
    → IsUnknown src_ip src_port protocol s
    → SessionResult src_ip src_port protocol k s (create_session src_ip src_port protocol s)
unfolding create_session
create_session_lem {k} {s} src_ip src_port protocol w unknown = elim (dec_lt k max_nat_entries) [
  | yes room ↦
      let (e, at) = get_elem?_of_lt s.table k (omega (arith, w.size)) in
      rw (free_index w room, at, w.next, allocate_port_lem k room) (fresh e room unknown)
  | no gone ↦
      let e : k ≡ max_nat_entries = omega (arith, w.few) in
      rw (no_free_index (subst (λ n. IsWf n s) e w)) (full e unknown)
]

-- On a well-formed table the search for a session ends in one of three ways: with the session
-- of that address, port and protocol; with a new one in the first free entry, under the next
-- port, in a well-formed table with one session more; or with none, where no session is for
-- them and the table is full.
pub find_session_lem :
    {k : ℕ} {s : Nat} (src_ip src_port protocol : ℕ)
    → IsWf k s
    → SessionResult src_ip src_port protocol k s (find_session src_ip src_port protocol s)
unfolding find_session
find_session_lem {k} {s} src_ip src_port protocol w =
    elim (Option-cases (find_index (is_session src_ip src_port protocol) s.table)) [
      | inl e ↦
          rw (e, find_session)
            (create_session_lem src_ip src_port protocol w λ i f h for. false≢true (
              sym (find_index-none _ s.table e i f h)
              ∙ IsFor-is_session src_ip src_port protocol f for))
      | inr r ↦
          let m = find_index-FirstMatch _ s.table r.0 r.1 in
          rw (r.1, find_session)
            (existing r.0 m.elem m.at_index
              (is_session-IsFor src_ip src_port protocol m.elem m.matches))
    ]

new_key :
    (s : Nat) {src_ip src_port protocol : ℕ}
    → IsUnknown src_ip src_port protocol s
    → (i : ℕ) (f : NatEntry) → get_elem? s.table i ≡ some f
    → f.in_use ≡ true
    → ¬ ((f.internal_ip ≡ src_ip) × (f.internal_port ≡ src_port) × (f.protocol ≡ protocol))
new_key s unknown i f h live (ip, port, proto) =
    unknown i f h (record { live = live; ip = ip; port = port; proto = proto })

-- What a session that was found or made is: entry `i` of the table `t`.
pub record Ready (src_ip src_port protocol k : ℕ) (s : Nat) (i : ℕ) (t : Nat) : Type 0 where
  pub count : ℕ
  pub grows : k ≤ count
  pub wf : IsWf count t
  pub kept : Extends s t
  pub clock : t.ticks ≡ s.ticks
  pub entry : NatEntry
  pub at : get_elem? t.table i ≡ some entry
  pub for : IsFor src_ip src_port protocol entry

SessionResult-Ready :
    {k : ℕ} {s : Nat} (src_ip src_port protocol i : ℕ) (t : Nat) (o : Option (ℕ × Nat))
    → IsWf k s
    → SessionResult src_ip src_port protocol k s o
    → o ≡ some (i, t)
    → Ready src_ip src_port protocol k s i t
SessionResult-Ready {k} {s} src_ip src_port protocol i t o w (existing j e at for) q =
    subst (λ p. Ready src_ip src_port protocol k s p.0 p.1) (some-injective _ _ q)
      (record {
        count = k;
        grows = omega arith;
        wf = w;
        kept = Extends-refl s;
        clock = refl;
        entry = e;
        at = at;
        for = for;
      })
SessionResult-Ready {k} {s} src_ip src_port protocol i t o w (fresh e room unknown) q =
    let e' = new_entry src_ip src_port protocol k e in
    subst (λ p. Ready src_ip src_port protocol k s p.0 p.1) (some-injective _ _ q)
      (record {
        count = k + 1;
        grows = omega arith;
        wf = enlarged-IsWf w room e' refl refl (new_key s unknown);
        kept = Extends-enlarged w room e' refl refl (new_key s unknown);
        clock = refl;
        entry = e';
        at = enlarged-at w room e' refl refl (new_key s unknown);
        for = record { live = refl; ip = refl; port = refl; proto = refl };
      })
SessionResult-Ready src_ip src_port protocol i t o w (full e unknown) q = cc

pub find_session-Ready :
    {k : ℕ} {s : Nat} (src_ip src_port protocol i : ℕ) (t : Nat)
    → IsWf k s
    → find_session src_ip src_port protocol s ≡ some (i, t)
    → Ready src_ip src_port protocol k s i t
find_session-Ready src_ip src_port protocol i t w h =
    SessionResult-Ready src_ip src_port protocol i t _ w
      (find_session_lem src_ip src_port protocol w) h

SessionResult-full :
    {k : ℕ} {s : Nat} {src_ip src_port protocol : ℕ} (o : Option (ℕ × Nat))
    → SessionResult src_ip src_port protocol k s o
    → o ≡ none
    → (k ≡ max_nat_entries) × IsUnknown src_ip src_port protocol s
SessionResult-full o (existing j e at for) q = cc
SessionResult-full o (fresh e room unknown) q = cc
SessionResult-full o (full e unknown) q = (e, unknown)

-- No session is found or made only where there is none and the table is full.
pub find_session-full :
    {k : ℕ} {s : Nat} (src_ip src_port protocol : ℕ)
    → IsWf k s
    → find_session src_ip src_port protocol s ≡ none
    → (k ≡ max_nat_entries) × IsUnknown src_ip src_port protocol s
find_session-full src_ip src_port protocol w =
    SessionResult-full _ (find_session_lem src_ip src_port protocol w)

-- Marking an entry in use as active now: nothing else of the table changes.
pub record Touched (k : ℕ) (s : Nat) (i : ℕ) (e : NatEntry) : Type 0 where
  pub entry : NatEntry
  pub nat : Nat
  pub returns : touch i s ≡ some (entry, nat)
  pub same : SameSession e entry
  pub wf : IsWf k nat
  pub kept : Extends s nat
  pub at : get_elem? nat.table i ≡ some entry
  pub now : entry.last_active ≡ s.ticks
  pub ticks : nat.ticks ≡ (s.ticks + 1) % 2 ^ 32

pub touch-Touched :
    {k : ℕ} {s : Nat} (i : ℕ) (e : NatEntry)
    → IsWf k s
    → get_elem? s.table i ≡ some e
    → e.in_use ≡ true
    → Touched k s i e
unfolding touch
touch-Touched {k} {s} i e w at live =
    let e' : NatEntry = record e { last_active = s.ticks } in
    let same : SameSession e e' = record {
      ip = refl;
      port = refl;
      external = refl;
      proto = refl;
      live = refl;
    } in
    let now = (s.ticks + 1) % 2 ^ 32 in
    record {
      entry = e';
      nat = refreshed w i e e' now at live same;
      returns = rw at;
      same = same;
      wf = refreshed-IsWf w i e e' now at live same;
      kept = Extends-refreshed w i e e' now at live same;
      at = refreshed-at w i e e' now at live same;
      now = refl;
      ticks = refl;
    }
