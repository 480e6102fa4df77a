-- ===== src/Cli/Sessions/Hosts.antt =====
-- The scan of the NAT table that `ntop` in cli.c begins with, against the entries in use.
use burst_kernel_virtual_mac.Base.{
  ℕ, zero, suc, ◌+◌, ◌≤◌, ◌<◌, ◌≡◌, ◌∙◌, refl, ap, sym, subst, true, false, some, List, [], ◌∷◌,
  ◌++◌, arith, length, length-append, get_elem?, ltb, ◌==◌, inl, inr, Bool-cases,
}
use mathlib.Core.Option.{some-injective}
use mathlib.Core.Bool.{false≢true}
use burst_kernel_virtual_mac.Nat.{NatEntry}
use burst_kernel_virtual_mac.Cli.Sessions.{
  Host, Topology, is_listed, host_of, add_host, count_entry, scan_table, nothing_found, topology,
}
use burst_kernel_virtual_mac.Cli.Sessions.Listing.{live, live-used, live-free}

-- No two hosts have the same address.
abbrev pub AllDistinct : List Host → Type 0
AllDistinct [] = Unit
AllDistinct (h ∷ hosts) = (is_listed h.ip hosts ≡ false) × AllDistinct hosts

-- Every host is that of an entry in use.
abbrev pub AllLive : List NatEntry → List Host → Type 0
AllLive table [] = Unit
AllLive table (h ∷ hosts) =
    ((i : ℕ) × (e : NatEntry) × (get_elem? table i ≡ some e) × (e.in_use ≡ true) × (h ≡ host_of e))
    × AllLive table hosts

is_listed-append :
    (ip : ℕ) (hosts more : List Host)
    → is_listed ip hosts ≡ true
    → is_listed ip (hosts ++ more) ≡ true
unfolding is_listed
is_listed-append ip [] more h = absurd (false≢true h)
is_listed-append ip (x ∷ hosts) more h = elim (Bool-cases (x.ip == ip)) [
  | inl same ↦ rw same refl
  | inr differ ↦ rw differ (is_listed-append ip hosts more (rw differ at h))
]

is_listed-last : (h : Host) (hosts : List Host) → is_listed h.ip (hosts ++ h ∷ []) ≡ true
unfolding is_listed
is_listed-last h [] = ground arith
is_listed-last h (x ∷ hosts) = elim (Bool-cases (x.ip == h.ip)) [
  | inl same ↦ rw same refl
  | inr differ ↦ rw differ (is_listed-last h hosts)
]

not_listed-append :
    (ip : ℕ) (hosts : List Host) (h : Host)
    → is_listed ip hosts ≡ false
    → (h.ip == ip) ≡ false
    → is_listed ip (hosts ++ h ∷ []) ≡ false
unfolding is_listed
not_listed-append ip [] h p q = rw q refl
not_listed-append ip (x ∷ hosts) h p q = elim (Bool-cases (x.ip == ip)) [
  | inl same ↦ absurd (false≢true (sym p ∙ rw same refl))
  | inr differ ↦ rw differ (not_listed-append ip hosts h (rw differ at p) q)
]

AllDistinct-append :
    (hosts : List Host) (h : Host)
    → is_listed h.ip hosts ≡ false
    → AllDistinct hosts
    → AllDistinct (hosts ++ h ∷ [])
unfolding is_listed
AllDistinct-append [] h new d = (refl, tt)
AllDistinct-append (x ∷ hosts) h new d = elim (Bool-cases (x.ip == h.ip)) [
  | inl same ↦ absurd (false≢true (sym new ∙ rw same refl))
  | inr differ ↦ (
    not_listed-append x.ip hosts h d.0 (ground arith),
    AllDistinct-append hosts h (rw differ at new) d.1,
  )
]

AllLive-append :
    (table : List NatEntry) (hosts : List Host) (i : ℕ) (e : NatEntry)
    → get_elem? table i ≡ some e
    → e.in_use ≡ true
    → AllLive table hosts
    → AllLive table (hosts ++ host_of e ∷ [])
AllLive-append table [] i e at_i used l = ((i, e, at_i, used, refl), tt)
AllLive-append table (h ∷ hosts) i e at_i used l =
    (l.0, AllLive-append table hosts i e at_i used l.1)

-- Hosts of a table: at most 16, all different, each of an entry in use.
pub record IsHosts (table : List NatEntry) (hosts : List Host) : Type 0 where
  pub few : length hosts ≤ 16
  pub distinct : AllDistinct hosts
  pub live_hosts : AllLive table hosts

-- Hosts that were added behind others.
pub record Grown (hosts hosts' : List Host) : Type 0 where
  pub longer : length hosts ≤ length hosts'
  pub kept : (ip : ℕ) → is_listed ip hosts ≡ true → is_listed ip hosts' ≡ true

Grown-refl : (hosts : List Host) → Grown hosts hosts
Grown-refl hosts = record { longer = omega arith; kept = λ ip h. h }

Grown-trans : (a b c : List Host) → Grown a b → Grown b c → Grown a c
Grown-trans a b c p q = record {
  longer = omega (arith, p.longer, q.longer);
  kept = λ ip h. q.kept ip (p.kept ip h);
}

-- One entry in use.
add_host_lem :
    (table : List NatEntry) (hosts : List Host) (i : ℕ) (e : NatEntry)
    → get_elem? table i ≡ some e
    → e.in_use ≡ true
    → IsHosts table hosts
    → IsHosts table (add_host e hosts)
      × Grown hosts (add_host e hosts)
      × (length (add_host e hosts) < 16 → is_listed e.internal_ip (add_host e hosts) ≡ true)
unfolding add_host
add_host_lem table hosts i e at_i used v = elim (Bool-cases (is_listed e.internal_ip hosts)) [
  | inl listed ↦ rw listed (v, Grown-refl hosts, λ lt. listed)
  | inr new ↦ elim (Bool-cases (ltb (length hosts) 16)) [
    | inl room ↦
        rw (new, room)
          (
            record {
              few = ground (arith, length-append hosts (host_of e ∷ []));
              distinct = AllDistinct-append hosts (host_of e) new v.distinct;
              live_hosts = AllLive-append table hosts i e at_i used v.live_hosts;
            },
            record {
              longer = omega (arith, length-append hosts (host_of e ∷ []));
              kept = λ ip h. is_listed-append ip hosts (host_of e ∷ []) h;
            },
            λ lt. is_listed-last (host_of e) hosts,
          )
    | inr full ↦ rw (new, full) (v, Grown-refl hosts, λ lt. absurd (ground arith))
  ]
]

-- What the scan of some entries of a table adds to what was found before.
pub record Scanned (table es : List NatEntry) (t t' : Topology) : Type 0 where
  pub hosts : IsHosts table t'.hosts
  pub total : t'.total_sessions ≡ t.total_sessions + length (live es)
  pub sum : t'.tcp_sessions + t'.udp_sessions ≡ t.tcp_sessions + t.udp_sessions + length (live es)
  pub grown : Grown t.hosts t'.hosts
  pub complete :
      length t'.hosts < 16
      → (i : ℕ) (e : NatEntry) → get_elem? es i ≡ some e
      → e.in_use ≡ true
      → is_listed e.internal_ip t'.hosts ≡ true

count_used :
    (e : NatEntry) (t : Topology)
    → e.in_use ≡ true
    → ((count_entry e t).hosts ≡ add_host e t.hosts)
      × ((count_entry e t).total_sessions ≡ t.total_sessions + 1)
      × ((count_entry e t).tcp_sessions + (count_entry e t).udp_sessions
          ≡ t.tcp_sessions + t.udp_sessions + 1)
unfolding count_entry
count_used e t used = elim (Bool-cases (e.protocol == 6)) [
  | inl tcp ↦ rw (used, tcp) (refl, refl, omega arith)
  | inr udp ↦ rw (used, udp) (refl, refl, omega arith)
]

count_free : (e : NatEntry) (t : Topology) → e.in_use ≡ false → count_entry e t ≡ t
unfolding count_entry
count_free e t free = rw free refl

scan_free :
    (table es : List NatEntry) (e : NatEntry) (t t' : Topology)
    → e.in_use ≡ false
    → Scanned table es t t'
    → Scanned table (e ∷ es) t t'
scan_free table es e t t' free s = record {
  hosts = s.hosts;
  total = s.total ∙ ap (λ l. t.total_sessions + length l) (sym (live-free e es free));
  sum = s.sum ∙ ap (λ l. t.tcp_sessions + t.udp_sessions + length l) (sym (live-free e es free));
  grown = s.grown;
  complete = go;
}
  where
    go :
        length t'.hosts < 16
        → (i : ℕ) (f : NatEntry) → get_elem? (e ∷ es) i ≡ some f
        → f.in_use ≡ true
        → is_listed f.internal_ip t'.hosts ≡ true
    go lt zero f at_i used =
        absurd (false≢true (sym free ∙ ap (λ x. x.in_use) (some-injective _ _ at_i) ∙ used))
    go lt (suc i) f at_i used = s.complete lt i f at_i used

scan_used :
    (table es : List NatEntry) (e : NatEntry) (t t₁ t' : Topology)
    → e.in_use ≡ true
    → (t₁.total_sessions ≡ t.total_sessions + 1)
      × (t₁.tcp_sessions + t₁.udp_sessions ≡ t.tcp_sessions + t.udp_sessions + 1)
    → Grown t.hosts t₁.hosts
    → (length t₁.hosts < 16 → is_listed e.internal_ip t₁.hosts ≡ true)
    → Scanned table es t₁ t'
    → Scanned table (e ∷ es) t t'
scan_used table es e t t₁ t' used counts grown first s = record {
  hosts = s.hosts;
  total = omega (arith, s.total, counts.0, ap length (live-used e es used));
  sum = omega (arith, s.sum, counts.1, ap length (live-used e es used));
  grown = Grown-trans t.hosts t₁.hosts t'.hosts grown s.grown;
  complete = go;
}
  where
    go :
        length t'.hosts < 16
        → (i : ℕ) (f : NatEntry) → get_elem? (e ∷ es) i ≡ some f
        → f.in_use ≡ true
        → is_listed f.internal_ip t'.hosts ≡ true
    go lt zero f at_i live_f =
        subst (λ x. is_listed x.internal_ip t'.hosts ≡ true) (some-injective _ _ at_i)
          ((s.grown).kept e.internal_ip (first (omega (arith, (s.grown).longer))))
    go lt (suc i) f at_i live_f = s.complete lt i f at_i live_f

scan_table-Scanned :
    (table es : List NatEntry) (t : Topology)
    → ((i : ℕ) (e : NatEntry) → get_elem? es i ≡ some e → (j : ℕ) × (get_elem? table j ≡ some e))
    → IsHosts table t.hosts
    → Scanned table es t (scan_table es t)
unfolding scan_table
scan_table-Scanned table [] t sub v = record {
  hosts = v;
  total = omega arith;
  sum = omega arith;
  grown = Grown-refl t.hosts;
  complete = λ lt i e at_i. cc;
}
scan_table-Scanned table (e ∷ es) t sub v = elim (Bool-cases e.in_use) [
  | inr free ↦ scan_free table es e t _ free (
      subst (λ x. Scanned table es t (scan_table es x)) (sym (count_free e t free))
        (scan_table-Scanned table es t (λ i. sub (suc i)) v))
  | inl used ↦
      let (j, at_j) = sub 0 e refl in
      let (hosts, total, sum) = count_used e t used in
      let (v', grown, first) = add_host_lem table t.hosts j e at_j used v in
      scan_used table es e t (count_entry e t) _ used (total, sum)
        (subst (Grown t.hosts) (sym hosts) grown)
        (subst (λ hs. length hs < 16 → is_listed e.internal_ip hs ≡ true) (sym hosts) first)
        (scan_table-Scanned table es (count_entry e t) (λ i. sub (suc i))
          (subst (IsHosts table) (sym hosts) v'))
]

-- The scan of `ntop` counts the entries in use, TCP and others apart, and lists at most 16
-- hosts, all different and each of an entry in use; with fewer than 16, the host of every entry
-- in use is listed.
pub topology-Scanned : (table : List NatEntry) → Scanned table table nothing_found (topology table)
unfolding topology
topology-Scanned table =
    scan_table-Scanned table table nothing_found (λ i e at_i. (i, at_i))
      (record { few = omega arith; distinct = tt; live_hosts = tt })
