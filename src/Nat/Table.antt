-- ===== src/Nat/Table.antt =====
-- The invariant of the translation table of nat.c. Entries are never given up, so the first `k` are
-- in use, and the external ports are those that `allocate_port` gave out in order, from 50000 on.
use burst_kernel_virtual_mac.Base.{
  ℕ, ◌+◌, ◌^◌, sym, ap, ◌∙◌, dec_lt, ◌≤◌, ◌<◌, ◌≡◌, refl, true, false, some, arith, length,
  get_elem?, set, length-set, length-replicate, get_elem?-set, get_elem?-replicate,
  get_elem?-set_self, get_elem?-set_ne, get_elem?_lt, ℕ_discrete, inl, inr,
}
use mathlib.Core.Bool.{false≢true}
use burst_kernel_virtual_mac.Nat.{NatEntry, Nat, max_nat_entries, nat_init, swap_bytes, cleared}

pub record IsWf (k : ℕ) (s : Nat) : Type 0 where
  pub size : length s.table ≡ max_nat_entries
  pub few : k ≤ max_nat_entries
  pub next : s.next_port ≡ 50000 + k
  pub used :
      (i : ℕ) (e : NatEntry)
      → get_elem? s.table i ≡ some e
      → i < k
      → (e.in_use ≡ true) × (e.external_port ≡ swap_bytes (50000 + i))
  pub free : (i : ℕ) (e : NatEntry) → get_elem? s.table i ≡ some e → k ≤ i → e.in_use ≡ false
  -- No two entries are for one session.
  pub keys :
      (i j : ℕ) (e f : NatEntry)
      → get_elem? s.table i ≡ some e
      → get_elem? s.table j ≡ some f
      → i < k
      → j < k
      → e.internal_ip ≡ f.internal_ip
      → e.internal_port ≡ f.internal_port
      → e.protocol ≡ f.protocol
      → i ≡ j

-- The same session: nothing but `last_active` may differ.
pub record SameSession (e f : NatEntry) : Type 0 where
  pub ip : f.internal_ip ≡ e.internal_ip
  pub port : f.internal_port ≡ e.internal_port
  pub external : f.external_port ≡ e.external_port
  pub proto : f.protocol ≡ e.protocol
  pub live : f.in_use ≡ e.in_use

-- Every session of `s` is in `t`, at its index.
abbrev pub Extends : Nat → Nat → Type 0
Extends s t =
    (i : ℕ) (e : NatEntry)
    → get_elem? s.table i ≡ some e
    → e.in_use ≡ true
    → (f : NatEntry) × (get_elem? t.table i ≡ some f) × SameSession e f

pub SameSession-refl : (e : NatEntry) → SameSession e e
SameSession-refl e = record { ip = refl; port = refl; external = refl; proto = refl; live = refl }

pub Extends-refl : (s : Nat) → Extends s s
Extends-refl s i e h live = (e, h, SameSession-refl e)

pub Extends-trans : (s t u : Nat) → Extends s t → Extends t u → Extends s u
Extends-trans s t u p q i e h live =
    let (f, hf, same) = p i e h live in
    let (g, hg, same') = q i f hf (ground arith) in (g, hg, ground arith)

-- `nat_init` leaves a well-formed table with no session.
pub nat_init-IsWf : IsWf 0 nat_init
unfolding nat_init
nat_init-IsWf = record {
  size = length-replicate max_nat_entries cleared;
  few = omega arith;
  next = refl;
  used = λ i e h lt. elim lt [ ];
  free = λ i e h le. ap (λ x. x.in_use) (get_elem?-replicate max_nat_entries cleared i h);
  keys = λ i j e f h h' lt. elim lt [ ];
}

-- Different entries have different external ports, in the packet's byte order too.
pub swap_bytes_injective : (p q : ℕ) → p < 2 ^ 16 → q < 2 ^ 16 → swap_bytes p ≡ swap_bytes q → p ≡ q
swap_bytes_injective p q hp hq e = omega arith

-- The index of an entry in use is below `k`.
pub IsWf-live-lt :
    {k : ℕ} {s : Nat}
    → IsWf k s
    → (i : ℕ) (e : NatEntry) → get_elem? s.table i ≡ some e
    → e.in_use ≡ true
    → i < k
IsWf-live-lt {k} {s} w i e h live = elim (dec_lt i k) [
  | yes lt ↦ lt
  | no ge ↦ absurd (false≢true (sym (w.free i e h (omega arith)) ∙ live))
]

-- An entry in use may change its `last_active`, and the clock may go on.
module _ {k : ℕ} {s : Nat} (w : IsWf k s) (i : ℕ) (e e' : NatEntry) (now : ℕ)
    (old : get_elem? s.table i ≡ some e) (live : e.in_use ≡ true) (same : SameSession e e') where
  abbrev pub refreshed : Nat
  refreshed = record s { table = set s.table i e'; ticks = now }

  -- What the table after the change holds, it held before.
  refreshed_old :
      (j : ℕ) (f : NatEntry)
      → get_elem? (set s.table i e') j ≡ some f
      → (g : NatEntry) × (get_elem? s.table j ≡ some g) × SameSession g f
  refreshed_old j f h = elim (get_elem?-set s.table i j e' f h) [
    | inl p ↦ (e, rw (← p.0) old, rw p.1 same)
    | inr p ↦ (f, p.1, SameSession-refl f)
  ]

  pub refreshed-IsWf : IsWf k refreshed
  refreshed-IsWf = record {
    size = length-set s.table i e' ∙ w.size;
    few = w.few;
    next = w.next;
    used = λ j f h lt.
        let (g, hg, sg) = refreshed_old j f h in
        let u = w.used j g hg lt in (sg.live ∙ u.0, sg.external ∙ u.1);
    free = λ j f h le. let (g, hg, sg) = refreshed_old j f h in sg.live ∙ w.free j g hg le;
    keys = λ j l f g h h' lt lt' ip port proto.
        let (f₁, hf, sf) = refreshed_old j f h in
        let (g₁, hg, sg) = refreshed_old l g h' in
        w.keys j l f₁ g₁ hf hg lt lt' (cc (sf.ip, sg.ip)) (cc (sf.port, sg.port))
          (cc (sf.proto, sg.proto));
  }

  pub refreshed-at : get_elem? (set s.table i e') i ≡ some e'
  refreshed-at = get_elem?-set_self s.table i e' (get_elem?_lt s.table i old)

  pub Extends-refreshed : Extends s refreshed
  Extends-refreshed j f h lf = elim (ℕ_discrete i j) [
    | yes eq ↦ (e', rw (← eq) refreshed-at, rw (same_entry eq) same)
    | no ne ↦ (f, get_elem?-set_ne s.table e' ne ∙ h, SameSession-refl f)
  ]
    where
      same_entry : i ≡ j → f ≡ e
      same_entry eq = cc

-- A new entry at the first free place, with the next port.
module _ {k : ℕ} {s : Nat} (w : IsWf k s) (room : k < max_nat_entries) (e : NatEntry)
    (live : e.in_use ≡ true) (port : e.external_port ≡ swap_bytes (50000 + k))
    (new_key : (i : ℕ) (f : NatEntry)
      → get_elem? s.table i ≡ some f
      → f.in_use ≡ true
      → ¬ (
          (f.internal_ip ≡ e.internal_ip)
          × (f.internal_port ≡ e.internal_port)
          × (f.protocol ≡ e.protocol))) where
  abbrev pub enlarged : Nat
  enlarged = record s { table = set s.table k e; next_port = 50000 + k + 1 }

  enlarged_keys :
      (i j : ℕ) (f g : NatEntry)
      → get_elem? enlarged.table i ≡ some f
      → get_elem? enlarged.table j ≡ some g
      → i < k + 1
      → j < k + 1
      → f.internal_ip ≡ g.internal_ip
      → f.internal_port ≡ g.internal_port
      → f.protocol ≡ g.protocol
      → i ≡ j
  enlarged_keys i j f g hf hg lt lt' ip port proto = elim (get_elem?-set s.table k i e f hf) [
    | inl p ↦ elim (get_elem?-set s.table k j e g hg) [
      | inl q ↦ sym p.0 ∙ q.0
      | inr q ↦
          let u = w.used j g q.1 (omega arith) in
          absurd (new_key j g q.1 u.0 (cc (p.1), cc (p.1), cc (p.1)))
    ]
    | inr p ↦ elim (get_elem?-set s.table k j e g hg) [
      | inl q ↦
          let u = w.used i f p.1 (omega arith) in
          absurd (new_key i f p.1 u.0 (cc (q.1), cc (q.1), cc (q.1)))
      | inr q ↦ w.keys i j f g p.1 q.1 (omega arith) (omega arith) ip port proto
    ]
  ]

  pub enlarged-IsWf : IsWf (k + 1) enlarged
  enlarged-IsWf = record {
    size = length-set s.table k e ∙ w.size;
    few = omega arith;
    next = omega arith;
    used = λ j f h lt. elim (get_elem?-set s.table k j e f h) [
      | inl p ↦ (rw p.1 live, rw (p.1, ← p.0) port)
      | inr p ↦ w.used j f p.1 (omega arith)
    ];
    free = λ j f h le. elim (get_elem?-set s.table k j e f h) [
      | inl p ↦ absurd (omega arith)
      | inr p ↦ w.free j f p.1 (omega arith)
    ];
    keys = enlarged_keys;
  }

  pub enlarged-at : get_elem? (set s.table k e) k ≡ some e
  enlarged-at = get_elem?-set_self s.table k e (omega (arith, w.size))

  pub Extends-enlarged : Extends s enlarged
  Extends-enlarged j f h lf =
      let below = IsWf-live-lt w j f h lf in
      (f, get_elem?-set_ne s.table e (omega arith) ∙ h, SameSession-refl f)
