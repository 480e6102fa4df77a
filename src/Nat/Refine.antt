-- ===== src/Nat/Refine.antt =====
-- The table of nat.c against the list of flows.
use burst_kernel_virtual_mac.Base.{
  ℕ, zero, suc, ◌+◌, ◌<◌, ◌≡◌, ◌⊎◌, ◌∙◌, refl, ap, sym, subst, true, false, Option, none, some,
  List, [], ◌∷◌, ◌++◌, arith, ltb, length, length-append, get_elem?, set, get_elem?_of_lt,
  find_index, find_index-FirstMatch, find_index-none, inl, inr, Option-cases, if◌then◌else◌,
}
use mathlib.Core.Bool.{false≢true}
use mathlib.Core.Option.{some-injective}
use burst_kernel_virtual_mac.Nat.{NatEntry, Nat, max_nat_entries, find_session, nat_init}
use burst_kernel_virtual_mac.Nat.Table.{
  IsWf, SameSession, SameSession-refl, Extends, IsWf-live-lt, nat_init-IsWf,
}
use burst_kernel_virtual_mac.Nat.Session.{
  IsFor, SessionResult, existing, fresh, full, new_entry, find_session_lem, find_session-Ready,
}
use burst_kernel_virtual_mac.Nat.Spec.{Flow, is_flow, lease}

abbrev pub IsOf : Flow → NatEntry → Type 0
IsOf f e = IsFor f.ip f.port f.protocol e

-- The table shows the flows: the n-th is in the n-th entry, and there are no more.
pub record Shows (fs : List Flow) (s : Nat) : Type 0 where
  pub wf : IsWf (length fs) s
  pub held :
      (n : ℕ) (f : Flow)
      → get_elem? fs n ≡ some f
      → (e : NatEntry) × (get_elem? s.table n ≡ some e) × IsOf f e

pub nat_init-Shows : Shows [] nat_init
nat_init-Shows = record { wf = nat_init-IsWf; held = λ n f h. cc }

IsFor-SameSession :
    {ip port protocol : ℕ} {e f : NatEntry}
    → IsFor ip port protocol e
    → SameSession e f
    → IsFor ip port protocol f
IsFor-SameSession for same = ground arith

-- Activity does not change what is shown.
pub Shows-Extends :
    (fs : List Flow) (s t : Nat) → Shows fs s → IsWf (length fs) t → Extends s t → Shows fs t
Shows-Extends fs s t v w kept = record {
  wf = w;
  held = λ n f h.
      let (e, at_n, for) = v.held n f h in
      let (e', at_n', same) = kept n e at_n for.live in (e', at_n', IsFor-SameSession for same);
}

-- The flow that an entry in use is for.
pub shown :
    (fs : List Flow) (s : Nat) (n : ℕ) (e : NatEntry)
    → Shows fs s
    → get_elem? s.table n ≡ some e
    → e.in_use ≡ true
    → (f : Flow) × (get_elem? fs n ≡ some f) × IsOf f e
shown fs s n e v at_n live =
    let (f, found) = get_elem?_of_lt fs n (IsWf-live-lt v.wf n e at_n live) in
    let (e', at_n', for) = v.held n f found in
    (f, found, subst (IsOf f) (some-injective _ _ (sym at_n' ∙ at_n)) for)

same-is_flow : (f g : Flow) (e : NatEntry) → IsOf f e → IsOf g e → is_flow f g ≡ true
same-is_flow f g e p q = ground arith

is_flow-IsOf : (f g : Flow) (e : NatEntry) → is_flow f g ≡ true → IsOf g e → IsOf f e
is_flow-IsOf f g e h for = ground arith

-- What the two searches answer.
pub data Leased (f : Flow) (fs : List Flow) (s : Nat)
    : Option (ℕ × List Flow) → Option (ℕ × Nat) → Type 0 where
  leased :
      (n : ℕ) (fs' : List Flow) (t : Nat) (e : NatEntry)
      → Shows fs' t
      → Extends s t
      → t.ticks ≡ s.ticks
      → get_elem? t.table n ≡ some e
      → IsOf f e
      → n < length fs'
      → Leased f fs s (some (n, fs')) (some (n, t))
  no_room : Leased f fs s none none

get_elem?-append_last :
    (fs : List Flow) (f g : Flow) (n : ℕ)
    → get_elem? (fs ++ f ∷ []) n ≡ some g
    → (get_elem? fs n ≡ some g) ⊎ ((n ≡ length fs) × (f ≡ g))
get_elem?-append_last [] f g zero h = inr (refl, some-injective _ _ h)
get_elem?-append_last [] f g (suc n) h = cc
get_elem?-append_last (x ∷ fs) f g zero h = inl h
get_elem?-append_last (x ∷ fs) f g (suc n) h = elim (get_elem?-append_last fs f g n h) [
  | inl p ↦ inl p
  | inr (p, q) ↦ inr (ap suc p, q)
]

length_last : (fs : List Flow) (f : Flow) → length (fs ++ f ∷ []) ≡ length fs + 1
length_last fs f = omega (arith, length-append fs (f ∷ []))

-- A flow that is known.
known-Leased :
    (f g : Flow) (fs : List Flow) (s : Nat) (n : ℕ) (e : NatEntry) (o : Option (ℕ × Nat))
    → Shows fs s
    → get_elem? fs n ≡ some g
    → get_elem? s.table n ≡ some e
    → IsOf f e
    → SessionResult f.ip f.port f.protocol (length fs) s o
    → o ≡ find_session f.ip f.port f.protocol s
    → Leased f fs s (some (n, fs)) o
known-Leased f g fs s n e o v found at_n for (existing i e' at_i for') q =
    let n_lt = IsWf-live-lt v.wf n e at_n for.live in
    let i_lt = IsWf-live-lt v.wf i e' at_i for'.live in
    let same : i ≡ n =
      v.wf.keys i n e' e at_i at_n i_lt n_lt (for'.ip ∙ sym for.ip) (for'.port ∙ sym for.port)
        (for'.proto ∙ sym for.proto) in
    subst (λ k. Leased f fs s (some (n, fs)) (some (k, s))) (sym same)
      (leased n fs s e v (λ j x h live. (x, h, SameSession-refl x)) refl at_n for n_lt)
known-Leased f g fs s n e o v found at_n for (fresh e' room unknown) q =
    absurd (unknown n e at_n for)
known-Leased f g fs s n e o v found at_n for (full gone unknown) q = absurd (unknown n e at_n for)

-- A flow that is not known.
unknown-Leased :
    (f : Flow) (fs : List Flow) (s : Nat) (o : Option (ℕ × Nat))
    → Shows fs s
    → find_index (is_flow f) fs ≡ none
    → SessionResult f.ip f.port f.protocol (length fs) s o
    → find_session f.ip f.port f.protocol s ≡ o
    → Leased f fs s
        (if ltb (length fs) max_nat_entries then some (length fs, fs ++ f ∷ []) else none)
        o
unknown-Leased f fs s o v missed (existing i e at_i for) q =
    let (g, found, for_g) = shown fs s i e v at_i for.live in
    absurd (
      false≢true
        (sym (find_index-none (is_flow f) fs missed i g found) ∙ same-is_flow f g e for for_g))
unknown-Leased f fs s o v missed (fresh e room unknown) q =
    let t : Nat = record s {
      table = set s.table (length fs) (new_entry f.ip f.port f.protocol (length fs) e);
      next_port = 50000 + length fs + 1;
    } in
    let r = find_session-Ready f.ip f.port f.protocol (length fs) t v.wf q in
    let count : r.count ≡ length fs + 1 = omega (arith, r.wf.next) in
    let wf = subst (λ k. IsWf k t) (count ∙ sym (length_last fs f)) r.wf in
    let lt : ltb (length fs) max_nat_entries ≡ true = ground arith in
    rw lt (
      leased (length fs) (fs ++ f ∷ []) t r.entry
        (record {
          wf = wf;
          held = λ n g h. elim (get_elem?-append_last fs f g n h) [
            | inl old ↦
                let (x, at_n, for) = v.held n g old in
                let (y, at_n', same) = r.kept n x at_n for.live in
                (y, at_n', IsFor-SameSession for same)
            | inr (p, e) ↦ (
              r.entry,
              subst (λ k. get_elem? t.table k ≡ some r.entry) (sym p) r.at,
              subst (λ x. IsOf x r.entry) e r.for,
            )
          ];
        })
        r.kept r.clock r.at r.for (omega (arith, length_last fs f)))
unknown-Leased f fs s o v missed (full gone unknown) q =
    let at_end : ltb (length fs) max_nat_entries ≡ false = ground arith in rw at_end no_room

pub lease-Leased :
    (f : Flow) (fs : List Flow) (s : Nat)
    → Shows fs s
    → Leased f fs s (lease f fs) (find_session f.ip f.port f.protocol s)
unfolding lease
lease-Leased f fs s v =
    let r = find_session_lem f.ip f.port f.protocol v.wf in
    elim (Option-cases (find_index (is_flow f) fs)) [
      | inl missed ↦ rw (missed, lease) (unknown-Leased f fs s _ v missed r refl)
      | inr (n, found) ↦
          let m = find_index-FirstMatch (is_flow f) fs n found in
          let (e, at_n, for) = v.held n m.elem m.at_index in
          rw (found, lease)
            (known-Leased f m.elem fs s n e _ v m.at_index at_n
              (is_flow-IsOf f m.elem e m.matches for) r refl)
    ]
