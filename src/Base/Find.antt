-- ===== src/Base/Find.antt =====
-- `for (i = 0; i < n; i++) if (test(a[i])) { found = i; break; }`: the index of the first match.
use Prim.Native.Nat.{ℕ, zero, suc, ◌≤◌, ◌<◌}
use mathlib.Core.Path.{◌≡◌, refl, subst}
use mathlib.Core.Bool.{Bool, true, false}
use mathlib.Core.Option
use mathlib.Core.Option.{Option, none, some}
use mathlib.Core.List.{List, [], ◌∷◌}
use native.Mathlib.Omega.{arith}
use burst_kernel_virtual_mac.Base.Tests.{if◌then◌else◌, Bool-cases}
use mathlib.Core.Logic.{inl, inr}
use burst_kernel_virtual_mac.Base.Lists.{get_elem?}

module _ {ℓ} {A : Type ℓ} (test : A → Bool) where
  unfoldable pub find_index : List A → Option ℕ
  find_index [] = none
  find_index (x ∷ xs) = if test x then some 0 else Option.map suc (find_index xs)

  -- What the search answers, at every index.
  pub record FirstMatch (xs : List A) (i : ℕ) : Type ℓ where
    pub elem : A
    pub at_index : get_elem? xs i ≡ some elem
    pub matches : test elem ≡ true
    pub earlier : (j : ℕ) (y : A) → j < i → get_elem? xs j ≡ some y → test y ≡ false

  earlier_suc :
      (x : A) (xs : List A) (k : ℕ)
      → test x ≡ false
      → ((j : ℕ) (y : A) → j < k → get_elem? xs j ≡ some y → test y ≡ false)
      → (j : ℕ) (y : A) → j < suc k
      → get_elem? (x ∷ xs) j ≡ some y
      → test y ≡ false
  earlier_suc x xs k f h zero y lt e = ground arith
  earlier_suc x xs k f h (suc j) y lt e = h j y (omega arith) e

  FirstMatch-suc :
      {x : A} {xs : List A} {k : ℕ} → test x ≡ false → FirstMatch xs k → FirstMatch (x ∷ xs) (suc k)
  FirstMatch-suc {x} {xs} {k} f m = record {
    elem = m.elem;
    at_index = m.at_index;
    matches = m.matches;
    earlier = earlier_suc x xs k f m.earlier;
  }

  -- A search that ends at `i` has found the first element that passes the test.
  pub find_index-FirstMatch : (xs : List A) (i : ℕ) → find_index xs ≡ some i → FirstMatch xs i
  unfolding find_index
  find_index-FirstMatch [] i h = cc
  find_index-FirstMatch (x ∷ xs) i h = elim (Bool-cases (test x)) [
    | inl t ↦
        let e : 0 ≡ i = ground arith in
        subst (FirstMatch (x ∷ xs)) e
          (record { elem = x; at_index = refl; matches = t; earlier = λ j y lt _. elim lt [ ] })
    | inr f ↦ later (find_index xs) (rw f at h) f (find_index-FirstMatch xs)
  ]
    where
      later :
          (o : Option ℕ)
          → Option.map suc o ≡ some i
          → test x ≡ false
          → ((k : ℕ) → o ≡ some k → FirstMatch xs k)
          → FirstMatch (x ∷ xs) i
      later none m f rec = cc
      later (some k) m f rec =
          let e : suc k ≡ i = cc in subst (FirstMatch (x ∷ xs)) e (FirstMatch-suc f (rec k refl))

  find_index-cons-none :
      (x : A) (xs : List A) → find_index (x ∷ xs) ≡ none → (test x ≡ false) × (find_index xs ≡ none)
  unfolding find_index
  find_index-cons-none x xs h = ground arith

  -- A search that fails has refused every element.
  pub find_index-none :
      (xs : List A)
      → find_index xs ≡ none
      → (j : ℕ) (y : A) → get_elem? xs j ≡ some y
      → test y ≡ false
  find_index-none [] h j y e = cc
  find_index-none (x ∷ xs) h zero y e = ground (arith, find_index-cons-none x xs h)
  find_index-none (x ∷ xs) h (suc j) y e = find_index-none xs (find_index-cons-none x xs h).1 j y e

  -- The search ends at the first match.
  pub find_index_of_FirstMatch : (xs : List A) (i : ℕ) → FirstMatch xs i → find_index xs ≡ some i
  unfolding find_index
  find_index_of_FirstMatch [] i m = cc (m.at_index)
  find_index_of_FirstMatch (x ∷ xs) zero m = ground arith
  find_index_of_FirstMatch (x ∷ xs) (suc i) m =
      rw (m.earlier 0 x (omega arith) refl, find_index_of_FirstMatch xs i rest)
    where
      rest : FirstMatch xs i
      rest = record {
        elem = m.elem;
        at_index = m.at_index;
        matches = m.matches;
        earlier = λ j y lt e. m.earlier (suc j) y (omega arith) e;
      }

  -- Where an element passes the test, the search ends, there or before.
  pub find_index_of_match :
      (xs : List A) (j : ℕ) (y : A)
      → get_elem? xs j ≡ some y
      → test y ≡ true
      → (i : ℕ) × (find_index xs ≡ some i) × (i ≤ j)
  unfolding find_index
  find_index_of_match [] j y e t = cc
  find_index_of_match (x ∷ xs) zero y e t = (0, ground arith, omega arith)
  find_index_of_match (x ∷ xs) (suc j) y e t =
      let (i, found, le) = find_index_of_match xs j y e t in
      elim (Bool-cases (test x)) [
        | inl t ↦ (0, rw t, omega arith)
        | inr f ↦ (suc i, rw (f, found), omega arith)
      ]
