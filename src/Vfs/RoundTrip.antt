-- ===== src/Vfs/RoundTrip.antt =====
-- `vfs_create` and `vfs_open` of vfs.c together, for names that fit into 31 bytes and names
-- that do not.
use burst_kernel_virtual_mac.Base.{
  ℕ, zero, suc, ◌≤◌, ◌≡◌, ◌≢◌, ◌∙◌, refl, ap, sym, subst, Option, none, some, List, [], ◌∷◌, arith,
  length, get_elem?, get_elem?-set, get_elem?-set_self, get_elem?_lt, set, take, inl, inr,
  ℕ_discrete,
}
use mathlib.Core.Option.{some-injective}
use burst_kernel_virtual_mac.Libc.Strings.{text}
use burst_kernel_virtual_mac.Vfs.{VfsFile, vfs_open, vfs_create}
use burst_kernel_virtual_mac.Vfs.Open.{AllNamed, HasName, Found, vfs_open-Found}
use burst_kernel_virtual_mac.Vfs.Create.{
  Created, existing, no_space, new_file, vfs_create-Created, vfs_create-AllNamed, AllNamed-get,
}

take_all : (n : ℕ) (a : List ℕ) → length a ≤ n → take n a ≡ a
take_all zero [] h = refl
take_all zero (x ∷ a) h = absurd (omega arith)
take_all (suc n) [] h = refl
take_all (suc n) (x ∷ a) h = ap (λ t. x ∷ t) (take_all n a (omega arith))

-- Where one file alone has the name, the search answers it.
unique :
    (a : List ℕ) (fs : List VfsFile) (i : ℕ) (f : VfsFile) (o : Option ℕ)
    → Found a fs o
    → get_elem? fs i ≡ some f
    → HasName a f
    → ((j : ℕ) (g : VfsFile) → i ≢ j → get_elem? fs j ≡ some g → ¬ HasName a g)
    → o ≡ some i
unique a fs i f none found e h others = absurd (found i f e h)
unique a fs i f (some k) ((g, at_k, has), earlier) e h others = elim (ℕ_discrete i k) [
  | yes eq ↦ ap some (sym eq)
  | no ne ↦ absurd (others k g ne at_k has)
]

absent_others :
    (a : List ℕ) (fs : List VfsFile) (i : ℕ) (g : VfsFile)
    → Found a fs none
    → (j : ℕ) (f : VfsFile) → i ≢ j
    → get_elem? (set fs i g) j ≡ some f
    → ¬ HasName a f
absent_others a fs i g found j f ne e = elim (get_elem?-set fs i j g f e) [
  | inl p ↦ absurd (ne p.0)
  | inr p ↦ found j f p.1
]

Created-Found :
    (fs fs' : List VfsFile) (name a : List ℕ) (o : Option ℕ)
    → AllNamed fs
    → text name ≡ some a
    → length a ≤ 31
    → Found a fs none
    → Created a fs o fs'
    → (i : ℕ) → o ≡ some i
    → vfs_open fs' name ≡ some (some i)
Created-Found fs fs' name a o named h short absent (existing k ((f, at_k, has), earlier)) i eq =
    absurd (absent k f at_k has)
Created-Found fs fs' name a o named h short absent (no_space found full) i eq = cc
Created-Found fs fs' name a o named h short absent (new_file k f g found m e n) i eq =
    let named' = vfs_create-AllNamed a fs fs' o named (new_file k f g found m e n) in
    let (o', e', found') = vfs_open-Found fs' name a named' h in
    let here : get_elem? fs' k ≡ some g = get_elem?-set_self fs k g (get_elem?_lt fs k e) in
    let has : HasName a g = record {
      used = n.used;
      named = n.named ∙ ap some (take_all 31 a short);
    } in
    e' ∙ ap some (unique a fs' k g o' found' here has (absent_others a fs k g found) ∙ eq)

-- Where all names are terminated in their arrays, and the argument is terminated and has at
-- most 31 bytes, the file that `vfs_create` answers is the file that `vfs_open` finds under the
-- argument afterwards.
pub vfs_open-create :
    (fs fs' : List VfsFile) (name a : List ℕ) (i : ℕ)
    → AllNamed fs
    → text name ≡ some a
    → length a ≤ 31
    → vfs_create fs name ≡ some (some i, fs')
    → vfs_open fs' name ≡ some (some i)
unfolding vfs_create
vfs_open-create fs fs' name a i named h short e =
    let (o, opened, found) = vfs_open-Found fs name a named h in go o opened found
  where
    go :
        (o : Option ℕ)
        → vfs_open fs name ≡ some o
        → Found a fs o
        → vfs_open fs' name ≡ some (some i)
    go (some k) opened found =
        let done : (some k, fs) ≡ (some i, fs') = some-injective _ _ (rw opened at e) in
        subst (λ x. vfs_open x name ≡ some (some i)) (ap (λ p. p.1) done)
          (opened ∙ ap some (ap (λ p. p.0) done))
    go none opened found =
        let (o', fs'', created, c) = vfs_create-Created fs name a named h in
        let done : (o', fs'') ≡ (some i, fs') = some-injective _ _ (sym created ∙ e) in
        Created-Found fs fs' name a o' named h short found
          (subst (Created a fs o') (ap (λ p. p.1) done) c) i (ap (λ p. p.0) done)

-- Where all names are terminated in their arrays, a terminated argument of 32 bytes or more is
-- never found.
pub vfs_open_long :
    (fs : List VfsFile) (name a : List ℕ)
    → AllNamed fs
    → text name ≡ some a
    → 32 ≤ length a
    → vfs_open fs name ≡ some none
vfs_open_long fs name a named h long =
    let (o, e, found) = vfs_open-Found fs name a named h in e ∙ ap some (go o found)
  where
    go : (o : Option ℕ) → Found a fs o → o ≡ none
    go none found = refl
    go (some i) ((f, at_i, has), earlier) =
        let (b, named_b, short) = (AllNamed-get fs i f named at_i).1 has.used in
        let same : b ≡ a = some-injective _ _ (sym named_b ∙ has.named) in
        absurd (omega (arith, ap length same))
