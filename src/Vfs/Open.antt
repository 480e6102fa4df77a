-- ===== src/Vfs/Open.antt =====
-- `vfs_open` of vfs.c against the texts that the names of the files stand for.
use burst_kernel_virtual_mac.Base.{
  ℕ, zero, suc, ◌≤◌, ◌<◌, ◌≡◌, ◌∙◌, refl, ap, sym, subst, true, Option, none, some, List, [], ◌∷◌,
  arith, length, get_elem?, inl, inr, Bool-cases,
}
use mathlib.Core.Option
use mathlib.Core.Option.{some-injective}
use mathlib.Core.Bool.{false≢true}
use burst_kernel_virtual_mac.Base.Int.{ℤ, pos, negsuc}
use burst_kernel_virtual_mac.Libc.Strings.{text, strcmp-zero_iff}
use burst_kernel_virtual_mac.Vfs.{VfsFile, is_zero, vfs_open}

-- A used file has a name, which its array holds with its NUL.
abbrev pub IsNamed : VfsFile → Type 0
IsNamed f =
    (length f.name ≡ 32)
    × (f.is_used ≡ true → (a : List ℕ) × (text f.name ≡ some a) × (length a ≤ 31))

abbrev pub AllNamed : List VfsFile → Type 0
AllNamed [] = Unit
AllNamed (f ∷ fs) = IsNamed f × AllNamed fs

-- A used file by that name.
pub record HasName (a : List ℕ) (f : VfsFile) : Type 0 where
  pub used : f.is_used ≡ true
  pub named : text f.name ≡ some a

-- What the search answers.
abbrev pub Found : List ℕ → List VfsFile → Option ℕ → Type 0
Found a fs none = (j : ℕ) (f : VfsFile) → get_elem? fs j ≡ some f → ¬ HasName a f
Found a fs (some i) =
    ((f : VfsFile) × (get_elem? fs i ≡ some f) × HasName a f)
    × ((j : ℕ) (f : VfsFile) → j < i → get_elem? fs j ≡ some f → ¬ HasName a f)

pub is_zero-eq : (r : ℤ) → is_zero r ≡ true → r ≡ pos 0
is_zero-eq (pos n) h = ground arith
is_zero-eq (negsuc n) h = cc

later-Found :
    (a : List ℕ) (f : VfsFile) (fs : List VfsFile) (o : Option ℕ)
    → ¬ HasName a f
    → Found a fs o
    → Found a (f ∷ fs) (Option.map suc o)
later-Found a f fs none other h = go
  where
    go : (j : ℕ) (g : VfsFile) → get_elem? (f ∷ fs) j ≡ some g → ¬ HasName a g
    go zero g e = subst (λ x. ¬ HasName a x) (some-injective _ _ e) other
    go (suc j) g e = h j g e
later-Found a f fs (some i) other h = (h.0, go)
  where
    go : (j : ℕ) (g : VfsFile) → j < suc i → get_elem? (f ∷ fs) j ≡ some g → ¬ HasName a g
    go zero g lt e = subst (λ x. ¬ HasName a x) (some-injective _ _ e) other
    go (suc j) g lt e = h.1 j g (omega arith) e

-- Where all names are terminated in their arrays, and the argument is terminated, `vfs_open`
-- returns the first used file whose name is the text of the argument, and none exactly where
-- there is no such file.
pub vfs_open-Found :
    (fs : List VfsFile) (name a : List ℕ)
    → AllNamed fs
    → text name ≡ some a
    → (o : Option ℕ) × (vfs_open fs name ≡ some o) × Found a fs o
unfolding vfs_open
vfs_open-Found [] name a named h = (none, refl, λ j f e. cc)
vfs_open-Found (f ∷ fs) name a named h =
    let (o, rest, found) = vfs_open-Found fs name a named.1 h in
    elim (Bool-cases (f.is_used)) [
      | inr free ↦ (
        Option.map suc o,
        rw (free, rest),
        later-Found a f fs o (λ n. false≢true (sym free ∙ n.used)) found,
      )
      | inl used ↦
          let (b, named_b, short) = named.0.1 used in
          let (r, e, iff) = strcmp-zero_iff f.name name b a named_b h in
          elim (Bool-cases (is_zero r)) [
            | inl same ↦
                let eq : b ≡ a = iff.0 (is_zero-eq r same) in
                (
                  some 0,
                  rw (used, e, same),
                  (
                    (f, refl, record { used = used; named = named_b ∙ ap some eq }),
                    λ j g lt e. elim lt [ ],
                  ),
                )
            | inr differ ↦ (
              Option.map suc o,
              rw (used, e, differ, rest),
              later-Found a f fs o
                  (λ n.
                    false≢true (
                      sym differ ∙ ap is_zero (iff.1 (some-injective _ _ (sym named_b ∙ n.named)))))
                  found,
            )
          ]
    ]
