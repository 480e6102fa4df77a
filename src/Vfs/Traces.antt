-- ===== src/Vfs/Traces.antt =====
-- The files of vfs.c against the list of names, over rows of calls.
use burst_kernel_virtual_mac.Base.{
  ℕ, zero, suc, ◌+◌, ◌≤◌, ◌<◌, ◌≡◌, ◌⊎◌, ◌∙◌, refl, ap, ap₂, sym, subst, true, false, Option, none,
  some, List, [], ◌∷◌, ◌++◌, arith, ltb, length, length-append, length-set, get_elem?, get_elem?_lt,
  get_elem?_of_lt, get_elem?-set_self, get_elem?-set_ne, set, take, find_index,
  find_index-FirstMatch, find_index_of_FirstMatch, FirstMatch, inl, inr, Bool-cases, Option-cases,
  dec_lt, not,
}
use mathlib.Core.Bool.{false≢true}
use mathlib.Core.Option.{some-injective}
use burst_kernel_virtual_mac.Libc.Strings.{text}
use burst_kernel_virtual_mac.Vfs.{VfsFile, is_free}
use burst_kernel_virtual_mac.Vfs.Open.{AllNamed, HasName, Found, vfs_open-Found}
use burst_kernel_virtual_mac.Vfs.Create.{
  Created, existing, no_space, new_file, IsNew, vfs_create-Created, vfs_create-AllNamed,
}
use burst_kernel_virtual_mac.Vfs.Spec.{
  same_text, Call, opens, creates, settle, answer, answers, call, call_all,
}

same_text-eq : (a b : List ℕ) → same_text a b ≡ true → a ≡ b
same_text-eq [] [] h = refl
same_text-eq [] (y ∷ ys) h = absurd (false≢true h)
same_text-eq (x ∷ xs) [] h = absurd (false≢true h)
same_text-eq (x ∷ xs) (y ∷ ys) h =
    let head : x ≡ y = ground arith in ap₂ (λ u v. u ∷ v) head (same_text-eq xs ys (ground arith))

same_text_self : (a : List ℕ) → same_text a a ≡ true
same_text_self [] = refl
same_text_self (x ∷ xs) = ground (arith, same_text_self xs)

-- The slots show the names: those behind the names are free.
pub record Shows (names : List (List ℕ)) (fs : List VfsFile) : Type 0 where
  pub named : AllNamed fs
  pub room : length names ≤ length fs
  pub held :
      (n : ℕ) (a : List ℕ)
      → get_elem? names n ≡ some a
      → (f : VfsFile) × (get_elem? fs n ≡ some f) × HasName a f
  pub free : (n : ℕ) (f : VfsFile) → get_elem? fs n ≡ some f → length names ≤ n → f.is_used ≡ false

-- The name of a file in use.
shown :
    (names : List (List ℕ)) (fs : List VfsFile) (n : ℕ) (f : VfsFile)
    → Shows names fs
    → get_elem? fs n ≡ some f
    → f.is_used ≡ true
    → (b : List ℕ) × (get_elem? names n ≡ some b) × HasName b f
shown names fs n f v at_n used = elim (dec_lt n (length names)) [
  | no ge ↦ absurd (false≢true (sym (v.free n f at_n (omega arith)) ∙ used))
  | yes lt ↦
      let (b, found) = get_elem?_of_lt names n lt in
      let (g, at_n', has) = v.held n b found in
      (b, found, subst (HasName b) (some-injective _ _ (sym at_n' ∙ at_n)) has)
]

HasName-eq : (a b : List ℕ) (f : VfsFile) → HasName a f → HasName b f → a ≡ b
HasName-eq a b f p q = some-injective _ _ (sym p.named ∙ q.named)

-- Both searches give the same slot.
Found-find_index :
    (a : List ℕ) (names : List (List ℕ)) (fs : List VfsFile) (o : Option ℕ)
    → Shows names fs
    → Found a fs o
    → find_index (same_text a) names ≡ o
Found-find_index a names fs (some i) v ((f, at_i, has), earlier) =
    let (b, found, has') = shown names fs i f v at_i has.used in
    find_index_of_FirstMatch (same_text a) names i (record {
      elem = b;
      at_index = found;
      matches = subst (λ x. same_text a x ≡ true) (HasName-eq a b f has has') (same_text_self a);
      earlier = λ j c lt at_j. elim (Bool-cases (same_text a c)) [
        | inr other ↦ other
        | inl same ↦
            let (g, at_j', has_c) = v.held j c at_j in
            absurd
              (earlier j g lt at_j' (subst (λ x. HasName x g) (sym (same_text-eq a c same)) has_c))
      ];
    })
Found-find_index a names fs none v absent = elim (Option-cases (find_index (same_text a) names)) [
  | inl missed ↦ missed
  | inr (n, found) ↦
      let m = find_index-FirstMatch (same_text a) names n found in
      let (g, at_n, has) = v.held n m.elem m.at_index in
      absurd
        (absent n g at_n (subst (λ x. HasName x g) (sym (same_text-eq a m.elem m.matches)) has))
]

length_last : (names : List (List ℕ)) (a : List ℕ) → length (names ++ a ∷ []) ≡ length names + 1
length_last names a = omega (arith, length-append names (a ∷ []))

get_elem?-append_last :
    (names : List (List ℕ)) (a b : List ℕ) (n : ℕ)
    → get_elem? (names ++ a ∷ []) n ≡ some b
    → ((n < length names) × (get_elem? names n ≡ some b)) ⊎ ((n ≡ length names) × (a ≡ b))
get_elem?-append_last [] a b zero h = inr (refl, some-injective _ _ h)
get_elem?-append_last [] a b (suc n) h = cc
get_elem?-append_last (x ∷ names) a b zero h = inl (omega arith, h)
get_elem?-append_last (x ∷ names) a b (suc n) h = elim (get_elem?-append_last names a b n h) [
  | inl (lt, p) ↦ inl (omega arith, p)
  | inr (p, q) ↦ inr (ap suc p, q)
]

-- The first free slot is the one behind the names.
first_free :
    (names : List (List ℕ)) (fs : List VfsFile) (i : ℕ)
    → Shows names fs
    → FirstMatch is_free fs i
    → i ≡ length names
first_free names fs i v m = elim (dec_lt i (length names)) [
  | yes lt ↦
      let (b, found) = get_elem?_of_lt names i lt in
      let (g, at_i, has) = v.held i b found in
      let same : g ≡ m.elem = some-injective _ _ (sym at_i ∙ m.at_index) in
      absurd (false≢true (ap not (sym has.used) ∙ ap is_free same ∙ m.matches))
  | no ge ↦ elim (dec_lt (length names) i) [
    | no le ↦ omega arith
    | yes lt ↦
        let (g, at_n) =
          get_elem?_of_lt fs (length names) (omega (arith, get_elem?_lt fs i m.at_index)) in
        let busy = m.earlier (length names) g lt at_n in
        let free : is_free g ≡ true = ap not (v.free (length names) g at_n (omega arith)) in
        absurd (false≢true (sym busy ∙ free))
  ]
]

-- A new file in that slot.
new-Shows :
    (a : List ℕ) (names : List (List ℕ)) (fs : List VfsFile) (g f : VfsFile)
    → Shows names fs
    → AllNamed (set fs (length names) g)
    → length names < length fs
    → IsNew a f g
    → Shows (names ++ take 31 a ∷ []) (set fs (length names) g)
new-Shows a names fs g f v named lt n = record {
  named = named;
  room = omega (arith, length_last names (take 31 a), length-set fs (length names) g);
  held = λ k b h. elim (get_elem?-append_last names (take 31 a) b k h) [
    | inl (k_lt, old) ↦
        let (x, at_k, has) = v.held k b old in
        (x, get_elem?-set_ne fs g (λ e. omega arith) ∙ at_k, has)
    | inr (e, same) ↦ (
      g,
      subst (λ j. get_elem? (set fs (length names) g) j ≡ some g) (sym e)
          (get_elem?-set_self fs (length names) g lt),
      record { used = n.used; named = n.named ∙ ap some same },
    )
  ];
  free = λ k x h ge.
      let last = length_last names (take 31 a) in
      v.free k x (sym (get_elem?-set_ne fs g (λ e. omega arith)) ∙ h) (omega arith);
}

-- What a creation answers, and what the slots show after it.
Created-settle :
    (a : List ℕ) (names : List (List ℕ)) (fs fs' : List VfsFile) (o : Option ℕ)
    → Shows names fs
    → Created a fs o fs'
    → ((settle (length fs) a names).0 ≡ o)
      × Shows (settle (length fs) a names).1 fs'
      × (length fs' ≡ length fs)
unfolding settle
Created-settle a names fs fs' o v (existing i found) =
    let e = Found-find_index a names fs (some i) v found in rw (e, settle) (refl, v, refl)
Created-settle a names fs fs' o v (no_space absent busy) =
    let e = Found-find_index a names fs none v absent in
    elim (Bool-cases (ltb (length names) (length fs))) [
      | inr gone ↦ rw (e, gone, settle) (refl, v, refl)
      | inl more ↦
          let (g, at_n) = get_elem?_of_lt fs (length names) (ground arith) in
          absurd (
            false≢true (
              sym (busy (length names) g at_n)
              ∙ ap not (v.free (length names) g at_n (omega arith))))
    ]
Created-settle a names fs fs' o v (new_file i f g absent m at_i n) =
    let e = Found-find_index a names fs none v absent in
    let last : i ≡ length names = first_free names fs i v m in
    let lt = get_elem?_lt fs i at_i in
    let more : ltb (length names) (length fs) ≡ true = ground (arith, last, lt) in
    let named = vfs_create-AllNamed a fs fs' o v.named (new_file i f g absent m at_i n) in
    rw (e, more, settle)
      (
        ap some (sym last),
        subst (λ k. Shows (names ++ take 31 a ∷ []) (set fs k g)) (sym last)
            (new-Shows a names fs g f v (subst (λ k. AllNamed (set fs k g)) last named)
              (omega arith) n),
        length-set fs i g,
      )

-- The arrays hold the names.
abbrev pub AllTexts : List Call → Type 0
AllTexts [] = Unit
AllTexts (opens s a ∷ cs) = (text s ≡ some a) × AllTexts cs
AllTexts (creates s a ∷ cs) = (text s ≡ some a) × AllTexts cs

-- On files that show a list of names (terminated names in their arrays, the n-th file in use
-- under the n-th name, and every other slot free), any row of calls of `vfs_open` and
-- `vfs_create` with terminated names returns, and answers as the list prescribes: `vfs_open`
-- the first place of the name; `vfs_create` that place too, and if there is none the end of the
-- list, where the first 31 bytes of the name are put while there are slots.
pub call_all-answers :
    (cs : List Call) (names : List (List ℕ)) (fs : List VfsFile)
    → Shows names fs
    → AllTexts cs
    → call_all cs fs ≡ some (answers (length fs) cs names)
unfolding call_all call answers answer
call_all-answers [] names fs v all = refl
call_all-answers (opens s a ∷ cs) names fs v (h, all) =
    let (o, e, found) = vfs_open-Found fs s a v.named h in
    let rest = call_all-answers cs names fs v all in
    rw (e, rest)
      (ap (λ x. some (x ∷ answers (length fs) cs names))
        (sym (Found-find_index a names fs o v found)))
call_all-answers (creates s a ∷ cs) names fs v (h, all) =
    let (o, fs', e, created) = vfs_create-Created fs s a v.named h in
    let (slot, v', size) = Created-settle a names fs fs' o v created in
    let names' = (settle (length fs) a names).1 in
    let rest = call_all-answers cs names' fs' v' all in
    rw (e, rest) (ap₂ (λ x n. some (x ∷ answers n cs names')) (sym slot) size)

-- Without files every slot is free.
pub unused-Shows :
    (fs : List VfsFile)
    → AllNamed fs
    → ((n : ℕ) (f : VfsFile) → get_elem? fs n ≡ some f → f.is_used ≡ false)
    → Shows [] fs
unused-Shows fs named unused = record {
  named = named;
  room = omega arith;
  held = λ n a h. cc;
  free = λ n f h le. unused n f h;
}
