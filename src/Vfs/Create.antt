-- ===== src/Vfs/Create.antt =====
-- `vfs_create` of vfs.c: the copy of the name, and the slot that is taken.
use burst_kernel_virtual_mac.Base.{
  ℕ, zero, suc, ◌+◌, ◌-◌, ◌≤◌, ◌<◌, ◌≡◌, ◌≢◌, ◌∙◌, refl, ap, sym, subst, true, false, Option, none,
  some, List, [], ◌∷◌, arith, ◌==◌, length, get_elem?, set, store_lem, take, drop, length-set,
  replicate, get_elem?-set_self, get_elem?-set_ne, find_index, length-take, FirstMatch,
  find_index-FirstMatch, find_index-none, inl, inr, Bool-cases, Option-cases, ltb,
}
use mathlib.Core.Option.{some-injective}
use burst_kernel_virtual_mac.Libc.Strings.{text, text-cons}
use burst_kernel_virtual_mac.Vfs.{VfsFile, copy_name, vfs_open, is_free, create_new, vfs_create}
use burst_kernel_virtual_mac.Vfs.Open.{IsNamed, AllNamed, Found, vfs_open-Found}

drop-cons : (xs : List ℕ) (j c : ℕ) → get_elem? xs j ≡ some c → drop j xs ≡ c ∷ drop (suc j) xs
drop-cons [] j c h = cc
drop-cons (x ∷ xs) zero c h = ap (λ y. y ∷ xs) (some-injective _ _ h)
drop-cons (x ∷ xs) (suc j) c h = drop-cons xs j c h

-- The text from `j` on, and nothing below `j` changed.
record Copied (a : List ℕ) (j : ℕ) (dest copied : List ℕ) : Type 0 where
  same_size : length copied ≡ 32
  below : (i : ℕ) → i < j → get_elem? copied i ≡ get_elem? dest i
  rest : text (drop j copied) ≡ some (take (31 - j) a)

text_zero : (xs : List ℕ) (j : ℕ) → get_elem? xs j ≡ some 0 → text (drop j xs) ≡ some []
unfolding text
text_zero xs j h = rw (drop-cons xs j 0 h) refl

take-31 : (a : List ℕ) (j : ℕ) → 31 ≤ j → take (31 - j) a ≡ []
take-31 a j h = let none_left : (31 - j) ≡ 0 = omega arith in rw none_left refl

stop :
    (j : ℕ) (dest a : List ℕ)
    → length dest ≡ 32
    → j ≤ 31
    → take (31 - j) a ≡ []
    → Copied a j dest (set dest j 0)
stop j dest a l le e = record {
  same_size = length-set dest j 0 ∙ l;
  below = λ i lt. get_elem?-set_ne dest 0 (λ q. omega arith);
  rest = text_zero (set dest j 0) j (get_elem?-set_self dest j 0 (omega arith)) ∙ ap some (sym e);
}

take-nil : (n : ℕ) → take n (replicate 0 n) ≡ []
take-nil zero = refl
take-nil (suc n) = refl

Copied-step :
    (c j : ℕ) (dest b r : List ℕ)
    → c ≢ 0
    → j < 31
    → length dest ≡ 32
    → Copied b (j + 1) (set dest j c) r
    → Copied (c ∷ b) j dest r
unfolding text
Copied-step c j dest b r n lt l z = record {
  same_size = z.same_size;
  below = λ i i_lt. z.below i (omega arith) ∙ get_elem?-set_ne dest c (λ k. omega arith);
  rest = rest;
}
  where
    here : get_elem? r j ≡ some c
    here = z.below j (omega arith) ∙ get_elem?-set_self dest j c (omega arith)

    next : suc j ≡ j + 1
    next = omega arith

    step : (31 - j) ≡ suc (31 - (j + 1))
    step = omega arith

    open_c : (c == 0) ≡ false
    open_c = ground (arith, n)

    rest : text (drop j r) ≡ some (take (31 - j) (c ∷ b))
    rest =
        ap text (drop-cons r j c here ∙ ap (λ k. c ∷ drop k r) next)
        ∙ rw (open_c, z.rest, step) refl

copy_name-Copied :
    (s : List ℕ) (j : ℕ) (dest a : List ℕ)
    → text s ≡ some a
    → length dest ≡ 32
    → j ≤ 31
    → (r : List ℕ) × (copy_name s j dest ≡ some r) × Copied a j dest r
unfolding copy_name
copy_name-Copied [] j dest a h l le = absurd (unfold text in cc)
copy_name-Copied (c ∷ s) j dest a h l le = elim (text-cons c s a h) [
  | inl p ↦ (
    set dest j 0,
    rw (p.0) (store_lem dest j 0 (omega arith)),
    stop j dest a l le (rw (p.1) (take-nil (31 - j))),
  )
  | inr (b, n, e, q) ↦
      let open_c : (c == 0) ≡ false = ground (arith, n) in
      elim (Bool-cases (ltb j 31)) [
        | inr full ↦ (
          set dest j 0,
          rw (open_c, full) (store_lem dest j 0 (omega arith)),
          stop j dest a l le (take-31 a j (ground arith)),
        )
        | inl more ↦
            let (r, f, z) =
              copy_name-Copied s (j + 1) (set dest j c) b e (length-set dest j c ∙ l)
                (ground arith) in
            (
              r,
              rw (open_c, more, store_lem dest j c (omega arith)) f,
              rw q (Copied-step c j dest b r n (ground arith) l z),
            )
      ]
]

pub AllNamed-get :
    (fs : List VfsFile) (i : ℕ) (f : VfsFile) → AllNamed fs → get_elem? fs i ≡ some f → IsNamed f
AllNamed-get [] i f named h = cc
AllNamed-get (g ∷ fs) zero f named h = subst IsNamed (some-injective _ _ h) named.0
AllNamed-get (g ∷ fs) (suc i) f named h = AllNamed-get fs i f named.1 h

pub AllNamed-set :
    (fs : List VfsFile) (i : ℕ) (f : VfsFile) → AllNamed fs → IsNamed f → AllNamed (set fs i f)
AllNamed-set [] i f named h = tt
AllNamed-set (g ∷ fs) zero f named h = (h, named.1)
AllNamed-set (g ∷ fs) (suc i) f named h = (named.0, AllNamed-set fs i f named.1 h)

length-take-31 : (n : ℕ) (a : List ℕ) → length (take n a) ≤ n
length-take-31 n a = omega (arith, length-take n a)

-- The new file: its name is the first 31 bytes of what was asked for, it is empty and in use.
pub record IsNew (a : List ℕ) (f g : VfsFile) : Type 0 where
  pub named : text g.name ≡ some (take 31 a)
  pub fits : length g.name ≡ 32
  pub used : g.is_used ≡ true
  pub empty : g.size ≡ 0
  pub terminated : g.contents ≡ set f.contents 0 0

pub IsNew-IsNamed : (a : List ℕ) (f g : VfsFile) → IsNew a f g → IsNamed g
IsNew-IsNamed a f g n = (n.fits, λ u. (take 31 a, n.named, length-take-31 31 a))

-- What `vfs_create` does: the file is there; or there is no room; or the first free slot is taken.
pub data Created (a : List ℕ) (fs : List VfsFile) : Option ℕ → List VfsFile → Type 0 where
  existing : (i : ℕ) → Found a fs (some i) → Created a fs (some i) fs
  no_space :
      Found a fs none
      → ((j : ℕ) (f : VfsFile) → get_elem? fs j ≡ some f → is_free f ≡ false)
      → Created a fs none fs
  new_file :
      (i : ℕ) (f g : VfsFile)
      → Found a fs none
      → FirstMatch is_free fs i
      → get_elem? fs i ≡ some f
      → IsNew a f g
      → Created a fs (some i) (set fs i g)

new_lem :
    (fs : List VfsFile) (name a : List ℕ) (i : ℕ)
    → AllNamed fs
    → text name ≡ some a
    → find_index is_free fs ≡ some i
    → Found a fs none
    → (fs' : List VfsFile) × (create_new fs name ≡ some (some i, fs')) × Created a fs (some i) fs'
unfolding create_new
new_lem fs name a i named h free absent =
    let m = find_index-FirstMatch is_free fs i free in
    let fits : length (m.elem).name ≡ 32 = (AllNamed-get fs i m.elem named m.at_index).0 in
    let (r, e, z) = copy_name-Copied name 0 (m.elem).name a h fits (omega arith) in
    (
      set fs i
          (record { name = r; contents = set (m.elem).contents 0 0; size = 0; is_used = true }),
      rw (free, m.at_index, e, create_new) refl,
      new_file i m.elem _ absent m m.at_index (record {
        named = z.rest;
        fits = z.same_size;
        used = refl;
        empty = refl;
        terminated = refl;
      }),
    )

-- Where all names are terminated in their arrays, and the argument is terminated, `vfs_create`
-- returns the first file of that name, if there is one; or nothing, if there is none and every
-- slot is in use; or else the first free slot, with the first 31 bytes of the argument as its
-- name, in use and empty. The other files do not change.
pub vfs_create-Created :
    (fs : List VfsFile) (name a : List ℕ)
    → AllNamed fs
    → text name ≡ some a
    → (o : Option ℕ) × (fs' : List VfsFile) × (vfs_create fs name ≡ some (o, fs'))
      × Created a fs o fs'
unfolding vfs_create create_new
vfs_create-Created fs name a named h =
    let (o, e, found) = vfs_open-Found fs name a named h in go o e found
  where
    go :
        (o : Option ℕ)
        → vfs_open fs name ≡ some o
        → Found a fs o
        → (o' : Option ℕ) × (fs' : List VfsFile) × (vfs_create fs name ≡ some (o', fs'))
          × Created a fs o' fs'
    go (some i) e found = (some i, fs, rw e refl, existing i found)
    go none e found = elim (Option-cases (find_index is_free fs)) [
      | inl full ↦ (
        none,
        fs,
        rw (e, full, create_new) refl,
        no_space found (find_index-none is_free fs full),
      )
      | inr (i, free) ↦
          let (fs', f, c) = new_lem fs name a i named h free found in (some i, fs', rw e f, c)
    ]

-- The invariant: whatever is created, used files keep terminated names.
pub vfs_create-AllNamed :
    (a : List ℕ) (fs fs' : List VfsFile) (o : Option ℕ)
    → AllNamed fs
    → Created a fs o fs'
    → AllNamed fs'
vfs_create-AllNamed a fs fs' o named (existing i found) = named
vfs_create-AllNamed a fs fs' o named (no_space found full) = named
vfs_create-AllNamed a fs fs' o named (new_file i f g found m e n) =
    AllNamed-set fs i g named (IsNew-IsNamed a f g n)
