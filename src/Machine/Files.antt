-- ===== src/Machine/Files.antt =====
-- `vfs_init` of vfs.c: the files that the machine starts with.
use burst_kernel_virtual_mac.Base.{
  ℕ, codes, ◌≤◌, ◌≡◌, ◌∙◌, refl, ap, false, Option, none, some, List, [], ◌==◌, inl, inr, ◌∷◌, ◌++◌,
  arith, length, get_elem?, set, drop, length-append, length-drop,
}
use mathlib.Core.Option
use mathlib.Core.Option.{some-injective}
use mathlib.Core.Bool.{false≢true}
use burst_kernel_virtual_mac.Libc.{strlen, strcpy}
use burst_kernel_virtual_mac.Libc.Strings.{text, text-cons, strlen-text, strcpy-text}
use burst_kernel_virtual_mac.Vfs.{VfsFile, vfs_create, clear_files, default_file, vfs_init}
use burst_kernel_virtual_mac.Vfs.Open.{AllNamed}
use burst_kernel_virtual_mac.Vfs.Create.{
  vfs_create-Created, vfs_create-AllNamed, AllNamed-get, AllNamed-set,
}
use burst_kernel_virtual_mac.Console.Invariant.{
  IsStored, AllStored, AllStored-get, AllStored-set, HasFile, Created-AllStored, Created-HasFile,
}

-- The arrays of `struct vfs_file`.
abbrev pub AllSized : List VfsFile → Type 0
AllSized [] = Unit
AllSized (f ∷ fs) = (length f.name ≡ 32) × (length f.contents ≡ 4096) × AllSized fs

clear_files-AllNamed : (fs : List VfsFile) → AllSized fs → AllNamed (clear_files fs)
clear_files-AllNamed [] h = tt
clear_files-AllNamed (f ∷ fs) (name, contents, rest) =
    ((name, λ used. absurd (false≢true used)), clear_files-AllNamed fs rest)

clear_files-AllStored : (fs : List VfsFile) → AllSized fs → AllStored (clear_files fs)
clear_files-AllStored [] h = tt
clear_files-AllStored (f ∷ fs) (name, contents, rest) = (
  record { fits = contents; room = omega arith; terminated = λ used. absurd (false≢true used) },
  clear_files-AllStored fs rest,
)

-- The text that is copied to the beginning of an array, with its NUL.
text-filled :
    (b rest : List ℕ) (s : List ℕ) → text s ≡ some b → text ((b ++ 0 ∷ []) ++ rest) ≡ some b
unfolding text
text-filled b rest [] h = cc
text-filled b rest (c ∷ s) h = elim (text-cons c s b h) [
  | inl p ↦ rw (p.1) refl
  | inr (b1, n, e, q) ↦
      let other : (c == 0) ≡ false = ground (arith, n) in
      rw (q, other) (ap (Option.map (λ t. c ∷ t)) (text-filled b1 rest s e))
]

at_nul : (b rest : List ℕ) → get_elem? ((b ++ 0 ∷ []) ++ rest) (length b) ≡ some 0
at_nul [] rest = refl
at_nul (x ∷ b) rest = at_nul b rest

-- The files and their invariants.
abbrev Kept : Option (List VfsFile) → Type 0
Kept o = (fs' : List VfsFile) × (o ≡ some fs') × AllNamed fs' × AllStored fs'

default_file-Kept :
    (name contents a b : List ℕ) (fs : List VfsFile)
    → text name ≡ some a
    → text contents ≡ some b
    → length b ≤ 4095
    → AllNamed fs
    → AllStored fs
    → Kept (default_file name contents fs)
unfolding default_file
default_file-Kept name contents a b fs h k short named stored =
    let (o, fs', e, created) = vfs_create-Created fs name a named h in
    let named' = vfs_create-AllNamed a fs fs' o named created in
    let stored' = Created-AllStored a fs fs' o stored created in
    go o fs' e named' stored' (Created-HasFile a fs fs' o created)
  where
    go :
        (o : Option ℕ) (fs' : List VfsFile)
        → vfs_create fs name ≡ some (o, fs')
        → AllNamed fs'
        → AllStored fs'
        → ((i : ℕ) → o ≡ some i → HasFile fs' o)
        → Kept (default_file name contents fs)
    go none fs' e named' stored' file = (fs', rw (e, default_file) refl, named', stored')
    go (some i) fs' e named' stored' file =
        let has = file i refl in
        let f = has.file in
        let at_i : get_elem? fs' i ≡ some f =
          ap (get_elem? fs') (some-injective _ _ has.is_current) ∙ has.found in
        let old : IsStored f = AllStored-get fs' i f stored' at_i in
        let bytes : List ℕ = b ++ 0 ∷ [] in
        let filled : List ℕ = bytes ++ drop (length bytes) f.contents in
        let copied : strcpy contents ≡ some bytes =
          strcpy-text contents ∙ ap (Option.map (λ t. t ++ 0 ∷ [])) k in
        let counted : strlen filled ≡ some (length b) =
          strlen-text filled ∙ ap (Option.map length) (text-filled b _ contents k) in
        let f' : VfsFile = record {
          name = f.name;
          contents = filled;
          size = length b;
          is_used = f.is_used;
        } in
        (
          set fs' i f',
          rw (e, at_i, copied, counted, default_file) refl,
          AllNamed-set fs' i f' named' (AllNamed-get fs' i f named' at_i),
          AllStored-set fs' i f' stored' (record {
            fits = omega (
              arith,
              length-append bytes (drop (length bytes) f.contents),
              length-append b (0 ∷ []),
              length-drop (length bytes) f.contents,
              old.fits,
            );
            room = short;
            terminated = λ used. at_nul b (drop (length bytes) f.contents);
          }),
        )

-- Whatever the arrays hold, `vfs_init` returns, and the files are well-formed.
pub vfs_init-Kept : (fs : List VfsFile) → AllSized fs → Kept (vfs_init fs)
unfolding vfs_init text
vfs_init-Kept fs sized =
    let (fs1, e, named, stored) =
      default_file-Kept (codes "version" ++ 0 ∷ [])
        (codes "NKernel v1.0 (Unikernel Router) - x86_64\n" ++ 0 ∷ []) (codes "version")
        (codes "NKernel v1.0 (Unikernel Router) - x86_64\n") (clear_files fs) refl refl
        (omega arith) (clear_files-AllNamed fs sized) (clear_files-AllStored fs sized) in
    let (fs2, f, named2, stored2) =
      default_file-Kept (codes "readme.txt" ++ 0 ∷ [])
        (codes
            "Welcome to NKernel VFS!\nThis file is stored in RAM.\nUse 'edit readme.txt' to modify it.\n"
          ++ 0 ∷ [])
        (codes "readme.txt")
        (codes
          "Welcome to NKernel VFS!\nThis file is stored in RAM.\nUse 'edit readme.txt' to modify it.\n")
        fs1 refl refl (omega arith) named stored in
    (fs2, rw (e, f) refl, named2, stored2)
