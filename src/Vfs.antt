-- ===== src/Vfs.antt =====
-- vfs.c: ten files in memory. A name is an array of 32 bytes, a file's data one of 4096; pointers to
-- files are indices. The strings given as arguments are arrays, as in Libc.antt.
pub mod Open
pub mod Create
pub mod RoundTrip
pub mod Spec
pub mod Traces
mod Tests
use burst_kernel_virtual_mac.Base.{
  ℕ, codes, ◌++◌, drop, zero, suc, ◌+◌, Bool, true, false, not, Option, none, some, List, [], ◌∷◌,
  ltb, ◌==◌, set, store, replicate, get_elem?, find_index, map, if◌then◌else◌, ◌>>=◌, length,
}
use mathlib.Core.Option
use burst_kernel_virtual_mac.Base.Int.{ℤ, pos, negsuc}
use burst_kernel_virtual_mac.Libc.{strcmp, strlen, strcpy}

abbrev pub max_vfs_files : ℕ
max_vfs_files = 10

abbrev pub max_file_name : ℕ
max_file_name = 32

abbrev pub max_file_size : ℕ
max_file_size = 4096

-- `struct vfs_file`; `is_used` is 0 or 1.
pub record VfsFile : Type 0 where
  pub name : List ℕ
  pub contents : List ℕ
  pub size : ℕ
  pub is_used : Bool

abbrev pub is_zero : ℤ → Bool
is_zero (pos n) = n == 0
is_zero (negsuc n) = false

-- The index of the first used file of that name, from the files that are left.
unfoldable pub vfs_open : List VfsFile → List ℕ → Option (Option ℕ)
vfs_open [] name = some none
vfs_open (f ∷ fs) name =
    let rest = Option.map (Option.map suc) (vfs_open fs name) in
    if f.is_used
    then (do r ← strcmp f.name name; if is_zero r then some (some 0) else rest)
    else rest

-- `while (name[j] != '\0' && j < MAX_FILE_NAME - 1)`, and the NUL behind; `s` is `name` from `j` on.
unfoldable pub copy_name : List ℕ → ℕ → List ℕ → Option (List ℕ)
copy_name [] j dest = none
copy_name (c ∷ s) j dest =
    let rest = (do dest' ← store dest j c; copy_name s (j + 1) dest') in
    if c == 0 then store dest j 0 else if ltb j 31 then rest else store dest j 0

abbrev pub is_free : VfsFile → Bool
is_free f = not f.is_used

-- "Find free slot", for a name that no file has.
unfoldable pub create_new : List VfsFile → List ℕ → Option (Option ℕ × List VfsFile)
create_new fs name = elim (find_index is_free fs) [
  | none ↦ some (none, fs)
  | some i ↦ do
    f ← get_elem? fs i
    copied ← copy_name name 0 f.name
    let f' : VfsFile = record {
      name = copied;
      contents = set f.contents 0 0;
      size = 0;
      is_used = true;
    }
    some (some i, set fs i f')
]

-- The file's index, if there is one, and the files after the call.
unfoldable pub vfs_create : List VfsFile → List ℕ → Option (Option ℕ × List VfsFile)
vfs_create fs name = do
  existing ← vfs_open fs name
  let created = create_new fs name
  elim existing [ none ↦ created | some i ↦ some (some i, fs) ]

-- `vfs_list`: the names that it prints, in order, and nothing for an empty system.
unfoldable pub vfs_list : List VfsFile → List (List ℕ)
vfs_list [] = []
vfs_list (f ∷ fs) = if f.is_used then f.name ∷ vfs_list fs else vfs_list fs

-- Every file unused and of size 0; the names and the data stay as they are.
abbrev pub clear_files : List VfsFile → List VfsFile
clear_files [] = []
clear_files (f ∷ fs) =
    record { name = f.name; contents = f.contents; size = 0; is_used = false } ∷ clear_files fs

-- `strcpy(f->data, text); f->size = strlen(f->data);`, if the file was created. The text with its NUL
-- replaces the bytes at the beginning of the data.
unfoldable pub default_file : List ℕ → List ℕ → List VfsFile → Option (List VfsFile)
default_file name text fs = do
  (o, fs') ← vfs_create fs name
  elim o [
    | none ↦ some fs'
    | some i ↦ do
      f ← get_elem? fs' i
      bytes ← strcpy text
      let filled : List ℕ = bytes ++ drop (length bytes) f.contents
      size ← strlen filled
      let f' : VfsFile = record {
        name = f.name;
        contents = filled;
        size = size;
        is_used = f.is_used;
      }
      some (set fs' i f')
  ]

-- The files that there are after `vfs_init`, from those in memory before it.
unfoldable pub vfs_init : List VfsFile → Option (List VfsFile)
vfs_init fs = do
  fs₁ ←
      default_file (codes "version" ++ 0 ∷ [])
        (codes "NKernel v1.0 (Unikernel Router) - x86_64\n" ++ 0 ∷ []) (clear_files fs)
  default_file (codes "readme.txt" ++ 0 ∷ [])
      (codes
          "Welcome to NKernel VFS!\nThis file is stored in RAM.\nUse 'edit readme.txt' to modify it.\n"
        ++ 0 ∷ [])
      fs₁
