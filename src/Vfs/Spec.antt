-- ===== src/Vfs/Spec.antt =====
-- What the files of vfs.c are for, without their arrays: the names in the order in which they were given,
-- each with its slot.
use burst_kernel_virtual_mac.Base.{
  ℕ, Bool, true, false, ◌&&◌, Option, none, some, List, [], ◌∷◌, ◌++◌, ltb, ◌==◌, length, take,
  find_index, if◌then◌else◌, ◌>>=◌,
}
use burst_kernel_virtual_mac.Vfs.{VfsFile, vfs_open, vfs_create}

abbrev pub same_text : List ℕ → List ℕ → Bool
same_text [] [] = true
same_text [] (y ∷ ys) = false
same_text (x ∷ xs) [] = false
same_text (x ∷ xs) (y ∷ ys) = x == y && same_text xs ys

-- A call, with the array that holds the name, and the name.
pub data Call : Type 0 where
  opens creates : List ℕ → List ℕ → Call

-- The slot of a new name: the first free one. At most 31 bytes of a name are kept.
unfoldable pub settle : ℕ → List ℕ → List (List ℕ) → Option ℕ × List (List ℕ)
settle slots a names = elim (find_index (same_text a) names) [
  | some i ↦ (some i, names)
  | none ↦
      if ltb (length names) slots
      then (some (length names), names ++ take 31 a ∷ [])
      else (none, names)
]

-- The slot that a call answers, and the names after it.
unfoldable pub answer : ℕ → Call → List (List ℕ) → Option ℕ × List (List ℕ)
answer slots (opens s a) names = (find_index (same_text a) names, names)
answer slots (creates s a) names = settle slots a names

unfoldable pub answers : ℕ → List Call → List (List ℕ) → List (Option ℕ)
answers slots [] names = []
answers slots (c ∷ cs) names = (answer slots c names).0 ∷ answers slots cs (answer slots c names).1

-- The same with the code of vfs.c.
unfoldable pub call : Call → List VfsFile → Option (Option ℕ × List VfsFile)
call (opens s a) fs = do o ← vfs_open fs s; some (o, fs)
call (creates s a) fs = vfs_create fs s

unfoldable pub call_all : List Call → List VfsFile → Option (List (Option ℕ))
call_all [] fs = some []
call_all (c ∷ cs) fs = do (o, fs') ← call c fs; rest ← call_all cs fs'; some (o ∷ rest)
