-- ===== src/Vfs/Tests.antt =====
-- Runs of the file system.
use burst_kernel_virtual_mac.Base.{
  ℕ, zero, suc, ◌≤◌, ◌∙◌, ap, sym, get_elem?, ◌≡◌, refl, true, false, Option, none, some, List, [],
  ◌∷◌, arith, replicate, set, find_index,
}
use mathlib.Core.Bool.{false≢true}
use mathlib.Core.Option
use burst_kernel_virtual_mac.Libc.{strcmp, strcpy, strlen}
use burst_kernel_virtual_mac.Libc.Strings.{text}
use burst_kernel_virtual_mac.Vfs.{
  VfsFile, default_file, vfs_init, vfs_open, vfs_create, create_new, copy_name,
}
use burst_kernel_virtual_mac.Vfs.Open.{AllNamed, HasName}
use burst_kernel_virtual_mac.Vfs.Spec.{Call, opens, creates, answers, call_all}
use burst_kernel_virtual_mac.Vfs.Traces.{Shows, call_all-answers}
use mathlib.Core.Option.{some-injective}
use burst_kernel_virtual_mac.Vfs.Create.{Created, vfs_create-Created}
use burst_kernel_virtual_mac.Vfs.RoundTrip.{vfs_open-create, vfs_open_long}

abbrev unused : VfsFile
unused = record { name = replicate 32 0; contents = replicate 4096 0; size = 0; is_used = false }

abbrev notes_name : List ℕ
notes_name = b'n' ∷ replicate 31 0

abbrev notes : VfsFile
notes = record { name = notes_name; contents = replicate 4096 0; size = 0; is_used = true }

abbrev system : List VfsFile
system = notes ∷ unused ∷ []

notes_text : text notes_name ≡ some (b'n' ∷ [])
unfolding text
notes_text = refl

system-AllNamed : AllNamed system
system-AllNamed = (
  (refl, λ used. (b'n' ∷ [], notes_text, omega arith)),
  ((refl, λ used. absurd (false≢true used)), tt),
)

abbrev wanted : List ℕ
wanted = b'a' ∷ b'b' ∷ 0 ∷ []

abbrev wanted_bytes : List ℕ
wanted_bytes = b'a' ∷ b'b' ∷ []

wanted_text : text wanted ≡ some wanted_bytes
unfolding text
wanted_text = refl

vfs_create-Created_example :
    (o : Option ℕ) × (fs' : List VfsFile) × (vfs_create system wanted ≡ some (o, fs'))
    × Created wanted_bytes system o fs'
vfs_create-Created_example =
    vfs_create-Created system wanted wanted_bytes system-AllNamed wanted_text

abbrev with_wanted : List VfsFile
with_wanted = set system 1 (record {
  name = set (set (set (replicate 32 0) 0 b'a') 1 b'b') 2 0;
  contents = set (replicate 4096 0) 0 0;
  size = 0;
  is_used = true;
})

created : vfs_create system wanted ≡ some (some 1, with_wanted)
unfolding vfs_create create_new copy_name vfs_open strcmp find_index
created = refl

vfs_open-create_example : vfs_open with_wanted wanted ≡ some (some 1)
vfs_open-create_example =
    vfs_open-create system with_wanted wanted wanted_bytes 1 system-AllNamed wanted_text
      (omega arith) created

abbrev long_name : List ℕ
long_name = replicate 40 b'x'

abbrev long_argument : List ℕ
long_argument =
    b'x' ∷ b'x' ∷ b'x' ∷ b'x' ∷ b'x' ∷ b'x' ∷ b'x' ∷ b'x' ∷ b'x' ∷ b'x' ∷ b'x' ∷ b'x' ∷ b'x' ∷ b'x'
    ∷ b'x' ∷ b'x' ∷ b'x' ∷ b'x' ∷ b'x' ∷ b'x' ∷ b'x' ∷ b'x' ∷ b'x' ∷ b'x' ∷ b'x' ∷ b'x' ∷ b'x'
    ∷ b'x' ∷ b'x' ∷ b'x' ∷ b'x' ∷ b'x' ∷ b'x' ∷ b'x' ∷ b'x' ∷ b'x' ∷ b'x' ∷ b'x' ∷ b'x' ∷ b'x' ∷ 0
    ∷ []

long_text : text long_argument ≡ some long_name
unfolding text
long_text = refl

vfs_open_long_example : vfs_open system long_argument ≡ some none
vfs_open_long_example =
    vfs_open_long system long_argument long_name system-AllNamed long_text (omega arith)

system_held :
    (n : ℕ) (a : List ℕ)
    → get_elem? ((b'n' ∷ []) ∷ []) n ≡ some a
    → (f : VfsFile) × (get_elem? system n ≡ some f) × HasName a f
system_held zero a h =
    (notes, refl, record { used = refl; named = notes_text ∙ ap some (some-injective _ _ h) })
system_held (suc n) a h = cc

system_free : (n : ℕ) (f : VfsFile) → get_elem? system n ≡ some f → 1 ≤ n → f.is_used ≡ false
system_free zero f h le = absurd (omega arith)
system_free (suc zero) f h le = ap (λ x. x.is_used) (some-injective _ _ (sym h))
system_free (suc (suc n)) f h le = cc

system-Shows : Shows ((b'n' ∷ []) ∷ []) system
system-Shows = record {
  named = system-AllNamed;
  room = omega arith;
  held = system_held;
  free = system_free;
}

-- A new file, one that is there, and a third one for which there is no room.
abbrev some_calls : List Call
some_calls =
    creates wanted wanted_bytes
    ∷ opens notes_name (b'n' ∷ [])
    ∷ creates long_argument long_name
    ∷ []

call_all-answers_example :
    call_all some_calls system ≡ some (answers 2 some_calls ((b'n' ∷ []) ∷ []))
call_all-answers_example =
    call_all-answers some_calls ((b'n' ∷ []) ∷ []) system system-Shows
      (wanted_text, (notes_text, (long_text, tt)))

-- After `vfs_init` the first slot has a file of 41 bytes.
default_size :
    Option.map (λ fs. Option.map (λ f. f.size) (get_elem? fs 0)) (vfs_init system) ≡ some (some 41)
unfolding vfs_init default_file vfs_create create_new copy_name vfs_open strcmp strcpy strlen
    find_index
default_size = refl
