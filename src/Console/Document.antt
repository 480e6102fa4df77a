-- ===== src/Console/Document.antt =====
-- `editor_handle_key` of edit.c against a plain text: the bytes of a file below `size`.
use burst_kernel_virtual_mac.Base.{
  ℕ, zero, suc, ◌+◌, ◌-◌, ◌≤◌, ◌<◌, ◌≡◌, ◌≢◌, ◌∙◌, refl, ap, sym, true, false, ◌||◌, Option, some,
  List, [], ◌∷◌, ◌++◌, arith, ◌==◌, ltb, length, get_elem?, set, store_lem, take, length-set,
  get_elem?-set_self, get_elem?-set_ne, get_elem?_lt, take-set, take-set_above, set-get_elem?,
  length-take, if◌then◌else◌, inl, inr, Bool-cases,
}
use burst_kernel_virtual_mac.Vfs.{VfsFile}
use burst_kernel_virtual_mac.Console.{
  Console, puts, show, with_file, with_data, remove_char, add_char, editor_redraw,
  editor_handle_key,
}

-- An editor at work on a file: the file's array has 4096 bytes, and a NUL at `size`, which is in it.
pub record IsEditing (i : ℕ) (f : VfsFile) (c : Console) : Type 0 where
  pub mode : c.in_editor_mode ≡ true
  pub current : c.current_file ≡ some i
  pub open_file : get_elem? c.files i ≡ some f
  pub fits : length f.contents ≡ 4096
  pub room : f.size ≤ 4095
  pub terminated : get_elem? f.contents f.size ≡ some 0

abbrev pub document : VfsFile → List ℕ
document f = take f.size f.contents

abbrev pub drop_last : List ℕ → List ℕ
drop_last [] = []
drop_last (x ∷ []) = []
drop_last (x ∷ y ∷ s) = x ∷ drop_last (y ∷ s)

-- What a key does to a text: backspace removes the last character, any other key is added while
-- there is room.
abbrev pub edited : ℕ → List ℕ → List ℕ
edited key text =
    if key == 8 || key == 127
    then drop_last text
    else if ltb (length text) 4095
    then text ++ key ∷ []
    else text

drop_last-take : (n : ℕ) (xs : List ℕ) → n < length xs → drop_last (take (suc n) xs) ≡ take n xs
drop_last-take n [] h = elim h [ ]
drop_last-take zero (x ∷ xs) h = refl
drop_last-take (suc n) (x ∷ []) h = absurd (omega arith)
drop_last-take (suc n) (x ∷ y ∷ xs) h = ap (λ t. x ∷ t) (drop_last-take n (y ∷ xs) (omega arith))

length-document : (f : VfsFile) → f.size ≤ length f.contents → length (document f) ≡ f.size
length-document f h = omega (arith, length-take f.size f.contents)

-- What a key leaves: an editor at work on the same file, which has the text after the key.
pub record Edited (cli_execute : List ℕ → Console → Option Console) (key i : ℕ) (f : VfsFile)
    (c : Console) : Type 0 where
  pub c' : Console
  pub f' : VfsFile
  pub returns : editor_handle_key cli_execute key c ≡ some c'
  pub editing : IsEditing i f' c'
  pub text : document f' ≡ edited key (document f)
  pub same_name : f'.name ≡ f.name
  pub others : (j : ℕ) → i ≢ j → get_elem? c'.files j ≡ get_elem? c.files j
  pub same_line : c'.line ≡ c.line
  pub files : c'.files ≡ set c.files i f'
  pub same_use : f'.is_used ≡ f.is_used
  pub same_router : c'.router ≡ c.router

-- The file after a key: the invariant on it, and its text.
record After (key : ℕ) (f f' : VfsFile) : Type 0 where
  fits : length f'.contents ≡ 4096
  room : f'.size ≤ 4095
  terminated : get_elem? f'.contents f'.size ≡ some 0
  text : document f' ≡ edited key (document f)

-- The file with its last character removed, and with one more.
abbrev shorter : VfsFile → VfsFile
shorter f = with_data (set f.contents (f.size - 1) 0) (f.size - 1) f

abbrev longer : ℕ → VfsFile → VfsFile
longer key f = with_data (set (set f.contents f.size key) (f.size + 1) 0) (f.size + 1) f

remove_char-shorter :
    (f : VfsFile) → f.size - 1 < length f.contents → remove_char f ≡ some (shorter f)
unfolding remove_char
remove_char-shorter f lt = rw (store_lem f.contents (f.size - 1) 0 lt) refl

add_char-longer :
    (key : ℕ) (f : VfsFile) → f.size + 1 < length f.contents → add_char key f ≡ some (longer key f)
unfolding add_char
add_char-longer key f lt =
    rw
      (
        store_lem f.contents f.size key (omega arith),
        store_lem (set f.contents f.size key) (f.size + 1) 0
            (omega (arith, length-set f.contents f.size key)),
      )
      refl

shorter-After :
    (key : ℕ) (f : VfsFile)
    → (key == 8 || key == 127) ≡ true
    → length f.contents ≡ 4096
    → 0 < f.size
    → f.size ≤ 4095
    → After key f (shorter f)
shorter-After key f back fits some_left room = record {
  fits = length-set f.contents (f.size - 1) 0 ∙ fits;
  room = omega arith;
  terminated = get_elem?-set_self f.contents (f.size - 1) 0 (omega arith);
  text = take-set_above (f.size - 1) (f.size - 1) f.contents 0 (omega arith) ∙ sym last;
}
  where
    size_suc : suc (f.size - 1) ≡ f.size
    size_suc = omega arith

    last : edited key (document f) ≡ take (f.size - 1) f.contents
    last = rw back (
        ap (λ n. drop_last (take n f.contents)) (sym size_suc)
        ∙ drop_last-take (f.size - 1) f.contents (omega arith))

longer-After :
    (key : ℕ) (f : VfsFile)
    → (key == 8 || key == 127) ≡ false
    → length f.contents ≡ 4096
    → f.size < 4095
    → After key f (longer key f)
longer-After key f char fits more = record {
  fits =
      length-set (set f.contents f.size key) (f.size + 1) 0
      ∙ length-set f.contents f.size key
      ∙ fits;
  room = omega arith;
  terminated =
      get_elem?-set_self (set f.contents f.size key) (f.size + 1) 0
        (omega (arith, length-set f.contents f.size key));
  text =
      take-set_above (f.size + 1) (f.size + 1) (set f.contents f.size key) 0 (omega arith)
      ∙ ap (λ n. take n (set f.contents f.size key)) size_suc
      ∙ take-set f.size f.contents key (omega arith)
      ∙ sym added;
}
  where
    size_suc : f.size + 1 ≡ suc f.size
    size_suc = omega arith

    room : ltb (length (document f)) 4095 ≡ true
    room = ground (arith, length-document f (omega arith))

    added : edited key (document f) ≡ document f ++ key ∷ []
    added = rw (char, room) refl

changed :
    (cli_execute : List ℕ → Console → Option Console) (key i : ℕ) (f f' : VfsFile) (c c' : Console)
    → IsEditing i f c
    → After key f f'
    → (f'.name ≡ f.name) × (f'.is_used ≡ f.is_used)
    → editor_handle_key cli_execute key c ≡ some c'
    → (c'.in_editor_mode ≡ true)
      × (c'.current_file ≡ some i)
      × (c'.files ≡ set c.files i f')
      × (c'.line ≡ c.line)
      × (c'.router ≡ c.router)
    → Edited cli_execute key i f c
changed cli_execute key i f f' c c' e after (same_name, same_use) returns
      (mode, current, files, line, router) =
    record {
      c' = c';
      f' = f';
      returns = returns;
      editing = record {
        mode = mode;
        current = current;
        open_file =
            ap (λ fs. get_elem? fs i) files
            ∙ get_elem?-set_self c.files i f' (get_elem?_lt c.files i e.open_file);
        fits = after.fits;
        room = after.room;
        terminated = after.terminated;
      };
      text = after.text;
      same_name = same_name;
      others = λ j ne. ap (λ fs. get_elem? fs j) files ∙ get_elem?-set_ne c.files f' ne;
      same_line = line;
      files = files;
      same_use = same_use;
      same_router = router;
    }

kept :
    (cli_execute : List ℕ → Console → Option Console) (key i : ℕ) (f : VfsFile) (c : Console)
    → IsEditing i f c
    → edited key (document f) ≡ document f
    → editor_handle_key cli_execute key c ≡ some c
    → Edited cli_execute key i f c
kept cli_execute key i f c e same returns = record {
  c' = c;
  f' = f;
  returns = returns;
  editing = e;
  text = sym same;
  same_name = refl;
  others = λ j ne. refl;
  same_line = refl;
  files = sym (set-get_elem? c.files i e.open_file);
  same_use = refl;
  same_router = refl;
}

-- For an editor at work on a file, whose size is at most 4095 and whose array has 4096 bytes
-- and a NUL at the size, every key but ESC returns and leaves the editor at work on the same
-- file, by the same name. Backspace and DEL remove the last character of the text; any other
-- key is added behind it while the text has fewer than 4095. The other files and the shell line
-- do not change.
pub editor_handle_key_lem :
    (cli_execute : List ℕ → Console → Option Console) (key i : ℕ) (f : VfsFile) (c : Console)
    → key ≢ 27
    → IsEditing i f c
    → Edited cli_execute key i f c
unfolding editor_handle_key
editor_handle_key_lem cli_execute key i f c not_esc e =
    let open_key : (key == 27) ≡ false = ground (arith, not_esc) in
    elim (Bool-cases (key == 8 || key == 127)) [
      | inl back ↦ elim (Bool-cases (ltb 0 f.size)) [
        | inl some_left ↦
            changed cli_execute key i f (shorter f) c
              (show (editor_redraw (shorter f)) (with_file i (shorter f) c)) e
              (shorter-After key f back e.fits (ground arith) e.room) (refl, refl)
              (rw
                (
                  open_key,
                  e.current,
                  e.open_file,
                  back,
                  some_left,
                  remove_char-shorter f (omega (arith, e.fits, e.room)),
                )
                refl)
              (e.mode, e.current, refl, refl, refl)
        | inr empty ↦
            let none_left : f.size ≡ 0 = ground arith in
            kept cli_execute key i f c e (rw (back, none_left) refl)
              (rw (open_key, e.current, e.open_file, back, empty) refl)
      ]
      | inr char ↦ elim (Bool-cases (ltb f.size 4095)) [
        | inl more ↦
            changed cli_execute key i f (longer key f) c
              (show (puts (key ∷ []) ∷ []) (with_file i (longer key f) c)) e
              (longer-After key f char e.fits (ground arith)) (refl, refl)
              (rw
                (
                  open_key,
                  e.current,
                  e.open_file,
                  char,
                  more,
                  add_char-longer key f (ground (arith, e.fits)),
                )
                refl)
              (e.mode, e.current, refl, refl, refl)
        | inr full ↦
            let no_room : ltb (length (document f)) 4095 ≡ false =
              ground (arith, length-document f (omega (arith, e.fits, e.room))) in
            kept cli_execute key i f c e (rw (char, no_room) refl)
              (rw (open_key, e.current, e.open_file, char, full) refl)
      ]
    ]
