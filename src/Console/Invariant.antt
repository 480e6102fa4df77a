-- ===== src/Console/Invariant.antt =====
-- The state of the console between two keys: the shell line, the files, and the editor's file.
use burst_kernel_virtual_mac.Base.{
  ℕ, zero, suc, ◌≤◌, ◌≡◌, ◌≢◌, ◌∙◌, refl, ap, sym, subst, true, false, Option, none, some, List, [],
  ◌∷◌, arith, length, get_elem?, set, length-set, get_elem?-set_self, get_elem?_lt,
}
use mathlib.Core.Option.{some-injective}
use mathlib.Core.Bool.{false≢true}
use burst_kernel_virtual_mac.Route.Laws.{AllMacs}
use burst_kernel_virtual_mac.Libc.Strings.{text}
use burst_kernel_virtual_mac.Vfs.{VfsFile, vfs_create}
use burst_kernel_virtual_mac.Vfs.Open.{IsNamed, AllNamed}
use burst_kernel_virtual_mac.Vfs.Create.{
  Created, existing, no_space, new_file, vfs_create-Created, vfs_create-AllNamed, AllNamed-get,
  AllNamed-set,
}
use burst_kernel_virtual_mac.Console.{
  Console, show, with_mode, cannot_open, editor_redraw, editor_start, editor_handle_key,
}
use burst_kernel_virtual_mac.Console.Document.{editor_handle_key_lem}
use burst_kernel_virtual_mac.Console.Complete.{IsLine}

-- A file's array has 4096 bytes, and a file in use a NUL behind its text.
pub record IsStored (f : VfsFile) : Type 0 where
  pub fits : length f.contents ≡ 4096
  pub room : f.size ≤ 4095
  pub terminated : f.is_used ≡ true → get_elem? f.contents f.size ≡ some 0

abbrev pub AllStored : List VfsFile → Type 0
AllStored [] = Unit
AllStored (f ∷ fs) = IsStored f × AllStored fs

pub AllStored-get :
    (fs : List VfsFile) (i : ℕ) (f : VfsFile) → AllStored fs → get_elem? fs i ≡ some f → IsStored f
AllStored-get [] i f h e = cc
AllStored-get (g ∷ fs) zero f h e = subst IsStored (some-injective _ _ e) h.0
AllStored-get (g ∷ fs) (suc i) f h e = AllStored-get fs i f h.1 e

pub AllStored-set :
    (fs : List VfsFile) (i : ℕ) (f : VfsFile) → AllStored fs → IsStored f → AllStored (set fs i f)
AllStored-set [] i f h v = tt
AllStored-set (g ∷ fs) zero f h v = (v, h.1)
AllStored-set (g ∷ fs) (suc i) f h v = (h.0, AllStored-set fs i f h.1 v)

-- The editor's file is one of the files, and in use.
pub record HasFile (files : List VfsFile) (current : Option ℕ) : Type 0 where
  pub index : ℕ
  pub file : VfsFile
  pub is_current : current ≡ some index
  pub found : get_elem? files index ≡ some file
  pub used : file.is_used ≡ true

pub record IsConsole (c : Console) : Type 0 where
  pub line : IsLine c.line
  pub named : AllNamed c.files
  pub stored : AllStored c.files
  pub editing : c.in_editor_mode ≡ true → HasFile c.files c.current_file
  pub hops : AllMacs c.router.routes.table

-- The console may change the routes, and nothing else of the router.
abbrev pub SameNet : Console → Console → Type 0
SameNet c c' = (c'.router.nat ≡ c.router.nat) × (c'.router.macs ≡ c.router.macs)

pub SameNet-trans : (a b c : Console) → SameNet a b → SameNet b c → SameNet a c
SameNet-trans a b c p q = (q.0 ∙ p.0, q.1 ∙ p.1)

-- What else changes does not matter.
pub IsConsole-same :
    (c c' : Console)
    → IsConsole c
    → c'.line ≡ c.line
    → c'.files ≡ c.files
    → c'.current_file ≡ c.current_file
    → c'.in_editor_mode ≡ c.in_editor_mode
    → AllMacs c'.router.routes.table
    → IsConsole c'
IsConsole-same c c' v line files current mode hops = record {
  line = subst IsLine (sym line) v.line;
  named = subst AllNamed (sym files) v.named;
  stored = subst AllStored (sym files) v.stored;
  editing = λ on.
      subst (λ fs. HasFile fs c'.current_file) (sym files)
        (subst (HasFile c.files) (sym current) (v.editing (sym mode ∙ on)));
  hops = hops;
}

pub Created-AllStored :
    (a : List ℕ) (fs fs' : List VfsFile) (o : Option ℕ)
    → AllStored fs
    → Created a fs o fs'
    → AllStored fs'
Created-AllStored a fs fs' o stored (existing i found) = stored
Created-AllStored a fs fs' o stored (no_space found full) = stored
Created-AllStored a fs fs' o stored (new_file i f g found m e n) =
    let old : IsStored f = AllStored-get fs i f stored e in
    AllStored-set fs i g stored (record {
      fits = ap length n.terminated ∙ length-set f.contents 0 0 ∙ old.fits;
      room = omega (arith, n.empty);
      terminated = λ used.
          ap (get_elem? g.contents) n.empty
          ∙ ap (λ s. get_elem? s 0) n.terminated
          ∙ get_elem?-set_self f.contents 0 0 (omega (arith, old.fits));
    })

-- The file that is answered is in use.
pub Created-HasFile :
    (a : List ℕ) (fs fs' : List VfsFile) (o : Option ℕ)
    → Created a fs o fs'
    → (i : ℕ) → o ≡ some i
    → HasFile fs' o
Created-HasFile a fs fs' o (existing k ((f, at_k, has), earlier)) i e = record {
  index = k;
  file = f;
  is_current = refl;
  found = at_k;
  used = has.used;
}
Created-HasFile a fs fs' o (no_space found full) i e = cc
Created-HasFile a fs fs' o (new_file k f g found m at_k n) i e = record {
  index = k;
  file = g;
  is_current = refl;
  found = get_elem?-set_self fs k g (get_elem?_lt fs k at_k);
  used = n.used;
}

-- Opening a file outside the editor.
pub editor_start-IsConsole :
    (filename a : List ℕ) (c : Console)
    → IsConsole c
    → c.in_editor_mode ≡ false
    → text filename ≡ some a
    → (c' : Console) × (editor_start filename c ≡ some c')
      × IsConsole c'
      × (c'.line ≡ c.line)
      × SameNet c c'
unfolding editor_start
editor_start-IsConsole filename a c v off h =
    let (o, fs', e, created) = vfs_create-Created c.files filename a v.named h in
    let named = vfs_create-AllNamed a c.files fs' o v.named created in
    let stored = Created-AllStored a c.files fs' o v.stored created in
    go o fs' e named stored (Created-HasFile a c.files fs' o created)
  where
    go :
        (o : Option ℕ) (fs' : List VfsFile)
        → vfs_create c.files filename ≡ some (o, fs')
        → AllNamed fs'
        → AllStored fs'
        → ((i : ℕ) → o ≡ some i → HasFile fs' o)
        → (c' : Console) × (editor_start filename c ≡ some c')
          × IsConsole c'
          × (c'.line ≡ c.line)
          × SameNet c c'
    go none fs' e named stored file = (
      show cannot_open (record c { files = fs'; current_file = none }),
      rw (e, editor_start) refl,
      record {
        line = v.line;
        named = named;
        stored = stored;
        editing = λ on. absurd (false≢true (sym off ∙ on));
        hops = v.hops;
      },
      refl,
      (refl, refl),
    )
    go (some i) fs' e named stored file =
        let has = file i refl in
        let at_i : get_elem? fs' i ≡ some has.file =
          ap (get_elem? fs') (some-injective _ _ has.is_current) ∙ has.found in
        (
          show (editor_redraw has.file)
              (with_mode true (record c { files = fs'; current_file = some i })),
          rw (e, at_i, editor_start) refl,
          record {
            line = v.line;
            named = named;
            stored = stored;
            editing = λ on. has;
            hops = v.hops;
          },
          refl,
          (refl, refl),
        )

-- A key for the editor, but ESC.
pub editor_handle_key-IsConsole :
    (cli_execute : List ℕ → Console → Option Console) (key : ℕ) (c : Console)
    → key ≢ 27
    → IsConsole c
    → c.in_editor_mode ≡ true
    → (c' : Console) × (editor_handle_key cli_execute key c ≡ some c') × IsConsole c' × SameNet c c'
editor_handle_key-IsConsole cli_execute key c not_esc v on =
    let has = v.editing on in
    let file = has.file in
    let old : IsStored file = AllStored-get c.files has.index file v.stored has.found in
    let e = editor_handle_key_lem cli_execute key has.index file c not_esc (record {
      mode = on;
      current = has.is_current;
      open_file = has.found;
      fits = old.fits;
      room = old.room;
      terminated = old.terminated has.used;
    }) in
    let name : IsNamed file = AllNamed-get c.files has.index file v.named has.found in
    let used : (e.f').is_used ≡ true = e.same_use ∙ has.used in
    let named : IsNamed e.f' = (
      ap length e.same_name ∙ name.0,
      λ u. let (a, t, short) = name.1 has.used in (a, ap text e.same_name ∙ t, short),
    ) in
    let stored : IsStored e.f' = record {
      fits = (e.editing).fits;
      room = (e.editing).room;
      terminated = λ u. (e.editing).terminated;
    } in
    (
      e.c',
      e.returns,
      record {
        line = subst IsLine (sym e.same_line) v.line;
        named = subst AllNamed (sym e.files) (AllNamed-set c.files has.index e.f' v.named named);
        stored =
            subst AllStored (sym e.files) (AllStored-set c.files has.index e.f' v.stored stored);
        editing = λ u. record {
          index = has.index;
          file = e.f';
          is_current = (e.editing).current;
          found = (e.editing).open_file;
          used = used;
        };
        hops = subst (λ r. AllMacs r.routes.table) (sym e.same_router) v.hops;
      },
      (ap (λ r. r.nat) e.same_router, ap (λ r. r.macs) e.same_router),
    )
