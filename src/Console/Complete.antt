-- ===== src/Console/Complete.antt =====
-- `cli_autocomplete` of cli.c against the characters that were typed: a line in its buffer, and
-- what a completion adds to it.
use burst_kernel_virtual_mac.Base.{
  ℕ, codes, zero, suc, ◌+◌, ◌-◌, ◌≤◌, ◌<◌, ◌≡◌, ◌∙◌, refl, ap, sym, Bool, true, false, Option, none,
  some, List, [], ◌∷◌, ◌++◌, arith, ◌==◌, ltb, length, set, store_lem, take, drop, length-set,
  length-drop, take-set, take-set_above, append_assoc, append_nil, if◌then◌else◌, inl, inr,
  Bool-cases,
}
use mathlib.Core.Option
use mathlib.Core.Option.{some-injective}
use burst_kernel_virtual_mac.Base.Int.{ℤ, pos, sub_ℕ}
use burst_kernel_virtual_mac.Libc.{strncmp, strlen}
use burst_kernel_virtual_mac.Libc.Strings.{text, text-cons, strlen-text}
use burst_kernel_virtual_mac.Vfs.{VfsFile, is_zero}
use burst_kernel_virtual_mac.Vfs.Open.{AllNamed}
use burst_kernel_virtual_mac.Console.{
  Line, Output, puts, each_char, append_rest, commands, first_match, first_file, starts_with,
  complete_file, cli_autocomplete,
}

-- A line in its buffer, with room for the NUL.
pub record IsLine (l : Line) : Type 0 where
  pub fits : length l.buf ≡ 256
  pub room : l.idx ≤ 255

abbrev pub typed : Line → List ℕ
typed l = take l.idx l.buf

-- The line after some characters were added, and echoed.
pub record Appended (s : List ℕ) (l : Line) (r : Line × List Output) : Type 0 where
  pub line : IsLine r.0
  pub added : typed r.0 ≡ typed l ++ s
  pub echoed : r.1 ≡ each_char s

unchanged : (l : Line) → IsLine l → Appended [] l (l, [])
unchanged l v = record { line = v; added = sym (append_nil (typed l)); echoed = refl }

one_more :
    (a : ℕ) (s : List ℕ) (l : Line) (r : Line × List Output)
    → IsLine l
    → l.idx < 255
    → Appended s (record { buf = set l.buf l.idx a; idx = l.idx + 1 }) r
    → Appended (a ∷ s) l (r.0, puts (a ∷ []) ∷ r.1)
one_more a s l r v lt p = record {
  line = p.line;
  added =
      p.added
      ∙ ap (λ n. take n (set l.buf l.idx a) ++ s) next
      ∙ ap (λ t. t ++ s) (take-set l.idx l.buf a (omega (arith, v.fits)))
      ∙ append_assoc (typed l) (a ∷ []) s;
  echoed = ap (λ t. puts (a ∷ []) ∷ t) p.echoed;
}
  where
    next : l.idx + 1 ≡ suc l.idx
    next = omega arith

-- As much of the text is added as the buffer has room for.
pub append_rest-Appended :
    (s : List ℕ) (l : Line)
    → IsLine l
    → (r : Line × List Output) × (append_rest s 256 l ≡ some r)
      × Appended (take (255 - l.idx) s) l r
unfolding append_rest
append_rest-Appended [] l v = ((l, []), refl, rw (take_nil (255 - l.idx)) (unchanged l v))
  where
    take_nil : (n : ℕ) → take {A = ℕ} n [] ≡ []
    take_nil zero = refl
    take_nil (suc n) = refl
append_rest-Appended (a ∷ s) l v = elim (Bool-cases (ltb l.idx 255)) [
  | inr full ↦
      let none_left : 255 - l.idx ≡ 0 = ground arith in
      ((l, []), rw full refl, rw none_left (unchanged l v))
  | inl more ↦
      let l' : Line = record { buf = set l.buf l.idx a; idx = l.idx + 1 } in
      let v' : IsLine l' = record {
        fits = length-set l.buf l.idx a ∙ v.fits;
        room = ground arith;
      } in
      let step : 255 - l.idx ≡ suc (255 - (l.idx + 1)) = ground arith in
      let (r, e, p) = append_rest-Appended s l' v' in
      (
        (r.0, puts (a ∷ []) ∷ r.1),
        rw (more, store_lem l.buf l.idx a (ground (arith, v.fits)), e) refl,
        rw step (one_more a (take (255 - (l.idx + 1)) s) l r v (ground arith) p),
      )
]

-- `strncmp` returns where one string is terminated and the other has `n` bytes.
strncmp-returns :
    (s t a : List ℕ) (n : ℕ) → text t ≡ some a → n ≤ length s → (r : ℤ) × (strncmp s t n ≡ some r)
unfolding strncmp
strncmp-returns s t a zero h le = (pos 0, refl)
strncmp-returns [] t a (suc n) h le = absurd (omega arith)
strncmp-returns (c ∷ s) [] a (suc n) h le = absurd (unfold text in cc)
strncmp-returns (c ∷ s) (d ∷ t) a (suc n) h le = elim (Bool-cases (c == 0)) [
  | inl z ↦ (sub_ℕ c d, rw z refl)
  | inr open_c ↦ elim (Bool-cases (c == d)) [
    | inr differ ↦ (sub_ℕ c d, rw (open_c, differ) refl)
    | inl same ↦ elim (text-cons d t a h) [
      | inl p ↦ absurd (ground arith)
      | inr (b, m, e, q) ↦
          let (r, f) = strncmp-returns s t b n e (omega arith) in (r, rw (open_c, same, f) refl)
    ]
  ]
]

pub strncmp-returns_left :
    (s t a : List ℕ) (n : ℕ) → text s ≡ some a → n ≤ length t → (r : ℤ) × (strncmp s t n ≡ some r)
unfolding strncmp
strncmp-returns_left s t a zero h le = (pos 0, refl)
strncmp-returns_left [] t a (suc n) h le = absurd (unfold text in cc)
strncmp-returns_left (c ∷ s) [] a (suc n) h le = absurd (omega arith)
strncmp-returns_left (c ∷ s) (d ∷ t) a (suc n) h le = elim (Bool-cases (c == 0)) [
  | inl z ↦ (sub_ℕ c d, rw z refl)
  | inr open_c ↦ elim (Bool-cases (c == d)) [
    | inr differ ↦ (sub_ℕ c d, rw (open_c, differ) refl)
    | inl same ↦ elim (text-cons c s a h) [
      | inl p ↦ absurd (ground arith)
      | inr (b, m, e, q) ↦
          let (r, f) = strncmp-returns_left s t b n e (omega arith) in
          (r, rw (open_c, same, f) refl)
    ]
  ]
]

pub text-append : (t : List ℕ) → (a : List ℕ) × (text (t ++ 0 ∷ []) ≡ some a)
unfolding text
text-append [] = ([], refl)
text-append (c ∷ t) = elim (Bool-cases (c == 0)) [
  | inl z ↦ ([], rw z refl)
  | inr n ↦ let (a, e) = text-append t in (c ∷ a, rw (n, e) refl)
]

first_match-returns :
    (ts : List (List ℕ)) (s : List ℕ) (n : ℕ)
    → n ≤ length s
    → (o : Option (List ℕ)) × (first_match ts s n ≡ some o)
unfolding first_match
first_match-returns [] s n le = (none, refl)
first_match-returns (t ∷ ts) s n le =
    let (a, e) = text-append t in
    let (r, f) = strncmp-returns s (t ++ 0 ∷ []) a n e le in
    elim (Bool-cases (is_zero r)) [
      | inl z ↦ (some t, rw (f, z) refl)
      | inr nz ↦ let (o, g) = first_match-returns ts s n le in (o, rw (f, nz, g) refl)
    ]

first_file-returns :
    (fs : List VfsFile) (arg : List ℕ) (n : ℕ)
    → AllNamed fs
    → n ≤ length arg
    → (o : Option (List ℕ)) × (first_file fs arg n ≡ some o)
unfolding first_file
first_file-returns [] arg n named le = (none, refl)
first_file-returns (f ∷ fs) arg n named le =
    let (o, g) = first_file-returns fs arg n named.1 le in
    elim (Bool-cases (f.is_used)) [
      | inr free ↦ (o, rw (free, g) refl)
      | inl used ↦
          let (b, named_b, short) = named.0.1 used in
          let (r, e) = strncmp-returns_left f.name arg b n named_b le in
          let l : strlen f.name ≡ some (length b) =
            strlen-text f.name ∙ ap (Option.map length) named_b in
          elim (Bool-cases (is_zero r)) [
            | inl z ↦ (some (take (length b) f.name), rw (used, e, z, l) refl)
            | inr nz ↦ (o, rw (used, e, nz, g) refl)
          ]
    ]

starts_with-returns :
    (s t : List ℕ) (n : ℕ) → n ≤ length s → (b : Bool) × (starts_with s t n ≡ some b)
starts_with-returns s t n le =
    let (a, e) = text-append t in
    let (r, f) = strncmp-returns s (t ++ 0 ∷ []) a n e le in (is_zero r, rw (f, starts_with) refl)

-- What a completion has done.
pub record Completed (l : Line) (o : Option (Line × List Output)) : Type 0 where
  pub result : Line × List Output
  pub returns : o ≡ some result
  pub added : List ℕ
  pub appended : Appended added l result

completed_file :
    (files : List VfsFile) (l : Line) (p : ℕ)
    → AllNamed files
    → IsLine l
    → (is_name : Bool)
    → (o : Option (List ℕ)) × ((if is_name
          then first_file files (drop p l.buf) (l.idx - p)
          else some none)
        ≡ some o)
completed_file files l p named v false = (none, refl)
completed_file files l p named v true =
    first_file-returns files (drop p l.buf) (l.idx - p) named
      (omega (arith, length-drop p l.buf, v.fits, v.room))

from_name :
    (o : Option (List ℕ)) (n : ℕ) (l : Line)
    → IsLine l
    → Completed l (elim o [ none ↦ some (l, []) | some t ↦ append_rest (drop n t) 256 l ])
from_name none n l v = record {
  result = (l, []);
  returns = refl;
  added = [];
  appended = unchanged l v;
}
from_name (some t) n l v =
    let (r, e, p) = append_rest-Appended (drop n t) l v in
    record { result = r; returns = e; added = take (255 - l.idx) (drop n t); appended = p }

complete_file-Completed :
    (files : List VfsFile) (l : Line)
    → AllNamed files
    → IsLine l
    → Completed l (complete_file files 256 l)
unfolding complete_file
complete_file-Completed files l named v =
    let (is_cat, cat) = starts_with-returns l.buf (codes "cat ") 4 (omega (arith, v.fits)) in
    let (is_edit, edit) = starts_with-returns l.buf (codes "edit ") 5 (omega (arith, v.fits)) in
    go is_cat cat is_edit edit
  where
    go :
        (is_cat : Bool)
        → starts_with l.buf (codes "cat ") 4 ≡ some is_cat
        → (is_edit : Bool) → starts_with l.buf (codes "edit ") 5 ≡ some is_edit
        → Completed l (complete_file files 256 l)
    go true cat is_edit edit =
        let (o, e) = completed_file files l 4 named v true in
        rw (cat, e) (from_name o (l.idx - 4) l v)
    go false cat is_edit edit =
        let (o, e) = completed_file files l 5 named v is_edit in
        rw (cat, edit, e) (from_name o (l.idx - 5) l v)

closing : (l : Line) → IsLine l → typed (record { buf = set l.buf l.idx 0; idx = l.idx }) ≡ typed l
closing l v = take-set_above l.idx l.idx l.buf 0 (omega arith)

reopened :
    (l : Line) (o : Option (Line × List Output))
    → IsLine l
    → Completed (record { buf = set l.buf l.idx 0; idx = l.idx }) o
    → Completed l o
reopened l o v d = record {
  result = d.result;
  returns = d.returns;
  added = d.added;
  appended = record {
    line = d.appended.line;
    added = d.appended.added ∙ ap (λ t. t ++ d.added) (closing l v);
    echoed = d.appended.echoed;
  };
}

Completed-with :
    (files : List VfsFile) (l closed : Line)
    → AllNamed files
    → IsLine closed
    → (o : Option (List ℕ))
    → Completed closed (elim o [
      | none ↦ complete_file files 256 closed
      | some t ↦ append_rest (drop l.idx t) 256 closed
    ])
Completed-with files l closed named v none = complete_file-Completed files closed named v
Completed-with files l closed named v (some t) = from_name (some t) l.idx closed v

-- Where all names are terminated in their arrays, and the line has at most 255 characters in a
-- buffer of 256, a completion returns, only adds characters behind those of the line, stays
-- within 255, and echoes exactly the characters that it added.
pub cli_autocomplete-Completed :
    (files : List VfsFile) (l : Line)
    → AllNamed files
    → IsLine l
    → Completed l (cli_autocomplete files 256 l)
unfolding cli_autocomplete
cli_autocomplete-Completed files l named v = elim (Bool-cases (l.idx == 0)) [
  | inl empty ↦ record {
    result = (l, []);
    returns = rw empty refl;
    added = [];
    appended = unchanged l v;
  }
  | inr typing ↦
      let closed : Line = record { buf = set l.buf l.idx 0; idx = l.idx } in
      let v' : IsLine closed = record { fits = length-set l.buf l.idx 0 ∙ v.fits; room = v.room } in
      let (o, e) = first_match-returns commands closed.buf l.idx (omega (arith, v'.fits, v.room)) in
      rw (typing, store_lem l.buf l.idx 0 (omega (arith, v.fits, v.room)), e)
        (reopened l _ v (Completed-with files l closed named v' o))
]
