-- ===== src/Cli/Execute/Words.antt =====
-- The search for a command in `cli_execute` of cli.c, on a terminated line.
use burst_kernel_virtual_mac.Base.{
  ℕ, ◌≡◌, ◌≢◌, ◌∙◌, refl, ap, subst, Bool, true, Option, none, some, List, [], ◌∷◌, ◌++◌, arith,
  ◌==◌, length, length-append, drop, inl, inr, Bool-cases, Option-cases,
}
use mathlib.Core.Option.{some-injective}
use burst_kernel_virtual_mac.Base.Int.{pos, sub_ℕ}
use burst_kernel_virtual_mac.Libc.{strncmp}
use burst_kernel_virtual_mac.Libc.Strings.{text, text-cons}
use burst_kernel_virtual_mac.Vfs.{is_zero}
use burst_kernel_virtual_mac.Console.{starts_with}
use burst_kernel_virtual_mac.Console.Complete.{strncmp-returns_left}
use burst_kernel_virtual_mac.Cli.Execute.{
  Command, cat_command, edit_command, command_words, find_command,
}

-- A test for a word returns on a terminated line.
starts_with-left :
    (cmd a word : List ℕ)
    → text cmd ≡ some a
    → (b : Bool) × (starts_with cmd word (length word) ≡ some b)
starts_with-left cmd a word h =
    let (r, e) =
      strncmp-returns_left cmd (word ++ 0 ∷ []) a (length word) h
        (omega (arith, length-append word (0 ∷ []))) in
    (is_zero r, rw (e, starts_with) refl)

pub find_command-returns :
    (words : List (List ℕ × Command)) (cmd a : List ℕ)
    → text cmd ≡ some a
    → (o : Option Command) × (find_command words cmd ≡ some o)
unfolding find_command
find_command-returns [] cmd a h = (none, refl)
find_command-returns ((word, k) ∷ words) cmd a h =
    let (b, e) = starts_with-left cmd a word h in
    elim (Bool-cases b) [
      | inl hit ↦ (some k, rw (e, hit) refl)
      | inr miss ↦ let (o, f) = find_command-returns words cmd a h in (o, rw (e, miss, f) refl)
    ]

-- Of these two commands the rest of the line is the argument.
abbrev pub IsWordOf : Command → List ℕ → Type 0
IsWordOf cat_command word = word ≡ b'c' ∷ b'a' ∷ b't' ∷ b' ' ∷ []
IsWordOf edit_command word = word ≡ b'e' ∷ b'd' ∷ b'i' ∷ b't' ∷ b' ' ∷ []
IsWordOf _ word = Unit

abbrev AllWords : List (List ℕ × Command) → Type 0
AllWords [] = Unit
AllWords ((word, k) ∷ words) = IsWordOf k word × AllWords words

pub command_words-AllWords : AllWords command_words
command_words-AllWords =
    (tt, (tt, (tt, (tt, (tt, (tt, (tt, (tt, (tt, (tt, (tt, (refl, (refl, tt)))))))))))))

-- The line begins with the word of the command that is found.
pub find_command-word :
    (words : List (List ℕ × Command)) (cmd : List ℕ) (k : Command)
    → AllWords words
    → find_command words cmd ≡ some (some k)
    → (word : List ℕ) × IsWordOf k word × (starts_with cmd word (length word) ≡ some true)
unfolding find_command
find_command-word [] cmd k all h = cc
find_command-word ((word, k') ∷ words) cmd k all h =
    elim (Option-cases (starts_with cmd word (length word))) [
      | inl e ↦ (let fault : none ≡ some (some k) = rw e at h in cc)
      | inr (b, e) ↦ elim (Bool-cases b) [
        | inl hit ↦
            let same : k' ≡ k = some-injective _ _ (some-injective _ _ (rw (e, hit) at h)) in
            (word, subst (λ x. IsWordOf x word) same all.0, e ∙ ap some hit)
        | inr miss ↦ find_command-word words cmd k all.1 (rw (e, miss) at h)
      ]
    ]

abbrev pub NonZero : List ℕ → Type 0
NonZero [] = Unit
NonZero (c ∷ s) = (c ≢ 0) × NonZero s

-- Behind the word the line is terminated too.
pub text-drop :
    (cmd word a : List ℕ)
    → NonZero word
    → text cmd ≡ some a
    → strncmp cmd (word ++ 0 ∷ []) (length word) ≡ some (pos 0)
    → (b : List ℕ) × (text (drop (length word) cmd) ≡ some b)
unfolding strncmp
text-drop cmd [] a nz h e = (a, h)
text-drop [] (d ∷ word) a nz h e = absurd (unfold text in cc)
text-drop (c ∷ cmd) (d ∷ word) a nz h e = elim (Bool-cases (c == 0)) [
  | inl z ↦
      let r : sub_ℕ c d ≡ pos 0 = some-injective _ _ (rw z at e) in absurd (ground (arith, r, nz.0))
  | inr open_c ↦ elim (Bool-cases (c == d)) [
    | inr differ ↦
        let r : sub_ℕ c d ≡ pos 0 = some-injective _ _ (rw (open_c, differ) at e) in
        absurd (ground (arith, r))
    | inl same ↦ elim (text-cons c cmd a h) [
      | inl p ↦ absurd (ground arith)
      | inr (b, n, f, q) ↦ text-drop cmd word b nz.1 f (rw (open_c, same) at e)
    ]
  ]
]
