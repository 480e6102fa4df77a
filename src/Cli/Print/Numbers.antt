-- ===== src/Cli/Print/Numbers.antt =====
-- What the helpers print, read back: by `atoi` of libc.c, and as decimal numerals.
use burst_kernel_virtual_mac.Base.{
  ℕ, ◌+◌, ◌-◌, ◌*◌, ◌/◌, ◌%◌, ◌^◌, ◌≤◌, ◌<◌, ◌≡◌, ◌∙◌, refl, ap, sym, true, false, ◌&&◌, some, List,
  [], ◌∷◌, ◌++◌, arith, ltb, leb, ◌==◌, inl, inr, Bool-cases, append_assoc,
}
use burst_kernel_virtual_mac.Libc.{atoi, atoi_from, int_max}
use burst_kernel_virtual_mac.Console.{Output, puts, set_color, clear_screen}
use burst_kernel_virtual_mac.Cli.Print.{print_octet, print_count, print_port}

-- The characters of a list of calls.
abbrev pub printed : List Output → List ℕ
printed [] = []
printed (puts s ∷ os) = s ++ printed os
printed (set_color fg bg ∷ os) = printed os
printed (clear_screen ∷ os) = printed os

printed-append : (xs ys : List Output) → printed (xs ++ ys) ≡ printed xs ++ printed ys
printed-append [] ys = refl
printed-append (puts s ∷ xs) ys =
    ap (λ t. s ++ t) (printed-append xs ys) ∙ sym (append_assoc s (printed xs) (printed ys))
printed-append (set_color fg bg ∷ xs) ys = printed-append xs ys
printed-append (clear_screen ∷ xs) ys = printed-append xs ys

-- The number that digits stand for, behind `res`.
abbrev pub horner : ℕ → List ℕ → ℕ
horner res [] = res
horner res (d ∷ ds) = horner (res * 10 + d) ds

abbrev pub AllDigits : List ℕ → Type 0
AllDigits [] = Unit
AllDigits (d ∷ ds) = (d < 10) × AllDigits ds

-- The characters of some digits.
abbrev pub characters : List ℕ → List ℕ
characters [] = []
characters (d ∷ ds) = (b'0' + d) % 2 ^ 8 ∷ characters ds

horner-le : (res : ℕ) (ds : List ℕ) → res ≤ horner res ds
horner-le res [] = omega arith
horner-le res (d ∷ ds) = omega (arith, horner-le (res * 10 + d) ds)

-- `atoi` reads digits as the number that they stand for, if that is no more than an `int` holds.
pub atoi_from-characters :
    (res : ℕ) (ds : List ℕ)
    → AllDigits ds
    → horner res ds + 57 ≤ int_max
    → atoi_from res (characters ds ++ 0 ∷ []) ≡ some (horner res ds)
unfolding atoi_from
atoi_from-characters res [] all fits = refl
atoi_from-characters res (d ∷ ds) all fits =
    let char : (b'0' + d) % 2 ^ 8 ≡ b'0' + d = omega arith in
    let within : res * 10 + d ≤ horner (res * 10 + d) ds = horner-le (res * 10 + d) ds in
    let not_end : (b'0' + d == 0) ≡ false = ground arith in
    let is_digit : (leb b'0' (b'0' + d) && leb (b'0' + d) b'9') ≡ true = ground arith in
    let no_overflow : ltb int_max (res * 10 + (b'0' + d)) ≡ false = ground arith in
    let next : res * 10 + (b'0' + d) - b'0' ≡ res * 10 + d = omega arith in
    rw (char, not_end, is_digit, no_overflow, next)
      (atoi_from-characters (res * 10 + d) ds all.1 fits)

read_back :
    (n : ℕ) (ds : List ℕ) (text : List ℕ)
    → text ≡ characters ds
    → AllDigits ds
    → horner 0 ds ≡ n
    → n < 2 ^ 16
    → atoi (text ++ 0 ∷ []) ≡ some n
unfolding atoi
read_back n ds text e all value fits =
    ap (λ t. atoi (t ++ 0 ∷ [])) e ∙ atoi_from-characters 0 ds all (omega arith) ∙ ap some value

-- `atoi` reads a printed port back.
pub atoi-print_port : (n : ℕ) → n < 2 ^ 16 → atoi (printed (print_port n) ++ 0 ∷ []) ≡ some n
unfolding print_port
atoi-print_port n h = elim (Bool-cases (leb 10000 n)) [
  | inl t ↦
      read_back n (n / 10000 ∷ n / 1000 % 10 ∷ n / 100 % 10 ∷ n / 10 % 10 ∷ n % 10 ∷ []) _
        (rw t refl) (ground arith) (omega arith) h
  | inr f ↦ elim (Bool-cases (leb 1000 n)) [
    | inl t ↦
        read_back n (n / 1000 ∷ n / 100 % 10 ∷ n / 10 % 10 ∷ n % 10 ∷ []) _ (rw (f, t) refl)
          (ground arith) (omega arith) h
    | inr g ↦ elim (Bool-cases (leb 100 n)) [
      | inl t ↦
          read_back n (n / 100 ∷ n / 10 % 10 ∷ n % 10 ∷ []) _ (rw (f, g, t) refl) (ground arith)
            (omega arith) h
      | inr k ↦ elim (Bool-cases (leb 10 n)) [
        | inl t ↦
            read_back n (n / 10 ∷ n % 10 ∷ []) _ (rw (f, g, k, t) refl) (ground arith) (omega arith)
              h
        | inr l ↦ read_back n (n ∷ []) _ (rw (f, g, k, l) refl) (ground arith) (omega arith) h
      ]
    ]
  ]
]

-- `atoi` reads a printed count back, below 1000.
pub atoi-print_count : (n : ℕ) → n < 1000 → atoi (printed (print_count n) ++ 0 ∷ []) ≡ some n
unfolding print_count
atoi-print_count n h = elim (Bool-cases (leb 100 n)) [
  | inl t ↦
      read_back n (n / 100 ∷ n / 10 % 10 ∷ n % 10 ∷ []) _ (rw t refl) (ground arith) (omega arith)
        (omega arith)
  | inr f ↦ elim (Bool-cases (leb 10 n)) [
    | inl t ↦
        read_back n (n / 10 ∷ n % 10 ∷ []) _ (rw (f, t) refl) (ground arith) (omega arith)
          (omega arith)
    | inr g ↦ read_back n (n ∷ []) _ (rw (f, g) refl) (ground arith) (omega arith) (omega arith)
  ]
]

atoi-print_octet : (v : ℕ) → v < 2 ^ 8 → atoi (printed (print_octet v) ++ 0 ∷ []) ≡ some v
unfolding print_octet
atoi-print_octet v h = elim (Bool-cases (leb 100 v)) [
  | inl t ↦
      read_back v (v / 100 ∷ v % 100 / 10 ∷ v % 100 % 10 ∷ []) _ (rw t refl) (ground arith)
        (omega arith) (omega arith)
  | inr f ↦ elim (Bool-cases (leb 10 v)) [
    | inl t ↦
        read_back v (v / 10 ∷ v % 10 ∷ []) _ (rw (f, t) refl) (ground arith) (omega arith)
          (omega arith)
    | inr g ↦ read_back v (v ∷ []) _ (rw (f, g) refl) (ground arith) (omega arith) (omega arith)
  ]
]
