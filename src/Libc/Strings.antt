-- ===== src/Libc/Strings.antt =====
-- The string functions against the text that a pointer stands for: the bytes before the first NUL.
use burst_kernel_virtual_mac.Base.{
  ℕ, ◌≡◌, ◌≢◌, ◌↔◌, refl, sym, false, Option, none, some, List, [], ◌∷◌, ◌++◌, arith, ◌==◌, length,
  if◌then◌else◌, inl, inr, Bool-cases, Option-cases, ◌⊎◌,
}
use mathlib.Core.Option
use mathlib.Core.Option.{some-injective}
use burst_kernel_virtual_mac.Base.Int.{ℤ, pos, sub_ℕ}
use burst_kernel_virtual_mac.Libc.{strlen, strcmp, strcpy}

-- The bytes before the first NUL, if there is one.
unfoldable pub text : List ℕ → Option (List ℕ)
text [] = none
text (c ∷ s) = if c == 0 then some [] else Option.map (λ t. c ∷ t) (text s)

abbrev NonZero : List ℕ → Type 0
NonZero [] = Unit
NonZero (c ∷ s) = (c ≢ 0) × NonZero s

-- How the text of a non-empty array begins.
pub text-cons :
    (c : ℕ) (s a : List ℕ)
    → text (c ∷ s) ≡ some a
    → ((c ≡ 0) × (a ≡ [])) ⊎ ((b : List ℕ) × (c ≢ 0) × (text s ≡ some b) × (a ≡ c ∷ b))
unfolding text
text-cons c s a h = elim (Bool-cases (c == 0)) [
  | inl z ↦ inl (ground arith, sym (some-injective _ _ (rw z at h)))
  | inr n ↦ elim (Option-cases (text s)) [
    | inl e ↦ absurd (ground (arith, e, n))
    | inr (b, e) ↦ inr (b, ground arith, e, ground arith)
  ]
]

text-NonZero : (s a : List ℕ) → text s ≡ some a → NonZero a
text-NonZero [] a h = absurd (unfold text in cc)
text-NonZero (c ∷ s) a h = elim (text-cons c s a h) [
  | inl p ↦ rw (p.1) tt
  | inr (b, n, e, q) ↦ rw q (n, text-NonZero s b e)
]

-- `strlen` is the length of the text.
pub strlen-text : (s : List ℕ) → strlen s ≡ Option.map length (text s)
unfolding strlen text
strlen-text [] = refl
strlen-text (c ∷ s) = ground (arith, strlen-text s)

-- `strcpy` writes the text and its NUL.
pub strcpy-text : (s : List ℕ) → strcpy s ≡ Option.map (λ a. a ++ 0 ∷ []) (text s)
unfolding strcpy text
strcpy-text [] = refl
strcpy-text (c ∷ s) = ground (arith, strcpy-text s)

-- What `strcmp` returns, from the two texts.
difference : List ℕ → List ℕ → ℤ
difference [] [] = pos 0
difference [] (b ∷ t) = sub_ℕ 0 b
difference (a ∷ s) [] = sub_ℕ a 0
difference (a ∷ s) (b ∷ t) = if a == b then difference s t else sub_ℕ a b

sub_ℕ-zero : (a b : ℕ) → sub_ℕ a b ≡ pos 0 → a ≡ b
sub_ℕ-zero a b h = ground arith

difference-zero : (a b : List ℕ) → NonZero a → NonZero b → difference a b ≡ pos 0 → a ≡ b
unfolding difference
difference-zero [] [] p q h = refl
difference-zero [] (b ∷ t) p q h = absurd (ground (arith, sub_ℕ-zero 0 b h))
difference-zero (a ∷ s) [] p q h = absurd (ground (arith, sub_ℕ-zero a 0 h))
difference-zero (a ∷ s) (b ∷ t) p q h = ground (arith, sub_ℕ-zero a b, difference-zero s t p.1 q.1)

difference_self : (a : List ℕ) → difference a a ≡ pos 0
unfolding difference
difference_self [] = refl
difference_self (a ∷ s) = ground (arith, difference_self s)

strcmp-difference :
    (s t a b : List ℕ) → text s ≡ some a → text t ≡ some b → strcmp s t ≡ some (difference a b)
unfolding strcmp difference
strcmp-difference [] t a b h k = absurd (unfold text in cc)
strcmp-difference (c ∷ s) [] a b h k = absurd (unfold text in cc)
strcmp-difference (c ∷ s) (d ∷ t) a b h k = elim (text-cons c s a h) [
  | inl p ↦ elim (text-cons d t b k) [
    | inl q ↦ rw (p.0, p.1, q.0, q.1)
    | inr (b', n, e, q) ↦ rw (p.0, p.1, q)
  ]
  | inr (a', m, f, p) ↦
      let open_c : (c == 0) ≡ false = ground (arith, m) in
      elim (text-cons d t b k) [
        | inl q ↦
            let differ : (c == d) ≡ false = ground (arith, m, q.0) in
            rw (p, q.1, open_c, differ) (rw (q.0))
        | inr (b', n, e, q) ↦ rw (p, q, open_c) (ground (arith, strcmp-difference s t a' b' f e))
      ]
]

-- On two terminated strings `strcmp` returns, and its result is 0 exactly where the texts are
-- equal.
pub strcmp-zero_iff :
    (s t a b : List ℕ)
    → text s ≡ some a
    → text t ≡ some b
    → (r : ℤ) × (strcmp s t ≡ some r) × ((r ≡ pos 0) ↔ (a ≡ b))
strcmp-zero_iff s t a b h k = (
  difference a b,
  strcmp-difference s t a b h k,
  (difference-zero a b (text-NonZero s a h) (text-NonZero t b k), λ e. rw e (difference_self b)),
)
