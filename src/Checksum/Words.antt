-- ===== src/Checksum/Words.antt =====
-- The sum of the 16-bit words of a stretch of memory, and what a store does to it: the plain
-- description that the checksum code of nat.c and kernel.c is held against.
use burst_kernel_virtual_mac.Base.{
  ℕ, zero, suc, ◌+◌, ◌*◌, ◌/◌, ◌%◌, ◌^◌, ◌<◌, ◌≤◌, ◌≡◌, refl, ◌∙◌, ◌⊎◌, arith,
}
use burst_kernel_virtual_mac.Packet.{update, word16, put16, put32}

-- The sum of `n` words from address `p` on.
unfoldable pub word_sum : (ℕ → ℕ) → ℕ → ℕ → ℕ
word_sum f p zero = 0
word_sum f p (suc n) = word16 f p + word_sum f (p + 2) n

abbrev pub IsBytes : (ℕ → ℕ) → Type 0
IsBytes f = (i : ℕ) → f i < 2 ^ 8

-- The stretch of `n` words from `p` on does not hold address `i`.
abbrev pub Outside : ℕ → ℕ → ℕ → Type 0
Outside p n i = (i < p) ⊎ (p + 2 * n ≤ i)

pub put16-IsBytes : (f : ℕ → ℕ) (q v : ℕ) → IsBytes f → IsBytes (put16 f q v)
put16-IsBytes f q v h i = ground (arith, h i)

pub put32-IsBytes : (f : ℕ → ℕ) (q v : ℕ) → IsBytes f → IsBytes (put32 f q v)
put32-IsBytes f q v h = put16-IsBytes _ _ _ (put16-IsBytes f q v h)

pub word_sum-le : (f : ℕ → ℕ) (p n : ℕ) → IsBytes f → word_sum f p n ≤ n * 0xFFFF
unfolding word_sum
word_sum-le f p zero h = omega arith
word_sum-le f p (suc n) h = omega (arith, word_sum-le f (p + 2) n h, h p, h (p + 1))

word_sum-update :
    (f : ℕ → ℕ) (p n i v : ℕ) → Outside p n i → word_sum (update f i v) p n ≡ word_sum f p n
unfolding word_sum
word_sum-update f p zero i v h = refl
word_sum-update f p (suc n) i v h = ground (arith, word_sum-update f (p + 2) n i v)

pub word_sum-put16-Outside :
    (f : ℕ → ℕ) (p n q v : ℕ)
    → Outside p n q
    → Outside p n (q + 1)
    → word_sum (put16 f q v) p n ≡ word_sum f p n
word_sum-put16-Outside f p n q v h k =
    word_sum-update (update f q (v % 2 ^ 8)) p n (q + 1) (v / 2 ^ 8 % 2 ^ 8) k
    ∙ word_sum-update f p n q (v % 2 ^ 8) h

-- A store of a word of the stretch exchanges that word in the sum.
pub word_sum-put16 :
    (f : ℕ → ℕ) (p n k q v : ℕ)
    → k < n
    → q ≡ p + 2 * k
    → word_sum (put16 f q v) p n + word16 f q ≡ word_sum f p n + v % 2 ^ 16
unfolding word_sum
word_sum-put16 f p zero k q v h e = absurd (omega arith)
word_sum-put16 f p (suc n) zero q v h e = ground (arith, word_sum-put16-Outside f (p + 2) n q v)
word_sum-put16 f p (suc n) (suc k) q v h e = ground (arith, word_sum-put16 f (p + 2) n k q v)

pub word_sum-put32 :
    (f : ℕ → ℕ) (p n k q v : ℕ)
    → k + 1 < n
    → q ≡ p + 2 * k
    → v < 2 ^ 32
    → word_sum (put32 f q v) p n + (word16 f q + word16 f (q + 2))
      ≡ word_sum f p n + (v / 2 ^ 16 + v % 2 ^ 16)
word_sum-put32 f p n k q v h e hv =
    let second : word16 (put16 f q v) (q + 2) ≡ word16 f (q + 2) = ground arith in
    omega (
      arith,
      word_sum-put16 f p n k q v (omega arith) e,
      word_sum-put16 (put16 f q v) p n (k + 1) (q + 2) (v / 2 ^ 16) h (omega arith),
    )

pub word_sum-put32_outside :
    (f : ℕ → ℕ) (p n q v : ℕ)
    → (q + 4 ≤ p) ⊎ (p + 2 * n ≤ q)
    → word_sum (put32 f q v) p n ≡ word_sum f p n
word_sum-put32_outside f p n q v h =
    word_sum-put16-Outside (put16 f q v) p n (q + 2) (v / 2 ^ 16) (omega arith) (omega arith)
    ∙ word_sum-put16-Outside f p n q v (omega arith) (omega arith)

-- Two stretches that hold the same bytes have the same sum.
pub word_sum_ext :
    (f g : ℕ → ℕ) (p n : ℕ)
    → ((i : ℕ) → p ≤ i → i < p + 2 * n → f i ≡ g i)
    → word_sum f p n ≡ word_sum g p n
unfolding word_sum
word_sum_ext f g p zero h = refl
word_sum_ext f g p (suc n) h = omega (
  arith,
  h p (omega arith) (omega arith),
  h (p + 1) (omega arith) (omega arith),
  word_sum_ext f g (p + 2) n (λ i lo hi. h i (omega arith) (omega arith)),
)
