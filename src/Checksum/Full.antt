-- ===== src/Checksum/Full.antt =====
-- `ip_checksum` of kernel.c against the sum of the header's words.
use burst_kernel_virtual_mac.Base.{
  ℕ, zero, suc, ◌+◌, ◌-◌, ◌*◌, ◌/◌, ◌%◌, ◌^◌, ◌<◌, ◌≤◌, ◌≡◌, ◌∙◌, ap, ◌↔◌, some, arith, ◌==◌, false,
  dec_lt,
}
use native.Mathlib.Nat.{zero-add}
use burst_kernel_virtual_mac.Packet.{Buffer, word16, load16_lem}
use burst_kernel_virtual_mac.Checksum.{add_words, fold_carries, fold_fuel, ip_checksum}
use burst_kernel_virtual_mac.Checksum.Words.{word_sum, IsBytes, word_sum-le}

-- In range, and with no `uint32_t` overflow, the loop adds the words up.
pub add_words_lem :
    (b : Buffer) (p n sum : ℕ)
    → IsBytes b.at
    → p + 2 * n ≤ b.size
    → sum + n * 0xFFFF < 2 ^ 32
    → add_words b p n sum ≡ some (sum + word_sum b.at p n)
unfolding add_words word_sum
add_words_lem b p zero sum h fits small = ground arith
add_words_lem b p (suc n) sum h fits small = ground (
  arith,
  load16_lem b p,
  h p,
  h (p + 1),
  add_words_lem b (p + 2) n ((sum + word16 b.at p) % 2 ^ 32) h,
)

-- A 16-bit sum with the value that `sum` has in one's complement arithmetic.
abbrev pub Folds : ℕ → ℕ → Type 0
Folds sum r = (r < 2 ^ 16) × (r % 0xFFFF ≡ sum % 0xFFFF) × ((r ≡ 0) ↔ (sum ≡ 0))

fold_carries_end : (fuel sum : ℕ) → sum < 2 ^ 16 → fold_carries (suc fuel) sum ≡ some sum
unfolding fold_carries
fold_carries_end fuel sum h = ground arith

abbrev folded_once : ℕ → ℕ
folded_once sum = sum % 2 ^ 16 + sum / 2 ^ 16

fold_carries_round :
    (fuel sum : ℕ)
    → 2 ^ 16 ≤ sum
    → sum < 2 ^ 32
    → fold_carries (suc fuel) sum ≡ fold_carries fuel (folded_once sum)
unfolding fold_carries
fold_carries_round fuel sum lo hi =
    let big : (sum / 2 ^ 16 == 0) ≡ false = ground arith in
    let fits : folded_once sum % 2 ^ 32 ≡ folded_once sum = omega arith in rw (big, fits)

-- Two tests end the loop for a sum below 0x1FFFF, three for every 32-bit sum.
fold_carries_near :
    (fuel sum : ℕ)
    → sum ≤ 0x1FFFE
    → (r : ℕ) × (fold_carries (suc (suc fuel)) sum ≡ some r) × Folds sum r
fold_carries_near fuel sum h = elim (dec_lt sum (2 ^ 16)) [
  | yes small ↦ (sum, fold_carries_end (suc fuel) sum small, omega arith)
  | no large ↦ (
    folded_once sum,
    fold_carries_round (suc fuel) sum (omega arith) (omega arith)
        ∙ fold_carries_end fuel (folded_once sum) (omega arith),
    omega arith,
  )
]

-- The loop ends for every 32-bit sum, and leaves the one's complement sum in 16 bits.
pub fold_carries_lem :
    (sum : ℕ) → sum < 2 ^ 32 → (r : ℕ) × (fold_carries fold_fuel sum ≡ some r) × Folds sum r
fold_carries_lem sum h = elim (dec_lt sum (2 ^ 16)) [
  | yes small ↦ fold_carries_near 1 sum (omega arith)
  | no large ↦
      let (r, e, folds) = fold_carries_near 0 (folded_once sum) (omega arith) in
      (
        r,
        fold_carries_round 2 sum (omega arith) h ∙ e,
        (folds.0, omega arith, (λ z. omega (arith, folds.2.0 z), λ z. omega arith)),
      )
]

-- In range, for at most 2^16 words, `ip_checksum` gives a result: the complement of the folded sum.
pub ip_checksum_lem :
    (b : Buffer) (p len : ℕ)
    → IsBytes b.at
    → p + len ≤ b.size
    → len < 2 ^ 17
    → (r : ℕ) × (ip_checksum b p len ≡ some (0xFFFF - r)) × Folds (word_sum b.at p (len / 2)) r
unfolding ip_checksum
ip_checksum_lem b p len h fits small =
    let sum = word_sum b.at p (len / 2) in
    let bound : sum ≤ len / 2 * 0xFFFF = word_sum-le b.at p (len / 2) h in
    let (r, e, folds) = fold_carries_lem sum (omega arith) in
    (
      r,
      rw (add_words_lem b p (len / 2) 0 h (omega arith) (omega arith), zero-add, e)
          (ap some (omega arith)),
      folds,
    )

-- For fewer than 2^17 bytes inside a buffer of bytes, `ip_checksum` gives 0 exactly where the
-- words add up to a positive multiple of 0xFFFF.
pub ip_checksum-zero_iff :
    (b : Buffer) (p len : ℕ)
    → IsBytes b.at
    → p + len ≤ b.size
    → len < 2 ^ 17
    → (ip_checksum b p len ≡ some 0)
      ↔ ((word_sum b.at p (len / 2) % 0xFFFF ≡ 0) × (0 < word_sum b.at p (len / 2)))
ip_checksum-zero_iff b p len h fits small =
    let (r, e, folds) = ip_checksum_lem b p len h fits small in
    (λ z. ground (arith, folds.2.1), λ z. rw e (ap some (grind (arith, folds.2.0))))
