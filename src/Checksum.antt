-- ===== src/Checksum.antt =====
-- The Internet checksum: the incremental update of nat.c (`csum_replace2`, `csum_replace4`) and
-- the full computation of kernel.c (`ip_checksum`).
pub mod Words
pub mod Full
mod Tests
use burst_kernel_virtual_mac.Base.{
  ℕ, zero, suc, ◌+◌, ◌-◌, ◌/◌, ◌%◌, ◌^◌, ◌<◌, ◌≡◌, Option, none, some, arith, ◌==◌, if◌then◌else◌,
  ◌>>=◌,
}
use burst_kernel_virtual_mac.Packet.{Buffer, load16}

-- The value that `csum_replace2` leaves in `*sum`, for 16-bit arguments. `~x & 0xFFFF` of such an
-- `x` is `0xFFFF - x`, and the last line is the complement of a `uint32_t` cut to 16 bits.
unfoldable pub csum_replace2 : ℕ → ℕ → ℕ → ℕ
csum_replace2 sum old_val new_val =
    let s = 0xFFFF - sum in
    let s' = (s + (0xFFFF - old_val + new_val)) % 2 ^ 32 in
    let s'' = (s' / 2 ^ 16 + s' % 2 ^ 16) % 2 ^ 32 in
    let s''' = (s'' + s'' / 2 ^ 16) % 2 ^ 32 in (2 ^ 32 - 1 - s''') % 2 ^ 16

unfoldable pub csum_replace4 : ℕ → ℕ → ℕ → ℕ
unfolding csum_replace2
csum_replace4 sum old_val new_val =
    csum_replace2 (csum_replace2 sum (old_val / 2 ^ 16) (new_val / 2 ^ 16)) (old_val % 2 ^ 16)
      (new_val % 2 ^ 16)

-- `for (i = 0; i < len / 2; i++) sum += ptr[i];` with `n` words left, from address `p` on.
unfoldable pub add_words : Buffer → ℕ → ℕ → ℕ → Option ℕ
add_words b p zero sum = some sum
add_words b p (suc n) sum = do w ← load16 b p; add_words b (p + 2) n ((sum + w) % 2 ^ 32)

-- `while (sum >> 16) sum = (sum & 0xFFFF) + (sum >> 16);` on fuel: `none` is fuel that ran out.
unfoldable pub fold_carries : ℕ → ℕ → Option ℕ
fold_carries zero sum = none
fold_carries (suc fuel) sum =
    let rest = fold_carries fuel ((sum % 2 ^ 16 + sum / 2 ^ 16) % 2 ^ 32) in
    if sum / 2 ^ 16 == 0 then some sum else rest

-- Three tests end the loop for every 32-bit sum.
abbrev pub fold_fuel : ℕ
fold_fuel = 3

unfoldable pub ip_checksum : Buffer → ℕ → ℕ → Option ℕ
ip_checksum b p len = do
  sum ← add_words b p (len / 2) 0
  folded ← fold_carries fold_fuel sum
  some ((2 ^ 32 - 1 - folded) % 2 ^ 16)

pub csum_replace2-lt : (sum old_val new_val : ℕ) → csum_replace2 sum old_val new_val < 2 ^ 16
unfolding csum_replace2
csum_replace2-lt sum old_val new_val = omega arith

-- In one's complement arithmetic, that is modulo 0xFFFF, the new checksum with the new word is the
-- old checksum with the old word.
pub csum_replace2_mod :
    (sum old_val new_val : ℕ)
    → sum < 2 ^ 16
    → old_val < 2 ^ 16
    → new_val < 2 ^ 16
    → (csum_replace2 sum old_val new_val + new_val) % 0xFFFF ≡ (sum + old_val) % 0xFFFF
unfolding csum_replace2
csum_replace2_mod sum old_val new_val hs ho hn = omega arith

pub csum_replace4-lt : (sum old_val new_val : ℕ) → csum_replace4 sum old_val new_val < 2 ^ 16
unfolding csum_replace4
csum_replace4-lt sum old_val new_val = csum_replace2-lt _ _ _

-- For a checksum below 2^16 and values below 2^32, the checksum after `csum_replace4` and the
-- two words of the new value add up, modulo 0xFFFF, to what the checksum and the two words of
-- the old value did.
pub csum_replace4_mod :
    (sum old_val new_val : ℕ)
    → sum < 2 ^ 16
    → old_val < 2 ^ 32
    → new_val < 2 ^ 32
    → (csum_replace4 sum old_val new_val + (new_val / 2 ^ 16 + new_val % 2 ^ 16)) % 0xFFFF
      ≡ (sum + (old_val / 2 ^ 16 + old_val % 2 ^ 16)) % 0xFFFF
unfolding csum_replace4
csum_replace4_mod sum old_val new_val hs ho hn =
    let high = csum_replace2 sum (old_val / 2 ^ 16) (new_val / 2 ^ 16) in
    omega (
      arith,
      csum_replace2_mod sum (old_val / 2 ^ 16) (new_val / 2 ^ 16),
      csum_replace2_mod high (old_val % 2 ^ 16) (new_val % 2 ^ 16),
      csum_replace2-lt sum (old_val / 2 ^ 16) (new_val / 2 ^ 16),
    )
