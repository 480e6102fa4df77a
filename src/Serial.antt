-- ===== src/Serial.antt =====
-- The serial line of kernel.c. What the status port answers is an argument: `status n` is the answer to
-- its read number `n`.
pub mod Sent
use burst_kernel_virtual_mac.Base.{
  ℕ, zero, suc, ◌+◌, ◌*◌, ◌/◌, ◌%◌, ◌≡◌, Option, none, some, List, [], ◌∷◌, ◌==◌, if◌then◌else◌,
  ◌>>=◌,
}

-- `serial_init`: the ports and the values that are written to them.
abbrev pub serial_init : List (ℕ × ℕ)
serial_init =
    (0x3F8 + 1, 0x00)
    ∷ (0x3F8 + 3, 0x80)
    ∷ (0x3F8 + 0, 0x03)
    ∷ (0x3F8 + 1, 0x00)
    ∷ (0x3F8 + 3, 0x03)
    ∷ (0x3F8 + 2, 0xC7)
    ∷ (0x3F8 + 4, 0x0B)
    ∷ []

-- `inb(0x3F8 + 5) & 0x20`, which is 0 or 0x20.
abbrev pub serial_is_transmit_empty : (ℕ → ℕ) → ℕ → ℕ
serial_is_transmit_empty status n = status n / 32 % 2 * 32

-- `while (serial_is_transmit_empty() == 0);` on fuel, from read number `n` on: the number of reads so far.
unfoldable pub wait_empty : (ℕ → ℕ) → ℕ → ℕ → Option ℕ
wait_empty status zero n = none
wait_empty status (suc fuel) n =
    let later = wait_empty status fuel (n + 1) in
    if serial_is_transmit_empty status n == 0 then later else some (n + 1)

-- The byte that goes out, and the number of reads.
unfoldable pub serial_write : (ℕ → ℕ) → ℕ → ℕ → ℕ → Option (ℕ × ℕ)
serial_write status fuel a n = do n' ← wait_empty status fuel n; some (a, n')

-- An array without a NUL is read beyond its end.
unfoldable pub puts_serial : (ℕ → ℕ) → ℕ → List ℕ → ℕ → Option (List ℕ × ℕ)
puts_serial status fuel [] n = none
puts_serial status fuel (c ∷ s) n =
    let written = do
      (a, n') ← serial_write status fuel c n
      (sent, n'') ← puts_serial status fuel s n'
      some (a ∷ sent, n'')
    in if c == 0 then some ([], n) else written
