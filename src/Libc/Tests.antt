-- ===== src/Libc/Tests.antt =====
-- Runs of the C library's functions.
use burst_kernel_virtual_mac.Base.{ℕ, ◌%◌, ◌^◌, ◌≡◌, ◌↔◌, refl, some, List, [], ◌∷◌}
use burst_kernel_virtual_mac.Base.Int.{ℤ, pos}
use burst_kernel_virtual_mac.Libc.{Memory, memmove, strcmp}
use burst_kernel_virtual_mac.Libc.Copy.{copied, memmove-copied}
use burst_kernel_virtual_mac.Libc.Strings.{text, strcmp-zero_iff}

abbrev ramp : Memory
ramp i = i % 2 ^ 8

memmove-copied_example : memmove 12 10 8 ramp 15 ≡ copied 12 10 8 ramp 15
memmove-copied_example = memmove-copied 12 10 8 ramp 15

abbrev ls : List ℕ
ls = b'l' ∷ b's' ∷ 0 ∷ []

abbrev ls_then_more : List ℕ
ls_then_more = b'l' ∷ b's' ∷ 0 ∷ b'x' ∷ 0 ∷ []

abbrev ls_bytes : List ℕ
ls_bytes = b'l' ∷ b's' ∷ []

ls_text : text ls ≡ some ls_bytes
unfolding text
ls_text = refl

ls_then_more_text : text ls_then_more ≡ some ls_bytes
unfolding text
ls_then_more_text = refl

strcmp-zero_iff_example :
    (r : ℤ) × (strcmp ls ls_then_more ≡ some r) × ((r ≡ pos 0) ↔ (ls_bytes ≡ ls_bytes))
strcmp-zero_iff_example =
    strcmp-zero_iff ls ls_then_more ls_bytes ls_bytes ls_text ls_then_more_text
