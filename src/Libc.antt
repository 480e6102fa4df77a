-- ===== src/Libc.antt =====
-- libc.c. `mem*` work on all of memory, a function from addresses to bytes; the string functions walk
-- an array from a pointer on, a list of its bytes, and walking off its end is a fault.
pub mod Copy
pub mod Strings
mod Tests
use burst_kernel_virtual_mac.Base.{
  ℕ, zero, suc, ◌+◌, ◌-◌, ◌*◌, ◌%◌, ◌^◌, Bool, ◌&&◌, Option, none, some, List, [], ◌∷◌, ltb, leb,
  ◌==◌, if◌then◌else◌, ◌>>=◌,
}
use mathlib.Core.Option
use burst_kernel_virtual_mac.Base.Int.{ℤ, sub_ℕ, pos}
use burst_kernel_virtual_mac.Packet.{update}

abbrev pub Memory : Type 0
Memory = ℕ → ℕ

-- `while (n--) *d++ = *s++;`
unfoldable pub copy_up : ℕ → ℕ → ℕ → Memory → Memory
copy_up d s zero m = m
copy_up d s (suc n) m = copy_up (d + 1) (s + 1) n (update m d (m s))

-- `while (n--) *--d = *--s;` with both pointers behind the last byte.
unfoldable pub copy_down : ℕ → ℕ → ℕ → Memory → Memory
copy_down d s zero m = m
copy_down d s (suc n) m = copy_down d s n (update m (d + n) (m (s + n)))

unfoldable pub memcpy : ℕ → ℕ → ℕ → Memory → Memory
memcpy dest src n m = copy_up dest src n m

unfoldable pub memmove : ℕ → ℕ → ℕ → Memory → Memory
memmove dest src n m = if ltb dest src then copy_up dest src n m else copy_down dest src n m

unfoldable pub memset : ℕ → ℕ → ℕ → Memory → Memory
memset s c zero m = m
memset s c (suc n) m = memset (s + 1) c n (update m s (c % 2 ^ 8))

-- The difference of the first bytes that differ, as an `int`.
unfoldable pub memcmp : ℕ → ℕ → ℕ → Memory → ℤ
memcmp p q zero m = pos 0
memcmp p q (suc n) m =
    let rest = memcmp (p + 1) (q + 1) n m in if m p == m q then rest else sub_ℕ (m p) (m q)

unfoldable pub strlen : List ℕ → Option ℕ
strlen [] = none
strlen (c ∷ s) = if c == 0 then some 0 else Option.map suc (strlen s)

unfoldable pub strcmp : List ℕ → List ℕ → Option ℤ
strcmp [] t = none
strcmp (a ∷ s) [] = none
strcmp (a ∷ s) (b ∷ t) =
    let rest = strcmp s t in
    if a == 0 then some (sub_ℕ a b) else if a == b then rest else some (sub_ℕ a b)

unfoldable pub strncmp : List ℕ → List ℕ → ℕ → Option ℤ
strncmp s t zero = some (pos 0)
strncmp [] t (suc n) = none
strncmp (a ∷ s) [] (suc n) = none
strncmp (a ∷ s) (b ∷ t) (suc n) =
    let rest = strncmp s t n in
    if a == 0 then some (sub_ℕ a b) else if a == b then rest else some (sub_ℕ a b)

-- The bytes that `strcpy` writes to `dest`: those of the string, and the NUL.
unfoldable pub strcpy : List ℕ → Option (List ℕ)
strcpy [] = none
strcpy (c ∷ s) =
    let rest = Option.map (λ t. c ∷ t) (strcpy s) in if c == 0 then some (0 ∷ []) else rest

-- The offset of the first `c`, the NUL included in the search; the outer option is the fault.
unfoldable pub strchr : List ℕ → ℕ → Option (Option ℕ)
strchr [] c = none
strchr (a ∷ s) c =
    let rest = Option.map (Option.map suc) (strchr s c) in
    if a == c % 2 ^ 8 then some (some 0) else if a == 0 then some none else rest

abbrev pub int_max : ℕ
int_max = 2 ^ 31 - 1

-- `res` so far; an overflow of `int` is undefined, here a fault.
unfoldable pub atoi_from : ℕ → List ℕ → Option ℕ
atoi_from res [] = none
atoi_from res (c ∷ s) =
    let next = res * 10 + c - b'0' in
    let rest = atoi_from next s in
    let overflow = ltb int_max (res * 10 + c) in
    if c == 0
    then some res
    else if leb b'0' c && leb c b'9'
    then (if overflow then none else rest)
    else some res

unfoldable pub atoi : List ℕ → Option ℕ
atoi s = atoi_from 0 s
