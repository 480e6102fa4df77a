-- ===== src/Cli/Print.antt =====
-- The helpers of cli.c that print numbers and addresses, one call of `cli_puts` for each character, and
-- the digits that `nat show` and `ntop` print in place. A digit is a `char`, so it wraps at 2^8.
pub mod Numbers
use burst_kernel_virtual_mac.Base.{
  ℕ, codes, zero, suc, ◌+◌, ◌-◌, ◌*◌, ◌/◌, ◌%◌, ◌^◌, List, [], ◌∷◌, ◌++◌, ltb, leb, get_or, take,
  if◌then◌else◌,
}
use burst_kernel_virtual_mac.Console.{Output, puts}

-- `char d[2] = { '0' + n, '\0' }; cli_puts(d);`
abbrev pub digit : ℕ → Output
digit n = puts ((b'0' + n) % 2 ^ 8 ∷ [])

-- One byte of an address, with up to three digits.
unfoldable pub print_octet : ℕ → List Output
print_octet v =
    if leb 100 v
    then digit (v / 100) ∷ digit (v % 100 / 10) ∷ digit (v % 100 % 10) ∷ []
    else if leb 10 v
    then digit (v / 10) ∷ digit (v % 10) ∷ []
    else digit v ∷ []

abbrev pub dot : List Output
dot = puts (codes ".") ∷ []

-- The bytes in memory order, the low one first.
unfoldable pub print_ip : ℕ → List Output
print_ip ip =
    print_octet (ip % 2 ^ 8)
    ++ (dot
        ++ (print_octet (ip / 2 ^ 8 % 2 ^ 8)
            ++ (dot
                ++ (print_octet (ip / 2 ^ 16 % 2 ^ 8)
                    ++ (dot ++ print_octet (ip / 2 ^ 24 % 2 ^ 8))))))

abbrev pub hex : List ℕ
hex = codes "0123456789ABCDEF"

-- The bytes of an address that are left, a colon between them.
unfoldable pub print_mac_bytes : List ℕ → List Output
print_mac_bytes [] = []
print_mac_bytes (b ∷ []) = puts (get_or hex (b / 2 ^ 4) 0 ∷ get_or hex (b % 2 ^ 4) 0 ∷ []) ∷ []
print_mac_bytes (b ∷ c ∷ mac) =
    puts (get_or hex (b / 2 ^ 4) 0 ∷ get_or hex (b % 2 ^ 4) 0 ∷ [])
    ∷ puts (codes ":")
    ∷ print_mac_bytes (c ∷ mac)

-- A MAC address is an array of 6 bytes.
unfoldable pub print_mac : List ℕ → List Output
print_mac mac = print_mac_bytes (take 6 mac)

-- The three branches of a count: at 1000 and above the first "digit" is none.
unfoldable pub print_count : ℕ → List Output
print_count n =
    if leb 100 n
    then digit (n / 100) ∷ digit (n / 10 % 10) ∷ digit (n % 10) ∷ []
    else if leb 10 n
    then digit (n / 10) ∷ digit (n % 10) ∷ []
    else digit n ∷ []

-- The index of a row, with spaces before it.
unfoldable pub print_index : ℕ → List Output
print_index n =
    if leb 100 n
    then digit (n / 100) ∷ digit (n / 10 % 10) ∷ digit (n % 10) ∷ []
    else if leb 10 n
    then puts (codes " ") ∷ digit (n / 10) ∷ digit (n % 10) ∷ []
    else puts (codes "  ") ∷ digit n ∷ []

-- The counts of `ntop` for TCP and UDP, with two branches.
unfoldable pub print_pair : ℕ → List Output
print_pair n = if leb 10 n then digit (n / 10) ∷ digit (n % 10) ∷ [] else digit n ∷ []

-- A port in host order.
unfoldable pub print_port : ℕ → List Output
print_port n =
    if leb 10000 n
    then digit (n / 10000)
      ∷ digit (n / 1000 % 10)
      ∷ digit (n / 100 % 10)
      ∷ digit (n / 10 % 10)
      ∷ digit (n % 10)
      ∷ []
    else if leb 1000 n
    then digit (n / 1000) ∷ digit (n / 100 % 10) ∷ digit (n / 10 % 10) ∷ digit (n % 10) ∷ []
    else if leb 100 n
    then digit (n / 100) ∷ digit (n / 10 % 10) ∷ digit (n % 10) ∷ []
    else if leb 10 n
    then digit (n / 10) ∷ digit (n % 10) ∷ []
    else digit n ∷ []

-- The last four digits of the tick at which a session was last active.
unfoldable pub print_age : ℕ → List Output
print_age n =
    if leb 1000 n
    then digit (n / 1000 % 10) ∷ digit (n / 100 % 10) ∷ digit (n / 10 % 10) ∷ digit (n % 10) ∷ []
    else if leb 100 n
    then digit (n / 100) ∷ digit (n / 10 % 10) ∷ digit (n % 10) ∷ []
    else if leb 10 n
    then digit (n / 10) ∷ digit (n % 10) ∷ []
    else digit n ∷ []
