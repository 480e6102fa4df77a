-- ===== src/Cli/Config/Layout.antt =====
-- The bytes of the sector that holds the routing table: how many there are, and what is read from them.
use burst_kernel_virtual_mac.Base.{
  ℕ, zero, suc, ◌+◌, ◌*◌, ◌^◌, ◌≤◌, ◌<◌, ◌≡◌, ◌∙◌, refl, ap, ap₂, List, [], ◌∷◌, ◌++◌, arith,
  get_or, drop, replicate, length, length-append, append_assoc, length-take, length-drop,
}
use burst_kernel_virtual_mac.Route.Laws.{AllMacs}
use burst_kernel_virtual_mac.Route.{RouteEntry}
use burst_kernel_virtual_mac.Cli.Config.{word_bytes, word_at, entries_bytes, entries_from}

abbrev pub AllBytes : List ℕ → Type 0
AllBytes [] = Unit
AllBytes (b ∷ bs) = (b < 2 ^ 8) × AllBytes bs

pub AllBytes-append : (xs ys : List ℕ) → AllBytes xs → AllBytes ys → AllBytes (xs ++ ys)
AllBytes-append [] ys h k = k
AllBytes-append (x ∷ xs) ys h k = (h.0, AllBytes-append xs ys h.1 k)

pub AllBytes-get_or : (xs : List ℕ) (i : ℕ) → AllBytes xs → get_or xs i 0 < 2 ^ 8
AllBytes-get_or [] i h = omega arith
AllBytes-get_or (x ∷ xs) zero h = h.0
AllBytes-get_or (x ∷ xs) (suc i) h = AllBytes-get_or xs i h.1

pub AllBytes-zeros : (n : ℕ) → AllBytes (replicate n 0)
AllBytes-zeros zero = tt
AllBytes-zeros (suc n) = (omega arith, AllBytes-zeros n)

-- An entry as C holds it: two words of 32 bits, and six bytes.
pub record IsEntry (e : RouteEntry) : Type 0 where
  pub dest : e.dest_ip < 2 ^ 32
  pub mask : e.netmask < 2 ^ 32
  pub six : length e.next_hop_mac ≡ 6
  pub bytes : AllBytes e.next_hop_mac

abbrev pub AllEntries : List RouteEntry → Type 0
AllEntries [] = Unit
AllEntries (e ∷ es) = IsEntry e × AllEntries es

-- A word in front of other bytes.
pub word_bytes-AllBytes : (w : ℕ) (s : List ℕ) → AllBytes s → AllBytes (word_bytes w ++ s)
word_bytes-AllBytes w s h = (omega arith, (omega arith, (omega arith, (omega arith, h))))

pub entries_bytes-AllBytes :
    (padding : ℕ → ℕ) (i : ℕ) (es : List RouteEntry)
    → AllEntries es
    → ((k : ℕ) → padding k < 2 ^ 8)
    → AllBytes (entries_bytes padding i es)
unfolding entries_bytes
entries_bytes-AllBytes padding i [] all small = tt
entries_bytes-AllBytes padding i (e ∷ es) all small =
    let rest = entries_bytes padding (i + 1) es in
    let behind = padding (i * 2) ∷ padding (i * 2 + 1) ∷ rest in
    word_bytes-AllBytes e.dest_ip (word_bytes e.netmask ++ (e.next_hop_mac ++ behind)) (
      word_bytes-AllBytes e.netmask (e.next_hop_mac ++ behind) (
        AllBytes-append e.next_hop_mac behind (all.0).bytes (
          small (i * 2),
          (small (i * 2 + 1), entries_bytes-AllBytes padding (i + 1) es all.1 small),
        )))

pub length-entries_bytes :
    (padding : ℕ → ℕ) (i : ℕ) (es : List RouteEntry)
    → AllEntries es
    → length (entries_bytes padding i es) ≡ 16 * length es
unfolding entries_bytes
length-entries_bytes padding i [] all = omega arith
length-entries_bytes padding i (e ∷ es) all = omega (
  arith,
  length-append e.next_hop_mac
      (padding (i * 2) ∷ padding (i * 2 + 1) ∷ entries_bytes padding (i + 1) es),
  (all.0).six,
  length-entries_bytes padding (i + 1) es all.1,
)

-- A word read behind others.
pub word_at-bytes : (w : ℕ) (s : List ℕ) → w < 2 ^ 32 → word_at (word_bytes w ++ s) 0 ≡ w
word_at-bytes w s h = omega arith

-- Six bytes, one by one.
pub data Six : List ℕ → Type 0 where
  six_bytes : (a b c d e f : ℕ) → Six (a ∷ b ∷ c ∷ d ∷ e ∷ f ∷ [])

pub length-Six : (xs : List ℕ) → length xs ≡ 6 → Six xs
length-Six [] h = absurd (omega arith)
length-Six (a ∷ []) h = absurd (omega arith)
length-Six (a ∷ b ∷ []) h = absurd (omega arith)
length-Six (a ∷ b ∷ c ∷ []) h = absurd (omega arith)
length-Six (a ∷ b ∷ c ∷ d ∷ []) h = absurd (omega arith)
length-Six (a ∷ b ∷ c ∷ d ∷ e ∷ []) h = absurd (omega arith)
length-Six (a ∷ b ∷ c ∷ d ∷ e ∷ f ∷ []) h = six_bytes a b c d e f
length-Six (a ∷ b ∷ c ∷ d ∷ e ∷ f ∷ g ∷ xs) h = absurd (omega arith)

entry_back :
    (dest mask p q : ℕ) (mac s : List ℕ)
    → Six mac
    → dest < 2 ^ 32
    → mask < 2 ^ 32
    → (n : ℕ)
    → entries_from (suc n) (word_bytes dest ++ (word_bytes mask ++ (mac ++ (p ∷ q ∷ s))))
      ≡ record { dest_ip = dest; netmask = mask; next_hop_mac = mac } ∷ entries_from n s
unfolding entries_from
entry_back dest mask p q mac s (six_bytes a b c d e f) hd hm n =
    ap₂ (λ x y. record { dest_ip = x; netmask = y; next_hop_mac = mac } ∷ entries_from n s)
      (word_at-bytes dest [] hd) (word_at-bytes mask [] hm)

-- The entries are read back.
pub entries_from-bytes :
    (padding : ℕ → ℕ) (i : ℕ) (es : List RouteEntry) (s : List ℕ)
    → AllEntries es
    → entries_from (length es) (entries_bytes padding i es ++ s) ≡ es
unfolding entries_bytes
entries_from-bytes padding i [] s all = unfold entries_from in refl
entries_from-bytes padding i (e ∷ es) s all =
    let rest = entries_bytes padding (i + 1) es in
    ap (λ t. entries_from (suc (length es)) (word_bytes e.dest_ip ++ (word_bytes e.netmask ++ t)))
      (append_assoc e.next_hop_mac (padding (i * 2) ∷ padding (i * 2 + 1) ∷ rest) s)
    ∙ entry_back e.dest_ip e.netmask (padding (i * 2)) (padding (i * 2 + 1)) e.next_hop_mac
        (rest ++ s) (length-Six e.next_hop_mac (all.0).six) (all.0).dest (all.0).mask (length es)
    ∙ ap (λ t. e ∷ t) (entries_from-bytes padding (i + 1) es s all.1)

-- Whatever the bytes are, as many entries are read as the table holds, each with the six bytes of a MAC
-- address if there are 16 for it.
pub length-entries_from : (n : ℕ) (bytes : List ℕ) → length (entries_from n bytes) ≡ n
unfolding entries_from
length-entries_from zero bytes = refl
length-entries_from (suc n) bytes = ap suc (length-entries_from n (drop 16 bytes))

pub entries_from-AllMacs :
    (n : ℕ) (bytes : List ℕ) → 16 * n ≤ length bytes → AllMacs (entries_from n bytes)
unfolding entries_from
entries_from-AllMacs zero bytes h = tt
entries_from-AllMacs (suc n) bytes h = (
  omega (arith, length-take 6 (drop 8 bytes), length-drop 8 bytes),
  entries_from-AllMacs n (drop 16 bytes) (omega (arith, length-drop 16 bytes)),
)
