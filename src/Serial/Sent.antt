-- ===== src/Serial/Sent.antt =====
-- What `puts_serial` of kernel.c sends, where the line is ready again and again.
use burst_kernel_virtual_mac.Base.{
  ℕ, zero, suc, ◌+◌, ◌*◌, ◌<◌, ◌≤◌, ◌≡◌, ◌≢◌, ◌∙◌, refl, ap, sym, some, List, [], ◌∷◌, arith, subst,
  true, false, length, ◌==◌, inl, inr, Bool-cases,
}
use burst_kernel_virtual_mac.Libc.Strings.{text, text-cons}
use burst_kernel_virtual_mac.Serial.{
  serial_is_transmit_empty, wait_empty, serial_write, puts_serial,
}

-- Of any `k` reads in a row, one sees the transmitter empty.
pub record IsPrompt (status : ℕ → ℕ) (k : ℕ) : Type 0 where
  pub soon : ℕ → ℕ
  pub bound : (n : ℕ) → soon n < k
  pub empty : (n : ℕ) → serial_is_transmit_empty status (n + soon n) ≢ 0

busy_first :
    (status : ℕ → ℕ) (n : ℕ)
    → (serial_is_transmit_empty status n == 0) ≡ true
    → serial_is_transmit_empty status (n + 0) ≢ 0
    → ⊥
busy_first status n busy e =
    let same : n + 0 ≡ n = omega arith in
    e (ap (serial_is_transmit_empty status) same ∙ ground (arith, busy))

wait_empty-returns :
    (status : ℕ → ℕ) (fuel n m : ℕ)
    → m < fuel
    → serial_is_transmit_empty status (n + m) ≢ 0
    → (n' : ℕ) × (wait_empty status fuel n ≡ some n') × (n' ≤ n + fuel)
unfolding wait_empty
wait_empty-returns status zero n m lt e = absurd (omega arith)
wait_empty-returns status (suc fuel) n zero lt e =
    elim (Bool-cases (serial_is_transmit_empty status n == 0)) [
      | inr ready ↦ (n + 1, rw ready refl, omega arith)
      | inl busy ↦ absurd (busy_first status n busy e)
    ]
wait_empty-returns status (suc fuel) n (suc m) lt e =
    elim (Bool-cases (serial_is_transmit_empty status n == 0)) [
      | inr ready ↦ (n + 1, rw ready refl, omega arith)
      | inl busy ↦
          let same : n + suc m ≡ n + 1 + m = omega arith in
          let (n', f, le) =
            wait_empty-returns status fuel (n + 1) m (omega arith)
              (subst (λ k. serial_is_transmit_empty status k ≢ 0) same e) in
          (n', rw (busy, f) refl, omega (arith, le))
    ]

pub serial_write-returns :
    (status : ℕ → ℕ) (k a n : ℕ)
    → IsPrompt status k
    → (n' : ℕ) × (serial_write status k a n ≡ some (a, n')) × (n' ≤ n + k)
unfolding serial_write
serial_write-returns status k a n p =
    let (n', f, le) = wait_empty-returns status k n (p.soon n) (p.bound n) (p.empty n) in
    (n', rw f refl, le)

-- If of any k reads of the status port in a row one sees the transmitter empty, `puts_serial`
-- returns on a terminated text after at most k reads for each character, and has sent the
-- characters in order.
pub puts_serial-text :
    (status : ℕ → ℕ) (k : ℕ) (s a : List ℕ) (n : ℕ)
    → IsPrompt status k
    → text s ≡ some a
    → (n' : ℕ) × (puts_serial status k s n ≡ some (a, n')) × (n' ≤ n + k * length a)
unfolding puts_serial
puts_serial-text status k [] a n p h = absurd (unfold text in cc)
puts_serial-text status k (c ∷ s) a n p h = elim (text-cons c s a h) [
  | inl q ↦
      let closed : (c == 0) ≡ true = ground (arith, q.0) in (n, rw (closed, q.1) refl, omega arith)
  | inr (b, nz, e, q) ↦
      let (n1, f, le) = serial_write-returns status k c n p in
      let (n2, g, le2) = puts_serial-text status k s b n1 p e in
      let open_c : (c == 0) ≡ false = ground (arith, nz) in
      let more : k * length (c ∷ b) ≡ k + k * length b = omega arith in
      (
        n2,
        rw (open_c, f, g, q) refl,
        subst (λ x. n2 ≤ n + k * length x) (sym q) (omega (arith, more, le, le2)),
      )
]
