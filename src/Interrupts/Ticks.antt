-- ===== src/Interrupts/Ticks.antt =====
-- `sys_now` of kernel.c, call by call.
use burst_kernel_virtual_mac.Base.{
  ℕ, zero, suc, ◌*◌, ◌/◌, ◌%◌, ◌^◌, ◌≡◌, arith, ltb, inl, inr, Bool-cases,
}
use burst_kernel_virtual_mac.Interrupts.{Clock, sys_now}

-- The clock after `n` calls.
unfoldable pub after_calls : ℕ → Clock
after_calls zero = record { ms = 0; counter = 0 }
after_calls (suc n) = sys_now (after_calls n)

pub after_calls_lem :
    (n : ℕ)
    → ((after_calls n).ms ≡ 10 * (n / 10002) % 2 ^ 32) × ((after_calls n).counter ≡ n % 10002)
unfolding after_calls sys_now
after_calls_lem zero = (omega arith, omega arith)
after_calls_lem (suc n) =
    let (ms, counter) = after_calls_lem n in
    elim (Bool-cases (ltb 10000 (after_calls n).counter)) [
      | inl tick ↦ rw tick (ground (arith, ms, counter), ground (arith, ms, counter))
      | inr wait ↦ rw wait (ground (arith, ms, counter), ground (arith, ms, counter))
    ]
