-- ===== src/Telnet/Listen.antt =====
-- `telnetd_init` of telnetd.c. What lwIP answers are arguments.
use burst_kernel_virtual_mac.Base.{
  ℕ, codes, ◌≡◌, ◌&&◌, refl, Bool, true, false, Option, none, some, List, [], ◌∷◌,
}

-- The calls, `print` for `puts_serial`.
pub data ListenCall : Type 0 where
  tcp_new : ListenCall
  tcp_bind : ℕ → ℕ → ListenCall
  tcp_listen : ℕ → ListenCall
  tcp_accept : Option ℕ → ListenCall
  print : List ℕ → ListenCall

pub record Listener : Type 0 where
  pub telnet_pcb : Option ℕ
  pub calls : List ListenCall

-- `created` is what `tcp_new` returns, `bound` whether `tcp_bind` returns ERR_OK, `listening` what
-- `tcp_listen` returns.
unfoldable pub telnetd_init : Option ℕ → Bool → Option ℕ → Listener
telnetd_init none bound listening = record { telnet_pcb = none; calls = tcp_new ∷ [] }
telnetd_init (some pcb) true listening = record {
  telnet_pcb = listening;
  calls =
      tcp_new
      ∷ tcp_bind pcb 23
      ∷ tcp_listen pcb
      ∷ tcp_accept listening
      ∷ print (codes "Telnet Server initialized on Port 23.\n")
      ∷ [];
}
telnetd_init (some pcb) false listening = record {
  telnet_pcb = some pcb;
  calls = tcp_new ∷ tcp_bind pcb 23 ∷ print (codes "Telnet bind failed.\n") ∷ [];
}

-- A connection that listens has the callback.
unfoldable pub accepting : List ListenCall → Bool
accepting [] = false
accepting (tcp_new ∷ cs) = accepting cs
accepting (tcp_bind pcb port ∷ cs) = accepting cs
accepting (tcp_listen pcb ∷ cs) = accepting cs
accepting (tcp_accept none ∷ cs) = accepting cs
accepting (tcp_accept (some pcb) ∷ cs) = true
accepting (print s ∷ cs) = accepting cs

abbrev is_some : Option ℕ → Bool
is_some none = false
is_some (some n) = true

-- The server listens exactly where all three calls succeed.
pub telnetd_init-accepting :
    (created listening : Option ℕ) (bound : Bool)
    → accepting (telnetd_init created bound listening).calls
      ≡ (is_some created && bound && is_some listening)
unfolding telnetd_init accepting
telnetd_init-accepting none listening bound = refl
telnetd_init-accepting (some pcb) none true = refl
telnetd_init-accepting (some pcb) (some n) true = refl
telnetd_init-accepting (some pcb) listening false = refl
