-- ===== src/Vga/Echo.antt =====
-- `puts` and `clear_screen` of kernel.c as a whole: the cells, and the copy of each byte on the serial line.
use burst_kernel_virtual_mac.Base.{
  ℕ, ◌+◌, ◌*◌, ◌≤◌, ◌≡◌, ◌∙◌, refl, ap, sym, subst, true, false, Option, none, some, List, [], ◌∷◌,
  ◌++◌, arith, ◌==◌, length, append_assoc, append_nil, if◌then◌else◌, inl, inr, ◌>>=◌,
}
use burst_kernel_virtual_mac.Libc.Strings.{text, text-cons}
use burst_kernel_virtual_mac.Serial.{serial_write}
use burst_kernel_virtual_mac.Serial.Sent.{IsPrompt, serial_write-returns}
use burst_kernel_virtual_mac.Vga.{Screen, clear_screen, put_char, scroll, puts}

-- The cells, the bytes sent so far, and the number of reads of the status port.
pub record Terminal : Type 0 where
  pub screen : Screen
  pub sent : List ℕ
  pub reads : ℕ

module _ (status : ℕ → ℕ) (fuel : ℕ) where
  unfoldable pub send : ℕ → Terminal → Option Terminal
  send c t = do
    (a, n) ← serial_write status fuel c t.reads
    some (record { screen = t.screen; sent = t.sent ++ a ∷ []; reads = n })

  unfoldable pub send_all : List ℕ → Terminal → Option Terminal
  send_all [] t = some t
  send_all (c ∷ cs) t = do t' ← send c t; send_all cs t'

  -- Each byte goes to the serial line before it goes to a cell.
  unfoldable pub puts_echoed : List ℕ → Terminal → Option Terminal
  puts_echoed [] t = none
  puts_echoed (c ∷ s) t =
      let written = do
        t' ← send c t
        puts_echoed s (record t' { screen = scroll (put_char c t'.screen) })
      in if c == 0 then some t else written

  -- ESC [ 2 J and ESC [ H.
  unfoldable pub clear_echoed : Terminal → Option Terminal
  clear_echoed t =
      send_all (27 ∷ b'[' ∷ b'2' ∷ b'J' ∷ 27 ∷ b'[' ∷ b'H' ∷ [])
        (record t { screen = clear_screen t.screen })

-- The bytes that were sent, and the cells; each byte took at most `k` reads.
pub record Echoed (k : ℕ) (screen : Screen) (bytes : List ℕ) (t : Terminal) (o : Option Terminal)
    : Type 0 where
  pub after : Terminal
  pub returns : o ≡ some after
  pub screen_is : after.screen ≡ screen
  pub sent_is : after.sent ≡ t.sent ++ bytes
  pub bound : after.reads ≤ t.reads + k * length bytes

module _ (status : ℕ → ℕ) (k : ℕ) (p : IsPrompt status k) where
  send-Echoed : (c : ℕ) (t : Terminal) → Echoed k t.screen (c ∷ []) t (send status k c t)
  unfolding send
  send-Echoed c t =
      let (n, e, le) = serial_write-returns status k c t.reads p in
      record {
        after = record { screen = t.screen; sent = t.sent ++ c ∷ []; reads = n };
        returns = rw e refl;
        screen_is = refl;
        sent_is = refl;
        bound = omega (arith, le);
      }

  send_all-Echoed : (cs : List ℕ) (t : Terminal) → Echoed k t.screen cs t (send_all status k cs t)
  unfolding send_all
  send_all-Echoed [] t = record {
    after = t;
    returns = refl;
    screen_is = refl;
    sent_is = sym (append_nil t.sent);
    bound = omega arith;
  }
  send_all-Echoed (c ∷ cs) t =
      let first = send-Echoed c t in
      let rest = send_all-Echoed cs first.after in
      let more : k * length (c ∷ cs) ≡ k + k * length cs = omega arith in
      record {
        after = rest.after;
        returns = rw (first.returns, rest.returns) refl;
        screen_is = rest.screen_is ∙ first.screen_is;
        sent_is = rest.sent_is ∙ ap (λ x. x ++ cs) first.sent_is ∙ append_assoc t.sent (c ∷ []) cs;
        bound = omega (arith, more, first.bound, rest.bound);
      }

  -- If of any k reads of the status port in a row one sees the transmitter empty, `puts`
  -- returns on a terminated text after at most k reads for each character, has sent exactly the
  -- characters on the serial line, in order, and has put them on the screen as it would without
  -- the line.
  pub puts_echoed-Echoed :
      (s a : List ℕ) (t : Terminal)
      → text s ≡ some a
      → Echoed k (puts a t.screen) a t (puts_echoed status k s t)
  unfolding puts_echoed puts
  puts_echoed-Echoed [] a t h = absurd (unfold text in cc)
  puts_echoed-Echoed (c ∷ s) a t h = elim (text-cons c s a h) [
    | inl q ↦
        let closed : (c == 0) ≡ true = ground (arith, q.0) in
        record {
          after = t;
          returns = rw closed refl;
          screen_is = sym (ap (λ x. puts x t.screen) q.1);
          sent_is = sym (ap (λ x. t.sent ++ x) q.1 ∙ append_nil t.sent);
          bound = omega arith;
        }
    | inr (b, nz, e, q) ↦
        let open_c : (c == 0) ≡ false = ground (arith, nz) in
        let first = send-Echoed c t in
        let t1 : Terminal = record (first.after) {
          screen = scroll (put_char c (first.after).screen);
        } in
        let rest = puts_echoed-Echoed s b t1 e in
        let more : k * length (c ∷ b) ≡ k + k * length b = omega arith in
        subst (λ x. Echoed k (puts x t.screen) x t (puts_echoed status k (c ∷ s) t)) (sym q)
          (record {
            after = rest.after;
            returns = rw (open_c, first.returns, rest.returns) refl;
            screen_is = rest.screen_is ∙ ap (λ x. puts b (scroll (put_char c x))) first.screen_is;
            sent_is =
                rest.sent_is ∙ ap (λ x. x ++ b) first.sent_is ∙ append_assoc t.sent (c ∷ []) b;
            bound = omega (arith, more, first.bound, rest.bound);
          })
  ]

  -- Clearing the screen sends the seven bytes of the two escape sequences.
  pub clear_echoed-Echoed :
      (t : Terminal)
      → Echoed k
          (clear_screen t.screen)
          (27 ∷ b'[' ∷ b'2' ∷ b'J' ∷ 27 ∷ b'[' ∷ b'H' ∷ [])
          t
          (clear_echoed status k t)
  unfolding clear_echoed
  clear_echoed-Echoed t =
      let r = send_all-Echoed _ (record t { screen = clear_screen t.screen }) in
      record {
        after = r.after;
        returns = r.returns;
        screen_is = r.screen_is;
        sent_is = r.sent_is;
        bound = r.bound;
      }
