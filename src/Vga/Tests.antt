-- ===== src/Vga/Tests.antt =====
-- Runs of the text console.
use burst_kernel_virtual_mac.Base.{ℕ, ◌≡◌, some, refl, [], ◌∷◌, arith, replicate}
use burst_kernel_virtual_mac.Vga.{Screen, blank, first_screen, puts}
use burst_kernel_virtual_mac.Vga.Echo.{Terminal, Echoed, puts_echoed, puts_echoed-Echoed}
use burst_kernel_virtual_mac.Serial.Sent.{IsPrompt}
use burst_kernel_virtual_mac.Libc.Strings.{text}
use burst_kernel_virtual_mac.Vga.Bounds.{IsScreen, puts-IsScreen}

abbrev last_cell : Screen
last_cell = record { vga = replicate 2000 blank; cursor = 1999; current_color = 15 }

last_cell-IsScreen : IsScreen last_cell
last_cell-IsScreen = record { fits = refl; inside = omega arith }

puts-IsScreen_example : IsScreen (puts (b'o' ∷ b'k' ∷ 10 ∷ 8 ∷ []) last_cell)
puts-IsScreen_example = puts-IsScreen (b'o' ∷ b'k' ∷ 10 ∷ 8 ∷ []) last_cell last_cell-IsScreen

abbrev always : ℕ → ℕ
always n = 96

always-IsPrompt : IsPrompt always 1
always-IsPrompt = record { soon = λ n. 0; bound = λ n. omega arith; empty = λ n. omega arith }

ok_text : text (b'o' ∷ b'k' ∷ 0 ∷ []) ≡ some (b'o' ∷ b'k' ∷ [])
unfolding text
ok_text = refl

abbrev at_start : Terminal
at_start = record { screen = first_screen; sent = []; reads = 0 }

puts_echoed-Echoed_example :
    Echoed 1
      (puts (b'o' ∷ b'k' ∷ []) first_screen)
      (b'o' ∷ b'k' ∷ [])
      at_start
      (puts_echoed always 1 (b'o' ∷ b'k' ∷ 0 ∷ []) at_start)
puts_echoed-Echoed_example =
    puts_echoed-Echoed always 1 always-IsPrompt (b'o' ∷ b'k' ∷ 0 ∷ []) (b'o' ∷ b'k' ∷ []) at_start
      ok_text
