-- ===== src/Vga.antt =====
-- The text console of kernel.c: 80 columns and 25 rows of cells, a character with its colour above it.
-- Echo adds the copy of each character that goes to the serial port.
pub mod Bounds
pub mod Echo
mod Tests
use burst_kernel_virtual_mac.Base.{
  ℕ, zero, suc, ◌+◌, ◌-◌, ◌*◌, ◌/◌, ◌%◌, ◌^◌, Bool, ◌&&◌, List, [], ◌∷◌, ltb, leb, ◌==◌, set,
  replicate, if◌then◌else◌,
}

abbrev pub cells : ℕ
cells = 80 * 25

abbrev pub blank : ℕ
blank = 0x0F00

pub record Screen : Type 0 where
  pub vga : List ℕ
  pub cursor : ℕ
  pub current_color : ℕ

unfoldable pub clear_screen : Screen → Screen
clear_screen s = record { vga = replicate cells blank; cursor = 0; current_color = s.current_color }

-- What `kmain` starts with: white on black, and the loop of its own that clears the cells.
abbrev pub first_screen : Screen
first_screen = record { vga = replicate cells blank; cursor = 0; current_color = 0x0F }

-- `(bg << 4) | (fg & 0x0F)` in a byte; the two parts are disjoint.
unfoldable pub set_color : ℕ → ℕ → Screen → Screen
set_color fg bg s = record {
  vga = s.vga;
  cursor = s.cursor;
  current_color = (bg * 2 ^ 4 + fg % 2 ^ 4) % 2 ^ 8;
}

abbrev pub cell : ℕ → Screen → ℕ
cell c s = c + s.current_color * 2 ^ 8

-- The branches of the loop of `puts`, for one byte.
unfoldable pub put_char : ℕ → Screen → Screen
put_char c s =
    if c == 10
    then record { vga = s.vga; cursor = (s.cursor / 80 + 1) * 80; current_color = s.current_color }
    else if c == 8
    then (if ltb 0 s.cursor
        then record {
          vga = set s.vga (s.cursor - 1) (cell b' ' s);
          cursor = s.cursor - 1;
          current_color = s.current_color;
        }
        else s)
    else if leb 32 c && leb c 126
    then record {
      vga = set s.vga s.cursor (cell c s);
      cursor = s.cursor + 1;
      current_color = s.current_color;
    }
    else s

-- "Scroll (simple reset for now)"
unfoldable pub scroll : Screen → Screen
scroll s = if leb cells s.cursor then clear_screen s else s

unfoldable pub puts : List ℕ → Screen → Screen
puts [] s = s
puts (c ∷ text) s = puts text (scroll (put_char c s))
