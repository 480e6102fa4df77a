-- ===== src/Vga/Bounds.antt =====
-- The screen of kernel.c between two characters, and behind one before the scroll.
use burst_kernel_virtual_mac.Base.{
  ℕ, ◌-◌, ◌≤◌, ◌<◌, ◌≡◌, ◌∙◌, ◌&&◌, List, [], ◌∷◌, arith, ltb, leb, ◌==◌, length, length-set,
  length-replicate, inl, inr, Bool-cases,
}
use burst_kernel_virtual_mac.Vga.{Screen, blank, clear_screen, put_char, scroll, puts, cell}

-- A screen between two characters.
pub record IsScreen (s : Screen) : Type 0 where
  pub fits : length s.vga ≡ 2000
  pub inside : s.cursor < 2000

-- A screen behind a character: the cursor may stand behind the last cell, at most one.
record IsWritten (s : Screen) : Type 0 where
  fits : length s.vga ≡ 2000
  inside : s.cursor ≤ 2000

put_char-IsWritten : (c : ℕ) (s : Screen) → IsScreen s → IsWritten (put_char c s)
unfolding put_char
put_char-IsWritten c s v = elim (Bool-cases (c == 10)) [
  | inl newline ↦ rw newline (record { fits = v.fits; inside = omega (arith, v.inside) })
  | inr n ↦ elim (Bool-cases (c == 8)) [
    | inl back ↦ elim (Bool-cases (ltb 0 s.cursor)) [
      | inl behind ↦
          rw (n, back, behind)
            (record {
              fits = length-set s.vga (s.cursor - 1) (cell b' ' s) ∙ v.fits;
              inside = omega (arith, v.inside);
            })
      | inr start ↦ rw (n, back, start) (record { fits = v.fits; inside = omega (arith, v.inside) })
    ]
    | inr m ↦ elim (Bool-cases (leb 32 c && leb c 126)) [
      | inl printable ↦
          rw (n, m, printable)
            (record {
              fits = length-set s.vga s.cursor (cell c s) ∙ v.fits;
              inside = omega (arith, v.inside);
            })
      | inr other ↦ rw (n, m, other) (record { fits = v.fits; inside = omega (arith, v.inside) })
    ]
  ]
]

scroll-IsScreen : (s : Screen) → IsWritten s → IsScreen (scroll s)
unfolding scroll clear_screen
scroll-IsScreen s v = elim (Bool-cases (leb 2000 s.cursor)) [
  | inl full ↦ rw full (record { fits = length-replicate 2000 blank; inside = omega arith })
  | inr room ↦ rw room (record { fits = v.fits; inside = ground arith })
]

-- From a screen of 2000 cells with the cursor on it, any text leaves a screen of 2000 cells
-- with the cursor on it.
pub puts-IsScreen : (text : List ℕ) (s : Screen) → IsScreen s → IsScreen (puts text s)
unfolding puts
puts-IsScreen [] s v = v
puts-IsScreen (c ∷ text) s v =
    puts-IsScreen text (scroll (put_char c s))
      (scroll-IsScreen (put_char c s) (put_char-IsWritten c s v))
