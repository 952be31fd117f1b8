-- ===== src/Core/Text/Utf8.antt =====
-- `std::str::from_utf8`: whether bytes are UTF-8.
use yams.Prelude.{
  ℕ, Bool, true, false, ◌&&◌, Option, none, some, List, [], ◌∷◌, leb, ◌==◌, if◌then◌else◌,
}

-- The ranges of the bytes that must follow, each a lowest and a highest one.
abbrev pub Ranges : Type 0
Ranges = List (ℕ × ℕ)

-- What must follow a first byte.
abbrev pub following : ℕ → Option Ranges
following c =
    if leb c 0x7f
    then some []
    else if leb 0xc2 c && leb c 0xdf
    then some ((0x80, 0xbf) ∷ [])
    else if c == 0xe0
    then some ((0xa0, 0xbf) ∷ (0x80, 0xbf) ∷ [])
    else if c == 0xed
    then some ((0x80, 0x9f) ∷ (0x80, 0xbf) ∷ [])
    else if leb 0xe1 c && leb c 0xef
    then some ((0x80, 0xbf) ∷ (0x80, 0xbf) ∷ [])
    else if c == 0xf0
    then some ((0x90, 0xbf) ∷ (0x80, 0xbf) ∷ (0x80, 0xbf) ∷ [])
    else if leb 0xf1 c && leb c 0xf3
    then some ((0x80, 0xbf) ∷ (0x80, 0xbf) ∷ (0x80, 0xbf) ∷ [])
    else if c == 0xf4
    then some ((0x80, 0x8f) ∷ (0x80, 0xbf) ∷ (0x80, 0xbf) ∷ [])
    else none

-- The ranges for the bytes behind the byte `c`.
abbrev pub next_ranges : Ranges → ℕ → Option Ranges
next_ranges [] c = following c
next_ranges ((lo, hi) ∷ rest) c = if leb lo c && leb c hi then some rest else none

abbrev pub utf8_loop : Option Ranges → List ℕ → Bool
utf8_loop none bytes = false
utf8_loop (some []) [] = true
utf8_loop (some (range ∷ ranges)) [] = false
utf8_loop (some ranges) (c ∷ rest) = utf8_loop (next_ranges ranges c) rest

unfoldable pub is_utf8 : List ℕ → Bool
is_utf8 bytes = utf8_loop (some []) bytes
