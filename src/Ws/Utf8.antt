-- ===== src/Ws/Utf8.antt =====
-- `std::str::from_utf8`: which byte sequences are UTF-8 (RFC 3629), one byte at a time.
use pahoa.Prelude.{
  ℕ, ◌-◌, Bool, true, false, ◌&&◌, Option, none, some, List, [], ◌∷◌, ltb, leb, eqb, if◌then◌else◌,
}

-- Between characters, or waiting for a number of continuation bytes of which the next is in a range.
pub data Utf8State : Type 0 where
  start : Utf8State
  want : ℕ → ℕ → ℕ → Utf8State

unfoldable pub first_byte : ℕ → Option Utf8State
first_byte b =
    if ltb b 0x80
    then some start
    else if ltb b 0xc2
    then none
    else if ltb b 0xe0
    then some (want 1 0x80 0xbf)
    else if eqb b 0xe0
    then some (want 2 0xa0 0xbf)
    else if eqb b 0xed
    then some (want 2 0x80 0x9f)
    else if ltb b 0xf0
    then some (want 2 0x80 0xbf)
    else if eqb b 0xf0
    then some (want 3 0x90 0xbf)
    else if ltb b 0xf4
    then some (want 3 0x80 0xbf)
    else if eqb b 0xf4
    then some (want 3 0x80 0x8f)
    else none

unfoldable pub next_byte : Utf8State → ℕ → Option Utf8State
unfolding first_byte
next_byte start b = first_byte b
next_byte (want n lo hi) b =
    if leb lo b && leb b hi
    then (if leb n 1 then some start else some (want (n - 1) 0x80 0xbf))
    else none

unfoldable pub utf8_from : Option Utf8State → List ℕ → Bool
unfolding next_byte
utf8_from none bytes = false
utf8_from (some start) [] = true
utf8_from (some (want n lo hi)) [] = false
utf8_from (some s) (b ∷ bytes) = utf8_from (next_byte s b) bytes

unfoldable pub is_utf8 : List ℕ → Bool
unfolding utf8_from
is_utf8 bytes = utf8_from (some start) bytes
