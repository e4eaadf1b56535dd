-- ===== src/Common/Utf8.antt =====
-- `String::from_utf8`: which octet sequences are the UTF-8 of a Rust `String` (the table of
-- well-formed sequences of the Unicode standard, which the standard library follows).
use Prim.Native.Nat.{ℕ, zero, suc, ◌≤◌}
use mathlib.Core.Path.{◌≡◌, refl, ap, ◌∙◌}
use native.Mathlib.Omega.{arith}
use mathlib.Core.Bool.{Bool, true, false, ◌&&◌, ◌||◌}
use mathlib.Core.Option.{Option, none, some}
use mathlib.Core.List.{[], ◌∷◌}
use bind9_sdk.Common.Tests.{leb, ◌==◌, if◌then◌else◌}
use bind9_sdk.Common.Lists.{All}
use bind9_sdk.Common.Bytes.{Bytes}

-- Between two characters, or inside one: the range of the next byte, and how many follow it.
pub data Utf8State : Type 0 where
  boundary : Utf8State
  inside : ℕ → ℕ → ℕ → Utf8State

abbrev between : ℕ → ℕ → ℕ → Bool
between lo hi c = leb lo c && leb c hi

first_byte : ℕ → Option Utf8State
first_byte a =
    if leb a 0x7f
    then some boundary
    else if between 0xc2 0xdf a
    then some (inside 0x80 0xbf 0)
    else if a == 0xe0
    then some (inside 0xa0 0xbf 1)
    else if between 0xe1 0xec a || between 0xee 0xef a
    then some (inside 0x80 0xbf 1)
    else if a == 0xed
    then some (inside 0x80 0x9f 1)
    else if a == 0xf0
    then some (inside 0x90 0xbf 2)
    else if between 0xf1 0xf3 a
    then some (inside 0x80 0xbf 2)
    else if a == 0xf4
    then some (inside 0x80 0x8f 2)
    else none

utf8_step : Utf8State → ℕ → Option Utf8State
unfolding first_byte
utf8_step boundary a = first_byte a
utf8_step (inside lo hi zero) b = if between lo hi b then some boundary else none
utf8_step (inside lo hi (suc n)) b = if between lo hi b then some (inside 0x80 0xbf n) else none

utf8_scan : Option Utf8State → Bytes → Bool
unfolding utf8_step
utf8_scan none bs = false
utf8_scan (some boundary) [] = true
utf8_scan (some (inside lo hi n)) [] = false
utf8_scan (some s) (b ∷ bs) = utf8_scan (utf8_step s b) bs

unfoldable pub is_utf8 : Bytes → Bool
unfolding utf8_scan
is_utf8 = utf8_scan (some boundary)

first_byte-ascii : (b : ℕ) → b ≤ 0x7f → first_byte b ≡ some boundary
unfolding first_byte
first_byte-ascii b h = ground arith

first_byte-continuation : (b : ℕ) → 0x80 ≤ b → b ≤ 0xbf → first_byte b ≡ none
unfolding first_byte
first_byte-continuation b h k = ground arith

-- ASCII is UTF-8.
pub is_utf8-ascii : (bs : Bytes) → All (λ b. b ≤ 0x7f) bs → is_utf8 bs ≡ true
unfolding is_utf8 utf8_scan utf8_step
is_utf8-ascii [] h = refl
is_utf8-ascii (b ∷ bs) h = ap (λ s. utf8_scan s bs) (first_byte-ascii b h.0) ∙ is_utf8-ascii bs h.1

-- No UTF-8 text begins with a byte that continues a character.
pub is_utf8-continuation : (b : ℕ) (bs : Bytes) → 0x80 ≤ b → b ≤ 0xbf → is_utf8 (b ∷ bs) ≡ false
unfolding is_utf8 utf8_scan utf8_step
is_utf8-continuation b bs h k = ap (λ s. utf8_scan s bs) (first_byte-continuation b h k)
