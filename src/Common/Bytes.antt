-- ===== src/Common/Bytes.antt =====
-- Octet sequences: big-endian integers (`to_be_bytes`, `from_be_bytes`), the tests of ASCII, and
-- the byte order of keys. A byte is a number below 256, and `Vec<u8>`, `&[u8]` and the UTF-8 of a
-- `String` are lists of bytes.
use Prim.Native.Char.{code}
use Prim.Native.String.{String}
use Prim.Native.Nat.{ℕ, ◌+◌, ◌*◌, ◌/◌, ◌%◌, ◌^◌, ◌<◌, compare, Ordering}
use mathlib.Core.Path.{◌≡◌, refl}
use mathlib.Core.Logic.{◌↔◌}
use mathlib.Core.Bool.{Bool, true, false, ◌&&◌}
use mathlib.Core.List.{List, [], ◌∷◌, ◌++◌}
use native.Mathlib.Omega.{arith}
use bind9_sdk.Common.Lists.{take, drop}
use bind9_sdk.Common.Tests.{leb, ◌==◌, if◌then◌else◌}

abbrev pub Bytes : Type 0
Bytes = List ℕ

-- The bytes of an ASCII text. `String` has its own `[]` and `∷`.
abbrev pub codes : String → Bytes
codes String.[] = []
codes (String.◌∷◌ c s) = code c ∷ codes s

abbrev pub IsByte : ℕ → Type 0
IsByte b = b < 256

abbrev pub u16_bytes : ℕ → Bytes
u16_bytes n = (n / 256 % 256) ∷ (n % 256) ∷ []

abbrev pub u32_bytes : ℕ → Bytes
u32_bytes n = (n / 16777216 % 256) ∷ (n / 65536 % 256) ∷ (n / 256 % 256) ∷ (n % 256) ∷ []

abbrev pub u16_from : ℕ → ℕ → ℕ
u16_from a b = a * 256 + b

abbrev pub u32_from : ℕ → ℕ → ℕ → ℕ → ℕ
u32_from a b c d = a * 16777216 + b * 65536 + c * 256 + d

pub u16_from-bytes : (n : ℕ) → n < 2 ^ 16 → u16_from (n / 256 % 256) (n % 256) ≡ n
u16_from-bytes n h = omega arith

pub u32_from-bytes :
    (n : ℕ)
    → n < 2 ^ 32
    → u32_from (n / 16777216 % 256) (n / 65536 % 256) (n / 256 % 256) (n % 256) ≡ n
u32_from-bytes n h = omega arith

pub u32_from-lt :
    (a b c d : ℕ) → IsByte a → IsByte b → IsByte c → IsByte d → u32_from a b c d < 2 ^ 32
u32_from-lt a b c d ha hb hc hd = omega arith

-- `[u8] == [u8]`
unfoldable pub equal : Bytes → Bytes → Bool
equal [] [] = true
equal (x ∷ xs) (y ∷ ys) = x == y && equal xs ys
equal _ _ = false

pub equal_iff : (left right : Bytes) → (equal left right ≡ true) ↔ (left ≡ right)
unfolding equal
equal_iff [] [] = ground arith
equal_iff (x ∷ xs) (y ∷ ys) = ground (arith, equal_iff xs ys)
equal_iff _ _ = ground arith

-- `[u8] < [u8]` and `String < String`: the order of the keys of a `BTreeMap<String, _>`.
unfoldable pub lex_lt : Bytes → Bytes → Bool
lex_lt [] [] = false
lex_lt [] (y ∷ ys) = true
lex_lt (x ∷ xs) [] = false
lex_lt (x ∷ xs) (y ∷ ys) = elim (compare x y) [
  | Ordering.lt ↦ true
  | Ordering.gt ↦ false
  | Ordering.eq ↦ lex_lt xs ys
]

pub lex_lt_irrefl : (a : Bytes) → lex_lt a a ≡ false
unfolding lex_lt
lex_lt_irrefl [] = refl
lex_lt_irrefl (x ∷ a) = ground (arith, lex_lt_irrefl a)

pub lex_lt_trans : (a b c : Bytes) → lex_lt a b ≡ true → lex_lt b c ≡ true → lex_lt a c ≡ true
unfolding lex_lt
lex_lt_trans [] [] c h k = cc
lex_lt_trans [] (y ∷ b) [] h k = cc
lex_lt_trans [] (y ∷ b) (z ∷ c) h k = refl
lex_lt_trans (x ∷ a) [] c h k = cc
lex_lt_trans (x ∷ a) (y ∷ b) [] h k = cc
lex_lt_trans (x ∷ a) (y ∷ b) (z ∷ c) h k = ground (arith, lex_lt_trans a b c)

pub lex_lt-total : (a b : Bytes) → lex_lt a b ≡ false → lex_lt b a ≡ false → a ≡ b
unfolding lex_lt
lex_lt-total [] [] h k = refl
lex_lt-total [] (y ∷ b) h k = cc
lex_lt-total (x ∷ a) [] h k = cc
lex_lt-total (x ∷ a) (y ∷ b) h k = ground (arith, lex_lt-total a b)

-- `u8::is_ascii_digit`, `is_ascii_graphic`, `to_ascii_lowercase`, `eq_ignore_ascii_case`
unfoldable pub is_ascii_digit : ℕ → Bool
is_ascii_digit c = leb b'0' c && leb c b'9'

unfoldable pub is_ascii_graphic : ℕ → Bool
is_ascii_graphic c = leb 0x21 c && leb c 0x7e

unfoldable pub to_ascii_lowercase : ℕ → ℕ
to_ascii_lowercase c = if leb b'A' c && leb c b'Z' then c + 32 else c

unfoldable pub eq_ignore_ascii_case : ℕ → ℕ → Bool
unfolding to_ascii_lowercase
eq_ignore_ascii_case a b = to_ascii_lowercase a == to_ascii_lowercase b

-- `message[10..12].copy_from_slice(&count.to_be_bytes())`
unfoldable pub set_arcount : ℕ → Bytes → Bytes
set_arcount count message = take 10 message ++ (u16_bytes count ++ drop 12 message)

-- `[String]::join(".")`
unfoldable pub join_dots : List Bytes → Bytes
join_dots [] = []
join_dots (l ∷ []) = l
join_dots (l ∷ m ∷ ls) = l ++ (b'.' ∷ join_dots (m ∷ ls))
