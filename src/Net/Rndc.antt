-- ===== src/Net/Rndc.antt =====
-- The isccc messages of the rndc channel: crates/bind9-sdk-net/src/rndc/protocol.rs.
-- A `BTreeMap` is the list of its entries in key order. `decode_map` walks a slice by a position:
-- here that is the list of the bytes from the position on, and its fuel is their number, since a
-- round takes one byte at least and a nested table is a part of the slice.
pub mod Maps
pub mod Decode
pub mod Extend
pub mod Entries
pub mod RoundTrip
pub mod Shape
pub mod Hmac
pub mod Session
pub mod Answer
pub mod Connection
pub mod Fresh
pub mod Padding
pub mod Authentic
pub mod Signing
pub mod Requests
pub mod Replay
use bind9_sdk.Common.{
  ℕ, zero, suc, ◌+◌, ◌^◌, Bool, true, false, not, Option, none, some, [], ◌∷◌, ◌++◌, ltb, leb, ◌==◌,
  if◌then◌else◌, length, take, drop, Result, ok, err, stuck, ◌>>=◌, ◌>>◌, ensure, ok_or,
}
use bind9_sdk.Common.Bytes.{Bytes, u32_bytes, u32_from, lex_lt, equal}
use bind9_sdk.Common.Utf8.{is_utf8}
use bind9_sdk.Errors.{NetError, protocol}

mutual
  pub data IscValue : Type 0 where
    str : Bytes → IscValue
    binary : Bytes → IscValue
    table : IscMap → IscValue

  pub data IscMap : Type 0 where
    nil : IscMap
    entry : Bytes → IscValue → IscMap → IscMap

abbrev pub max_decode_depth : ℕ
max_decode_depth = 32

-- `BTreeMap::insert`
unfoldable pub map_insert : Bytes → IscValue → IscMap → IscMap
map_insert key v nil = entry key v nil
map_insert key v (entry k w m) =
    if lex_lt key k
    then entry key v (entry k w m)
    else if lex_lt k key
    then entry k w (map_insert key v m)
    else entry key v m

-- `BTreeMap::get`
unfoldable pub map_get : Bytes → IscMap → Option IscValue
map_get key nil = none
map_get key (entry k w m) = if equal k key then some w else map_get key m

unfoldable pub get_string : Bytes → IscMap → Option Bytes
get_string key m = elim (map_get key m) [ some (str s) ↦ some s | some _ ↦ none | none ↦ none ]

unfoldable pub get_binary : Bytes → IscMap → Option Bytes
get_binary key m = elim (map_get key m) [ some (binary b) ↦ some b | some _ ↦ none | none ↦ none ]

unfoldable pub get_map : Bytes → IscMap → Option IscMap
get_map key m = elim (map_get key m) [ some (table t) ↦ some t | some _ ↦ none | none ↦ none ]

-- The type tag, the length and the bytes of a value, once `u32::try_from` has the length.
unfoldable pub tagged : ℕ → Bytes → NetError → Result NetError Bytes
tagged tag bytes too_long = do
  ensure (ltb (length bytes) (2 ^ 32)) too_long
  ok (tag ∷ (u32_bytes (length bytes) ++ bytes))

-- `encode_map`: the bytes that it appends to the buffer.
unfoldable mutual
  pub encode_value : IscValue → Result NetError Bytes
  encode_value (str s) = tagged 1 s (protocol "ISC string value exceeds 4GB")
  encode_value (binary b) = tagged 1 b (protocol "ISC binary value exceeds 4GB")
  encode_value (table m) = do
    nested ← encode_map m
    tagged 2 nested (protocol "ISC nested map exceeds 4GB")

  pub encode_map : IscMap → Result NetError Bytes
  encode_map nil = ok []
  encode_map (entry key v m) = do
    ensure (leb (length key) 255) (protocol "ISC message key exceeds 255 bytes")
    value ← encode_value v
    more ← encode_map m
    ok (length key ∷ (key ++ (value ++ more)))

-- `IscMessage::encode` and `encode_body`
unfoldable pub encode : IscMap → Result NetError Bytes
encode m = do body ← encode_map m; ok (u32_bytes 1 ++ body)

unfoldable pub encode_body : IscMap → Result NetError Bytes
encode_body m = encode_map m

-- `data[pos..pos + n]` and what follows, if the slice holds that much.
unfoldable pub split_at : ℕ → Bytes → Option (Bytes × Bytes)
split_at n bytes = if leb n (length bytes) then some (take n bytes, drop n bytes) else none

unfoldable pub read_byte : Bytes → Option (ℕ × Bytes)
read_byte [] = none
read_byte (b ∷ bs) = some (b, bs)

unfoldable pub read_u32 : Bytes → Option (ℕ × Bytes)
read_u32 (a ∷ b ∷ c ∷ d ∷ rest) = some (u32_from a b c d, rest)
read_u32 _ = none

-- `String::from_utf8(raw)`, or the bytes as they are.
unfoldable pub string_or_binary : Bytes → IscValue
string_or_binary raw = if is_utf8 raw then str raw else binary raw

unfoldable pub decode_value : ℕ → Bytes → Result NetError IscMap → Result NetError IscValue
unfolding string_or_binary
decode_value tag raw nested =
    if tag == 1
    then ok (string_or_binary raw)
    else if tag == 2
    then (nested >>= λ m. ok (table m))
    else err (protocol "ISC message: unknown type tag")

-- What precedes a value in an entry: the key, the tag, and the value's bytes with what follows.
unfoldable pub read_entry : ℕ → Bytes → Result NetError (Bytes × ℕ × Bytes × Bytes)
read_entry key_len bytes = do
  (key, after_key) ← ok_or (split_at key_len bytes) (protocol "ISC message truncated: key bytes")
  ensure (is_utf8 key) (protocol "ISC message key is not valid UTF-8")
  (tag, after_tag) ←
      ok_or (read_byte after_key) (protocol "ISC message truncated: missing type tag")
  (val_len, body) ←
      ok_or (read_u32 after_tag) (protocol "ISC message truncated: missing value length")
  (raw, rest) ← ok_or (split_at val_len body) (protocol "ISC message truncated: value bytes")
  ok (key, tag, raw, rest)

-- The loop of `decode_map` at a depth, with the map so far. The nested call tests its depth first.
unfoldable pub decode_loop : ℕ → ℕ → Bytes → IscMap → Result NetError IscMap
decode_loop fuel depth [] m = ok m
decode_loop zero depth (b ∷ bs) m = stuck
decode_loop (suc fuel) depth (b ∷ bs) m = do
  (key, tag, raw, rest) ← read_entry b bs
  let deeper = decode_loop fuel (suc depth) raw nil
  let nested =
      if ltb max_decode_depth (suc depth)
      then err (protocol "ISC message exceeds maximum nesting depth")
      else deeper
  value ← decode_value tag raw nested
  decode_loop fuel depth rest (map_insert key value m)

-- `IscMessage::decode`; at the top the depth is 0, which passes the test.
unfoldable pub decode : Bytes → Result NetError IscMap
decode bytes = do
  (version, rest) ← ok_or (read_u32 bytes) (protocol "ISC message too short")
  ensure (version == 1) (protocol "unsupported ISC message version")
  decode_loop (length rest) 0 rest nil

abbrev pub auth_key : Bytes
auth_key = b'_' ∷ b'a' ∷ b'u' ∷ b't' ∷ b'h' ∷ []

infixl 5 ◌>>=ₒ◌
abbrev pub ◌>>=ₒ◌ {ℓ κ} : {A : Type ℓ} {B : Type κ} → Option A → (A → Option B) → Option B
none >>=ₒ f = none
some a >>=ₒ f = f a

unfoldable pub extract_hmac_input : Bytes → Option Bytes
extract_hmac_input payload = read_u32 payload >>=ₒ λ (_, entries).
    read_byte entries >>=ₒ λ (key_len, bytes). split_at key_len bytes >>=ₒ λ (key, after_key).
    if not (equal key auth_key)
    then none
    else (read_byte after_key >>=ₒ λ (_, after_tag). read_u32 after_tag >>=ₒ λ (val_len, body).
        split_at val_len body >>=ₒ λ (_, rest). some rest)

unfoldable pub frame_message : IscMap → Result NetError Bytes
frame_message m = do
  payload ← encode m
  ensure (ltb (length payload) (2 ^ 32)) (protocol "ISC message exceeds 4GB")
  ok (u32_bytes (length payload) ++ payload)

unfoldable pub read_frame_length : ℕ → ℕ → ℕ → ℕ → ℕ
read_frame_length a b c d = u32_from a b c d
