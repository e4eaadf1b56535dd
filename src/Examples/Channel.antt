-- ===== src/Examples/Channel.antt =====
-- rndc messages: crates/bind9-sdk-net/src/rndc/protocol.rs.
use bind9_sdk.Common.{ℕ, ◌≡◌, ◌≢◌, refl, some, [], ◌∷◌, arith, length, ok, stuck}
use bind9_sdk.Common.Bytes.{Bytes, lex_lt}
use bind9_sdk.Common.Utf8.{is_utf8}
use bind9_sdk.Net.Rndc.{
  IscValue, str, binary, table, IscMap, nil, entry, map_insert, encode, encode_body, encode_map,
  encode_value, tagged, decode, decode_loop, decode_value, read_entry, read_u32, read_byte,
  split_at, string_or_binary, auth_key, extract_hmac_input, frame_message, read_frame_length,
}
use bind9_sdk.Net.Rndc.Maps.{IsMap, normal_map}
use bind9_sdk.Net.Rndc.RoundTrip.{decode-encode}
use bind9_sdk.Net.Rndc.Shape.{IsDecoded, decode-IsDecoded}
use bind9_sdk.Net.Rndc.Decode.{decode-ne-stuck}
use bind9_sdk.Net.Rndc.Hmac.{extract_hmac_input-encode, frame_message-length}

-- { "a": { "b": 0xff }, "c": "d" }
abbrev inner_map : IscMap
inner_map = entry (b'b' ∷ []) (binary (255 ∷ [])) nil

abbrev message : IscMap
message = entry (b'a' ∷ []) (table inner_map) (entry (b'c' ∷ []) (str (b'd' ∷ [])) nil)

abbrev body_bytes : Bytes
body_bytes =
    1 ∷ b'a' ∷ 2 ∷ 0 ∷ 0 ∷ 0 ∷ 8 ∷ 1 ∷ b'b' ∷ 1 ∷ 0 ∷ 0 ∷ 0 ∷ 1 ∷ 255 ∷ 1 ∷ b'c' ∷ 1 ∷ 0 ∷ 0 ∷ 0 ∷ 1
    ∷ b'd' ∷ []

abbrev message_bytes : Bytes
message_bytes = 0 ∷ 0 ∷ 0 ∷ 1 ∷ body_bytes

message-IsMap : IsMap message
unfolding is_utf8 lex_lt
message-IsMap = (refl, (refl, tt, tt, tt), refl, (refl, refl, tt, tt))

encode-message : encode message ≡ ok message_bytes
unfolding encode encode_map encode_value tagged
encode-message = refl

decode-message : decode message_bytes ≡ ok message
unfolding decode decode_loop decode_value read_entry read_u32 read_byte split_at string_or_binary
    is_utf8 map_insert lex_lt
decode-message = refl

-- A nested table that ends too soon.
decode-truncated : decode (0 ∷ 0 ∷ 0 ∷ 1 ∷ 1 ∷ b'a' ∷ 2 ∷ 0 ∷ 0 ∷ 0 ∷ 1 ∷ 7 ∷ []) ≢ ok nil
unfolding decode decode_loop decode_value read_entry read_u32 read_byte split_at string_or_binary
    is_utf8 map_insert lex_lt
decode-truncated = λ e. cc

decode-encode_example : decode message_bytes ≡ ok (normal_map message)
decode-encode_example = decode-encode message message-IsMap (omega arith) encode-message

decode-IsDecoded_example : IsDecoded 0 message
decode-IsDecoded_example = decode-IsDecoded message_bytes decode-message

decode-ne-stuck_example : decode (0 ∷ 0 ∷ 0 ∷ 1 ∷ 200 ∷ b'a' ∷ []) ≢ stuck
decode-ne-stuck_example = decode-ne-stuck (0 ∷ 0 ∷ 0 ∷ 1 ∷ 200 ∷ b'a' ∷ [])

abbrev signature : IscValue
signature = binary (7 ∷ 8 ∷ [])

abbrev signed_bytes : Bytes
signed_bytes =
    0 ∷ 0 ∷ 0 ∷ 1 ∷ 5 ∷ b'_' ∷ b'a' ∷ b'u' ∷ b't' ∷ b'h' ∷ 1 ∷ 0 ∷ 0 ∷ 0 ∷ 2 ∷ 7 ∷ 8 ∷ body_bytes

encode-signed : encode (entry auth_key signature message) ≡ ok signed_bytes
unfolding encode encode_map encode_value tagged
encode-signed = refl

extract_hmac_input-encode_example :
    (body : Bytes) × (encode_body message ≡ ok body) × (extract_hmac_input signed_bytes ≡ some body)
extract_hmac_input-encode_example = extract_hmac_input-encode signature message encode-signed

frame_message-message : frame_message message ≡ ok (0 ∷ 0 ∷ 0 ∷ 27 ∷ message_bytes)
unfolding frame_message encode encode_map encode_value tagged
frame_message-message = refl

frame_message-length_example :
    (payload : Bytes) × (a b c d : ℕ) × (encode message ≡ ok payload)
    × (0 ∷ 0 ∷ 0 ∷ 27 ∷ message_bytes ≡ a ∷ b ∷ c ∷ d ∷ payload)
    × (read_frame_length a b c d ≡ length payload)
frame_message-length_example = frame_message-length message frame_message-message
