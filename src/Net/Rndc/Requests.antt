-- ===== src/Net/Rndc/Requests.antt =====
-- The requests of an rndc connection, as their receiver reads them: `sign_rndc_body` and the messages
-- that `authenticate` and `command` write, in crates/bind9-sdk-net/src/rndc/mod.rs.
use bind9_sdk.Common.{
  ℕ, ◌+◌, ◌≤◌, ◌≡◌, refl, sym, ap, ◌∙◌, true, Option, none, some, [], ◌∷◌, arith, length, take,
  drop, le→leb, ok, >>=-eq-ok, ok-injective,
}
use bind9_sdk.Common.Bytes.{Bytes, codes, lex_lt}
use bind9_sdk.Common.Decimal.{to_decimal, to_decimal-ascii}
use bind9_sdk.Common.Utf8.{is_utf8, is_utf8-ascii}
use bind9_sdk.Core.Tsig.{TsigKey, Hmac, IsHmac}
use bind9_sdk.Net.Rndc.{
  str, binary, table, IscMap, nil, entry, string_or_binary, map_insert, encode, encode_map, decode,
  auth_key, read_frame_length,
}
use bind9_sdk.Net.Rndc.Maps.{IsMap, map_depth, normal_map}
use bind9_sdk.Net.Rndc.RoundTrip.{decode-encode}
use bind9_sdk.Net.Rndc.Hmac.{extract_hmac_input-encode, frame_message-length}
use bind9_sdk.Net.Rndc.Session.{Base64, IsBase64, build_ctrl_table, verify_isccc_hmac}
use bind9_sdk.Net.Rndc.Connection.{
  read_frame, decode_authenticated_payload, sign_rndc_body, signed_message, request,
}
use bind9_sdk.Net.Rndc.Authentic.{nonempty, IsSigned-verify_isccc_hmac}
use bind9_sdk.Net.Rndc.Signing.{body_map, sign_rndc_body-IsSigned, IsSigned-binary}

decimal-is_utf8 : (n : ℕ) → is_utf8 (to_decimal n) ≡ true
decimal-is_utf8 n = is_utf8-ascii (to_decimal n) (to_decimal-ascii n)

-- A text that may be missing.
abbrev pub IsText : Option Bytes → Type 0
IsText none = Unit {0}
IsText (some text) = is_utf8 text ≡ true

build_ctrl_table-IsMap :
    (serial now : ℕ) (nonce : Option Bytes)
    → IsText nonce
    → IsMap (build_ctrl_table serial now nonce)
unfolding build_ctrl_table map_insert lex_lt is_utf8
build_ctrl_table-IsMap serial now none h = (
  refl,
  decimal-is_utf8 (now + 60),
  refl,
  (refl, decimal-is_utf8 serial, refl, (refl, decimal-is_utf8 now, tt, tt)),
)
build_ctrl_table-IsMap serial now (some n) h = (
  refl,
  decimal-is_utf8 (now + 60),
  refl,
  (refl, h, refl, (refl, decimal-is_utf8 serial, refl, (refl, decimal-is_utf8 now, tt, tt))),
)

-- A control table holds texts alone.
build_ctrl_table-plain :
    (serial now : ℕ) (nonce : Option Bytes)
    → (normal_map (build_ctrl_table serial now nonce) ≡ build_ctrl_table serial now nonce)
      × (map_depth (build_ctrl_table serial now nonce) ≡ 0)
unfolding build_ctrl_table map_insert lex_lt normal_map
build_ctrl_table-plain serial now none = (refl, refl)
build_ctrl_table-plain serial now (some n) = (refl, refl)

-- The table that names the type of a request.
abbrev pub type_table : Bytes → IscMap
type_table type = map_insert (codes "type") (str type) nil

-- The message of a request, decoded from its encoding.
decode-signed_message :
    (v : Bytes) (serial now : ℕ) (nonce : Option Bytes) (type : Bytes) {payload : Bytes}
    → IsText nonce
    → is_utf8 type ≡ true
    → string_or_binary v ≡ binary v
    → (let message = signed_message v (build_ctrl_table serial now nonce) (type_table type) in
        encode message ≡ ok payload → decode payload ≡ ok message)
unfolding signed_message map_insert lex_lt is_utf8 normal_map
decode-signed_message v serial now nonce type named typed plain e =
    let (same, flat) = build_ctrl_table-plain serial now nonce in
    let valid = build_ctrl_table-IsMap serial now nonce named in
    let ctrl = build_ctrl_table serial now nonce in
    let auth = entry (codes "hsha") (binary v) nil in
    let rest = entry (codes "_data") (table (type_table type)) nil in
    let message = entry (codes "_auth") (table auth) (entry (codes "_ctrl") (table ctrl) rest) in
    let valid_message : IsMap message = (
      refl,
      (refl, tt, tt, tt),
      refl,
      (refl, valid, refl, (refl, (refl, typed, tt, tt), tt, tt)),
    ) in
    let texts : normal_map message ≡ message = rw (plain, same) refl in
    decode-encode message valid_message (omega (arith, flat)) e ∙ ap ok texts

take_whole : (xs : Bytes) → take (length xs) xs ≡ xs
take_whole [] = refl
take_whole (x ∷ xs) = ap (λ rest. x ∷ rest) (take_whole xs)

drop_whole : (xs : Bytes) → drop (length xs) xs ≡ []
drop_whole [] = refl
drop_whole (x ∷ xs) = drop_whole xs

-- A whole message in a frame of its own.
read_frame-whole :
    (a b c d : ℕ) (payload : Bytes)
    → read_frame_length a b c d ≡ length payload
    → 1 ≤ length payload
    → length payload ≤ 16777216
    → read_frame (a ∷ b ∷ c ∷ d ∷ payload) ≡ (ok payload, [])
unfolding read_frame
read_frame-whole a b c d payload e some_octet few =
    rw
      (
        e,
        nonempty payload some_octet,
        le→leb _ _ few,
        le→leb (length payload) (length payload) (omega arith),
        take_whole payload,
        drop_whole payload,
      )
      refl

encode-nonempty : (m : IscMap) {payload : Bytes} → encode m ≡ ok payload → 1 ≤ length payload
unfolding encode
encode-nonempty m e =
    let (body, _, made) = >>=-eq-ok (encode_map m) _ e in
    omega (arith, ap length (ok-injective made))

-- What the receiver of a request reads, if the request fits its limit of 16 MiB: one message and
-- nothing behind it, which is the one that was built for the serial, the time, the nonce and the
-- type; and a signature in it that the key verifies over the octets that the receiver takes for
-- signed.
pub read_frame-request :
    (h : Hmac) (base64 : Base64) (key : TsigKey) (serial now : ℕ) (nonce : Option Bytes)
    (type : Bytes) {frame : Bytes}
    → IsHmac h
    → IsBase64 base64
    → IsText nonce
    → is_utf8 type ≡ true
    → request h base64 key serial now nonce type ≡ ok frame
    → length frame ≤ 16777220
    → (payload v body : Bytes) × (read_frame frame ≡ (ok payload, []))
      × (decode_authenticated_payload payload
          ≡ ok (signed_message v (build_ctrl_table serial now nonce) (type_table type), body))
      × (verify_isccc_hmac h base64 key body v ≡ ok tt)
unfolding request decode_authenticated_payload
read_frame-request h base64 key serial now nonce type {frame} law plain named typed e few =
    let ctrl = build_ctrl_table serial now nonce in
    let (v, e₁, e₂) = >>=-eq-ok (sign_rndc_body h base64 key ctrl (type_table type)) _ e in
    let (body, e₃, signed) =
      sign_rndc_body-IsSigned h base64 key ctrl (type_table type) law plain e₁ in
    let message = signed_message v ctrl (type_table type) in
    let (payload, a, b, c, d, e₄, framed, size) = frame_message-length message e₂ in
    let short : length payload ≤ 16777216 = omega (arith, few, ap length framed) in
    let read = read_frame-whole a b c d payload size (encode-nonempty message e₄) short in
    let auth = table (entry (codes "hsha") (binary v) nil) in
    let rest = body_map ctrl (type_table type) in
    let e₄' : encode (entry auth_key auth rest) ≡ ok payload =
      unfold signed_message map_insert lex_lt in e₄ in
    let (body', e₅, extracted) = extract_hmac_input-encode auth rest e₄' in
    let same : body' ≡ body = ok-injective (sym e₅ ∙ e₃) in
    let decoded =
      decode-signed_message v serial now nonce type named typed
        (IsSigned-binary h base64 key body v signed) e₄ in
    (
      payload,
      v,
      body,
      ap read_frame framed ∙ read,
      rw (extracted, decoded, same) refl,
      IsSigned-verify_isccc_hmac h base64 key body v law signed,
    )
