-- ===== src/Net/Rndc/Hmac.antt =====
-- The bytes that an rndc signature covers, and the frame of a message.
use bind9_sdk.Common.{
  ℕ, ◌<◌, ◌^◌, ◌≡◌, refl, sym, ap, ◌∙◌, some, ◌∷◌, ◌++◌, arith, ltb, length, ok, >>=-eq-ok,
  ok-injective, ensure-eq-ok, ltb→lt,
}
use bind9_sdk.Common.Bytes.{Bytes, u32_bytes, u32_from-bytes, equal_iff}
use bind9_sdk.Errors.{NetError}
use bind9_sdk.Net.Rndc.{
  IscValue, str, binary, table, IscMap, entry, encode_value, encode_map, encode, encode_body,
  tagged, read_byte, auth_key, extract_hmac_input, frame_message, read_frame_length,
}
use bind9_sdk.Net.Rndc.Entries.{split_at-append, read_u32-bytes, tagged-ok}
use bind9_sdk.Net.Rndc.RoundTrip.{encode_map-entry}

-- The value of an entry is a tag, a length and that many bytes.
record IsTagged (wire : Bytes) : Type 0 where
  tag : ℕ
  raw : Bytes
  small : length raw < 2 ^ 32
  framed : wire ≡ tag ∷ (u32_bytes (length raw) ++ raw)

tagged-IsTagged :
    (tag : ℕ) (raw : Bytes) (e : NetError) {wire : Bytes}
    → tagged tag raw e ≡ ok wire
    → IsTagged wire
tagged-IsTagged tag raw e h =
    let (s, f) = tagged-ok tag raw e h in record { tag = tag; raw = raw; small = s; framed = f }

encode_value-IsTagged : (v : IscValue) {wire : Bytes} → encode_value v ≡ ok wire → IsTagged wire
unfolding encode_value
encode_value-IsTagged (str s) h = tagged-IsTagged 1 s _ h
encode_value-IsTagged (binary b) h = tagged-IsTagged 1 b _ h
encode_value-IsTagged (table m) h =
    let (nested, _, h') = >>=-eq-ok (encode_map m) _ h in tagged-IsTagged 2 nested _ h'

-- The reader behind the four bytes of the version, on an entry `_auth`.
extract-auth_entry :
    (version tag : ℕ) (raw rest : Bytes)
    → version < 2 ^ 32
    → length raw < 2 ^ 32
    → extract_hmac_input (
        u32_bytes version
        ++ (length auth_key ∷ (auth_key ++ (tag ∷ (u32_bytes (length raw) ++ (raw ++ rest))))))
      ≡ some rest
unfolding extract_hmac_input read_byte
extract-auth_entry version tag raw rest hv h = rw (
  read_u32-bytes version _ hv,
  split_at-append auth_key _,
  (equal_iff auth_key auth_key).1 refl,
  read_u32-bytes (length raw) _ h,
  split_at-append raw rest,
)

-- Where a message begins with its `_auth` entry, the bytes to be signed are the encoding of its
-- other entries.
pub extract_hmac_input-encode :
    (v : IscValue) (m : IscMap) {payload : Bytes}
    → encode (entry auth_key v m) ≡ ok payload
    → (body : Bytes) × (encode_body m ≡ ok body) × (extract_hmac_input payload ≡ some body)
unfolding encode encode_body
extract_hmac_input-encode v m h =
    let (all, e, made) = >>=-eq-ok (encode_map (entry auth_key v m)) _ h in
    let (value, body, e₁, e₂, _, cut) = encode_map-entry auth_key v m e in
    let t = encode_value-IsTagged v e₁ in
    (
      body,
      e₂,
      ap extract_hmac_input (
            sym (ok-injective made)
            ∙ ap (λ w. u32_bytes 1 ++ w) (cut ∙ ap (λ w. 5 ∷ (auth_key ++ (w ++ body))) t.framed))
          ∙ extract-auth_entry 1 t.tag t.raw body (omega arith) t.small,
    )

-- A frame is the payload behind its length, which the reader of the header gets back.
pub frame_message-length :
    (m : IscMap) {frame : Bytes}
    → frame_message m ≡ ok frame
    → (payload : Bytes) × (a b c d : ℕ) × (encode m ≡ ok payload)
      × (frame ≡ a ∷ b ∷ c ∷ d ∷ payload)
      × (read_frame_length a b c d ≡ length payload)
unfolding frame_message read_frame_length
frame_message-length m h =
    let (payload, e, h₁) = >>=-eq-ok (encode m) _ h in
    let (small, made) = ensure-eq-ok (ltb (length payload) (2 ^ 32)) _ _ h₁ in
    (
      payload,
      _,
      _,
      _,
      _,
      e,
      sym (ok-injective made),
      u32_from-bytes (length payload) (ltb→lt _ _ small),
    )
