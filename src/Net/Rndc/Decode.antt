-- ===== src/Net/Rndc/Decode.antt =====
-- `IscMessage::decode` (crates/bind9-sdk-net/src/rndc/protocol.rs) on any input.
use bind9_sdk.Common.{
  ℕ, zero, suc, ◌+◌, ◌≤◌, ◌<◌, ◌≡◌, ◌≢◌, refl, ap, true, some, [], ◌∷◌, ◌++◌, arith, ltb, ◌==◌,
  if◌then◌else◌, length, length-take, length-drop, take, drop, take-append-drop, Result, ok, err,
  stuck, >>=-eq-ok, ok-injective, ok_or, ok_or-eq-ok, ensure-eq-ok, >>=-ne-stuck, ok_or-ne-stuck,
  ensure-ne-stuck,
}
use mathlib.Core.Path.{subst}
use bind9_sdk.Common.Bytes.{Bytes}
use bind9_sdk.Common.Utf8.{is_utf8}
use bind9_sdk.Errors.{NetError, protocol}
use bind9_sdk.Net.Rndc.{
  IscMap, nil, map_insert, split_at, read_byte, read_u32, read_entry, decode_value, decode_loop,
  decode, max_decode_depth,
}

pub split_at-some :
    (n : ℕ) (bs front back : Bytes)
    → split_at n bs ≡ some (front, back)
    → (front ++ back ≡ bs) × (length front ≡ n) × (length front + length back ≡ length bs)
unfolding split_at
split_at-some n bs front back h =
    let (fits, e, e') = parts in
    (
      subst (λ f. f ++ back ≡ bs) e (subst (λ b. take n bs ++ b ≡ bs) e' (take-append-drop n bs)),
      omega (arith, ap length e, length-take n bs),
      omega (arith, ap length e, ap length e', length-take n bs, length-drop n bs),
    )
  where
    parts : (n ≤ length bs) × (take n bs ≡ front) × (drop n bs ≡ back)
    parts = ground arith

read_u32_takes :
    (bs : Bytes) (n : ℕ) (rest : Bytes) → read_u32 bs ≡ some (n, rest) → length rest < length bs
unfolding read_u32
read_u32_takes [] n rest h = cc
read_u32_takes (a ∷ []) n rest h = cc
read_u32_takes (a ∷ b ∷ []) n rest h = cc
read_u32_takes (a ∷ b ∷ c ∷ []) n rest h = cc
read_u32_takes (a ∷ b ∷ c ∷ d ∷ bs) n rest h = ground arith

read_byte_takes :
    (bs : Bytes) (b : ℕ) (rest : Bytes) → read_byte bs ≡ some (b, rest) → length rest < length bs
unfolding read_byte
read_byte_takes [] b rest h = cc
read_byte_takes (c ∷ bs) b rest h = ground arith

-- The value and what follows it are parts of the input.
pub read_entry_takes :
    (n : ℕ) (bs key : Bytes) (tag : ℕ) (raw rest : Bytes)
    → read_entry n bs ≡ ok (key, tag, raw, rest)
    → (is_utf8 key ≡ true) × (length raw + length rest ≤ length bs)
unfolding read_entry read_byte
read_entry_takes n bs key tag raw rest h =
    let ((k, after_key), e₁, h₁) = >>=-eq-ok (ok_or (split_at n bs) _) _ h in
    let (good, h₂) = ensure-eq-ok (is_utf8 k) _ _ h₁ in
    let ((t, after_tag), e₃, h₃) = >>=-eq-ok (ok_or (read_byte after_key) _) _ h₂ in
    let ((len, body), e₄, h₄) = >>=-eq-ok (ok_or (read_u32 after_tag) _) _ h₃ in
    let ((r, s), e₅, h₅) = >>=-eq-ok (ok_or (split_at len body) _) _ h₄ in
    let (_, _, l₁) = split_at-some n bs k after_key (ok_or-eq-ok _ _ e₁) in
    let l₃ = read_byte_takes after_key t after_tag (ok_or-eq-ok _ _ e₃) in
    let l₄ = read_u32_takes after_tag len body (ok_or-eq-ok _ _ e₄) in
    let (_, _, l₅) = split_at-some len body r s (ok_or-eq-ok _ _ e₅) in
    ground (arith, ok-injective h₅, good, l₁, l₃, l₄, l₅)

read_entry-ne-stuck : (n : ℕ) (bs : Bytes) → read_entry n bs ≢ stuck
unfolding read_entry
read_entry-ne-stuck n bs =
    >>=-ne-stuck (ok_or (split_at n bs) _) _ (ok_or-ne-stuck _ _) λ (k, after_key) e₁.
      ensure-ne-stuck (is_utf8 k) _ _ (
        >>=-ne-stuck (ok_or (read_byte after_key) _) _ (ok_or-ne-stuck _ _) λ (t, after_tag) e₂.
          >>=-ne-stuck (ok_or (read_u32 after_tag) _) _ (ok_or-ne-stuck _ _) λ (len, body) e₃.
            >>=-ne-stuck (ok_or (split_at len body) _) _ (ok_or-ne-stuck _ _) λ (r, s) e₄ p. cc)

decode_value-ne-stuck :
    (tag : ℕ) (raw : Bytes) (nested : Result NetError IscMap)
    → nested ≢ stuck
    → decode_value tag raw nested ≢ stuck
unfolding decode_value
decode_value-ne-stuck tag raw (ok m) h p = ground arith
decode_value-ne-stuck tag raw (err e) h p = ground arith
decode_value-ne-stuck tag raw stuck h p = absurd (h refl)

-- The test of the depth, then the nested table.
abbrev pub nested_table : ℕ → Result NetError IscMap → Result NetError IscMap
nested_table depth deeper =
    if ltb max_decode_depth depth
    then err (protocol "ISC message exceeds maximum nesting depth")
    else deeper

nested_table-ne-stuck :
    (depth : ℕ) (deeper : Result NetError IscMap)
    → deeper ≢ stuck
    → nested_table depth deeper ≢ stuck
nested_table-ne-stuck depth deeper h p = ground arith

decode_loop-ne-stuck :
    (fuel depth : ℕ) (bs : Bytes) (m : IscMap)
    → length bs ≤ fuel
    → decode_loop fuel depth bs m ≢ stuck
unfolding decode_loop
decode_loop-ne-stuck fuel depth [] m h = λ p. cc
decode_loop-ne-stuck zero depth (b ∷ bs) m h = absurd (omega arith)
decode_loop-ne-stuck (suc fuel) depth (b ∷ bs) m h =
    >>=-ne-stuck (read_entry b bs) _ (read_entry-ne-stuck b bs) λ (key, tag, raw, rest) e.
      let (_, takes) = read_entry_takes b bs key tag raw rest e in
      let deeper = decode_loop-ne-stuck fuel (suc depth) raw nil (omega arith) in
      >>=-ne-stuck
        (decode_value tag raw (nested_table (suc depth) (decode_loop fuel (suc depth) raw nil))) _
        (decode_value-ne-stuck tag raw _ (nested_table-ne-stuck (suc depth) _ deeper))
        λ value e'. decode_loop-ne-stuck fuel depth rest (map_insert key value m) (omega arith)

-- `decode` returns on every input: its loop, nested calls included, never runs out of fuel.
pub decode-ne-stuck : (bytes : Bytes) → decode bytes ≢ stuck
unfolding decode
decode-ne-stuck bytes =
    >>=-ne-stuck (ok_or (read_u32 bytes) _) _ (ok_or-ne-stuck _ _) λ (version, rest) e.
      ensure-ne-stuck (version == 1) _ _
        (decode_loop-ne-stuck (length rest) 0 rest nil (omega arith))
