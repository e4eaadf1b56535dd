-- ===== src/Net/Rndc/Shape.antt =====
-- The shape of what `IscMessage::decode` (crates/bind9-sdk-net/src/rndc/protocol.rs) returns.
use bind9_sdk.Common.{
  ℕ, zero, suc, ◌+◌, ◌-◌, ◌⊎◌, ◌≤◌, ◌≡◌, refl, ap, ◌∙◌, inl, inr, true, [], ◌∷◌, arith, ◌==◌,
  Result, ok, err, stuck, >>=-eq-ok, Bool-cases, ok-injective, ok_or, ensure-eq-ok, length,
}
use mathlib.Core.Path.{subst}
use bind9_sdk.Common.Bytes.{Bytes}
use bind9_sdk.Common.Utf8.{is_utf8}
use bind9_sdk.Errors.{NetError}
use bind9_sdk.Net.Rndc.{
  IscValue, table, IscMap, nil, entry, map_insert, read_entry, read_u32, decode_value,
  string_or_binary, decode_loop, decode, max_decode_depth,
}
use bind9_sdk.Net.Rndc.Decode.{read_entry_takes, nested_table}
use bind9_sdk.Net.Rndc.Maps.{
  IsMap, IsValue, map_depth, value_depth, map_insert-IsMap, map_insert-depth, normal_map,
  normal_value,
}

normal_map-insert :
    (key : Bytes) (v : IscValue) (m : IscMap)
    → normal_map (map_insert key v m) ≡ map_insert key (normal_value v) (normal_map m)
unfolding map_insert normal_map
normal_map-insert key v nil = refl
normal_map-insert key v (entry k w m) = ground (arith, normal_map-insert key v m)

-- A map read at a depth.
pub record IsDecoded (depth : ℕ) (m : IscMap) : Type 0 where
  pub wellformed : IsMap m
  pub shallow : depth + map_depth m ≤ max_decode_depth
  pub normal : normal_map m ≡ m

record IsDecodedValue (depth : ℕ) (v : IscValue) : Type 0 where
  wellformed : IsValue v
  shallow : depth + value_depth v ≤ max_decode_depth
  normal : normal_value v ≡ v

insert-IsDecoded :
    (depth : ℕ) (key : Bytes) (v : IscValue) (m : IscMap)
    → is_utf8 key ≡ true
    → IsDecodedValue depth v
    → IsDecoded depth m
    → IsDecoded depth (map_insert key v m)
insert-IsDecoded depth key v m hk hv hm = record {
  wellformed = map_insert-IsMap key v m hk hv.wellformed hm.wellformed;
  shallow =
      omega
        (arith, map_insert-depth key v m (max_decode_depth - depth) (omega arith) (omega arith));
  normal = normal_map-insert key v m ∙ cc (hv.normal, hm.normal);
}

string_or_binary-IsDecodedValue :
    (depth : ℕ) (raw : Bytes)
    → depth ≤ max_decode_depth
    → IsDecodedValue depth (string_or_binary raw)
unfolding string_or_binary normal_value
string_or_binary-IsDecodedValue depth raw h = elim (Bool-cases (is_utf8 raw)) [
  | inl e ↦ rw e (record { wellformed = e; shallow = omega arith; normal = refl })
  | inr e ↦ rw e (record { wellformed = tt; shallow = omega arith; normal = rw e })
]

decode_value_cases :
    (depth tag : ℕ) (raw : Bytes) (deeper : Result NetError IscMap) {v : IscValue}
    → decode_value tag raw (nested_table depth deeper) ≡ ok v
    → (string_or_binary raw ≡ v)
      ⊎ ((m : IscMap) × (depth ≤ max_decode_depth) × (deeper ≡ ok m) × (table m ≡ v))
unfolding decode_value
decode_value_cases depth tag raw (ok m) h = elim (Bool-cases (tag == 1)) [
  | inl e ↦ inl (ground arith)
  | inr e ↦ inr (m, ground arith, refl, ground arith)
]
decode_value_cases depth tag raw (err e) h = inl (ground arith)
decode_value_cases depth tag raw stuck h = inl (ground arith)

decode_value-IsDecodedValue :
    (depth tag : ℕ) (raw : Bytes) (deeper : Result NetError IscMap) {v : IscValue}
    → depth ≤ max_decode_depth
    → ((m : IscMap) → suc depth ≤ max_decode_depth → deeper ≡ ok m → IsDecoded (suc depth) m)
    → decode_value tag raw (nested_table (suc depth) deeper) ≡ ok v
    → IsDecodedValue depth v
decode_value-IsDecodedValue depth tag raw deeper {v} h nested e =
    elim (decode_value_cases (suc depth) tag raw deeper e) [
      | inl e' ↦ subst (IsDecodedValue depth) e' (string_or_binary-IsDecodedValue depth raw h)
      | inr (m, room, made, e') ↦
          let inner = nested m room made in
          subst (IsDecodedValue depth) e' (record {
            wellformed = inner.wellformed;
            shallow = omega (arith, inner.shallow);
            normal = unfold normal_value in ap table inner.normal;
          })
    ]

nil-IsDecoded : {depth : ℕ} → depth ≤ max_decode_depth → IsDecoded depth nil
nil-IsDecoded h = record {
  wellformed = tt;
  shallow = omega arith;
  normal = unfold normal_map in refl;
}

decode_loop-IsDecoded :
    (fuel depth : ℕ) (bs : Bytes) (m : IscMap) {r : IscMap}
    → depth ≤ max_decode_depth
    → IsDecoded depth m
    → decode_loop fuel depth bs m ≡ ok r
    → IsDecoded depth r
unfolding decode_loop
decode_loop-IsDecoded fuel depth [] m hd hm h = subst (IsDecoded depth) (ok-injective h) hm
decode_loop-IsDecoded zero depth (b ∷ bs) m hd hm h = cc
decode_loop-IsDecoded (suc fuel) depth (b ∷ bs) m hd hm h =
    let ((key, tag, raw, rest), e, h₁) = >>=-eq-ok (read_entry b bs) _ h in
    let deeper = decode_loop fuel (suc depth) raw nil in
    let (v, e₁, h₂) = >>=-eq-ok (decode_value tag raw (nested_table (suc depth) deeper)) _ h₁ in
    let good = (read_entry_takes b bs key tag raw rest e).0 in
    let value =
      decode_value-IsDecodedValue depth tag raw deeper hd
        (λ t room made.
          decode_loop-IsDecoded fuel (suc depth) raw nil room (nil-IsDecoded room) made)
        e₁ in
    decode_loop-IsDecoded fuel depth rest (map_insert key v m) hd
      (insert-IsDecoded depth key v m good value hm) h₂

-- A message that `decode` returns has its keys in strict order and UTF-8 in every text, its tables
-- nest at most 32 deep, and it has a `Binary` only where the bytes are no UTF-8.
pub decode-IsDecoded : (bytes : Bytes) {m : IscMap} → decode bytes ≡ ok m → IsDecoded 0 m
unfolding decode
decode-IsDecoded bytes h =
    let ((version, rest), e, h₁) = >>=-eq-ok (ok_or (read_u32 bytes) _) _ h in
    let (_, h₂) = ensure-eq-ok (version == 1) _ _ h₁ in
    decode_loop-IsDecoded (length rest) 0 rest nil (omega arith) (nil-IsDecoded (omega arith)) h₂
