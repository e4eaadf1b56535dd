-- ===== src/Net/Rndc/RoundTrip.antt =====
-- `IscMessage::decode` after `IscMessage::encode` (crates/bind9-sdk-net/src/rndc/protocol.rs).
use bind9_sdk.Common.{
  ℕ, zero, suc, ◌+◌, ◌≤◌, ◌≡◌, refl, sym, ap, ◌∙◌, true, ◌∷◌, ◌++◌, arith, leb, length,
  length-append, ok, >>=-eq-ok, ok-injective, ensure-eq-ok, leb→le,
}
use mathlib.Core.Path.{subst}
use bind9_sdk.Common.Bytes.{Bytes}
use bind9_sdk.Common.Utf8.{is_utf8}
use bind9_sdk.Errors.{NetError}
use bind9_sdk.Net.Rndc.{
  IscValue, str, binary, table, IscMap, nil, entry, map_insert, tagged, encode_value, encode_map,
  encode, string_or_binary, decode_loop, decode, max_decode_depth,
}
use bind9_sdk.Net.Rndc.Maps.{IsMap, IsValue, map_depth, normal_map, normal_value}
use bind9_sdk.Net.Rndc.Extend.{extend, extend-normal_map}
use bind9_sdk.Net.Rndc.Entries.{
  read_u32-bytes, IsEncoded, tagged-ok, binary-IsEncoded, table-reads, decode_loop-entry,
}

pub encode_map-entry :
    (k : Bytes) (v : IscValue) (m : IscMap) {wire : Bytes}
    → encode_map (entry k v m) ≡ ok wire
    → (value : Bytes) × (more : Bytes) × (encode_value v ≡ ok value)
      × (encode_map m ≡ ok more)
      × (length k ≤ 255)
      × (wire ≡ length k ∷ (k ++ (value ++ more)))
unfolding encode_map
encode_map-entry k v m h =
    let (short, h₁) = ensure-eq-ok (leb (length k) 255) _ _ h in
    let (value, e, h₂) = >>=-eq-ok (encode_value v) _ h₁ in
    let (more, e', h₃) = >>=-eq-ok (encode_map m) _ h₂ in
    (value, more, e, e', leb→le _ _ short, sym (ok-injective h₃))

encode_value-table :
    (m : IscMap) {wire : Bytes}
    → encode_value (table m) ≡ ok wire
    → (nested : Bytes) × (e : NetError) × (encode_map m ≡ ok nested) × (tagged 2 nested e ≡ ok wire)
unfolding encode_value
encode_value-table m h = let (nested, e, h') = >>=-eq-ok (encode_map m) _ h in (nested, _, e, h')

str-IsEncoded :
    (s : Bytes) {wire : Bytes}
    → is_utf8 s ≡ true
    → encode_value (str s) ≡ ok wire
    → IsEncoded (str s) wire
unfolding encode_value
str-IsEncoded s h e = binary-IsEncoded (str s) s _ (unfold string_or_binary normal_value in rw h) e

blob-IsEncoded :
    (b : Bytes) {wire : Bytes} → encode_value (binary b) ≡ ok wire → IsEncoded (binary b) wire
unfolding encode_value
blob-IsEncoded b e = binary-IsEncoded (binary b) b _ (unfold normal_value in refl) e

decode_loop-nil :
    (fuel depth : ℕ) (wire : Bytes) (acc : IscMap)
    → encode_map nil ≡ ok wire
    → decode_loop fuel depth wire acc ≡ ok (extend acc (normal_map nil))
unfolding encode_map decode_loop extend normal_map
decode_loop-nil fuel depth wire acc e =
    subst (λ w. decode_loop fuel depth w acc ≡ ok acc) (ok-injective e) refl

extend-entry :
    (acc : IscMap) (k : Bytes) (v : IscValue) (m : IscMap)
    → extend acc (normal_map (entry k v m))
      ≡ extend (map_insert k (normal_value v) acc) (normal_map m)
unfolding extend normal_map
extend-entry acc k v m = refl

normal_value-table : (m : IscMap) → normal_value (table m) ≡ table (normal_map m)
unfolding normal_value
normal_value-table m = refl

mutual
  encode_value-IsEncoded :
      (v : IscValue) (wire : Bytes) → IsValue v → encode_value v ≡ ok wire → IsEncoded v wire
  encode_value-IsEncoded (str s) wire h e = str-IsEncoded s h e
  encode_value-IsEncoded (binary b) wire h e = blob-IsEncoded b e
  encode_value-IsEncoded (table m) wire h e =
      let (nested, x, made, e') = encode_value-table m e in
      record {
        tag = 2;
        raw = nested;
        small = (tagged-ok 2 nested x e').0;
        framed = (tagged-ok 2 nested x e').1;
        reads = λ fuel depth hf hd.
            table-reads depth (normal_map m) _ nested (omega arith) (
              decode_loop-encode_map m nested fuel (suc depth) nil h made hf (omega arith)
              ∙ ap ok (extend-normal_map m h))
            ∙ ap ok (sym (normal_value-table m));
      }

  decode_loop-encode_map :
      (m : IscMap) (wire : Bytes) (fuel depth : ℕ) (acc : IscMap)
      → IsMap m
      → encode_map m ≡ ok wire
      → length wire ≤ fuel
      → depth + map_depth m ≤ max_decode_depth
      → decode_loop fuel depth wire acc ≡ ok (extend acc (normal_map m))
  decode_loop-encode_map nil wire fuel depth acc h e hf hd = decode_loop-nil fuel depth wire acc e
  decode_loop-encode_map (entry k v m) wire zero depth acc h e hf hd =
      let (value, more, _, _, _, cut) = encode_map-entry k v m e in
      absurd (omega (arith, ap length cut))
  decode_loop-encode_map (entry k v m) wire (suc fuel) depth acc h e hf hd =
      let (value, more, e₁, e₂, _, cut) = encode_map-entry k v m e in
      let value_ok = encode_value-IsEncoded v value h.1 e₁ in
      let size = ap length cut in
      ap (λ w. decode_loop (suc fuel) depth w acc) cut
      ∙ decode_loop-entry fuel depth k v value more acc h.0 value_ok (omega arith) (omega arith)
      ∙ decode_loop-encode_map m more fuel depth (map_insert k (normal_value v) acc) h.3 e₂
          (omega (arith, length-append k (value ++ more), length-append value more)) (omega arith)
      ∙ ap ok (sym (extend-entry acc k v m))

-- A message whose encoding succeeds is decoded to itself, with a `String` for each `Binary` that is
-- UTF-8, if its tables nest at most 32 deep.
pub decode-encode :
    (m : IscMap) {bytes : Bytes}
    → IsMap m
    → map_depth m ≤ max_decode_depth
    → encode m ≡ ok bytes
    → decode bytes ≡ ok (normal_map m)
unfolding encode decode
decode-encode m h hd e =
    let (body, made, framed) = >>=-eq-ok (encode_map m) _ e in
    subst (λ w. decode w ≡ ok (normal_map m)) (ok-injective framed)
      (rw (read_u32-bytes 1 body (omega arith)) (
        decode_loop-encode_map m body (length body) 0 nil h made (omega arith) (omega arith)
        ∙ ap ok (extend-normal_map m h)))
