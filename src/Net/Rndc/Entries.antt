-- ===== src/Net/Rndc/Entries.antt =====
-- One entry of a message on the wire, and how `decode_loop` reads it.
use bind9_sdk.Common.{
  ℕ, suc, ◌+◌, ◌≤◌, ◌<◌, ◌^◌, ◌≡◌, sym, ap, true, some, ◌∷◌, ◌++◌, arith, ltb, length,
  length-append, take-append_length, drop-append_length, Result, ok, ok-injective, ensure-eq-ok,
  ltb→lt,
}
use mathlib.Core.Path.{subst}
use bind9_sdk.Common.Bytes.{Bytes, u32_bytes, u32_from-bytes}
use bind9_sdk.Common.Utf8.{is_utf8}
use bind9_sdk.Errors.{NetError}
use bind9_sdk.Net.Rndc.{
  IscValue, table, IscMap, nil, map_insert, tagged, split_at, read_byte, read_u32, read_entry,
  decode_value, string_or_binary, decode_loop, max_decode_depth,
}
use bind9_sdk.Net.Rndc.Decode.{nested_table}
use bind9_sdk.Net.Rndc.Maps.{value_depth, normal_value}

pub split_at-append : (xs ys : Bytes) → split_at (length xs) (xs ++ ys) ≡ some (xs, ys)
unfolding split_at
split_at-append xs ys =
    rw (take-append_length xs ys, drop-append_length xs ys) (ground (arith, length-append xs ys))

pub read_u32-bytes :
    (n : ℕ) (rest : Bytes) → n < 2 ^ 32 → read_u32 (u32_bytes n ++ rest) ≡ some (n, rest)
unfolding read_u32
read_u32-bytes n rest h = ap (λ m. some (m, rest)) (u32_from-bytes n h)

pub read_entry-encoded :
    (key : Bytes) (tag : ℕ) (raw more : Bytes)
    → is_utf8 key ≡ true
    → length raw < 2 ^ 32
    → read_entry (length key) (key ++ (tag ∷ (u32_bytes (length raw) ++ (raw ++ more))))
      ≡ ok (key, tag, raw, more)
unfolding read_entry read_byte
read_entry-encoded key tag raw more hk hr = rw (
  split_at-append key _,
  hk,
  read_u32-bytes (length raw) (raw ++ more) hr,
  split_at-append raw more,
)

-- What a value is on the wire, and that its bytes are read back at any depth that allows it.
pub record IsEncoded (v : IscValue) (wire : Bytes) : Type 0 where
  pub tag : ℕ
  pub raw : Bytes
  pub small : length raw < 2 ^ 32
  pub framed : wire ≡ tag ∷ (u32_bytes (length raw) ++ raw)
  pub reads :
      (fuel depth : ℕ)
      → length raw ≤ fuel
      → depth + value_depth v ≤ max_decode_depth
      → decode_value tag raw (nested_table (suc depth) (decode_loop fuel (suc depth) raw nil))
        ≡ ok (normal_value v)

pub tagged-ok :
    (tag : ℕ) (raw : Bytes) (e : NetError) {wire : Bytes}
    → tagged tag raw e ≡ ok wire
    → (length raw < 2 ^ 32) × (wire ≡ tag ∷ (u32_bytes (length raw) ++ raw))
unfolding tagged
tagged-ok tag raw e h =
    let (small, made) = ensure-eq-ok (ltb (length raw) (2 ^ 32)) e _ h in
    (ltb→lt _ _ small, sym (ok-injective made))

pub binary-IsEncoded :
    (v : IscValue) (raw : Bytes) (e : NetError) {wire : Bytes}
    → string_or_binary raw ≡ normal_value v
    → tagged 1 raw e ≡ ok wire
    → IsEncoded v wire
unfolding decode_value
binary-IsEncoded v raw e same h = record {
  tag = 1;
  raw = raw;
  small = (tagged-ok 1 raw e h).0;
  framed = (tagged-ok 1 raw e h).1;
  reads = λ fuel depth hf hd. ap ok same;
}

pub table-reads :
    (depth : ℕ) (m : IscMap) (deeper : Result NetError IscMap) (raw : Bytes)
    → suc depth ≤ max_decode_depth
    → deeper ≡ ok m
    → decode_value 2 raw (nested_table (suc depth) deeper) ≡ ok (table m)
unfolding decode_value
table-reads depth m deeper raw h e = ground arith

pub decode_loop-entry :
    (fuel depth : ℕ) (key : Bytes) (v : IscValue) (wire more : Bytes) (acc : IscMap)
    → is_utf8 key ≡ true
    → IsEncoded v wire
    → length (key ++ (wire ++ more)) ≤ fuel
    → depth + value_depth v ≤ max_decode_depth
    → decode_loop (suc fuel) depth (length key ∷ (key ++ (wire ++ more))) acc
      ≡ decode_loop fuel depth more (map_insert key (normal_value v) acc)
unfolding decode_loop
decode_loop-entry fuel depth key v wire more acc hk e hf hd =
    let entry_read = read_entry-encoded key e.tag e.raw more hk e.small in
    let reads = e.reads fuel depth (omega (arith, wire_long)) hd in
    subst
      (λ w.
        decode_loop (suc fuel) depth (length key ∷ (key ++ (w ++ more))) acc
        ≡ decode_loop fuel depth more (map_insert key (normal_value v) acc))
      (sym e.framed) (rw (entry_read, reads))
  where
    wire_long : length e.raw ≤ fuel
    wire_long =
        omega (arith, length-append key (wire ++ more), length-append wire more, ap length e.framed)
