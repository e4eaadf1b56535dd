-- ===== src/Net/Rndc/Maps.antt =====
-- Well-formed messages: what a `BTreeMap<String, IscValue>` is by its type (keys in order, texts in
-- UTF-8), how deep tables nest, and what insertion does.
use bind9_sdk.Common.{ℕ, suc, ◌≤◌, ◌≡◌, sym, true, arith, Bool-cases, inl, inr}
use bind9_sdk.Common.Bytes.{Bytes, lex_lt, lex_lt-total}
use bind9_sdk.Common.Utf8.{is_utf8}
use bind9_sdk.Net.Rndc.{
  IscValue, str, binary, table, IscMap, nil, entry, map_insert, string_or_binary,
}
use Prim.Native.Nat.{max}
use mathlib.Core.Path.{subst}

-- `key` precedes the first key of the map.
abbrev pub Before : Bytes → IscMap → Type 0
Before key nil = Unit
Before key (entry k v m) = lex_lt key k ≡ true

abbrev mutual
  pub IsValue : IscValue → Type 0
  IsValue (str s) = is_utf8 s ≡ true
  IsValue (binary b) = Unit
  IsValue (table m) = IsMap m

  pub IsMap : IscMap → Type 0
  IsMap nil = Unit
  IsMap (entry k v m) = (is_utf8 k ≡ true) × IsValue v × Before k m × IsMap m

abbrev mutual
  pub value_depth : IscValue → ℕ
  value_depth (str s) = 0
  value_depth (binary b) = 0
  value_depth (table m) = suc (map_depth m)

  pub map_depth : IscMap → ℕ
  map_depth nil = 0
  map_depth (entry k v m) = max (value_depth v) (map_depth m)

-- The wire does not tell `String` from `Binary`: a decoder makes a `String` wherever it can.
unfoldable mutual
  pub normal_value : IscValue → IscValue
  normal_value (str s) = str s
  normal_value (binary b) = string_or_binary b
  normal_value (table m) = table (normal_map m)

  pub normal_map : IscMap → IscMap
  normal_map nil = nil
  normal_map (entry k v m) = entry k (normal_value v) (normal_map m)

pub Before-insert :
    (j key : Bytes) (v : IscValue) (m : IscMap)
    → lex_lt j key ≡ true
    → Before j m
    → Before j (map_insert key v m)
unfolding map_insert
Before-insert j key v nil h b = h
Before-insert j key v (entry k w m) h b = ground arith

-- Insertion of a UTF-8 key and a well-formed value keeps a map well formed: its keys in strict order,
-- and UTF-8 in every text.
pub map_insert-IsMap :
    (key : Bytes) (v : IscValue) (m : IscMap)
    → is_utf8 key ≡ true
    → IsValue v
    → IsMap m
    → IsMap (map_insert key v m)
unfolding map_insert
map_insert-IsMap key v nil hk hv hm = (hk, hv, tt, tt)
map_insert-IsMap key v (entry k w m) hk hv hm = elim (Bool-cases (lex_lt key k)) [
  | inl e ↦ rw e (hk, hv, e, hm)
  | inr e ↦ elim (Bool-cases (lex_lt k key)) [
    | inl e' ↦
        rw (e, e')
          (hm.0, hm.1, Before-insert k key v m e' hm.2, map_insert-IsMap key v m hk hv hm.3)
    | inr e' ↦
        rw (e, e') (hk, hv, subst (λ x. Before x m) (sym (lex_lt-total key k e e')) hm.2, hm.3)
  ]
]

pub map_insert-depth :
    (key : Bytes) (v : IscValue) (m : IscMap) (d : ℕ)
    → value_depth v ≤ d
    → map_depth m ≤ d
    → map_depth (map_insert key v m) ≤ d
unfolding map_insert
map_insert-depth key v nil d hv hm = omega arith
map_insert-depth key v (entry k w m) d hv hm = ground (arith, map_insert-depth key v m d)
