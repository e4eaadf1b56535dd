-- ===== src/Net/Rndc/Answer.antt =====
-- The text of an answer: `RndcResponse` in crates/bind9-sdk-net/src/rndc/command.rs, and the
-- functions that find the text of a response in crates/bind9-sdk-net/src/rndc/mod.rs. The encoder of
-- base64 is an argument.
use bind9_sdk.Common.{
  ℕ, Bool, true, false, not, ◌&&◌, ◌||◌, Option, none, some, List, [], ◌∷◌, ◌++◌, ◌==◌,
  if◌then◌else◌,
}
use bind9_sdk.Common.Bytes.{Bytes, codes, equal}
use bind9_sdk.Net.Rndc.{IscValue, str, binary, table, IscMap, nil, entry, map_get}

pub data RndcResult : Type 0 where
  success : RndcResult
  error : ℕ → Bytes → RndcResult

pub record RndcResponse : Type 0 where
  pub text : Bytes
  pub result : RndcResult

-- `str::starts_with`
unfoldable pub starts_with : Bytes → Bytes → Bool
starts_with text [] = true
starts_with [] (p ∷ prefix) = false
starts_with (c ∷ text) (p ∷ prefix) = c == p && starts_with text prefix

unfoldable pub from_text : Bytes → RndcResponse
from_text text =
    if starts_with text (codes "rndc: ")
      || (starts_with text (codes "unknown command") || starts_with text (codes "not found"))
    then record { text = text; result = error 1 text }
    else record { text = text; result = success }

-- `[String]::join`
unfoldable pub join : Bytes → List Bytes → Bytes
join separator [] = []
join separator (s ∷ []) = s
join separator (s ∷ t ∷ texts) = s ++ (separator ++ join separator (t ∷ texts))

-- `format!("{key}: {}", ..)`
abbrev pub field : Bytes → Bytes → Bytes
field key text = key ++ (codes ": " ++ text)

module _ (base64_encode : Bytes → Bytes) where
  unfoldable mutual
    pub render_isc_value : IscValue → Bytes
    render_isc_value (str s) = s
    render_isc_value (binary bytes) = base64_encode bytes
    render_isc_value (table m) = codes "{" ++ (join (codes ", ") (render_fields m) ++ codes "}")

    pub render_fields : IscMap → List Bytes
    render_fields nil = []
    render_fields (entry key nested m) = field key (render_isc_value nested) ∷ render_fields m

  unfoldable pub extract_data_field : IscMap → Bytes → Option Bytes
  extract_data_field data' key = elim (map_get key data') [
    | some v ↦ some (render_isc_value v)
    | none ↦ none
  ]

  -- The fields other than `result` and `type`.
  unfoldable pub unstructured_fields : IscMap → List Bytes
  unstructured_fields nil = []
  unstructured_fields (entry key v m) =
      if not (equal key (codes "result")) && not (equal key (codes "type"))
      then field key (render_isc_value v) ∷ unstructured_fields m
      else unstructured_fields m

  unfoldable pub render_unstructured_fields : IscMap → Option Bytes
  render_unstructured_fields data' = elim (unstructured_fields data') [
    | [] ↦ none
    | s ∷ texts ↦ some (join (codes "\n") (s ∷ texts))
  ]

  -- `Option::or_else`
  abbrev or_else : Option Bytes → Option Bytes → Option Bytes
  or_else (some a) b = some a
  or_else none b = b

  unfoldable pub extract_response_text : IscMap → Option Bytes
  extract_response_text data' =
      or_else (extract_data_field data' (codes "text")) (render_unstructured_fields data')
