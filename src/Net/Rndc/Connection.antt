-- ===== src/Net/Rndc/Connection.antt =====
-- The operations of an rndc connection: `authenticate`, `command` and what they send and read, in
-- crates/bind9-sdk-net/src/rndc/mod.rs. The other end is a function from what is written to the
-- connection to what it answers; what is not read of its answers stays in the connection. The command
-- is its text, which `to_command_string` makes. `command_shared` is `command` with a shared key.
use bind9_sdk.Common.{
  ℕ, ◌+◌, ◌%◌, ◌^◌, Bool, not, Option, none, some, [], ◌∷◌, ◌++◌, leb, ◌==◌, if◌then◌else◌, length,
  take, drop, Result, ok, err, stuck, ◌>>=◌, ◌>>◌, ensure, ok_or, map_err,
}
use bind9_sdk.Common.Bytes.{Bytes, codes, equal}
use bind9_sdk.Errors.{NetError, auth_failed, protocol, connection, core}
use bind9_sdk.Core.Tsig.{TsigKey, Hmac, sign}
use bind9_sdk.Net.Rndc.{
  str, binary, table, IscMap, nil, map_insert, get_map, encode_body, decode, extract_hmac_input,
  frame_message, read_frame_length,
}
use bind9_sdk.Net.Rndc.Answer.{RndcResponse, from_text, extract_response_text}
use bind9_sdk.Net.Rndc.Session.{
  Base64, isccc_hmac_buf_size, map_string, build_ctrl_table, isccc_algorithm_byte, resize,
  verify_authenticated_response,
}

-- `Authenticated`, with what is not yet read of the connection.
pub record Authenticated : Type 0 where
  pub key : TsigKey
  pub serial : ℕ
  pub nonce : Option Bytes
  pub unread : Bytes

-- `decode_authenticated_payload`
unfoldable pub decode_authenticated_payload : Bytes → Result NetError (IscMap × Bytes)
decode_authenticated_payload payload = do
  hmac_input ←
      ok_or (extract_hmac_input payload)
        (auth_failed "server response does not begin with a valid _auth entry")
  message ← decode payload
  ok (message, hmac_input)

-- `read_isc_message` up to the payload, and what is left behind it.
unfoldable pub read_frame : Bytes → Result NetError Bytes × Bytes
unfolding read_frame_length
read_frame (a ∷ b ∷ c ∷ d ∷ stream) =
    let payload_len = read_frame_length a b c d in
    if payload_len == 0
    then (err (protocol "received zero-length rndc message"), stream)
    else if not (leb payload_len 16777216)
    then (err (protocol "rndc message too large"), stream)
    else if not (leb payload_len (length stream))
    then (err (connection "failed to read message payload"), [])
    else (ok (take payload_len stream), drop payload_len stream)
read_frame _ = (err (connection "failed to read message length"), [])

-- `_data.result`
unfoldable pub result_of : IscMap → Option Bytes
unfolding map_string
result_of response = elim (get_map (codes "_data") response) [
  | some d ↦ map_string d (codes "result")
  | none ↦ none
]

-- `_ctrl._nonce`
unfoldable pub nonce_of : IscMap → Option Bytes
unfolding map_string
nonce_of response = elim (get_map (codes "_ctrl") response) [
  | some c ↦ map_string c (codes "_nonce")
  | none ↦ none
]

-- `Option::unwrap_or`
abbrev pub unwrap_or : Option Bytes → Bytes → Bytes
unwrap_or (some a) b = a
unwrap_or none b = b

abbrev is_empty : Bytes → Bool
is_empty text = length text == 0

-- The message of a request: `_auth`, `_ctrl` and `_data`.
unfoldable pub signed_message : Bytes → IscMap → IscMap → IscMap
signed_message hmac_value ctrl data' = map_insert (codes "_data") (table data') (
    map_insert (codes "_ctrl") (table ctrl)
      (map_insert (codes "_auth") (table (map_insert (codes "hsha") (binary hmac_value) nil)) nil))

module _ (h : Hmac) (base64 : Base64) where
  unfoldable pub sign_rndc_body : TsigKey → IscMap → IscMap → Result NetError Bytes
  unfolding resize
  sign_rndc_body key ctrl data' = do
    body ←
        encode_body
          (map_insert (codes "_data") (table data') (map_insert (codes "_ctrl") (table ctrl) nil))
    digest ← map_err core (sign h key body)
    algo_byte ← isccc_algorithm_byte key.algorithm
    ok (resize isccc_hmac_buf_size (algo_byte ∷ base64.encode digest))

  -- The frame that `authenticate` and `command` write.
  unfoldable pub request : TsigKey → ℕ → ℕ → Option Bytes → Bytes → Result NetError Bytes
  request key serial now nonce type = do
    let ctrl = build_ctrl_table serial now nonce
    let data' = map_insert (codes "type") (str type) nil
    hmac_value ← sign_rndc_body key ctrl data'
    frame_message (signed_message hmac_value ctrl data')

  -- The checks of an answer.
  unfoldable pub check_answer :
      TsigKey → ℕ → ℕ → Option Bytes → Bytes → Bytes → Result NetError IscMap
  check_answer key serial now nonce type payload = do
    (response, hmac_raw_input) ← decode_authenticated_payload payload
    verify_authenticated_response h base64 key response hmac_raw_input serial now nonce (some type)
    ok response

  -- What follows the request: it is written, and the answer is read and checked.
  unfoldable pub answer_to :
      TsigKey
      → ℕ
      → ℕ
      → Option Bytes
      → Bytes
      → Bytes
      → (Bytes → Bytes)
      → Result NetError Bytes
      → Result NetError IscMap × Bytes
  answer_to key serial now nonce type unread peer (ok frame) =
      let (payload, left) = read_frame (unread ++ peer frame) in
      (payload >>= check_answer key serial now nonce type, left)
  answer_to _ _ _ _ _ unread _ (err e) = (err e, unread)
  answer_to _ _ _ _ _ unread _ stuck = (stuck, unread)

  -- A request and the answer to it, and what is left to read.
  unfoldable pub exchange :
      TsigKey
      → ℕ
      → ℕ
      → Option Bytes
      → Bytes
      → Bytes
      → (Bytes → Bytes)
      → Result NetError IscMap × Bytes
  exchange key serial now nonce type unread peer =
      answer_to key serial now nonce type unread peer (request key serial now nonce type)

  -- What `authenticate` does with the answer.
  unfoldable pub accept_session : TsigKey → ℕ → Bytes → IscMap → Result NetError Authenticated
  accept_session key serial left response = do
    code ← ok_or (result_of response) (auth_failed "server response missing _data.result field")
    ensure (equal code (codes "0")) (auth_failed "result code")
    ok (record { key = key; serial = serial; nonce = nonce_of response; unread = left })

  -- `authenticate`, with the serial that the random octets give.
  unfoldable pub authenticate : TsigKey → ℕ → ℕ → (Bytes → Bytes) → Result NetError Authenticated
  authenticate key serial now peer =
      let (answer, left) = exchange key serial now none (codes "null") [] peer in
      answer >>= accept_session key serial left

  -- The response of `command`.
  unfoldable pub response_of : IscMap → RndcResponse
  response_of response =
      let text =
        unwrap_or
          (elim (get_map (codes "_data") response) [
            | some d ↦ extract_response_text base64.encode d
            | none ↦ none
          ])
          [] in
      let result_code = unwrap_or (result_of response) [] in
      let err_text =
        if is_empty text
        then codes "rndc command failed with result code " ++ result_code
        else text in
      if equal result_code (codes "0")
      then from_text text
      else from_text (codes "rndc: " ++ err_text)

  -- `command`: the serial is raised whatever comes of the command.
  unfoldable pub command :
      Authenticated → Bytes → ℕ → (Bytes → Bytes) → Result NetError RndcResponse × Authenticated
  command s cmd_text now peer =
      let serial = (s.serial + 1) % 2 ^ 32 in
      let (answer, left) = exchange s.key serial now s.nonce cmd_text s.unread peer in
      (
        answer >>= λ response. ok (response_of response),
        record s { serial = serial; unread = left },
      )
