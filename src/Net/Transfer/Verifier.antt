-- ===== src/Net/Transfer/Verifier.antt =====
-- `XfrTsigVerifier` in crates/bind9-sdk-net/src/transfer/mod.rs: the messages of a transfer whose
-- query was signed. The time of the clock is an argument, in seconds since the epoch. A state is
-- changed only by a call that succeeds.
use bind9_sdk.Common.{
  ℕ, ◌+◌, Bool, true, false, not, Option, none, some, List, [], ◌∷◌, ◌++◌, leb, ◌==◌, if◌then◌else◌,
  Result, ok, ◌>>=◌, ◌>>◌, ensure, ok_or, map_err,
}
use bind9_sdk.Common.Bytes.{Bytes, u16_bytes}
use bind9_sdk.Errors.{NetError, core, xfr_protocol_error, tsig_rejected}
use bind9_sdk.Core.Domain.{name_eq}
use bind9_sdk.Core.Tsig.{TsigKey, Hmac, algorithm_eq, verify}
use bind9_sdk.Core.Tsig.Record.{TsigRecord, u48_bytes, counted, verify_time, verify_response}
use bind9_sdk.Net.Wire.Header.{parse_header}
use bind9_sdk.Net.Wire.Tsig.{SplitTsigMessage, split_final_tsig}

pub record XfrTsigVerifier : Type 0 where
  pub expected_id : ℕ
  pub key : Option TsigKey
  pub prior_mac : Option Bytes
  pub first_message : Bool
  pub unsigned_messages : Bytes
  pub unsigned_message_count : ℕ
  pub last_message_signed : Bool

unfoldable pub verifier_new : ℕ → Option TsigKey → Option Bytes → XfrTsigVerifier
verifier_new expected_id key request_mac = record {
  expected_id = expected_id;
  key = key;
  prior_mac = request_mac;
  first_message = true;
  unsigned_messages = [];
  unsigned_message_count = 0;
  last_message_signed = false;
}

-- A message without a TSIG record, in a transfer with a key.
unfoldable pub take_unsigned : XfrTsigVerifier → Bytes → Result NetError (Bytes × XfrTsigVerifier)
take_unsigned v unsigned_message = do
  ensure (not v.first_message)
      (xfr_protocol_error "first response in a signed transfer must contain TSIG")
  ensure (not (leb 99 v.unsigned_message_count))
      (xfr_protocol_error "signed transfer exceeded 99 unsigned intermediary messages")
  ok (
    unsigned_message,
    record v {
      unsigned_messages = v.unsigned_messages ++ unsigned_message;
      unsigned_message_count = v.unsigned_message_count + 1;
      last_message_signed = false;
    },
  )

module _ (h : Hmac) where
  -- The check of the MAC: that of a response for the first message, and for a later one over the
  -- messages since the last MAC with the timers alone.
  unfoldable pub check_mac :
      XfrTsigVerifier → TsigKey → Bytes → TsigRecord → Bytes → ℕ → Result NetError (Unit {0})
  check_mac v key unsigned_message tsig prior_mac now =
      if v.first_message
      then map_err core (verify_response h key unsigned_message tsig prior_mac now)
      else map_err core (
          verify_time tsig now
          >> verify h key
              (counted prior_mac
                ++ (v.unsigned_messages
                    ++ (unsigned_message ++ (u48_bytes tsig.time_signed ++ u16_bytes tsig.fudge))))
              tsig.mac)

  -- A message with a TSIG record.
  unfoldable pub take_signed :
      XfrTsigVerifier → TsigKey → Bytes → TsigRecord → ℕ → Result NetError (Bytes × XfrTsigVerifier)
  take_signed v key unsigned_message tsig now = do
    ensure (name_eq tsig.key_name key.name) (xfr_protocol_error "TSIG key mismatch")
    ensure (algorithm_eq tsig.algorithm key.algorithm)
        (xfr_protocol_error "TSIG algorithm mismatch")
    ensure (tsig.original_id == v.expected_id) (xfr_protocol_error "TSIG original ID mismatch")
    ensure (tsig.error == 0)
        (tsig_rejected tsig.error "zone-transfer TSIG response reported an error")
    prior_mac ← ok_or v.prior_mac (xfr_protocol_error "signed transfer is missing the request MAC")
    check_mac v key unsigned_message tsig prior_mac now
    ok (
      unsigned_message,
      record v {
        prior_mac = some tsig.mac;
        first_message = false;
        unsigned_messages = [];
        unsigned_message_count = 0;
        last_message_signed = true;
      },
    )

  unfoldable pub take_split :
      XfrTsigVerifier → TsigKey → SplitTsigMessage → ℕ → Result NetError (Bytes × XfrTsigVerifier)
  take_split v key split now = elim split.tsig [
    | none ↦ take_unsigned v split.unsigned_message
    | some tsig ↦ take_signed v key split.unsigned_message tsig now
  ]

  -- `verify_message`
  unfoldable pub verify_message :
      XfrTsigVerifier → Bytes → ℕ → Result NetError (Bytes × XfrTsigVerifier)
  verify_message v message now = do
    header ← parse_header message
    ensure (header.id == v.expected_id) (xfr_protocol_error "response ID mismatch")
    elim v.key [
      | none ↦ ok (message, record v { first_message = false })
      | some key ↦ (split_final_tsig message >>= λ split. take_split v key split now)
    ]

  -- The verifier over the messages of a stream, each with the time at which it is read.
  unfoldable pub verify_messages :
      XfrTsigVerifier → List (ℕ × Bytes) → Result NetError (List Bytes × XfrTsigVerifier)
  verify_messages v [] = ok ([], v)
  verify_messages v ((now, message) ∷ ms) = do
    (u, v') ← verify_message v message now
    (us, v'') ← verify_messages v' ms
    ok (u ∷ us, v'')

-- `finish`
unfoldable pub verifier_finish : XfrTsigVerifier → Result NetError (Unit {0})
verifier_finish v = elim v.key [
  | none ↦ ok tt
  | some key ↦
      ensure v.last_message_signed
        (xfr_protocol_error "final response in a signed transfer must contain TSIG")
]
