-- ===== src/Core/Tsig/Made.antt =====
-- What `TsigRecord::new` returns (crates/bind9-sdk-core/src/tsig/record.rs).
use bind9_sdk.Common.{
  ℕ, ◌^◌, ◌<◌, ◌≡◌, not, false, refl, sym, ◌∙◌, [], ◌∷◌, ◌++◌, arith, true, ltb→lt, ok, >>=-eq-ok,
  ensure-eq-ok, ok-injective, Option, ltb,
}
use bind9_sdk.Common.Bytes.{Bytes, codes, is_ascii_graphic, is_ascii_digit}
use bind9_sdk.Core.Domain.{
  DomainName, wire_len, domain_new, name_of_parts, split_domain_labels, split_loop, split_chunk,
  decimal_escape, labels_of, label_new, decode_label, decode_loop, label_octet, name_of_labels,
  labels_len,
}
use bind9_sdk.Core.Domain.Plain.{plain_label}
use bind9_sdk.Core.Tsig.{
  TsigAlgorithm, hmac_sha256, hmac_sha512, hmac_sha1, Hmac, TsigKey, sign, dns_name,
}
use bind9_sdk.Core.Tsig.Record.{
  TsigRecord, tsig_rdata, tsig_wire, prior, tsig_vars, mac_too_long, default_fudge, message_id,
  algorithm_name, tsig_new,
}

-- The name of an algorithm.
abbrev pub algorithm_domain : TsigAlgorithm → DomainName
algorithm_domain hmac_sha256 = record { labels = plain_label (codes "hmac-sha256") ∷ [] }
algorithm_domain hmac_sha512 = record { labels = plain_label (codes "hmac-sha512") ∷ [] }
algorithm_domain hmac_sha1 = record { labels = plain_label (codes "hmac-sha1") ∷ [] }

pub algorithm_name_lem : (a : TsigAlgorithm) → algorithm_name a ≡ ok (algorithm_domain a)
unfolding algorithm_name dns_name domain_new name_of_parts split_domain_labels split_loop
    split_chunk decimal_escape labels_of label_new decode_label decode_loop label_octet
    name_of_labels wire_len labels_len is_ascii_digit is_ascii_graphic
algorithm_name_lem hmac_sha256 = refl
algorithm_name_lem hmac_sha512 = refl
algorithm_name_lem hmac_sha1 = refl

-- The record that `TsigRecord::new` returns if nothing is out of range.
abbrev pub made_record : Hmac → TsigKey → Bytes → ℕ → Option Bytes → TsigRecord
made_record h key message timestamp request_mac =
    let mac : Bytes = h.finalize key.algorithm key.key_material (
      prior request_mac
      ++ (message
          ++ tsig_vars key.name (algorithm_domain key.algorithm) timestamp default_fudge 0 [])) in
    record {
      key_name = key.name;
      algorithm = key.algorithm;
      time_signed = timestamp;
      fudge = default_fudge;
      mac = mac;
      original_id = message_id message;
      error = 0;
      other_data = [];
      wire_bytes = tsig_wire key.name (
          tsig_rdata (algorithm_domain key.algorithm) timestamp default_fudge mac
            (message_id message) 0);
    }

-- What is known of a call of `TsigRecord::new` that succeeds.
pub record IsMade (h : Hmac) (key : TsigKey) (message : Bytes) (timestamp : ℕ)
    (request_mac : Option Bytes) (r : TsigRecord) : Type 0 where
  pub in_time : timestamp < 2 ^ 48
  pub short : mac_too_long request_mac ≡ false
  pub accepted : h.new_from_slice key.algorithm key.key_material ≡ true
  pub same : made_record h key message timestamp request_mac ≡ r

pub sign-eq-ok :
    (h : Hmac) (key : TsigKey) (message : Bytes) {mac : Bytes}
    → sign h key message ≡ ok mac
    → (h.new_from_slice key.algorithm key.key_material ≡ true)
      × (h.finalize key.algorithm key.key_material message ≡ mac)
unfolding sign
sign-eq-ok h key message e =
    let (accepted, done) = ensure-eq-ok (h.new_from_slice key.algorithm key.key_material) _ _ e in
    (accepted, ok-injective done)

pub tsig_new-IsMade :
    (h : Hmac) (key : TsigKey) (message : Bytes) (timestamp : ℕ) (request_mac : Option Bytes)
    {r : TsigRecord}
    → tsig_new h key message timestamp request_mac ≡ ok r
    → IsMade h key message timestamp request_mac r
unfolding tsig_new
tsig_new-IsMade h key message timestamp request_mac made =
    let (in_time, h₁) = ensure-eq-ok (ltb timestamp (2 ^ 48)) _ _ made in
    let (short, h₂) = ensure-eq-ok (not (mac_too_long request_mac)) _ _ h₁ in
    let (name, named, h₃) = >>=-eq-ok (algorithm_name key.algorithm) _ h₂ in
    let built_in : name ≡ algorithm_domain key.algorithm =
      ok-injective (sym named ∙ algorithm_name_lem key.algorithm) in
    let (mac, signed, h₄) = >>=-eq-ok (sign h key _) _ h₃ in
    let (accepted, digest) = sign-eq-ok h key _ signed in
    record {
      in_time = ltb→lt _ _ in_time;
      short = ground (arith, short);
      accepted = accepted;
      same = rw (← built_in, digest) (ok-injective h₄);
    }
