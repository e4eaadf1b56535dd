-- ===== src/Examples/SessionCode.antt =====
-- What a run of an rndc session computes with, as one name to unfold.
use bind9_sdk.Common.Bytes.{lex_lt}
use bind9_sdk.Common.Decimal.{to_decimal, digits, push_digit, parse_digits, after_sign, parse_u64}
use bind9_sdk.Net.Rndc.{
  map_insert, map_get, get_string, get_binary, get_map, tagged, encode_value, encode_map, encode,
  encode_body, split_at, read_byte, read_u32, string_or_binary, decode_value, read_entry,
  decode_loop, decode, extract_hmac_input, frame_message, read_frame_length,
}
use bind9_sdk.Net.Rndc.Answer.{
  from_text, starts_with, join, render_isc_value, extract_data_field, unstructured_fields,
  render_unstructured_fields, extract_response_text,
}
use bind9_sdk.Net.Rndc.Session.{
  saturating_add, map_string, build_ctrl_table, isccc_algorithm_byte, resize, until_nul,
  any_nonzero, agrees, type_agrees, validate_response_ctrl, verify_isccc_hmac,
  verify_authenticated_response,
}
use bind9_sdk.Net.Rndc.Connection.{
  decode_authenticated_payload, read_frame, result_of, nonce_of, sign_rndc_body, signed_message,
  request, check_answer, answer_to, exchange, accept_session, authenticate, response_of, command,
}
use bind9_sdk.Examples.Code.{tsig_code}

unfoldable pub session_code : Unit {0}
unfolding tsig_code lex_lt to_decimal digits push_digit parse_digits after_sign parse_u64 map_insert
    map_get get_string get_binary get_map tagged encode_value encode_map encode encode_body split_at
    read_byte read_u32 string_or_binary decode_value read_entry decode_loop decode
    extract_hmac_input frame_message read_frame_length from_text starts_with join render_isc_value
    extract_data_field unstructured_fields render_unstructured_fields extract_response_text
    saturating_add map_string build_ctrl_table isccc_algorithm_byte resize until_nul any_nonzero
    agrees type_agrees validate_response_ctrl verify_isccc_hmac verify_authenticated_response
    decode_authenticated_payload read_frame result_of nonce_of sign_rndc_body signed_message request
    check_answer answer_to exchange accept_session authenticate response_of command
session_code = tt
