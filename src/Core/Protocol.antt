-- ===== src/Core/Protocol.antt =====
-- IANA numbers of record types and response codes: crates/bind9-sdk-core/src/protocol.rs.
pub mod Codes
use bind9_sdk.Common.{ℕ, Bool, true, false, ◌==◌, if◌then◌else◌}

pub data RecordType : Type 0 where
  a_type aaaa_type cname_type ns_type ptr_type soa_type mx_type txt_type : RecordType
  srv_type caa_type dnskey_type rrsig_type nsec_type nsec3_type ds_type cds_type : RecordType
  cdnskey_type tlsa_type sshfp_type csync_type rp_type nsec3param_type dlv_type : RecordType
  other_type : ℕ → RecordType

unfoldable pub type_from_value : ℕ → RecordType
type_from_value value =
    if value == 1
    then a_type
    else if value == 28
    then aaaa_type
    else if value == 5
    then cname_type
    else if value == 2
    then ns_type
    else if value == 12
    then ptr_type
    else if value == 6
    then soa_type
    else if value == 15
    then mx_type
    else if value == 16
    then txt_type
    else if value == 33
    then srv_type
    else if value == 257
    then caa_type
    else if value == 48
    then dnskey_type
    else if value == 46
    then rrsig_type
    else if value == 47
    then nsec_type
    else if value == 50
    then nsec3_type
    else if value == 43
    then ds_type
    else if value == 59
    then cds_type
    else if value == 60
    then cdnskey_type
    else if value == 52
    then tlsa_type
    else if value == 44
    then sshfp_type
    else if value == 62
    then csync_type
    else if value == 17
    then rp_type
    else if value == 51
    then nsec3param_type
    else if value == 32769
    then dlv_type
    else other_type value

unfoldable pub type_value : RecordType → ℕ
type_value a_type = 1
type_value aaaa_type = 28
type_value cname_type = 5
type_value ns_type = 2
type_value ptr_type = 12
type_value soa_type = 6
type_value mx_type = 15
type_value txt_type = 16
type_value srv_type = 33
type_value caa_type = 257
type_value dnskey_type = 48
type_value rrsig_type = 46
type_value nsec_type = 47
type_value nsec3_type = 50
type_value ds_type = 43
type_value cds_type = 59
type_value cdnskey_type = 60
type_value tlsa_type = 52
type_value sshfp_type = 44
type_value csync_type = 62
type_value rp_type = 17
type_value nsec3param_type = 51
type_value dlv_type = 32769
type_value (other_type v) = v

pub data Rcode : Type 0 where
  no_error form_err serv_fail nx_domain not_imp refused yx_domain yx_rrset nx_rrset not_auth
        not_zone :
      Rcode
  other_rcode : ℕ → Rcode

unfoldable pub rcode_from_value : ℕ → Rcode
rcode_from_value value =
    if value == 0
    then no_error
    else if value == 1
    then form_err
    else if value == 2
    then serv_fail
    else if value == 3
    then nx_domain
    else if value == 4
    then not_imp
    else if value == 5
    then refused
    else if value == 6
    then yx_domain
    else if value == 7
    then yx_rrset
    else if value == 8
    then nx_rrset
    else if value == 9
    then not_auth
    else if value == 10
    then not_zone
    else other_rcode value

unfoldable pub rcode_value : Rcode → ℕ
rcode_value no_error = 0
rcode_value form_err = 1
rcode_value serv_fail = 2
rcode_value nx_domain = 3
rcode_value not_imp = 4
rcode_value refused = 5
rcode_value yx_domain = 6
rcode_value yx_rrset = 7
rcode_value nx_rrset = 8
rcode_value not_auth = 9
rcode_value not_zone = 10
rcode_value (other_rcode v) = v

unfoldable pub is_success : Rcode → Bool
is_success no_error = true
is_success _ = false
