-- ===== src/Examples/Digest.antt =====
-- A digest that meets what the code relies on, for the runs on concrete data: every octet of it is
-- the sum of the octets of the key and the message, modulo 256.
use bind9_sdk.Common.{ℕ, zero, suc, ◌+◌, ◌%◌, ◌≡◌, refl, ap, true, [], ◌∷◌, arith, length, All}
use bind9_sdk.Common.Bytes.{Bytes, IsByte, equal, equal_iff}
use bind9_sdk.Core.Tsig.{TsigAlgorithm, Hmac, IsHmac, mac_length}

abbrev pub total : Bytes → ℕ
total [] = 0
total (b ∷ bs) = b + total bs

abbrev pub copies : ℕ → ℕ → Bytes
copies zero b = []
copies (suc n) b = b ∷ copies n b

length-copies : (n b : ℕ) → length (copies n b) ≡ n
length-copies zero b = refl
length-copies (suc n) b = ap suc (length-copies n b)

copies-IsByte : (n b : ℕ) → IsByte b → All IsByte (copies n b)
copies-IsByte zero b h = tt
copies-IsByte (suc n) b h = (h, copies-IsByte n b h)

abbrev pub summed : TsigAlgorithm → Bytes → Bytes → Bytes
summed a key message = copies (mac_length a) ((total key + total message) % 256)

abbrev pub sum_hmac : Hmac
sum_hmac = record {
  new_from_slice = λ a key. true;
  finalize = summed;
  verify_slice = λ a key message mac. equal mac (summed a key message);
}

pub sum_hmac-IsHmac : IsHmac sum_hmac
sum_hmac-IsHmac = record {
  sized = λ a key message. length-copies (mac_length a) _;
  octets = λ a key message. copies-IsByte (mac_length a) _ (omega arith);
  exact = λ a key message mac. equal_iff mac (summed a key message);
}
