-- ===== src/Net/Rndc/Fresh.antt =====
-- `validate_response_ctrl` (crates/bind9-sdk-net/src/rndc/mod.rs): when a response belongs to a
-- request.
use bind9_sdk.Common.{
  ℕ, ◌+◌, ◌-◌, ◌^◌, ◌≤◌, ◌≡◌, ◌↔◌, refl, ap, ◌∙◌, min, Bool, true, false, ◌&&◌, Option, none, some,
  leb, leb→le, le→leb, ◌==◌, ==_iff, &&_split, ok, >>=-eq-ok, ok_or, ok_or-eq-ok, ensure,
  ensure-eq-ok,
}
use bind9_sdk.Common.Bytes.{Bytes, codes, equal, equal_iff}
use bind9_sdk.Common.Decimal.{to_decimal, parse_u64}
use bind9_sdk.Errors.{NetError}
use bind9_sdk.Net.Rndc.{IscMap}
use bind9_sdk.Net.Rndc.Session.{
  isccc_expiry_secs, saturating_add, map_string, agrees, validate_response_ctrl,
}

-- What a text must be to agree with an expected one.
abbrev pub IsExpected : Option Bytes → Bytes → Type 0
IsExpected none actual = Unit {0}
IsExpected (some expected) actual = actual ≡ expected

pub agrees_iff : (e : Option Bytes) (a : Bytes) → (agrees e a ≡ true) ↔ IsExpected e a
unfolding agrees
agrees_iff none a = ((λ h. tt), λ h. refl)
agrees_iff (some e) a = equal_iff a e

pub ensure-accepted : (b : Bool) (e : NetError) → ensure b e ≡ ok tt → b ≡ true
ensure-accepted true e h = refl
ensure-accepted false e h = cc

-- The control table of an answer to the request with this serial, sent at this time.
pub record IsFresh (ctrl : IscMap) (serial time : ℕ) (nonce : Option Bytes) : Type 0 where
  pub same_serial : map_string ctrl (codes "_ser") ≡ some (to_decimal serial)
  pub tim : Bytes
  pub timestamp : ℕ
  pub timed : map_string ctrl (codes "_tim") ≡ some tim
  pub timestamp_read : parse_u64 tim ≡ some timestamp
  pub not_before : time ≤ timestamp
  pub not_after : timestamp ≤ min (time + 60) (2 ^ 64 - 1)
  pub exp : Bytes
  pub expires : map_string ctrl (codes "_exp") ≡ some exp
  pub expiry_read : parse_u64 exp ≡ some (min (timestamp + 60) (2 ^ 64 - 1))
  pub reply : map_string ctrl (codes "_rpl") ≡ some (codes "1")
  pub given : Bytes
  pub has_nonce : map_string ctrl (codes "_nonce") ≡ some given
  pub same_nonce : IsExpected nonce given

pub validate_response_ctrl-IsFresh :
    (ctrl : IscMap) (serial time : ℕ) (nonce : Option Bytes)
    → validate_response_ctrl ctrl serial time nonce ≡ ok tt
    → IsFresh ctrl serial time nonce
unfolding validate_response_ctrl saturating_add
validate_response_ctrl-IsFresh ctrl serial time nonce h =
    let (s, e₁, h₁) = >>=-eq-ok (ok_or (map_string ctrl (codes "_ser")) _) _ h in
    let (s_ok, h₂) = ensure-eq-ok (equal s (to_decimal serial)) _ _ h₁ in
    let (t, e₃, h₃) = >>=-eq-ok (ok_or (map_string ctrl (codes "_tim")) _) _ h₂ in
    let (ts, e₄, h₄) = >>=-eq-ok (ok_or (parse_u64 t) _) _ h₃ in
    let (window, h₅) =
      ensure-eq-ok (leb time ts && leb ts (saturating_add time isccc_expiry_secs)) _ _ h₄ in
    let (x, e₆, h₆) = >>=-eq-ok (ok_or (map_string ctrl (codes "_exp")) _) _ h₅ in
    let (ex, e₇, h₇) = >>=-eq-ok (ok_or (parse_u64 x) _) _ h₆ in
    let (x_ok, h₈) = ensure-eq-ok (ex == saturating_add ts isccc_expiry_secs) _ _ h₇ in
    let (r, e₉, h₉) = >>=-eq-ok (ok_or (map_string ctrl (codes "_rpl")) _) _ h₈ in
    let (r_ok, h₁₀) = ensure-eq-ok (equal r (codes "1")) _ _ h₉ in
    let (n, e₁₁, h₁₁) = >>=-eq-ok (ok_or (map_string ctrl (codes "_nonce")) _) _ h₁₀ in
    let (early, late) = &&_split (leb time ts) _ window in
    record {
      same_serial =
          ok_or-eq-ok _ _ e₁ ∙ ap (λ s. some s) ((equal_iff s (to_decimal serial)).0 s_ok);
      tim = t;
      timestamp = ts;
      timed = ok_or-eq-ok _ _ e₃;
      timestamp_read = ok_or-eq-ok _ _ e₄;
      not_before = leb→le _ _ early;
      not_after = leb→le _ _ late;
      exp = x;
      expires = ok_or-eq-ok _ _ e₆;
      expiry_read = ok_or-eq-ok _ _ e₇ ∙ ap (λ n. some n) ((==_iff ex _).0 x_ok);
      reply = ok_or-eq-ok _ _ e₉ ∙ ap (λ s. some s) ((equal_iff r (codes "1")).0 r_ok);
      given = n;
      has_nonce = ok_or-eq-ok _ _ e₁₁;
      same_nonce = (agrees_iff nonce n).0 (ensure-accepted (agrees nonce n) _ h₁₁);
    }

pub IsFresh-validate_response_ctrl :
    (ctrl : IscMap) (serial time : ℕ) (nonce : Option Bytes)
    → IsFresh ctrl serial time nonce
    → validate_response_ctrl ctrl serial time nonce ≡ ok tt
unfolding validate_response_ctrl saturating_add
IsFresh-validate_response_ctrl ctrl serial time nonce f =
    rw
      (
        f.same_serial,
        (equal_iff (to_decimal serial) (to_decimal serial)).1 refl,
        f.timed,
        f.timestamp_read,
        le→leb _ _ f.not_before,
        le→leb _ _ f.not_after,
        f.expires,
        f.expiry_read,
        (==_iff (min (f.timestamp + 60) (2 ^ 64 - 1)) _).1 refl,
        f.reply,
        (equal_iff (codes "1") (codes "1")).1 refl,
        f.has_nonce,
        (agrees_iff nonce f.given).1 f.same_nonce,
      )
      refl
