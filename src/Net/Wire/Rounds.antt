-- ===== src/Net/Wire/Rounds.antt =====
-- Lemmas on one round of the loop of `parse_name` (crates/bind9-sdk-net/src/transfer/wire.rs).
use bind9_sdk.Common.{
  ℕ, zero, suc, ◌+◌, ◌*◌, ◌%◌, ◌≤◌, ◌<◌, ◌≡◌, ◌≢◌, ◌⊎◌, inl, inr, Bool, true, false, some, [], ◌∷◌,
  arith, ◌==◌, length, leb, ltb, leb→le, ◌>>=◌, if◌then◌else◌, get_elem?, ok, err, stuck, Result,
  >>=-eq-ok, ok_or, ok_or-eq-ok, ensure-eq-ok, >>=-ne-stuck, ok_or-ne-stuck, ensure-ne-stuck,
  Bool-cases,
}
use bind9_sdk.Common.Bytes.{Bytes}
use bind9_sdk.Errors.{NetError}
use bind9_sdk.Net.Wire.{
  NameState, limit_of, follow_pointer, take_label, by_length, name_round, max_compression_depth,
}

get_elem?-lt : (buf : Bytes) (i b : ℕ) → get_elem? buf i ≡ some b → i < length buf
get_elem?-lt [] i b h = cc
get_elem?-lt (x ∷ xs) zero b h = omega arith
get_elem?-lt (x ∷ xs) (suc i) b h = omega (arith, get_elem?-lt xs i b h)

-- The loop at `s`: it is inside the name that it was called for, or has left it by a pointer.
pub record IsInside (buf : Bytes) (offset : ℕ) (s : NameState) : Type 0 where
  pub shallow : s.depth ≤ max_compression_depth
  pub ahead : s.jumped ≡ false → offset ≤ s.pos
  pub counted : s.jumped ≡ true → (1 ≤ s.bytes_consumed) × (offset + s.bytes_consumed ≤ length buf)

follow_pointer-IsInside :
    (buf : Bytes) (offset len_byte : ℕ) (s s' : NameState)
    → s.pos < length buf
    → IsInside buf offset s
    → follow_pointer buf offset len_byte s ≡ ok s'
    → IsInside buf offset s' × (s'.depth ≡ s.depth)
unfolding follow_pointer
follow_pointer-IsInside buf offset len_byte s s' here inside h =
    let (low, e, h₁) = >>=-eq-ok (ok_or (get_elem? buf (s.pos + 1)) _) _ h in
    let (back, h₂) =
      ensure-eq-ok (ltb (len_byte % 64 * 256 + low) (limit_of offset s.first_pointer_pos)) _ _ h₁ in
    let far = get_elem?-lt buf (s.pos + 1) low (ok_or-eq-ok _ _ e) in
    (
      record {
        shallow = ground (arith, h₂, inside.shallow);
        ahead = ground (arith, h₂);
        counted = ground (arith, h₂, inside.counted, inside.ahead, far);
      },
      ground (arith, h₂),
    )

take_label-IsInside :
    (buf : Bytes) (offset label_len : ℕ) (s s' : NameState)
    → IsInside buf offset s
    → take_label buf label_len s ≡ ok s'
    → IsInside buf offset s' × (s'.depth ≡ s.depth)
unfolding take_label
take_label-IsInside buf offset label_len s s' inside h =
    let (fits, h₁) = ensure-eq-ok (leb (s.pos + 1 + label_len) (length buf)) _ _ h in
    (
      record {
        shallow = ground (arith, h₁, inside.shallow);
        ahead = ground (arith, h₁, inside.ahead);
        counted = ground (arith, h₁, inside.counted);
      },
      ground (arith, h₁),
    )

-- The loop goes on with the variables that a step returns.
abbrev going_on : Result NetError NameState → Result NetError (Bool × NameState)
going_on m = m >>= λ t. ok (false, t)

goes_on :
    (m : Result NetError NameState) {stop : Bool} {s' : NameState}
    → going_on m ≡ ok (stop, s')
    → (stop ≡ false) × (m ≡ ok s')
goes_on (ok t) h = ground (arith, h)
goes_on (err e) h = cc
goes_on stuck h = cc

-- Where the loop goes on, it is inside still; where it breaks, the name has been counted.
by_length-IsInside :
    (buf : Bytes) (offset len_byte : ℕ) (s s' : NameState) (stop : Bool)
    → s.pos < length buf
    → IsInside buf offset s
    → by_length buf offset len_byte s ≡ ok (stop, s')
    → ((stop ≡ false) × IsInside buf offset s' × (s'.depth ≡ s.depth))
      ⊎ ((stop ≡ true) × (1 ≤ s'.bytes_consumed) × (offset + s'.bytes_consumed ≤ length buf))
unfolding by_length
by_length-IsInside buf offset len_byte s s' stop here inside h = elim (Bool-cases (len_byte == 0)) [
  | inl z ↦ let e = rw z at h in inr (ground (arith, e, inside.ahead, inside.counted))
  | inr z ↦ elim (Bool-cases (leb 192 len_byte)) [
    | inl e ↦
        let (on, made) = goes_on (follow_pointer buf offset len_byte s) (rw (z, e) at h) in
        let (keeps, same) = follow_pointer-IsInside buf offset len_byte s s' here inside made in
        inl (on, keeps, same)
    | inr e ↦
        let (on, made) = goes_on (take_label buf len_byte s) (rw (z, e) at h) in
        let (keeps, same) = take_label-IsInside buf offset len_byte s s' inside made in
        inl (on, keeps, same)
  ]
]

goes_on-ne-stuck : (m : Result NetError NameState) → m ≢ stuck → going_on m ≢ stuck
goes_on-ne-stuck m h = >>=-ne-stuck m _ h (λ t e p. cc)

follow_pointer-ne-stuck :
    (buf : Bytes) (offset len_byte : ℕ) (s : NameState)
    → follow_pointer buf offset len_byte s ≢ stuck
unfolding follow_pointer
follow_pointer-ne-stuck buf offset len_byte s =
    >>=-ne-stuck (ok_or (get_elem? buf (s.pos + 1)) _) _ (ok_or-ne-stuck _ _) λ low e.
      ensure-ne-stuck (ltb (len_byte % 64 * 256 + low) (limit_of offset s.first_pointer_pos)) _ _
        (λ p. cc)

take_label-ne-stuck : (buf : Bytes) (n : ℕ) (s : NameState) → take_label buf n s ≢ stuck
unfolding take_label
take_label-ne-stuck buf n s = ensure-ne-stuck (leb (s.pos + 1 + n) (length buf)) _ _ (λ p. cc)

by_length-ne-stuck :
    (buf : Bytes) (offset len_byte : ℕ) (s : NameState) → by_length buf offset len_byte s ≢ stuck
unfolding by_length
by_length-ne-stuck buf offset len_byte s =
    if-ne-stuck (len_byte == 0) (λ p. cc)
      (if-ne-stuck (leb 192 len_byte)
        (goes_on-ne-stuck _ (follow_pointer-ne-stuck buf offset len_byte s))
        (goes_on-ne-stuck _ (take_label-ne-stuck buf len_byte s)))
  where
    if-ne-stuck :
        (b : Bool) {x y : Result NetError (Bool × NameState)}
        → x ≢ stuck
        → y ≢ stuck
        → (if b then x else y) ≢ stuck
    if-ne-stuck true hx hy = hx
    if-ne-stuck false hx hy = hy

pub name_round-IsInside :
    (buf : Bytes) (offset : ℕ) (s s' : NameState) (stop : Bool)
    → IsInside buf offset s
    → name_round buf offset s ≡ ok (stop, s')
    → ((stop ≡ false) × IsInside buf offset s' × (s'.depth ≡ s.depth + 1))
      ⊎ ((stop ≡ true) × (1 ≤ s'.bytes_consumed) × (offset + s'.bytes_consumed ≤ length buf))
unfolding name_round
name_round-IsInside buf offset s s' stop inside h =
    let (len_byte, e, h₁) = >>=-eq-ok (ok_or (get_elem? buf s.pos) _) _ h in
    let (shallow, h₂) = ensure-eq-ok (leb (s.depth + 1) max_compression_depth) _ _ h₁ in
    by_length-IsInside buf offset len_byte (record s { depth = s.depth + 1 }) s' stop
      (get_elem?-lt buf s.pos len_byte (ok_or-eq-ok _ _ e))
      (record { shallow = leb→le _ _ shallow; ahead = inside.ahead; counted = inside.counted }) h₂

pub round-ne-stuck : (buf : Bytes) (offset : ℕ) (s : NameState) → name_round buf offset s ≢ stuck
unfolding name_round
round-ne-stuck buf offset s =
    >>=-ne-stuck (ok_or (get_elem? buf s.pos) _) _ (ok_or-ne-stuck _ _) λ len_byte e.
      ensure-ne-stuck (leb (s.depth + 1) max_compression_depth) _ _
        (by_length-ne-stuck buf offset len_byte _)
