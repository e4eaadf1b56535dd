-- ===== src/Common/Results.antt =====
-- The result type of fallible code. `stuck` is no value of the program: it marks a loop whose fuel
-- ran out.
use mathlib.Core.Path.{◌≡◌, refl, ap}
use mathlib.Core.Logic.{◌⊎◌, ◌≢◌, inl, inr}
use mathlib.Core.Bool.{Bool, true, false}
use mathlib.Core.Option.{Option, none, some}

pub data Result {ℓ} (E : Type 0) (A : Type ℓ) : Type ℓ where
  ok : A → Result E A
  err : E → Result E A
  stuck : Result E A

infixl 5 ◌>>=◌ ◌>>◌
abbrev pub ◌>>=◌ {ℓ κ} :
    {E : Type 0} {A : Type ℓ} {B : Type κ} → Result E A → (A → Result E B) → Result E B
ok a >>= f = f a
err e >>= f = err e
stuck >>= f = stuck

abbrev pub ◌>>◌ {ℓ} : {E : Type 0} {B : Type ℓ} → Result E (Unit {0}) → Result E B → Result E B
m >> k = m >>= λ _. k

-- `if !test { return Err(e) }`
abbrev pub ensure : {E : Type 0} → Bool → E → Result E (Unit {0})
ensure true e = ok tt
ensure false e = err e

-- `map_err`
abbrev pub map_err {ℓ} : {E F : Type 0} {A : Type ℓ} → (E → F) → Result E A → Result F A
map_err f (ok a) = ok a
map_err f (err e) = err (f e)
map_err f stuck = stuck

pub >>=-eq-ok {ℓ κ} :
    {E : Type 0} {A : Type ℓ} {B : Type κ} (first : Result E A) (next : A → Result E B) {last : B}
    → (first >>= next) ≡ ok last
    → (x : A) × (first ≡ ok x) × (next x ≡ ok last)
>>=-eq-ok stuck next h = cc
>>=-eq-ok (err e) next h = cc
>>=-eq-ok (ok x) next h = (x, refl, h)

pub Result-cases {ℓ} :
    {E : Type 0} {A : Type ℓ} (r : Result E A)
    → ((a : A) × (r ≡ ok a)) ⊎ (((e : E) × (r ≡ err e)) ⊎ (r ≡ stuck))
Result-cases (ok a) = inl (a, refl)
Result-cases (err e) = inr (inl (e, refl))
Result-cases stuck = inr (inr refl)

-- What `ok a` holds; another result is sent to `b`.
abbrev pub content_or {ℓ} : {E : Type 0} {A : Type ℓ} → A → Result E A → A
content_or b (ok a) = a
content_or b _ = b

pub ok-injective {ℓ} :
    {E : Type 0} {A : Type ℓ} {a b : A} → ◌≡◌ {A = Result E A} (ok a) (ok b) → a ≡ b
ok-injective {a} h = ap (content_or a) h

pub map_err-eq-ok {ℓ} :
    {E F : Type 0} {A : Type ℓ} (r : Result E A) (f : E → F) {a : A} → map_err f r ≡ ok a → r ≡ ok a
map_err-eq-ok (ok a) f h = ap ok (ok-injective h)
map_err-eq-ok (err e) f h = cc
map_err-eq-ok stuck f h = cc

-- `ok_or`, `ok_or_else`
abbrev pub ok_or {ℓ} : {E : Type 0} {A : Type ℓ} → Option A → E → Result E A
ok_or (some a) e = ok a
ok_or none e = err e

pub ok_or-eq-ok {ℓ} :
    {E : Type 0} {A : Type ℓ} (o : Option A) (e : E) {a : A} → ok_or o e ≡ ok a → o ≡ some a
ok_or-eq-ok (some a) e h = ap some (ok-injective h)
ok_or-eq-ok none e h = cc

pub ensure-eq-ok {ℓ} :
    {E : Type 0} {B : Type ℓ} (b : Bool) (e : E) (k : Result E B) {x : B}
    → (ensure b e >> k) ≡ ok x
    → (b ≡ true) × (k ≡ ok x)
ensure-eq-ok true e k h = (refl, h)
ensure-eq-ok false e k h = cc

pub >>=-ne-stuck {ℓ κ} :
    {E : Type 0} {A : Type ℓ} {B : Type κ} (m : Result E A) (f : A → Result E B)
    → m ≢ stuck
    → ((a : A) → m ≡ ok a → f a ≢ stuck)
    → (m >>= f) ≢ stuck
>>=-ne-stuck (ok a) f h k = k a refl
>>=-ne-stuck (err e) f h k = λ p. cc
>>=-ne-stuck stuck f h k = absurd (h refl)

pub ok_or-ne-stuck {ℓ} : {E : Type 0} {A : Type ℓ} (o : Option A) (e : E) → ok_or o e ≢ stuck
ok_or-ne-stuck (some a) e = λ p. cc
ok_or-ne-stuck none e = λ p. cc

pub ensure-ne-stuck {ℓ} :
    {E : Type 0} {B : Type ℓ} (b : Bool) (e : E) (k : Result E B)
    → k ≢ stuck
    → (ensure b e >> k) ≢ stuck
ensure-ne-stuck true e k h = h
ensure-ne-stuck false e k h = λ p. cc

pub map_err-ne-stuck {ℓ} :
    {E F : Type 0} {A : Type ℓ} (r : Result E A) (f : E → F) → r ≢ stuck → map_err f r ≢ stuck
map_err-ne-stuck (ok a) f h = λ p. cc
map_err-ne-stuck (err e) f h = λ p. cc
map_err-ne-stuck stuck f h = absurd (h refl)
