-- ===== src/Net/Rndc/Replay.antt =====
-- The commands of an rndc session, one after the other: `command` in
-- crates/bind9-sdk-net/src/rndc/mod.rs.
use bind9_sdk.Common.{
  ℕ, suc, ◌+◌, ◌%◌, ◌^◌, ◌≤◌, ◌<◌, ◌≡◌, ◌≢◌, refl, sym, ap, ◌∙◌, Option, some, ◌++◌, arith, Result,
  ok, err, stuck, >>=-eq-ok, ok-injective,
}
use mathlib.Core.Path.{subst}
use mathlib.Core.Option.{some-injective}
use bind9_sdk.Common.Bytes.{Bytes, codes}
use bind9_sdk.Common.Decimal.{to_decimal-injective}
use bind9_sdk.Errors.{NetError}
use bind9_sdk.Core.Tsig.{TsigKey, Hmac, IsHmac}
use bind9_sdk.Net.Rndc.{IscMap}
use bind9_sdk.Net.Rndc.Answer.{RndcResponse}
use bind9_sdk.Net.Rndc.Session.{Base64, map_string, verify_authenticated_response}
use bind9_sdk.Net.Rndc.Authentic.{IsAuthentic, verify_authenticated_response_iff}
use bind9_sdk.Net.Rndc.Connection.{
  Authenticated, decode_authenticated_payload, check_answer, answer_to, exchange, response_of,
  request, read_frame, command,
}

module _ (h : Hmac) (base64 : Base64) where
  check_answer-IsAuthentic :
      (key : TsigKey) (serial now : ℕ) (nonce : Option Bytes) (type payload : Bytes)
      {response : IscMap}
      → IsHmac h
      → check_answer h base64 key serial now nonce type payload ≡ ok response
      → (input : Bytes) × (decode_authenticated_payload payload ≡ ok (response, input))
        × IsAuthentic h base64 key response input serial now nonce (some type)
  unfolding check_answer
  check_answer-IsAuthentic key serial now nonce type payload {response} law e =
      let ((r, input), e₁, e₂) = >>=-eq-ok (decode_authenticated_payload payload) _ e in
      let (_, e₃, e₄) =
        >>=-eq-ok (verify_authenticated_response h base64 key r input serial now nonce (some type))
          _ e₂ in
      let same = ok-injective e₄ in
      (
        input,
        e₁ ∙ ap (λ r. ok (r, input)) same,
        subst (λ r. IsAuthentic h base64 key r input serial now nonce (some type)) same
            ((verify_authenticated_response_iff h base64 key r input serial now nonce (some type)
                law).0
              e₃),
      )

  -- One command, whatever comes of it: the key and the nonce stay, and the serial goes one up.
  command_state :
      (s : Authenticated) (cmd : Bytes) (now : ℕ) (peer : Bytes → Bytes)
      → (let s' = (command h base64 s cmd now peer).1 in
          (s'.serial ≡ (s.serial + 1) % 2 ^ 32) × (s'.key ≡ s.key) × (s'.nonce ≡ s.nonce))
  unfolding command
  command_state s cmd now peer = (refl, refl, refl)

  -- A number of commands that follow each other on one connection.
  pub data Commands : Authenticated → ℕ → Authenticated → Type 0 where
    none_yet : {s : Authenticated} → Commands s 0 s
    one_more :
        {s s' : Authenticated} {n : ℕ} (cmd : Bytes) (now : ℕ) (peer : Bytes → Bytes)
        → Commands s n s'
        → Commands s (suc n) (command h base64 s' cmd now peer).1

  Commands-serial :
      {s s' : Authenticated} {n : ℕ}
      → s.serial < 2 ^ 32
      → Commands s n s'
      → s'.serial ≡ (s.serial + n) % 2 ^ 32
  Commands-serial small none_yet = omega (arith, small)
  Commands-serial small (one_more {s} {s' = s'} cmd now peer c) =
      let here = Commands-serial small c in omega (arith, here, (command_state s' cmd now peer).0)

  same_control :
      {response : IscMap} {input input' : Bytes} {key key' : TsigKey} {m n t t' : ℕ}
      {nonce nonce' type type' : Option Bytes}
      → m < 2 ^ 32
      → n < 2 ^ 32
      → IsAuthentic h base64 key response input m t nonce type
      → IsAuthentic h base64 key' response input' n t' nonce' type'
      → m ≡ n
  same_control {m} {n} hm hn a b =
      let ctrl = some-injective _ _ (sym a.has_ctrl ∙ b.has_ctrl) in
      to_decimal-injective m n (omega (arith, hm)) (omega (arith, hn)) (
        some-injective _ _ (
          sym a.fresh.same_serial
          ∙ ap (λ c. map_string c (codes "_ser")) ctrl
          ∙ b.fresh.same_serial))

  -- A replay is refused: a payload that was accepted as the answer to the request of a session, with
  -- its serial, is not accepted after 1 to 2 ^ 32 - 1 further commands, whatever came of them and
  -- whatever nonce, time and type are then expected.
  pub check_answer-replay :
      {s s' : Authenticated} {n : ℕ} (t t' : ℕ) (nonce nonce' : Option Bytes)
      (type type' payload : Bytes) {r r' : IscMap}
      → IsHmac h
      → s.serial < 2 ^ 32
      → Commands s n s'
      → 1 ≤ n
      → n < 2 ^ 32
      → check_answer h base64 s.key s.serial t nonce type payload ≡ ok r
      → check_answer h base64 s'.key s'.serial t' nonce' type' payload ≢ ok r'
  check_answer-replay {s} {s'} {n} t t' nonce nonce' type type' payload law small c some_step few e
        e' =
      let (i, d, a) = check_answer-IsAuthentic s.key s.serial t nonce type payload law e in
      let (i', d', a') = check_answer-IsAuthentic s'.key s'.serial t' nonce' type' payload law e' in
      let later = Commands-serial small c in
      let response = ap (λ x. x.0) (ok-injective (sym d ∙ d')) in
      let same =
        same_control small (omega (arith, later))
          (subst (λ r. IsAuthentic h base64 s.key r i s.serial t nonce (some type)) response a)
          a' in
      omega (arith, small, later, same)

  answer_to-eq-ok :
      (key : TsigKey) (serial now : ℕ) (nonce : Option Bytes) (type unread : Bytes)
      (peer : Bytes → Bytes) (sent : Result NetError Bytes) {response : IscMap}
      → (answer_to h base64 key serial now nonce type unread peer sent).0 ≡ ok response
      → (frame payload : Bytes) × (sent ≡ ok frame)
        × (read_frame (unread ++ peer frame)
            ≡ (ok payload, (answer_to h base64 key serial now nonce type unread peer sent).1))
        × (check_answer h base64 key serial now nonce type payload ≡ ok response)
  unfolding answer_to
  answer_to-eq-ok _ _ _ _ _ _ _ (err x) e = cc
  answer_to-eq-ok _ _ _ _ _ _ _ stuck e = cc
  answer_to-eq-ok _ _ _ _ _ unread peer (ok frame) e =
      let read = read_frame (unread ++ peer frame) in
      let (payload, e₁, e₂) = >>=-eq-ok read.0 _ e in
      (frame, payload, refl, (λ i. (e₁ i, read.1)), e₂)

  -- A command returns an answer only if its request could be built, for the serial that is one up,
  -- the nonce of the session and the text of the command; if the other end answered it with a message
  -- that is authentic for this request; and then the answer is the text of that message, and what is
  -- behind it stays to be read.
  pub command-IsAuthentic :
      (s : Authenticated) (cmd : Bytes) (now : ℕ) (peer : Bytes → Bytes) {answer : RndcResponse}
      {s' : Authenticated}
      → IsHmac h
      → command h base64 s cmd now peer ≡ (ok answer, s')
      → (frame payload input : Bytes) × (response : IscMap) × (request h base64 s.key
            ((s.serial + 1) % 2 ^ 32)
            now
            s.nonce
            cmd
          ≡ ok frame)
        × (read_frame (s.unread ++ peer frame) ≡ (ok payload, s'.unread))
        × (decode_authenticated_payload payload ≡ ok (response, input))
        × IsAuthentic h base64 s.key response input ((s.serial + 1) % 2 ^ 32) now s.nonce (some cmd)
        × (answer ≡ response_of h base64 response)
        × (s' ≡ record s { serial = (s.serial + 1) % 2 ^ 32; unread = s'.unread })
  unfolding command exchange
  command-IsAuthentic s cmd now peer {answer} {s'} law e =
      let serial = (s.serial + 1) % 2 ^ 32 in
      let (response, e₁, e₂) = >>=-eq-ok _ _ (ap (λ x. x.0) e) in
      let state = ap (λ x. x.1) e in
      let (frame, payload, e₃, e₄, e₅) =
        answer_to-eq-ok s.key serial now s.nonce cmd s.unread peer _ e₁ in
      let (input, e₆, authentic) =
        check_answer-IsAuthentic s.key serial now s.nonce cmd payload law e₅ in
      (
        frame,
        payload,
        input,
        response,
        e₃,
        e₄ ∙ ap (λ x. (ok payload, x.unread)) state,
        e₆,
        authentic,
        sym (ok-injective e₂),
        sym state ∙ ap (λ u. record s { serial = serial; unread = u }) (ap (λ x. x.unread) state),
      )
