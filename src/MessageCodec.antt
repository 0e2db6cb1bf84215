-- ===== src/MessageCodec.antt =====
-- libsession-ui-core/src/oxenss/message.rs: how a message is wrapped for the swarm and unwrapped. The protobuf
-- messages are generated code, `Protos`: what is used of them is written out, and the rest of their
-- fields is the default. Encryption is the parameter `SwarmAuth`.
pub mod Unwrapped
mod Tests
use session_cli.Base.{
  ℕ, ◌≡◌, Bool, true, false, not, List, [], Option, none, some, Result, ok, err, ok_or, ◌>>=◌, ◌>>◌,
  ensure, ◌==◌,
}
use session_cli.Base.Text.{Text}
use session_cli.Padding.{pad_message, strip_message_padding}

-- The generated code: `encode_to_vec` and `decode`. A `WebSocketMessage` is the body of its request,
-- where there is one, and an `Envelope` its content and its timestamp.
pub record Protos {ℓ} (C : Type ℓ) : Type ℓ where
  pub encode_content : C → List ℕ
  pub decode_content : List ℕ → Option C
  pub encode_envelope : Option (List ℕ) → ℕ → List ℕ
  pub decode_envelope : List ℕ → Option (Option (List ℕ) × ℕ)
  pub encode_websocket : Option (List ℕ) → List ℕ
  pub decode_websocket : List ℕ → Option (Option (List ℕ))
  -- what is encoded is decoded
  pub decode-content : (c : C) → decode_content (encode_content c) ≡ some c
  pub decode-envelope :
      (content : Option (List ℕ)) (t : ℕ)
      → decode_envelope (encode_envelope content t) ≡ some (content, t)
  pub decode-websocket :
      (body : Option (List ℕ)) → decode_websocket (encode_websocket body) ≡ some body

-- The encryption of an account or a group; the key is that of another account.
pub record SwarmAuth {ℓ} (K : Type ℓ) : Type ℓ where
  pub encrypt : List ℕ → Option K → Option (List ℕ)
  pub decrypt : List ℕ → Option (Text × List ℕ)

pub data MessageError : Type 0 where
  decrypting encrypting websocket no_body envelope no_content content zero_timestamp todo :
      MessageError

pub record RegularMessage {ℓ} (C : Type ℓ) : Type ℓ where
  pub sender : Text
  pub timestamp : ℕ
  pub content : C

-- `Timestamp::from_mills`
unfoldable pub from_mills : ℕ → Result MessageError ℕ
from_mills t = do ensure (not (t == 0)) zero_timestamp; ok t

module _ {ℓ κ} {C : Type ℓ} {K : Type κ} (protos : Protos C) (auth : SwarmAuth K) where
  -- An envelope, with its content where it has one.
  unfoldable pub open_envelope : List ℕ → Result MessageError (List ℕ × ℕ)
  open_envelope bytes = do
    e ← ok_or (protos.decode_envelope bytes) envelope
    inner ← ok_or e.0 no_content
    ok (inner, e.1)

  unfoldable pub open_websocket : List ℕ → Result MessageError (List ℕ)
  open_websocket bytes = do
    body ← ok_or (protos.decode_websocket bytes) websocket
    ok_or body no_body

  -- `GroupMessageCodec::decode_and_decrypt`
  unfoldable pub decode_group_message : List ℕ → Result MessageError (RegularMessage C)
  unfolding open_envelope from_mills
  decode_group_message input = do
    d ← ok_or (auth.decrypt input) decrypting
    e ← open_envelope d.1
    c ← ok_or (protos.decode_content e.0) MessageError.content
    t ← from_mills e.1
    ok (record { sender = d.0; timestamp = t; content = c })

  -- `DefaultMessageCodec::encrypt_and_encode`
  unfoldable pub encode_message : ℕ → C → Option K → Result MessageError (List ℕ)
  encode_message timestamp c for_other =
      let padded = pad_message (protos.encode_content c) in
      let wrapped =
        protos.encode_websocket (some (protos.encode_envelope (some padded) timestamp)) in
      ok_or (auth.encrypt wrapped for_other) encrypting

  -- `DefaultMessageCodec::decode_and_decrypt`
  unfoldable pub decode_message : List ℕ → Result MessageError (RegularMessage C)
  unfolding open_envelope open_websocket from_mills
  decode_message input = do
    body ← open_websocket input
    e ← open_envelope body
    d ← ok_or (auth.decrypt e.0) decrypting
    c ← ok_or (protos.decode_content (strip_message_padding d.1)) MessageError.content
    t ← from_mills e.1
    ok (record { sender = d.0; timestamp = t; content = c })
