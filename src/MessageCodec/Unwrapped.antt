-- ===== src/MessageCodec/Unwrapped.antt =====
-- Which messages the codecs give, and what they make of their own.
use session_cli.Base.{ℕ, ◌<◌, ◌≡◌, List, Option, none, some, ok, err, arith}
use session_cli.Padding.{pad_message}
use session_cli.Padding.RoundTrip.{strip-pad}
use session_cli.MessageCodec.{
  Protos, SwarmAuth, websocket, RegularMessage, from_mills, open_envelope, open_websocket,
  encode_message, decode_message,
}

from_mills-pos : (t : ℕ) → 0 < t → from_mills t ≡ ok t
unfolding from_mills
from_mills-pos t h = ground (arith, h)

module _ {ℓ κ} {C : Type ℓ} {K : Type κ} (protos : Protos C) (auth : SwarmAuth K) where
  -- A message as another client sends it: its padded content is encrypted, put into an envelope, and
  -- that into a request.
  abbrev pub sent : List ℕ → ℕ → List ℕ
  sent cipher t = protos.encode_websocket (some (protos.encode_envelope (some cipher) t))

  open_envelope-encode :
      (cipher : List ℕ) (t : ℕ)
      → open_envelope protos auth (protos.encode_envelope (some cipher) t) ≡ ok (cipher, t)
  unfolding open_envelope
  open_envelope-encode cipher t = rw (protos.decode-envelope (some cipher) t)

  open_websocket-encode :
      (body : List ℕ) → open_websocket protos auth (protos.encode_websocket (some body)) ≡ ok body
  unfolding open_websocket
  open_websocket-encode body = rw (protos.decode-websocket (some body))

  -- A message of another client is decoded to its sender, its timestamp and its content, whatever
  -- the length of the content, where the timestamp is not zero.
  pub decode_message-sent :
      (cipher : List ℕ) (m : RegularMessage C)
      → auth.decrypt cipher ≡ some (m.sender, pad_message (protos.encode_content m.content))
      → 0 < m.timestamp
      → decode_message protos auth (sent cipher m.timestamp) ≡ ok m
  unfolding decode_message
  decode_message-sent cipher m e t = rw (
    open_websocket-encode (protos.encode_envelope (some cipher) m.timestamp),
    open_envelope-encode cipher m.timestamp,
    e,
    strip-pad (protos.encode_content m.content),
    protos.decode-content m.content,
    from_mills-pos m.timestamp t,
  )

  -- What the codec itself encodes is encrypted as a whole: it is not decoded, unless the cipher
  -- text happens to be a request.
  pub decode_message-encode :
      (t : ℕ) (c : C) (key : Option K) (cipher : List ℕ)
      → encode_message protos auth t c key ≡ ok cipher
      → protos.decode_websocket cipher ≡ none
      → decode_message protos auth cipher ≡ err websocket
  unfolding decode_message open_websocket
  decode_message-encode t c key cipher e h = rw h
