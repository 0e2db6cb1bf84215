-- ===== src/MessageCodec/Tests.antt =====
-- Messages whose content is a number, encrypted by a number in front.
use session_cli.Base.{ℕ, zero, suc, ◌≡◌, refl, List, [], ◌∷◌, Option, none, some, ok, arith}
use session_cli.Base.Text.{Text}
use session_cli.Padding.{pad_message}
use session_cli.MessageCodec.{Protos, SwarmAuth, RegularMessage, decode_message}
use session_cli.MessageCodec.Unwrapped.{sent, decode_message-sent}

abbrev tagged : Option (List ℕ) → List ℕ
tagged none = 0 ∷ []
tagged (some bytes) = 1 ∷ bytes

abbrev untagged : List ℕ → Option (Option (List ℕ))
untagged [] = none
untagged (zero ∷ _) = some none
untagged (suc _ ∷ bytes) = some (some bytes)

untagged_lem : (o : Option (List ℕ)) → untagged (tagged o) ≡ some o
untagged_lem none = refl
untagged_lem (some bytes) = refl

abbrev number : List ℕ → Option ℕ
number [] = none
number (n ∷ _) = some n

abbrev stamped : ℕ → Option (Option (List ℕ)) → Option (Option (List ℕ) × ℕ)
stamped t none = none
stamped t (some content) = some (content, t)

abbrev unstamped : List ℕ → Option (Option (List ℕ) × ℕ)
unstamped [] = none
unstamped (t ∷ bytes) = stamped t (untagged bytes)

unstamped_lem : (o : Option (List ℕ)) (t : ℕ) → unstamped (t ∷ tagged o) ≡ some (o, t)
unstamped_lem none t = refl
unstamped_lem (some bytes) t = refl

abbrev tags : Protos ℕ
tags = record {
  encode_content = λ c. c ∷ [];
  decode_content = number;
  encode_envelope = λ content t. t ∷ tagged content;
  decode_envelope = unstamped;
  encode_websocket = tagged;
  decode_websocket = untagged;
  decode-content = λ c. refl;
  decode-envelope = unstamped_lem;
  decode-websocket = untagged_lem;
}

abbrev opened : List ℕ → Option (Text × List ℕ)
opened [] = none
opened (key ∷ plain) = some (key ∷ [], plain)

abbrev in_front : SwarmAuth ℕ
in_front = record { encrypt = λ plain key. some (9 ∷ plain); decrypt = opened }

abbrev five : RegularMessage ℕ
five = record { sender = 9 ∷ []; timestamp = 1700000000; content = 5 }

abbrev cipher : List ℕ
cipher = 9 ∷ pad_message (5 ∷ [])

decode_message-sent_example :
    decode_message tags in_front (sent tags in_front cipher five.timestamp) ≡ ok five
decode_message-sent_example = decode_message-sent tags in_front cipher five refl (omega arith)
