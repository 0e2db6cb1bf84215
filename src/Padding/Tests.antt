-- ===== src/Padding/Tests.antt =====
-- Padding at concrete messages.
use session_cli.Base.{ℕ, ◌%◌, ◌≤◌, ◌≡◌, refl, List, [], ◌∷◌, ◌++◌, length, replicate}
use session_cli.Base.Text.{codes}
use session_cli.Padding.{pad_message}
use session_cli.Padding.RoundTrip.{length-pad}

abbrev greeting : List ℕ
greeting = codes "hi" ++ 0x80 ∷ 0 ∷ []

padded_greeting : pad_message (codes "hi") ≡ codes "hi" ++ 0x80 ∷ replicate 157 0
unfolding pad_message
padded_greeting = refl

-- A message of 159 bytes gets a whole block of zeros behind its 0x80 byte.
full_block : length (pad_message (replicate 159 b'a')) ≡ 320
unfolding pad_message
full_block = refl

length-pad_example :
    (length (pad_message greeting) % 160 ≡ 0)
    × (6 ≤ length (pad_message greeting))
    × (length (pad_message greeting) ≤ 165)
length-pad_example = length-pad greeting
