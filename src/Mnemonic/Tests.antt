-- ===== src/Mnemonic/Tests.antt =====
-- Witness for the round trip of mnemonics: sixteen bytes, four blocks of digits, on a word list of as
-- many words as the English one.
use session_cli.Base.{ℕ, ◌+◌, List, [], ◌∷◌}
use session_cli.Base.Text.{Text, codes}

-- The text of the source's own test, but for the first block: it becomes three times the last word of
-- the list, the one that ends in a newline.
abbrev pub_key : Text
pub_key = codes "59060000bcb57c2a47688112f6ac9d04"

abbrev sum_of : List ℕ → ℕ
sum_of [] = 0
sum_of (x ∷ xs) = x + sum_of xs
