-- ===== src/HttpCache/Tests.antt =====
-- Witnesses for the theorems on the cache: a server that answers 200 with one header.
use session_cli.Base.{◌≡◌, refl, sym, false, [], ◌∷◌, Option, none, some, ok, err, arith}
use session_cli.Base.Text.{Text, codes, eq_ignore_ascii_case, to_ascii_lowercase}
use session_cli.HttpCache.{HeaderCodec, Response, Faults, execute, find_row}
use session_cli.HttpCache.Cached.{execute-execute}

-- Every value is its own text.
abbrev plain : HeaderCodec
plain = record { to_str = λ v. some v; from_text = λ s. some s; from_text-to_str = λ v s h. sym h }

abbrev answered : Response
answered = record { status = 200; headers = (codes "etag", codes "x") ∷ []; body = 1 ∷ [] }

abbrev by_url : Text → Option Text
by_url url = some url

abbrev no_faults : Faults Text
no_faults = record { on_get = none; on_save = none }

execute-execute_example :
    ((execute {E = Text} plain by_url
        (codes "http://h/A")
        20
        no_faults
        (err (codes "down"))
        (execute {E = Text} plain by_url
          (codes "http://h/a")
          10
          no_faults
          (ok answered)
          []).rows).result
      ≡ ok answered)
    × ((execute {E = Text} plain by_url
          (codes "http://h/A")
          20
          no_faults
          (err (codes "down"))
          (execute {E = Text} plain by_url
            (codes "http://h/a")
            10
            no_faults
            (ok answered)
            []).rows).called
        ≡ false)
unfolding find_row eq_ignore_ascii_case to_ascii_lowercase
execute-execute_example =
    execute-execute plain by_url (codes "http://h/a") (codes "http://h/A") (codes "http://h/a")
      (codes "http://h/A") 10 20 answered none (err (codes "down")) [] refl refl refl refl refl
      (omega arith) (omega arith)
