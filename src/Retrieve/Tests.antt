-- ===== src/Retrieve/Tests.antt =====
-- The shared state on the sequences of the source's own tests, and the theorems at concrete calls.
use session_cli.Base.{ℕ, ◌≡◌, refl, List, [], ◌∷◌, ◌++◌, some, ok, err}
use session_cli.Base.Text.{Text, codes}
use session_cli.Retrieve.Latest.{start, call, run, run-latest}
use session_cli.Retrieve.{loaded, Intervals, Fetch, force_retry_next, get_or_retrieve, Call, get}

abbrev tenths : Intervals
tenths = record { refresh_interval = 200; min_retry_interval = 200 }

abbrev success : ℕ → ℕ → Fetch ℕ Text
success v t = record { outcome = ok v; done_at = t }

abbrev failure : ℕ → Fetch ℕ Text
failure t = record { outcome = err (codes "down"); done_at = t }

-- Loaded at 0, asked again at 100 and at 300.
abbrev twice : List (Call ℕ Text)
twice = get 0 (success 1 0) ∷ get 100 (success 2 100) ∷ get 300 (success 3 300) ∷ []

refreshed : (run tenths twice start).state ≡ loaded 3 300
unfolding run call get_or_retrieve
refreshed = refl

-- The value 1 was held when the retry was forced, and the failed retry answers an error.
forgotten :
    (get_or_retrieve tenths 5 (failure 6) (force_retry_next (loaded 1 0))).result
    ≡ err (codes "down")
unfolding get_or_retrieve force_retry_next
forgotten = refl

run-latest_example : (run tenths (twice ++ get 900 (failure 901) ∷ []) start).latest ≡ some 3
unfolding run call get_or_retrieve
run-latest_example = run-latest tenths twice 900 (failure 901) 3 refl
