-- ===== src/Tokens/Tests.antt =====
-- The theorems on tokens at a concrete token of a municipality. The digest of the tests is no hash.
use openleg.Prelude.{◌≡◌, refl, some, none, [], ◌∷◌, arith}
use openleg.Prelude.Int.{pos}
use openleg.Prelude.Text.{Text, codes}
use openleg.Tokens.{Kind, Value, Db, issue, consume, normalize_subject}
use openleg.Tokens.Laws.{issue-consume, consume-consume}

abbrev digest : Text → Text
digest t = 0 ∷ t

abbrev no_tokens : Db
no_tokens = record { dashboard_tokens = []; municipality_tokens = [] }

abbrev raw_token : Text
raw_token = codes "abcdefghijklmnopqrstuvwxyz_-0123"

abbrev zurich : Value
zurich = Value.int (pos 261)

unfoldable issued_db : Db
unfolding issue
issued_db = (issue digest Kind.municipality 1000 zurich 900 raw_token no_tokens).1

issue-consume_example : (consume digest Kind.municipality 1899 raw_token issued_db).0 ≡ some zurich
unfolding issue normalize_subject issued_db
issue-consume_example =
    issue-consume digest Kind.municipality 1000 zurich 900 raw_token no_tokens 1899 refl

consume-consume_example :
    (consume digest Kind.municipality 1300 raw_token
      (consume digest Kind.municipality 1200 raw_token issued_db).1).0
    ≡ none
consume-consume_example =
    consume-consume digest Kind.municipality 1200 raw_token issued_db 1300 (omega arith)
