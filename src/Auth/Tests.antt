-- ===== src/Auth/Tests.antt =====
-- Concrete inputs for services/auth and for the bearer token, and Redis as an association list.
use full.Base.{ℕ, ◌≡◌, ◌≢◌, refl, some, List, [], ◌∷◌, String, arith, nat_eq, string_eq}
use full.Base.Dict
use full.Base.Dict.{Dict, get-put, get-remove}
use full.Base.Db.{ok, pure, raise, statement, ◌>>=◌}
use full.Base.Http.{Reply, json, status_of}
use full.Base.Int.{ℤ, pos}
use full.Base.Redis.Texts.{Texts}
use full.Base.Text.{◌+++◌}
use full.Auth.Session
use full.Auth.Users.{
  User, Tables, Google, World, find_sub, set_email, upsert_sub, upsert_by_google_sub, exchange_code,
  login_google, authenticate,
}
use full.Auth.Middleware.{require_session}
use full.Auth.Login.{IsRegister, Visit, visit_all, visit_all-id}
use full.Auth.Internal.{bearer_prefix, require_token, require_token-Guards}
use full.Auth.Resolved.{login_google-resolved}

abbrev texts : Texts
texts = record {
  Store = Dict String String;
  read = Dict.get;
  set = λ k v ttl s. Dict.put s k v;
  del = λ k s. Dict.remove s k;
  read-set = λ s k j v ttl. get-put s k j v;
  read-del = λ s k j. get-remove s k j;
}

abbrev ann : User
ann = record { id = 1; google_sub = "g1"; email = "ann@old"; created_at = 3 }

abbrev bob : User
bob = record { id = 2; google_sub = "g2"; email = "bob@x"; created_at = 4 }

abbrev accounts : Tables
accounts = record { users = bob ∷ ann ∷ []; next_id = 3; consents = [] }

accounts-IsRegister : IsRegister accounts
accounts-IsRegister = record { fresh = refl; unique = λ id. ground arith }

abbrev google : Google
google = record {
  exchange = λ code. some code;
  userinfo = λ token. some (record { status = 200; body = some token });
  decode = λ body. some (record { sub = "g1"; email = "ann@new" });
}

abbrev site : World texts
site = record {
  conn = record { tables = accounts; fates = [] };
  sessions = record { tables = []; fates = [] };
}

abbrev ann_now : User
ann_now = record { id = 1; google_sub = "g1"; email = "ann@new"; created_at = 3 }

logs_in : (login_google texts google 900 50 (some "s1") "code" site).0 ≡ ok ("s1", ann_now)
unfolding login_google exchange_code upsert_by_google_sub upsert_sub find_sub set_email
    Session.create statement pure raise ◌>>=◌
logs_in = refl

abbrev echo : ℤ → ℕ → Reply ℤ × ℕ
echo user_id n = (json 200 user_id, n)

login_google-resolved_example :
    let v = (login_google texts google 900 50 (some "s1") "code" site).1 in
    ((authenticate texts "s1" v).0 ≡ ok ann_now)
    × ((require_session texts (some "s1") echo 5 v.sessions).0 ≡ (echo (pos 1) 5).0)
    × ((require_session texts (some "s1") echo 5 v.sessions).1 ≡ (echo (pos 1) 5).1)
login_google-resolved_example =
    login_google-resolved texts google 900 50 (some "s1") "code" site "s1" ann_now echo 5 refl refl
      accounts-IsRegister logs_in (omega arith)

abbrev visits : List Visit
visits = (50, "g1", "ann@new") ∷ (60, "g3", "cat@x") ∷ (70, "g2", "bob@y") ∷ []

abbrev cat : User
cat = record { id = 4; google_sub = "g3"; email = "cat@x"; created_at = 60 }

ann-found : find_sub "g1" accounts.users ≡ some ann
unfolding find_sub
ann-found = refl

cat-found : find_sub "g3" (visit_all visits accounts).users ≡ some cat
unfolding find_sub visit_all upsert_sub set_email
cat-found = refl

visit_all-id_example :
    ((w : User) × (find_sub "g1" (visit_all visits accounts).users ≡ some w) × (w.id ≡ 1))
    × (cat.id ≡ ann.id → cat.google_sub ≡ ann.google_sub)
visit_all-id_example =
    visit_all-id visits accounts "g1" "g3" ann cat accounts-IsRegister ann-found cat-found

abbrev greet : ℕ → Reply ℕ × ℕ
greet n = (json 200 n, n)

abbrev token : String
token = "secret"

abbrev header : String
header = "Bearer secrets"

abbrev refused_call : Reply ℕ × ℕ
refused_call = require_token "secret" "Bearer secrets" greet 5

require_token-Guards_example :
    ((header ≡ bearer_prefix +++ token) × (token ≢ "") → refused_call ≡ greet 5)
    × (token ≡ "" → (status_of refused_call.0 ≡ 503) × (refused_call.1 ≡ 5))
    × ((token ≢ "") × (header ≢ bearer_prefix +++ token)
        → (status_of refused_call.0 ≡ 401) × (refused_call.1 ≡ 5))
require_token-Guards_example = require_token-Guards token header greet 5
