-- ===== src/Auth/Users.antt =====
-- services/auth/internal/api: user_repository.go, consent_repository.go, google_oauth.go,
-- auth_service.go and consent_service.go.
use full.Base.{
  ℕ, suc, Bool, not, Option, none, some, List, [], ◌∷◌, String, ◌==◌, nat_eq, string_eq,
  if◌then◌else◌,
}
use full.Base.Dict
use full.Base.Dict.{Dict}
use full.Base.Db.{Db, Conn, Result, ok, err, raised, pure, raise, statement, ◌>>=◌}
use full.Base.Int.{ℤ, pos, negsuc}
use full.Base.Redis.Texts.{Texts}
use full.Auth.Session
use full.Auth.Session.{Fault, session_not_found, invalid_code, user_not_found, consent_not_found}

pub record User : Type 0 where
  pub id : ℕ
  pub google_sub : String
  pub email : String
  pub created_at : ℕ

pub record Consent : Type 0 where
  pub is_adult : Bool
  pub consent_recording : Bool
  pub consent_tos : Bool
  pub accepted_at : ℕ

pub record Tables : Type 0 where
  pub users : List User
  pub next_id : ℕ
  pub consents : Dict ℕ Consent

unfoldable pub find_sub : String → List User → Option User
find_sub sub [] = none
find_sub sub (u ∷ us) = if u.google_sub == sub then some u else find_sub sub us

unfoldable pub find_user : ℕ → List User → Option User
find_user id [] = none
find_user id (u ∷ us) = if u.id == id then some u else find_user id us

unfoldable pub set_email : String → String → List User → List User
set_email sub email [] = []
set_email sub email (u ∷ us) =
    (if u.google_sub == sub then record u { email = email } else u) ∷ set_email sub email us

-- upsertSQL: the row, and the id that the identity column gave out in either case.
abbrev pub upserted : ℕ → String → String → Option User → Tables → User × Tables
upserted now sub email (some u) t = (
  record u { email = email },
  record t { users = set_email sub email t.users; next_id = suc t.next_id },
)
upserted now sub email none t =
    let u : User = record { id = t.next_id; google_sub = sub; email = email; created_at = now } in
    (u, record t { users = u ∷ t.users; next_id = suc t.next_id })

unfoldable pub upsert_sub : ℕ → String → String → Tables → User × Tables
upsert_sub now sub email t = upserted now sub email (find_sub sub t.users) t

-- UpsertByGoogleSub
unfoldable pub upsert_by_google_sub : ℕ → String → String → Db Fault Tables User
upsert_by_google_sub now sub email = statement (upsert_sub now sub email)

abbrev pub or_raise : {S A : Type 0} → Fault → Option A → Db Fault S A
or_raise e none = raise e
or_raise e (some a) = pure a

-- No row has a negative id.
abbrev pub find_id : ℤ → List User → Option User
find_id (pos id) us = find_user id us
find_id (negsuc n) us = none

-- GetByID
unfoldable pub get_by_id : ℤ → Db Fault Tables User
get_by_id id = do row ← statement (λ t. (find_id id t.users, t)); or_raise user_not_found row

abbrev pub accepted : ℕ → Consent → Consent
accepted now c = record c { accepted_at = now }

-- consentRepository.Upsert
unfoldable pub upsert_consent : ℕ → ℕ → Consent → Db Fault Tables Consent
upsert_consent now user_id c =
    statement
      (λ t. (accepted now c, record t { consents = Dict.put t.consents user_id (accepted now c) }))

-- GetByUserID
unfoldable pub get_consent_row : ℕ → Db Fault Tables Consent
get_consent_row user_id = do
  row ← statement (λ t. (Dict.get t.consents user_id, t))
  or_raise consent_not_found row

-- RecordConsent
unfoldable pub record_consent : ℕ → ℕ → Bool → Bool → Bool → Db Fault Tables Consent
record_consent now user_id is_adult consent_recording consent_tos =
    upsert_consent now user_id record {
      is_adult = is_adult;
      consent_recording = consent_recording;
      consent_tos = consent_tos;
      accepted_at = 0;
    }

abbrev pub or_nil : Result Fault Consent × Conn Tables → Result Fault (Option Consent) × Conn Tables
or_nil (ok consent, c) = (ok (some consent), c)
or_nil (err (raised consent_not_found), c) = (ok none, c)
or_nil (err e, c) = (err e, c)

-- GetConsent
unfoldable pub get_consent : ℕ → Db Fault Tables (Option Consent)
get_consent user_id c = or_nil (get_consent_row user_id c)

pub record GoogleUser : Type 0 where
  pub sub : String
  pub email : String

-- The answer to the request for the user's profile.
pub record Response : Type 0 where
  pub status : ℕ
  pub body : Option String

-- What Google's endpoints and the JSON decoder answer, none for an error.
pub record Google : Type 0 where
  pub exchange : String → Option String
  pub userinfo : String → Option Response
  pub decode : String → Option GoogleUser

infixl 5 ◌>>=?◌
abbrev ◌>>=?◌ : {A B : Type 0} → Option A → (A → Option B) → Option B
none >>=? f = none
some a >>=? f = f a

-- ExchangeCode; every error is ErrInvalidCode.
unfoldable pub exchange_code : Google → String → Option GoogleUser
exchange_code google code = google.exchange code >>=? λ token. google.userinfo token >>=? λ resp.
    (if not (resp.status == 200) then none else resp.body) >>=? λ body. google.decode body

module _ (texts : Texts) where
  pub record World : Type 0 where
    pub conn : Conn Tables
    pub sessions : Conn texts.Store

  abbrev pub with_session :
      User → World → Result Fault String × Conn texts.Store → Result Fault (String × User) × World
  with_session user w (err e, s) = (err e, record w { sessions = s })
  with_session user w (ok id, s) = (ok (id, user), record w { sessions = s })

  abbrev pub with_user :
      ℕ
      → Option String
      → World
      → Result Fault User × Conn Tables
      → Result Fault (String × User) × World
  with_user ttl generated w (err e, c) = (err e, record w { conn = c })
  with_user ttl generated w (ok user, c) =
      with_session user (record w { conn = c })
        (Session.create texts ttl generated user.id w.sessions)

  -- LoginGoogle, of a code that was exchanged.
  abbrev pub exchanged :
      ℕ → ℕ → Option String → World → Option GoogleUser → Result Fault (String × User) × World
  exchanged ttl now generated w none = (err (raised invalid_code), w)
  exchanged ttl now generated w (some g) =
      with_user ttl generated w (upsert_by_google_sub now g.sub g.email w.conn)

  -- LoginGoogle
  unfoldable pub login_google :
      Google → ℕ → ℕ → Option String → String → World → Result Fault (String × User) × World
  login_google google ttl now generated code w =
      exchanged ttl now generated w (exchange_code google code)

  abbrev pub known : World → Result Fault User × Conn Tables → Result Fault User × World
  known w (r, c) = (r, record w { conn = c })

  abbrev pub resolved : World → Result Fault ℤ × Conn texts.Store → Result Fault User × World
  resolved w (err e, s) = (err e, record w { sessions = s })
  resolved w (ok user_id, s) = known (record w { sessions = s }) (get_by_id user_id w.conn)

  -- Authenticate
  unfoldable pub authenticate : String → World → Result Fault User × World
  authenticate session_id w = resolved w (Session.get texts session_id w.sessions)
