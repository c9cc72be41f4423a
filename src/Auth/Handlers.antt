-- ===== src/Auth/Handlers.antt =====
-- services/auth/internal/api/delivery/auth_handler.go: the handlers of a request whose body was
-- read, behind RequireAuth where the routes put them there.
use full.Base.{ℕ, Bool, not, ◌&&◌, Option, none, some, String, ◌==◌, string_eq, if◌then◌else◌}
use full.Base.Db.{Conn, Result, ok, err, raised}
use full.Base.Http.{Reply, json, error}
use full.Base.Redis.Texts.{Texts}
use full.Auth.Session.{Fault, invalid_code}
use full.Auth.Users.{
  Consent, Tables, User, Google, World, login_google, get_consent, record_consent,
}

-- MeResponse
pub record Me : Type 0 where
  pub id : ℕ
  pub email : String
  pub consent : Option Consent

-- ConsentRequest as the JSON decoder leaves it: a missing flag is false.
pub record ConsentRequest : Type 0 where
  pub is_adult : Bool
  pub consent_recording : Bool
  pub consent_tos : Bool

-- The body and the session cookie that is set, none for no cookie.
abbrev pub Login : Type 0
Login = Reply Me × Option String

module _ (texts : Texts) where
  abbrev pub logged_in : Result Fault (String × User) × World texts → Login × World texts
  logged_in (ok (session_id, user), w) =
      ((json 200 (record { id = user.id; email = user.email; consent = none }), some session_id), w)
  logged_in (err (raised invalid_code), w) = ((error 401 "invalid or expired code", none), w)
  logged_in (err e, w) = ((error 500 "internal server error", none), w)

  -- authHandler.LoginGoogle; the code is none where the body is no JSON of the right shape, and the
  -- validator requires that it is not empty.
  unfoldable pub login_handler :
      Google → ℕ → ℕ → Option String → String → Option String → World texts → Login × World texts
  login_handler google ttl now generated refusal none w = ((error 400 "bad request", none), w)
  login_handler google ttl now generated refusal (some code) w =
      if code == ""
      then ((error 400 refusal, none), w)
      else logged_in (login_google texts google ttl now generated code w)

  abbrev pub me_of :
      User → World texts → Result Fault (Option Consent) × Conn Tables → Reply Me × World texts
  me_of user w (ok consent, c) = (
    json 200 (record { id = user.id; email = user.email; consent = consent }),
    record w { conn = c },
  )
  me_of user w (err e, c) = (error 500 "internal server error", record w { conn = c })

  -- GetMe
  unfoldable pub get_me : User → World texts → Reply Me × World texts
  get_me user w = me_of user w (get_consent user.id w.conn)

  abbrev pub consented :
      World texts → Result Fault Consent × Conn Tables → Reply Consent × World texts
  consented w (ok consent, c) = (json 200 consent, record w { conn = c })
  consented w (err e, c) = (error 500 "internal server error", record w { conn = c })

  -- SubmitConsent; the request is none where the body is no JSON of the right shape, and the
  -- validator requires each flag.
  unfoldable pub submit_consent :
      ℕ → Option ConsentRequest → User → World texts → Reply Consent × World texts
  submit_consent now none user w = (error 400 "bad request", w)
  submit_consent now (some req) user w =
      if not (req.is_adult && req.consent_recording && req.consent_tos)
      then (error 422 "all consent flags must be true", w)
      else consented w
          (record_consent now user.id req.is_adult req.consent_recording req.consent_tos w.conn)
