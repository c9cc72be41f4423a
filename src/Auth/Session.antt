-- ===== src/Auth/Session.antt =====
-- Sessions in Redis: services/auth/internal/api/service/session_store.go, which creates them, and
-- session_repository.go and session_service.go of the services that only resolve them.
use full.Base.{Option, none, some, String, ℕ}
use full.Base.Decimal.{parse_int}
use full.Base.Db.{Db, pure, raise, statement, ◌>>=◌}
use full.Base.Int.{ℤ}
use full.Base.Redis.Texts.{Texts}
use full.Base.Text.{◌+++◌, format_int}

pub data Fault : Type 0 where
  session_not_found bad_session no_session_id invalid_code user_not_found consent_not_found : Fault

-- sessionKeyPrefix + sessionID
abbrev pub session_key : String → String
session_key session_id = "session:" +++ session_id

abbrev pub parsed_or_raise : {S : Type 0} → Option ℤ → Db Fault S ℤ
parsed_or_raise none = raise bad_session
parsed_or_raise (some user_id) = pure user_id

abbrev pub value_or_raise : {S : Type 0} → Option String → Db Fault S ℤ
value_or_raise none = raise session_not_found
value_or_raise (some val) = parsed_or_raise (parse_int val)

module _ (texts : Texts) where
  -- redisSessionStore.Create; `generated` is what generateSessionID returns, none for an error.
  unfoldable pub create : ℕ → Option String → ℕ → Db Fault texts.Store String
  create ttl none user_id = raise no_session_id
  create ttl (some id) user_id = do
    _ ← statement (λ s. (tt, texts.set (session_key id) (format_int user_id) ttl s))
    pure id

  -- redisSessionStore.Get
  unfoldable pub get : String → Db Fault texts.Store ℤ
  get session_id = do
    val ← statement (λ s. (texts.read s (session_key session_id), s))
    value_or_raise val

  -- redisSessionStore.Delete
  unfoldable pub delete : String → Db Fault texts.Store (Unit {0})
  delete session_id = statement (λ s. (tt, texts.del (session_key session_id) s))

  -- UserIDBySession
  unfoldable pub user_id_by_session : String → Db Fault texts.Store ℤ
  user_id_by_session session_id = do
    val ← statement (λ s. (texts.read s (session_key session_id), s))
    value_or_raise val

  -- ResolveSession
  unfoldable pub resolve_session : String → Db Fault texts.Store ℤ
  resolve_session session_id = user_id_by_session session_id
