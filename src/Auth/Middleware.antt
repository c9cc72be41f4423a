-- ===== src/Auth/Middleware.antt =====
-- RequireAuth of services/auth/internal/api/middleware/auth_middleware.go, and of middleware.go in
-- the services that resolve a session to a user id (media, koth, store and reports have the same).
use full.Base.{Option, none, some, String}
use full.Base.Db.{Conn, Result, ok, err, raised}
use full.Base.Http.{Reply, error}
use full.Base.Int.{ℤ}
use full.Base.Redis.Texts.{Texts}
use full.Auth.Session.{Fault, session_not_found, resolve_session}
use full.Auth.Users.{User, World, authenticate}

module _ {A : Type 0} (texts : Texts) where
  abbrev pub admitted :
      {W : Type 0}
      → (ℤ → W → Reply A × W)
      → W
      → Result Fault ℤ × Conn texts.Store
      → Reply A × W × Conn texts.Store
  admitted next w (ok user_id, s) = let out = next user_id w in (out.0, out.1, s)
  admitted next w (err (raised session_not_found), s) = (error 401 "unauthorized", w, s)
  admitted next w (err e, s) = (error 401 "unauthorized", w, s)

  -- RequireAuth of the services that resolve a session to a user id; the cookie is none where the
  -- request has none, and `next` is the handler over the state of its service.
  unfoldable pub require_session :
      {W : Type 0}
      → Option String
      → (ℤ → W → Reply A × W)
      → W
      → Conn texts.Store
      → Reply A × W × Conn texts.Store
  require_session none next w s = (error 401 "unauthorized", w, s)
  require_session (some cookie) next w s = admitted next w (resolve_session texts cookie s)

  abbrev pub authenticated :
      (User → World texts → Reply A × World texts)
      → Result Fault User × World texts
      → Reply A × World texts
  authenticated next (ok user, w) = next user w
  authenticated next (err (raised session_not_found), w) =
      (error 401 "session expired or not found", w)
  authenticated next (err e, w) = (error 401 "unauthorized", w)

  -- RequireAuth of services/auth
  unfoldable pub require_auth :
      Option String
      → (User → World texts → Reply A × World texts)
      → World texts
      → Reply A × World texts
  require_auth none next w = (error 401 "unauthorized", w)
  require_auth (some cookie) next w = authenticated next (authenticate texts cookie w)
