-- ===== src/Auth/Resolved.antt =====
-- From a login to the handlers behind it: services/auth creates the session that every other
-- service resolves.
use full.Base.{ℕ, ◌^◌, ◌<◌, ◌≡◌, Option, none, some, String, [], arith, nat_eq, string_eq}
use full.Base.Db.{Conn, Result, ok, err, pure, raise, statement, ◌>>=◌}
use full.Base.Decimal.{parse_int-format_int}
use full.Base.Http.{Reply}
use full.Base.Int.{ℤ, pos}
use full.Base.Redis.Texts.{Texts}
use full.Base.Text.{format_int}
use full.Auth.Session
use full.Auth.Session.{Fault, session_key, resolve_session, user_id_by_session}
use full.Auth.Users.{
  User, Tables, find_sub, Google, GoogleUser, World, exchange_code, exchanged, resolved, find_user,
  upsert_sub, upsert_by_google_sub, get_by_id, login_google, authenticate,
}
use full.Auth.Login.{IsRegister, upsert_sub-IsRegister, find_sub-upsert_sub, find_user-find_sub}
use full.Auth.Middleware.{admitted, require_session}

-- The user of a login is found by its id.
find_user-upsert_sub :
    (now : ℕ) (sub email : String) (t : Tables)
    → IsRegister t
    → find_user (upsert_sub now sub email t).0.id (upsert_sub now sub email t).1.users
      ≡ some (upsert_sub now sub email t).0
find_user-upsert_sub now sub email t register =
    let out = upsert_sub now sub email t in
    let found : find_sub sub out.1.users ≡ some out.0 =
      ground (arith, find_sub-upsert_sub now sub sub email t, string_eq.same_iff sub sub) in
    (find_user-find_sub sub out.1.users out.0 found
      ((upsert_sub-IsRegister now sub email t register).unique out.0.id)).1

module _ (texts : Texts) where
  -- The session of a login, while nothing fails.
  exchanged-session :
      (ttl now : ℕ) (generated : Option String) (g : Option GoogleUser) (w : World texts)
      (sid : String) (user : User)
      → w.conn.fates ≡ []
      → w.sessions.fates ≡ []
      → (exchanged texts ttl now generated w g).0 ≡ ok (sid, user)
      → IsRegister w.conn.tables
      → let v = (exchanged texts ttl now generated w g).1 in
        let key = session_key sid in
        (v.sessions ≡ record {
          tables = texts.set key (format_int user.id) ttl w.sessions.tables;
          fates = [];
        })
        × (v.conn.fates ≡ [])
        × (find_user user.id v.conn.tables.users ≡ some user)
  unfolding upsert_by_google_sub Session.create statement pure raise ◌>>=◌
  exchanged-session ttl now generated none w sid user q r e register = cc
  exchanged-session ttl now none (some g) w sid user q r e register = ground (arith, q, r, e)
  exchanged-session ttl now (some id) (some g) w sid user q r e register =
      ground (arith, q, r, e, find_user-upsert_sub now g.sub g.email w.conn.tables register)

  resolve_session-reads :
      (sid : String) (id : ℕ) (s : Conn texts.Store)
      → s.fates ≡ []
      → id < 2 ^ 63
      → texts.read s.tables (session_key sid) ≡ some (format_int id)
      → ((resolve_session texts sid s).0 ≡ ok (pos id))
        × ((Session.get texts sid s).0 ≡ ok (pos id))
  unfolding resolve_session user_id_by_session Session.get statement pure raise ◌>>=◌
  resolve_session-reads sid id s q small e = ground (arith, q, e, parse_int-format_int id)

  admitted-ok :
      {A W : Type 0} (next : ℤ → W → Reply A × W) (a : W) (user_id : ℤ)
      (out : Result Fault ℤ × Conn texts.Store)
      → out.0 ≡ ok user_id
      → ((admitted texts next a out).0 ≡ (next user_id a).0)
        × ((admitted texts next a out).1 ≡ (next user_id a).1)
  admitted-ok next a user_id (ok u, s) e = ground (arith, e)
  admitted-ok next a user_id (err x, s) e = cc

  resolved-ok :
      (w : World texts) (user : User) (out : Result Fault ℤ × Conn texts.Store)
      → out.0 ≡ ok (pos user.id)
      → w.conn.fates ≡ []
      → find_user user.id w.conn.tables.users ≡ some user
      → (resolved texts w out).0 ≡ ok user
  unfolding get_by_id statement pure raise ◌>>=◌
  resolved-ok w user (ok u, s) e q found = ground (arith, e, q, found)
  resolved-ok w user (err x, s) e q found = cc

  -- While nothing fails: after a login, the session id that it set as cookie gives services/auth
  -- the user of that login, and gives the handlers behind the other services' RequireAuth that
  -- user's id.
  pub login_google-resolved :
      {A W : Type 0} (google : Google) (ttl now : ℕ) (generated : Option String) (code : String)
      (w : World texts) (sid : String) (user : User) (next : ℤ → W → Reply A × W) (a : W)
      → w.conn.fates ≡ []
      → w.sessions.fates ≡ []
      → IsRegister w.conn.tables
      → (login_google texts google ttl now generated code w).0 ≡ ok (sid, user)
      → user.id < 2 ^ 63
      → let v = (login_google texts google ttl now generated code w).1 in
        ((authenticate texts sid v).0 ≡ ok user)
        × ((require_session texts (some sid) next a v.sessions).0 ≡ (next (pos user.id) a).0)
        × ((require_session texts (some sid) next a v.sessions).1 ≡ (next (pos user.id) a).1)
  unfolding login_google authenticate require_session
  login_google-resolved google ttl now generated code w sid user next a q r register e small =
      let v = (login_google texts google ttl now generated code w).1 in
      let (session, calm, found) =
        exchanged-session ttl now generated (exchange_code google code) w sid user q r e register in
      let read : texts.read v.sessions.tables (session_key sid) ≡ some (format_int user.id) =
        ground (
          arith,
          session,
          string_eq.same_iff (session_key sid) (session_key sid),
          texts.read-set w.sessions.tables (session_key sid) (session_key sid) (format_int user.id)
              ttl,
        ) in
      let (resolves, gets) =
        resolve_session-reads sid user.id v.sessions (ground (arith, session)) small read in
      let (reply, state) =
        admitted-ok next a (pos user.id) (resolve_session texts sid v.sessions) resolves in
      (resolved-ok v user (Session.get texts sid v.sessions) gets calm found, reply, state)
