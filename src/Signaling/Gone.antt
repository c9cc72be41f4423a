-- ===== src/Signaling/Gone.antt =====
-- A connection that services/signaling/internal/api/delivery/signaling_handler.go has served to its
-- end is registered in no room.
use full.Base.{
  ℕ, ◌≢◌, Bool, true, false, some, List, [], ◌∷◌, String, arith, nat_eq, string_eq, if◌then◌else◌,
}
use full.Base.Redis.Sets.{Sets, Codes}
use full.Signaling.Hub.{Hub}
use full.Signaling.Service.{World, leave}
use full.Signaling.Serve.{Inbound, Session, State, receive, leave_on_disconnect, serve, arrived}
use full.Signaling.Invites.{IsNamed}
use full.Signaling.Registry.{conn_in, conn_in-leave}
use full.Signaling.Served.{AreFair, IsSound, receive-IsSound}

module _ (sets : Sets) (codes : Codes) (room_ttl code_ttl user_id conn : ℕ) where
  -- Nowhere in the registry.
  abbrev pub IsNowhere : Hub → Type 0
  IsNowhere h = (r : String) → conn_in r user_id h ≢ some conn

  disconnect-IsNowhere :
      (now : ℕ) (s : Session) (w : World sets codes room_ttl code_ttl)
      → IsSound sets codes room_ttl code_ttl user_id conn (s, w)
      → IsNowhere (leave_on_disconnect sets codes room_ttl code_ttl user_id conn now (s, w)).1.hub
  unfolding leave_on_disconnect leave
  disconnect-IsNowhere now s w p r e = ground (
    arith,
    p.only r,
    conn_in-leave now user_id s.joined_room_id w.hub r user_id,
    string_eq.same_iff s.joined_room_id "",
    string_eq.same_iff s.joined_room_id r,
  )

  either-IsNowhere :
      (b : Bool) (x y : State sets codes room_ttl code_ttl user_id conn)
      → IsNowhere x.1.hub
      → IsNowhere y.1.hub
      → IsNowhere (if b then x else y).1.hub
  either-IsNowhere true x y p q = p
  either-IsNowhere false x y p q = q

  serve-IsNowhere :
      (now : ℕ) (ms : List Inbound) (s : Session) (w : World sets codes room_ttl code_ttl)
      → AreFair user_id conn ms
      → IsSound sets codes room_ttl code_ttl user_id conn (s, w)
      → IsNowhere (serve sets codes room_ttl code_ttl user_id conn now ms (s, w)).1.hub
  unfolding serve
  serve-IsNowhere now [] s w fair p = disconnect-IsNowhere now s w p
  serve-IsNowhere now (m ∷ ms) s w (fair, later) p =
      let (t, v) = receive sets codes room_ttl code_ttl user_id conn m (s, w) in
      either-IsNowhere s.is_closed
        (leave_on_disconnect sets codes room_ttl code_ttl user_id conn now (s, w))
        (serve sets codes room_ttl code_ttl user_id conn now ms (t, v))
        (disconnect-IsNowhere now s w p)
        (serve-IsNowhere now ms t v later
          (receive-IsSound sets codes room_ttl code_ttl user_id conn m s w fair p))

  -- A new connection, served to its end: whatever frames it sent, whatever Redis did and whatever
  -- others did in between, the registry has it in no room; where generated room ids and the rooms
  -- of stored codes are not empty, and nothing else registers this connection.
  pub serve-gone :
      (now : ℕ) (ms : List Inbound) (w : World sets codes room_ttl code_ttl)
      → AreFair user_id conn ms
      → IsNowhere w.hub
      → IsNamed codes w.invites.tables
      → (r : String)
      → let v =
          (serve sets codes room_ttl code_ttl user_id conn now ms
            (arrived sets codes room_ttl code_ttl user_id conn, w)).1 in
        conn_in r user_id v.hub ≢ some conn
  serve-gone now ms w fair fresh named r =
      serve-IsNowhere now ms (arrived sets codes room_ttl code_ttl user_id conn) w fair
        record { only = λ r e. absurd (fresh r e); named = named } r
