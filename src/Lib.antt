-- ===== src/Lib.antt =====
-- The services of a game in which two players stare until one blinks: Go code under services/,
-- each service with its domain, repositories (SQL and Redis) and service layer under
-- services/<name>/internal/api.
--
-- How the parts interact. A player joins a queue of services/matchmaking, whose ticks pair
-- players by level; the pair meets in a room of services/signaling, which relays their frames and
-- decides who blinked first. Players report cheats to services/reports, whose cooldowns keep the
-- reported out of the queues. The result of a ranked match is posted to services/ratings, which
-- updates both ratings and asks services/store for points. services/koth keeps the king of the
-- daily and of the monthly hill and the ranks of the day, resets the hills at the end of a
-- period, and asks the store for points too. services/store keeps the points, what users own, and
-- payments. services/media keeps the clips of matches and of kings, and converts them.
-- services/auth logs users in with Google; the other services resolve its sessions.
--
-- The model.
-- - Base: Booleans, lists, integers, Go maps as association lists (Base.Dict), decimal texts.
-- - Base.Db: a repository's statements as functions of the tables and of a schedule of fates.
--   Each statement, begin and commit is answered, refused, or carried out with its reply lost; a
--   transaction that fails is rolled back. Base.Db.Laws gives the effect of such a sequence as a
--   function of the tables alone, Base.Db.Keeps the predicates that it keeps, and
--   Base.Db.Refusals what an error of the code itself leaves.
-- - Base.Redis: Redis as interfaces with laws (hashes, strings, counters, sets, codes).
-- - Ratings: domain/rating.go (Ratings.Elo, Ratings.Level), repository/ratings_repository.go
--   (Ratings.Repository), service/ratings_service.go (Ratings.Service). float64 is the interface
--   Ratings.Float.
-- - Matchmaking: domain/player.go (Matchmaking.Player), repository/queue_repository.go
--   (Matchmaking.Queue), service/matchmaking_service.go (Matchmaking.Choice,
--   Matchmaking.Service).
-- - Koth: domain and config checks (Koth.Clock, Koth.Rank), repository/hill_repository.go
--   (Koth.Hill), the hill and reset services (Koth.Credits), ranks (Koth.Attempts).
-- - Store: the tables (Store.Tables), points_repository.go (Store.Points), purchase_repository.go
--   (Store.Orders), the services with the cache (Store.Service), rewarded grants
--   (Store.Rewarded).
-- - Signaling: service/signaling_service.go as the sections of its mutex (Signaling.Hub,
--   Signaling.Match, Signaling.Departure), and with room_repository.go and
--   room_code_repository.go (Signaling.Service). Signaling.Outcomes runs the sections in any
--   order. A timer may fire at any time after it was started, stopped or not.
-- - Reports: repository/cheat_repository.go and service/reports_service.go (Reports.Cheats).
-- - Media: domain (Media.Clip), clip_repository.go (Media.Clips), clip_service.go (Media.Upload,
--   Media.Convert), king_clip_repository.go (Media.KingClips), king_clip_service.go
--   (Media.KingUpload), the handlers (Media.Handlers, Media.KingHandlers). The object store is
--   the interface Media.Objects. Media.Conversion puts uploads, requests to convert and the
--   goroutines of doConvert into one sequence, in any order; a claim also stands alone, for a
--   request that was overtaken between reading the row and claiming it.
-- - Auth: session_store.go and the session lookups of the other services (Auth.Session), users,
--   consents and Google logins (Auth.Users), the handlers (Auth.Handlers), RequireAuth
--   (Auth.Middleware), and internal/platform/internalauth (Auth.Internal).
-- - Signaling.Serve and Matchmaking.Serve: the loops of ServeWS, from the first message of a
--   connection to its end, with what other connections do in between.
-- - Ratings.Handlers, Koth.Handlers and Store.Handlers: their delivery packages; Ratings.Matches:
--   the match history, where each query gives the rows of one time in an order of its own.
-- - Base.Decimal and Base.Http: ParseInt, and the replies of handlers.
-- Store.Soundness puts all requests that the store answers into one sequence. The other modules
-- hold the proofs, and the modules named Tests and Samples concrete inputs.
--
-- State is passed explicitly: a service's World holds its connection (tables and the fates to
-- come) and the calls that it made of other services. Those calls are sent and their failures
-- dropped, as in the source. Every loop is over a list, or over the five attempts at an invite
-- code; FormatInt of n writes its digits on n + 1 units of fuel, and n has at most as many
-- digits.
--
-- Bounds. User ids and identities are natural numbers. Points, Elo and milliseconds are unbounded
-- integers, where Go has 64 bits and PostgreSQL refuses a number that is too large.
--
-- Clocks, generated ids, Google, the operating system and ffmpeg are arguments. A goroutine of
-- doConvert writes the database once, at its end, so its run is one event.
--
-- Not modelled: the HTTP handlers of reports and of the store's listings, configuration loading,
-- wiring, the listings of catalog and inventory, the service health, bug reports, and the front
-- end. A transaction is not interleaved with others, since it locks the rows that it reads; the
-- statements of two requests outside a transaction may interleave in the program, and do not
-- here. Keys of Redis that expire do so outside the model.
pub mod Base
pub mod Ratings
pub mod Matchmaking
pub mod Koth
pub mod Store
pub mod Signaling
pub mod Media
pub mod Auth
pub mod Reports
