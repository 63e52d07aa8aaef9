-- ===== src/Lib.antt =====
-- Verification of Routiq's user access management backend (uam-backend/src).
--
-- The backend is an Express service over PostgreSQL and Redis. The commands of the cache go
-- through one circuit breaker; the services of one-time codes keep their codes in Redis through
-- three cache helpers, or in maps of the process where Redis is not available and the
-- deployment is not production; the login limiter does the same through the breaker itself. The
-- distributed rate limiter speaks to Redis directly and counts in the process where it may; no
-- other file of the backend uses it at present. The users stand in one table and an index of
-- their addresses and accounts in another; a session is a pair of tokens, of which the table
-- keeps a hash of the refresh token, the id of the access token and the version of the user's
-- tokens. The guards of a request read the access token, the handlers of login, refresh and
-- logout start, exchange and end sessions.
--
-- Base: what the modules share. Base/Dict is JavaScript's Map with string keys, Base/Int and
-- Base/Ratio the signed and fractional numbers, Base/Lists and Base/Tests lists and Boolean
-- tests over the native numbers.
--
-- Breaker: uam-backend/src/config/redisCircuitBreaker.ts. Breaker/Config is the configuration
-- (defaultCircuitBreakerConfig, clampConfig), Breaker/Window the class RollingWindow with
-- errorRate, timeoutRate and percentileUs, Breaker/Circuit the class CircuitBreaker (acquire,
-- release, tripOpen, checkStatisticalOpen, reset; a record holds its fields), and Breaker/Call
-- withCircuitBreaker, whose timer and command may both end a call. Window/History tells a
-- window from the history of the operations recorded in it; Circuit/Invariant states the
-- invariant and Circuit/Kept that every operation keeps it; Circuit/Run runs any interleaving
-- of operations.
--
-- Redis: cacheGet, cacheSet and cacheDel of uam-backend/src/config/redis.ts, over a Redis
-- server that is a record of operations, a parameter of all that uses it.
--
-- Codes: the one-time codes of uam-backend/src/services: oauth-exchange.service.ts
-- (Codes/Exchange), oauth-pkce.service.ts (Codes/Pkce), verification-poll.service.ts
-- (Codes/Poll) and email-link.service.ts (Codes/EmailLink). A state is the state of Redis and
-- the maps of the process; a function that throws gives a Result. Codes.antt holds the map that
-- they share in form.
--
-- RateLimit: uam-backend/src/robustRateLimiter.ts in RateLimit/Robust. What a ping, a pipeline
-- or a deletion answers is an argument; Robust/Shared runs the limiter against a server of
-- counters, a parameter with the documented behaviour of INCR, EXPIREAT and DEL as named
-- hypotheses, and RateLimit/Tests gives a server that meets them.
--
-- RateLimit/Login is uam-backend/src/middleware/advancedLimiter.ts with the back-off of
-- uam-backend/src/config/rateLimit.config.ts: the middleware answers with a verdict, and the
-- key and the attempts that it attaches to the request are arguments of handleLoginFailure.
-- Login/Guesses is about guesses between two runs of the clean-up, Login/Sweeps about both in
-- any order, Login/Required about a deployment that needs Redis.
--
-- Users: uam-backend/src/db/User.ts with uam-backend/src/db/columns.ts. A row gives every field
-- a Value; Users/Columns names the fields, Users/Update is applyUpdate for an update by id,
-- Users/Document the class User with its proxy (loading, assignments, save), Users/Cursor the
-- cursor in pages. Document/Laws tells which fields a write leaves alone. Users/Sample has a
-- table for the tests. An UPDATE may be refused, by a column that must be unique or a lost
-- connection; then the save or the update by id throws.
--
-- Session: session.service.ts and refresh-token.util.ts. A Site is the table, Redis and the
-- requests to the control plane. Session/Kept gives the rows that an update leaves,
-- Session/Rotation the rotation, Session/Invalidation the end of all sessions.
--
-- Identity: identity-index.service.ts over the upsert of UserIdentityIndex.ts. Identity/Resolve
-- has the look-ups, Identity/Sync the synchronisation with a user, Identity/Owners the owner of
-- a key after some upserts.
--
-- Auth: token.service.ts, the guards of auth.middleware.ts and csrf.middleware.ts (Auth/Guard),
-- revoke.service.ts (Auth/Revoke), refreshAccessToken and logout of auth.controller.ts with
-- cookie.util.ts (Auth/Refresh), login with comparePassword (Auth/Login), and
-- resendVerification, requestPasswordReset and resetPassword with the form token that it
-- redeems (Auth/Password), and the handlers of OAuth over the codes of Codes (Auth/Oauth). A
-- handler takes the request and the state to a state and a reply; a reply has a status, a
-- message and a code, or the tokens that it carries.
--
-- How the model reads the program. Numbers are natural numbers; times are in milliseconds and
-- `a - b >= c` is written `b + c <= a`. A synchronous operation reads one present time, and an
-- operation that waits has one time before and one after. Math.floor(Math.random() * n) is a
-- function of n in the environment. A rate is an exact fraction, compared by cross
-- multiplication: the doubles of the program agree with it, since a rate has a denominator far
-- below 2^53 and a threshold is a decimal of few digits. The environment, parseInt, parseFloat,
-- toLowerCase, the URL parser, SHA-256, JSON and Redis are parameters. Random codes and tokens
-- are arguments; the length of a code counts its characters, which for hexadecimal text is its
-- length in UTF-16. All loops but that of the cursor run over the list or the ring at hand and
-- need no fuel.
--
-- The tables of PostgreSQL are parameters as well: IsTable states what an UPDATE that is not
-- refused does to the row of a user, IsUserDb that none is refused, IsIndexDb what UPDATE,
-- INSERT and DELETE do to the row of a key, and the tests give tables that meet them. One
-- statement is one step; what a handler reads before it writes is a step of its own, so that
-- two requests can be interleaved between them.  The column updated_at, which every write sets,
-- is left out. The library jsonwebtoken, the password hash and base64url are parameters. The
-- cursor runs on fuel; a step more than there are rows is shown to be enough.
--
-- Not modelled: logging, metrics and tracing; connecting to Redis and its pools; a pipeline of
-- the rate limiter whose promise rejects; errors of a look-up in PostgreSQL; what
-- translateDuplicateKey makes of a refused UPDATE; inserting and deleting users, searches by a
-- filter and the filter language; registration, e-mail verification and migration, and
-- profiles; routes and validators; mail and OAuth providers; the Rust gateway, the frontends
-- and the demonstration backend; requests of one client to the login limiter that overlap.
pub mod Base
pub mod Breaker
pub mod Redis
pub mod Codes
pub mod RateLimit
pub mod Users
pub mod Session
pub mod Identity
pub mod Auth
