-- ===== src/Core/Session.antt =====
-- `TpLinkWebApi`: the state of the client's login session, and its operations.
-- What the switch answers is a function of everything that the client has done so far, so every
-- behaviour of a switch that gives one answer to each request is covered. `_call_locker` makes a
-- call of `get` or `post` one step for all others, as it is here. No caller gives `get` or `post` a
-- `check_authorized` of its own.
pub mod Monad
pub mod Moves
pub mod Login
pub mod Calls
pub mod Variables
