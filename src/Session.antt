-- ===== src/Session.antt =====
-- Who is signed in: the access token, the interceptor that refreshes it, where a failure leads, and
-- the state of an OAuth sign-in.
pub mod Token
pub mod Redirect
pub mod Refresh
pub mod Interceptor
pub mod OAuth
pub mod Auth
pub mod Callback
pub mod Instance
mod Tests
