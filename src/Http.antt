-- ===== src/Http.antt =====
-- src/dsh_api/main.py and src/dsh_api/auth.py: what stands between a request and a service.
-- `Validation` has the checks of a body, `Login` who asks, `Errors` the replies to exceptions,
-- `Routes` the routes of a server; `Access` and `Labels` prove.
pub mod Validation
pub mod Login
pub mod Errors
pub mod Routes
pub mod Access
pub mod Labels
