-- ===== src/Auth.antt =====
-- app/routers/auth.py, app/services/sessions.py and app/deps.py: signing in, the two limits on
-- guessing, the rotation of refresh tokens, and who a request is from. Requests run one at a time;
-- what two of them do at the same time is outside the model.
pub mod Lockout
pub mod Throttle
pub mod Tokens
pub mod Login
pub mod Locking
pub mod Banning
pub mod Network
pub mod Rotation
pub mod Answers
