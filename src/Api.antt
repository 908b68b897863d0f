-- ===== src/Api.antt =====
-- src/sentinel/api/security.py: the bearer token, the API key check, and the rate limit.
pub mod Security
