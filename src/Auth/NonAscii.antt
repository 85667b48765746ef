-- ===== src/Auth/NonAscii.antt =====
-- `consume_handoff_cookie` of backend/blueash_auth.py on a signature that is not ASCII.
