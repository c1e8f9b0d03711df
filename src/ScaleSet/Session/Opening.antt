-- ===== src/ScaleSet/Session/Opening.antt =====
-- The opening of a session ends.
