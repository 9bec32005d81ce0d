-- ===== src/Hash/Bounds.antt =====
-- The hash (src/common/hash.cc) and its word.
