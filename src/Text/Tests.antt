-- ===== src/Text/Tests.antt =====
-- The number parsers' theorems at concrete inputs.
