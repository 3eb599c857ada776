-- ===== src/Bluez/Tests.antt =====
-- Byte order and framing at concrete values.
