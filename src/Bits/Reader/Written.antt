-- ===== src/Bits/Reader/Written.antt =====
-- A field that `write_uint` wrote, as `read_bits` reads it.
