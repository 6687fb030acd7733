-- ===== src/Buffer/History.antt =====
-- core/Buffer.h, any calls on a buffer, in any order, with what they give.
