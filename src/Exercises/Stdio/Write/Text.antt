-- ===== src/Exercises/Stdio/Write/Text.antt =====
-- 14-1-26/8-4.c: a text that is put into a new file, and the file closed.
