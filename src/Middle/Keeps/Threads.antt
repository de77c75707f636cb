-- ===== src/Middle/Keeps/Threads.antt =====
-- `co_reaper` from its first turn to its end.
