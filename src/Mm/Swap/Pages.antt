-- ===== src/Mm/Swap/Pages.antt =====
-- A page that is swapped out and in again.
