-- ===== src/Repl.antt =====
-- The read-eval-print loop of pkg/repl.
pub mod Buffer
pub mod Display
pub mod Loop
