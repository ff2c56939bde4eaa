-- ===== src/Parse.antt =====
-- The parser of pkg/cell/akx_cell.c.
pub mod Escape
pub mod Errors
pub mod Unterminated
pub mod Scanner
pub mod Grammar
pub mod Program
pub mod Placed
