-- ===== src/SqlSplit.antt =====
-- backend/sql_split.py
pub mod Scan
pub mod Lex
pub mod Statements
pub mod Dialects
mod Tests
