-- ===== src/Sql.antt =====
-- What the PostgreSQL queries of the program use: ORDER BY with several keys and NULLS FIRST or
-- NULLS LAST, LIMIT, and UPDATE ... WHERE over the rows of a table.
pub mod Order
pub mod Rows
pub mod Writes
pub mod Join
