-- ===== src/Schema.antt =====
-- The enumerations and tables of apps/api/prisma/schema.prisma, with the columns that the modelled
-- code reads or writes.
pub mod Enums
pub mod Rows
pub mod Events
