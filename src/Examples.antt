-- ===== src/Examples.antt =====
-- Tests of the definitions, and the theorems at concrete inputs.
mod Transactions
mod Formats
mod Trees
mod States
mod Operations
mod Pool
mod Logs
mod Stores
mod Lexing
mod Keys
