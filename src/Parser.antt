-- ===== src/Parser.antt =====
-- src/parser.c: the parser, as far as it reads numbers and operators.
pub mod Number
pub mod Digits
pub mod Numerals
pub mod Operator
pub mod Expression
pub mod Operand
pub mod Stack
pub mod Left
pub mod Fuel
