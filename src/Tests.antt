-- ===== src/Tests.antt =====
-- Runs of the model on concrete inputs.
mod Fixture
mod Run
mod Elf
mod Encode
mod Names
mod Program
mod Arm
mod Lexer
mod Parser
