-- ===== src/Lib.antt =====
-- rvcc, a small C compiler that writes ELF files for RISC-V and ARM: its lexer, its
-- numbers and expressions, and its back half from the
-- intermediate language to the file.
--
-- The program. The lexer and the parser (src/lexer.c, src/parser.c) fill tables and a list of
-- instructions, the intermediate language (src/globals.c, src/defs.c). The code generator
-- (src/codegen.c) gives each instruction its place and its length in a first pass, sizes the frames, and
-- in a second pass lets a backend (src/arch/riscv.c or src/arch/arm.c, through the function pointers of
-- backend_def) write the machine code into a buffer. The ELF writer (src/elf.c) puts headers, code,
-- data and symbols into the file.
--
-- The files.
--   Prelude, Result, Word   numbers, lists, tests; how a call ends; 32-bit C ints as numbers below 2 ^ 32
--   Il, Tables              src/defs.c and src/globals.c: il_instr, the tables, lookups (find_*), size_variable
--   Tables/Add              add_function, add_block, add_alias, add_type, add_named_type, add_constant
--   Tables/Names, Lookup    what lookups find behind additions
--   Tables/Shape            what the lengths of instructions depend on
--   Ends                    that a call ends with a value or with an error other than the end of fuel
--   Buffer                  the buffers of src/elf.c, and programs that write into one (Emit): e_write_byte, e_write_int,
--                           e_write_string, c_emit; what they append, with room and without
--   Backend                 backend_state and backend_def; Backend/Laws, what codegen.c asks of a backend
--   Lexer                   src/lexer.c: the tokens and the state; Chars (src/helpers.c), Scan (reading and the loops that
--                           collect), Quoted, Directive, Operator, Word, Next (l_next_token), Calls (l_accept, l_peek, l_ident,
--                           l_expect, l_initialize)
--   Lexer/Ends, Moved, Progress  each call ends and moves forward
--   Lexer/Spelling, Fixed, Collect, Printed, Lexeme, RoundTrip  tokens as C writes them; Skipped, Conditional: comments, #ifdef
--   Parser                  src/parser.c: Number (p_read_numeric_constant and the value of p_read_numeric_param), Operand, Operator
--                           (p_get_operator, p_get_operator_priority), Expression (p_read_expression over a reader of operands)
--   Parser/Digits, Numerals, Stack, Left, Fuel  numbers, the operator stack, and that expressions end
--   Backend/Sizes           lengths of emitted code, for both backends
--   Arm                     src/arch/arm.c: Opcode, Encode (a_encode, a_mov, a_transfer), Asm (a_swi to a_teq), Backend (a_op_*,
--                           a_get_code_length), Length (the laws)
--   Arm/Isa, Immediate, Decode  a decoder written from the tables of the ARM manual; encoders against it
--   RiscV                   src/arch/riscv.c: Opcode, Encode (r_encode_*, r_hi, r_lo), Asm (r_add to r_mul),
--                           Backend (r_op_*, r_get_code_length), Length (the laws)
--   RiscV/Isa, Decode       a decoder written from the format tables of the RISC-V manual; encoders against it
--   RiscV/Machine, HiLo, Run  a machine that runs decoded instructions; what the emitted code does on it
--   Codegen                 src/codegen.c: Sizing (first pass, frames, globals), Defs (c_generate), Frames and Fuel (sizes),
--                           Shape, Growth and Placement (the two passes)
--   Elf                     src/elf.c: Defs (sections, symbols, alignment, g_initialize), Generate (header, footer, file),
--                           Format (the ELF structures), Written, Slices, Image, Layout
--   Tests                   runs on concrete inputs
--
-- How state is modelled. The source is the next character and those behind it, up to the end of its array;
-- _l_token_string is its cells, of which strcmp sees those before the first 0. A table is the list of its used entries, a pointer into it an index, NULL is
-- none. A buffer is the bytes before its index, what the memory behind holds, and its size. A write behind the
-- end of an array and a dereference of NULL, undefined in C, are errors of the model; error(msg) is an error
-- value. Operations that change globals take and return them. Signed arithmetic wraps at 32 bits, as on
-- the targets.
--
-- Bounds and fuel. find_in_blocks and c_size_block follow the parents of a block with one unit of fuel more
-- than there are blocks; a chain of parents that stand before their children, as add_block makes them, is
-- shorter. A cycle, on which the source would not return, gives none, and the error out_of_fuel. The loop
-- of a_mov takes at most 16 rounds, since its value is below 2 ^ 31 and not 0. l_next_token calls itself behind
-- comments and directives, and skip_lines reads line after line: both take fuel, one unit more than there are
-- characters is enough, and advance gives as much. p_read_expression takes fuel for
-- its operators, and three units more than what is left to read are enough. All other loops are structural.
--
-- Not modelled: the parser's other operands, its lvalues, statements and declarations, the main program, the run-time library, the log that
-- c_generate prints, and the opening and closing of files.
pub mod Lexer
pub mod Parser
pub mod Prelude
pub mod Result
pub mod Word
pub mod Il
pub mod Tables
pub mod Buffer
pub mod Elf
pub mod Ends
pub mod Backend
pub mod Arm
pub mod RiscV
pub mod Codegen
pub mod Tests
