-- ===== src/Buffer/Defs.antt =====
-- src/elf.c: byte buffers, and programs that write into one.
use rvcc.Prelude.{ℕ, zero, suc, ◌+◌, ◌*◌, ◌%◌, List, [], ◌∷◌, ◌++◌, ltb, if◌then◌else◌, length}
use rvcc.Result.{Result, ok, err, ◌>>=◌, Error}
use rvcc.Word.{sar32, mask32}

-- `bytes` is what stands before the index. `stale` is what the allocated memory holds after it.
pub record Buffer : Type 0 where
  pub bytes : List ℕ
  pub stale : ℕ → ℕ
  pub cap : ℕ

-- A program that writes into one buffer and may stop.
abbrev pub Emit : Type 0
Emit = Buffer → Result Buffer

infixl 5 ◌>>◌
abbrev pub ◌>>◌ : Emit → Emit → Emit
(m >> n) b = m b >>= n

abbrev pub pass : Emit
pass b = ok b

abbrev pub fail : Error → Emit
fail e b = err e

-- buf[idx++] = val, with val cut to a byte. A write past the end of the array is an error.
unfoldable pub e_write_byte : ℕ → Emit
e_write_byte val b =
    if ltb (length b.bytes) b.cap
    then ok (record b { bytes = b.bytes ++ val % 256 ∷ [] })
    else err Error.out_of_bounds

-- (v >> (b * 8)) & 0xFF
unfoldable pub e_extract_byte : ℕ → ℕ → ℕ
e_extract_byte v b = mask32 (sar32 v (b * 8)) 256

unfoldable pub e_write_int : ℕ → Emit
e_write_int val =
    e_write_byte (e_extract_byte val 0)
    >> e_write_byte (e_extract_byte val 1)
    >> e_write_byte (e_extract_byte val 2)
    >> e_write_byte (e_extract_byte val 3)

-- for (i = 0; i < len; i++) buf[idx++] = vals[i];
unfoldable pub e_write_string : List ℕ → Emit
e_write_string [] = pass
e_write_string (v ∷ vals) = e_write_byte v >> e_write_string vals

-- c_emit(code) writes an instruction. Computing the instruction may stop first.
unfoldable pub c_emit : Result ℕ → Emit
c_emit code b = do w ← code; e_write_int w b

stale_bytes : ℕ → ℕ → (ℕ → ℕ) → List ℕ
stale_bytes zero i stale = []
stale_bytes (suc n) i stale = stale i ∷ stale_bytes n (i + 1) stale

-- idx += n: the index moves on and nothing is written.
unfoldable pub skip_bytes : ℕ → Buffer → Buffer
unfolding stale_bytes
skip_bytes n b = record b { bytes = b.bytes ++ stale_bytes n (length b.bytes) b.stale }
