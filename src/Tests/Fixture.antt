-- ===== src/Tests/Fixture.antt =====
-- A machine whose memory starts with emitted code.
use rvcc.Prelude.{
  ℕ, ◌+◌, ◌≤◌, ◌≡◌, refl, subst, none, some, List, [], ◌∷◌, ◌++◌, append_assoc, arith, length,
  get_elem?, length-append,
}
use rvcc.Result.{Result, ok, err}
use rvcc.Buffer.{Buffer, Emit}
use rvcc.Backend.Defs.{BackendState}
use rvcc.RiscV.Machine.{Machine}
use rvcc.RiscV.Machine.Code.{Loaded, Holds}

abbrev pub empty_buffer : Buffer
empty_buffer = record { bytes = []; stale = λ i. 0; cap = 1024 }

abbrev pub result_of : Result Buffer → Buffer
result_of (ok b) = b
result_of (err e) = empty_buffer

abbrev pub written_by : Emit → Buffer
written_by m = result_of (m empty_buffer)

abbrev pub mem_of : List ℕ → ℕ → ℕ
mem_of ws a = elim (get_elem? ws a) [ none ↦ 0 | some b ↦ b ]

-- The machine with the code at address 0.
abbrev pub machine_of : Emit → (ℕ → ℕ) → Machine
machine_of m regs = record { reg = regs; mem = mem_of (written_by m).bytes; pc = 0 }

abbrev pub state_of : ℕ → ℕ → BackendState
state_of dest op = record {
  code_start = 0x10054;
  data_start = 64;
  dest_reg = dest;
  op_reg = op;
  pc = 0;
}

mem_of-behind : (pre ws : List ℕ) (b : ℕ) → mem_of (pre ++ b ∷ ws) (length pre) ≡ b
mem_of-behind [] ws b = refl
mem_of-behind (p ∷ pre) ws b = mem_of-behind pre ws b

Loaded-behind : (pre ws : List ℕ) → Loaded (mem_of (pre ++ ws)) (length pre) ws
Loaded-behind pre [] = tt
Loaded-behind pre (b ∷ ws) = (
  mem_of-behind pre ws b,
  (let whole = append_assoc pre (b ∷ []) ws in
      let longer : length (pre ++ b ∷ []) ≡ length pre + 1 = length-append pre (b ∷ []) in
      subst (λ a. Loaded (mem_of (pre ++ b ∷ ws)) a ws) longer
        (subst (λ l. Loaded (mem_of l) (length (pre ++ b ∷ [])) ws) whole
          (Loaded-behind (pre ++ b ∷ []) ws))),
)

pub holds :
    (m : Emit) (regs : ℕ → ℕ)
    → m empty_buffer ≡ ok (written_by m)
    → length (written_by m).bytes ≤ 1024
    → Holds m (machine_of m regs)
holds m regs e fits = record {
  before = empty_buffer;
  after = written_by m;
  emitted = e;
  loaded = Loaded-behind [] (written_by m).bytes;
  fits = omega (arith, fits);
}
