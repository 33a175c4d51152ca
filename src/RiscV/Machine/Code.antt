-- ===== src/RiscV/Machine/Code.antt =====
-- Emitted code in the memory of a machine: from the bytes that a backend operation writes to the
-- instructions that the machine runs.
use rvcc.Prelude.{
  ℕ, ◌+◌, ◌*◌, ◌/◌, ◌%◌, ◌^◌, ◌≤◌, ◌≡◌, refl, ap, ◌∙◌, subst, some, List, [], ◌∷◌, ◌++◌, arith,
  length, drop, drop-length,
}
use rvcc.Result.{Result, ok}
use rvcc.Word.{IsWord, word_mod, add32}
use rvcc.Buffer.{Buffer, Emit, ◌>>◌, c_emit}
use rvcc.Buffer.Writes.{Appended, Appended-trans, le_bytes, Writes-c_emit}
use rvcc.Result.{>>=-eq-ok}
use rvcc.RiscV.Isa.{Instr, decode}
use rvcc.RiscV.Decode.Fields.{EncodesTo}
use rvcc.RiscV.Machine.{Machine, word_at, exec, exec_decoded, step}

-- The memory holds these bytes from address `a` on.
abbrev pub Loaded : (ℕ → ℕ) → ℕ → List ℕ → Type 0
Loaded mem a [] = Unit
Loaded mem a (b ∷ bs) = (mem a ≡ b) × Loaded mem (a + 1) bs

-- The memory holds these instructions from address `a` on.
abbrev pub Code : (ℕ → ℕ) → ℕ → List Instr → Type 0
Code mem a [] = Unit
Code mem a (i ∷ is) = (decode (word_at mem a) ≡ some i) × Code mem (a + 4) is

-- The bytes `ws` are the words of these instructions.
pub data Listing : List Instr → List ℕ → Type 0 where
  end : Listing [] []
  instr :
      {i : Instr} {is : List Instr} {ws : List ℕ} (w : ℕ)
      → IsWord w
      → decode w ≡ some i
      → Listing is ws
      → Listing (i ∷ is) (le_bytes w ++ ws)

-- Where `m` ends well it has appended these instructions.
abbrev pub Assembles : List Instr → Emit → Type 0
Assembles is m = (b b' : Buffer) → m b ≡ ok b' → (ws : List ℕ) × Appended ws b b' × Listing is ws

pub Listing-append :
    {is js : List Instr} {ws vs : List ℕ}
    → Listing is ws
    → Listing js vs
    → Listing (is ++ js) (ws ++ vs)
Listing-append end q = q
Listing-append (instr w h d p) q = instr w h d (Listing-append p q)

pub Assembles->> :
    {is js : List Instr} {m n : Emit}
    → Assembles is m
    → Assembles js n
    → Assembles (is ++ js) (m >> n)
Assembles->> {m = m} {n = n} p q b b'' h =
    let (b', h₁, h₂) = >>=-eq-ok (m b) n h in
    let (ws, a₁, l₁) = p b b' h₁ in
    let (vs, a₂, l₂) = q b' b'' h₂ in (ws ++ vs, Appended-trans a₁ a₂, Listing-append l₁ l₂)

pub Assembles-c_emit : {r : Result ℕ} {i : Instr} → EncodesTo r i → Assembles (i ∷ []) (c_emit r)
Assembles-c_emit (w, e, h, d) b b' p = (le_bytes w, Writes-c_emit w e b b' p, instr w h d end)

pub word_at-le_bytes :
    (mem : ℕ → ℕ) (a w : ℕ)
    → IsWord w
    → a + 4 ≤ word_mod
    → Loaded mem a (le_bytes w)
    → word_at mem a ≡ w
word_at-le_bytes mem a w h fits (p, (q, (r, (s, _)))) =
    let e₁ : mem (add32 a 1) ≡ w / 2 ^ 8 % 256 = ap mem (omega arith) ∙ q in
    let e₂ : mem (add32 a 2) ≡ w / 2 ^ 16 % 256 = ap mem (omega arith) ∙ r in
    let e₃ : mem (add32 a 3) ≡ w / 2 ^ 24 % 256 = ap mem (omega arith) ∙ s in
    omega (arith, p, e₁, e₂, e₃)

-- Words in memory are the instructions that they decode to.
pub Listing-Code :
    {is : List Instr} {ws : List ℕ} (mem : ℕ → ℕ) (a : ℕ)
    → Listing is ws
    → a + length ws ≤ word_mod
    → Loaded mem a ws
    → Code mem a is
Listing-Code mem a end fits l = tt
Listing-Code mem a (instr {ws = ws} w h d p) fits (l₀, (l₁, (l₂, (l₃, l)))) =
    let there : Loaded mem (a + 4) ws = subst (λ b. Loaded mem b ws) (omega arith) l in
    (
      ap decode (word_at-le_bytes mem a w h (omega arith) (l₀, (l₁, (l₂, (l₃, tt))))) ∙ d,
      Listing-Code mem (a + 4) p (omega arith) there,
    )

-- What an operation has appended to a buffer.
abbrev pub appended : Buffer → Buffer → List ℕ
appended b b' = drop (length b.bytes) b'.bytes

-- An operation ends well and the memory holds, from the program counter on, what it has written.
pub record Holds (m : Emit) (machine : Machine) : Type 0 where
  pub before : Buffer
  pub after : Buffer
  pub emitted : m before ≡ ok after
  pub loaded : Loaded machine.mem machine.pc (appended before after)
  pub fits : machine.pc + length (appended before after) ≤ word_mod

pub Holds-Code :
    {is : List Instr} {m : Emit} (machine : Machine)
    → Assembles is m
    → Holds m machine
    → Code machine.mem machine.pc is
Holds-Code machine p h =
    let (ws, a, l) = p h.before h.after h.emitted in
    let e : appended h.before h.after ≡ ws =
      ap (drop (length h.before.bytes)) a.bytes ∙ drop-length h.before.bytes ws in
    Listing-Code machine.mem machine.pc l (subst (λ x. machine.pc + length x ≤ word_mod) e h.fits)
      (subst (Loaded machine.mem machine.pc) e h.loaded)

pub length-Listing : {is : List Instr} {ws : List ℕ} → Listing is ws → length ws ≡ 4 * length is
length-Listing end = refl
length-Listing (instr w h d p) = omega (arith, length-Listing p)

-- The code of an operation ends below 2 ^ 32.
pub Holds-fits :
    {is : List Instr} {m : Emit} (machine : Machine)
    → Assembles is m
    → Holds m machine
    → machine.pc + 4 * length is ≤ word_mod
Holds-fits machine p h =
    let (ws, a, l) = p h.before h.after h.emitted in
    let e : appended h.before h.after ≡ ws =
      ap (drop (length h.before.bytes)) a.bytes ∙ drop-length h.before.bytes ws in
    omega (arith, length-Listing l, ap length e, h.fits)

-- Some number of steps leads from one machine to another.
pub data Runs (m : Machine) : Machine → Type 0 where
  here : Runs m m
  then : {m₁ m₂ : Machine} → Runs m m₁ → step m₁ ≡ some m₂ → Runs m m₂

-- One more step, by the instruction at the program counter.
pub Runs-step :
    {m m₁ m₂ : Machine} (i : Instr) (a : ℕ)
    → Runs m m₁
    → m₁.pc ≡ a
    → decode (word_at m₁.mem a) ≡ some i
    → exec i m₁ ≡ some m₂
    → Runs m m₂
unfolding step
Runs-step {m₁ = m₁} i a r at d e =
    then r (ap (λ o. exec_decoded o m₁) (ap (λ p. decode (word_at m₁.mem p)) at ∙ d) ∙ e)
