-- ===== src/Buffer/Writes.antt =====
-- What a program that writes into a buffer leaves there.
use mathlib.Core.Path.{subst}
use rvcc.Prelude.{
  ℕ, ◌+◌, ◌/◌, ◌%◌, ◌^◌, ◌≤◌, ◌≡◌, refl, sym, ap, ◌∙◌, List, [], ◌∷◌, ◌++◌, append_assoc,
  append-nil, arith, length, length-append,
}
use rvcc.Result.{Result, ok, err, >>=-eq-ok, Error}
use rvcc.Buffer.Defs.{
  Buffer, Emit, ◌>>◌, pass, fail, e_write_byte, e_extract_byte, e_write_int, e_write_string, c_emit,
}

-- From `b` to `b'` exactly the bytes `ws` were appended, within the array.
pub record Appended (ws : List ℕ) (b b' : Buffer) : Type 0 where
  pub bytes : b'.bytes ≡ b.bytes ++ ws
  pub stale : b'.stale ≡ b.stale
  pub cap : b'.cap ≡ b.cap
  pub fits : length b.bytes ≤ b.cap → length b'.bytes ≤ b'.cap

-- Where `m` ends well it has appended `ws`.
abbrev pub Writes : List ℕ → Emit → Type 0
Writes ws m = (b b' : Buffer) → m b ≡ ok b' → Appended ws b b'

-- Where `m` ends well it has appended `n` bytes.
abbrev pub Emits : ℕ → Emit → Type 0
Emits n m = (b b' : Buffer) → m b ≡ ok b' → (ws : List ℕ) × Appended ws b b' × (length ws ≡ n)

pub Appended-refl : (b : Buffer) → Appended [] b b
Appended-refl b = record { bytes = rw append-nil; stale = refl; cap = refl; fits = λ h. h }

pub Appended-trans :
    {ws vs : List ℕ} {b b' b'' : Buffer}
    → Appended ws b b'
    → Appended vs b' b''
    → Appended (ws ++ vs) b b''
Appended-trans {ws} {vs} {b} p q = record {
  bytes = q.bytes ∙ (ap (λ t. t ++ vs) p.bytes ∙ append_assoc b.bytes ws vs);
  stale = q.stale ∙ p.stale;
  cap = q.cap ∙ p.cap;
  fits = λ h. q.fits (p.fits h);
}

pub Writes->> :
    {ws vs : List ℕ} {m n : Emit} → Writes ws m → Writes vs n → Writes (ws ++ vs) (m >> n)
Writes->> {m = m} {n = n} p q b b'' h =
    let (b', h₁, h₂) = >>=-eq-ok (m b) n h in Appended-trans (p b b' h₁) (q b' b'' h₂)

pub Writes-Emits : {ws : List ℕ} {m : Emit} {n : ℕ} → length ws ≡ n → Writes ws m → Emits n m
Writes-Emits {ws = ws} e p b b' h = (ws, p b b' h, e)

pub Emits->> : {k l : ℕ} {m n : Emit} → Emits k m → Emits l n → Emits (k + l) (m >> n)
Emits->> {m = m} {n = n} p q b b'' h =
    let (b', h₁, h₂) = >>=-eq-ok (m b) n h in
    let (ws, a₁, e₁) = p b b' h₁ in
    let (vs, a₂, e₂) = q b' b'' h₂ in
    (ws ++ vs, Appended-trans a₁ a₂, omega (arith, length-append ws vs))

pub ok_injective {ℓ} : {A : Type ℓ} {a b : A} → ok a ≡ ok b → a ≡ b
ok_injective h = cc

pub Writes-pass : Writes [] pass
Writes-pass b b' h = subst (Appended [] b) (ok_injective h) (Appended-refl b)

pub Writes-fail : (ws : List ℕ) (e : Error) → Writes ws (fail e)
Writes-fail ws e b b' h = cc

pub Emits-fail : (n : ℕ) (e : Error) → Emits n (fail e)
Emits-fail n e b b' h = cc

-- `e_write_byte` keeps the low eight bits of the value.
pub Writes-e_write_byte : (v : ℕ) → Writes (v % 256 ∷ []) (e_write_byte v)
unfolding e_write_byte
Writes-e_write_byte v b b' h = ground (arith, length-append b.bytes (v % 256 ∷ []))

-- The four bytes of a word, the lowest first.
abbrev pub le_bytes : ℕ → List ℕ
le_bytes w = w % 256 ∷ w / 2 ^ 8 % 256 ∷ w / 2 ^ 16 % 256 ∷ w / 2 ^ 24 % 256 ∷ []

abbrev pub extracted : ℕ → List ℕ
extracted w =
    e_extract_byte w 0 % 256
    ∷ e_extract_byte w 1 % 256
    ∷ e_extract_byte w 2 % 256
    ∷ e_extract_byte w 3 % 256
    ∷ []

pub extracted-le_bytes : (w : ℕ) → extracted w ≡ le_bytes w
unfolding e_extract_byte
extracted-le_bytes w = ground arith

-- `e_write_int` writes the four bytes of the value, the lowest first.
pub Writes-e_write_int : (w : ℕ) → Writes (le_bytes w) (e_write_int w)
unfolding e_write_int
Writes-e_write_int w =
    subst (λ ws. Writes ws (e_write_int w)) (extracted-le_bytes w)
      (Writes->>
        (Writes->>
          (Writes->> (Writes-e_write_byte (e_extract_byte w 0))
            (Writes-e_write_byte (e_extract_byte w 1)))
          (Writes-e_write_byte (e_extract_byte w 2)))
        (Writes-e_write_byte (e_extract_byte w 3)))

pub Writes-c_emit : {r : Result ℕ} (w : ℕ) → r ≡ ok w → Writes (le_bytes w) (c_emit r)
unfolding c_emit
Writes-c_emit w e = subst (λ r. Writes (le_bytes w) (c_emit r)) (sym e) (Writes-e_write_int w)

-- An instruction takes four bytes, whatever it is.
pub Emits-c_emit : (r : Result ℕ) → Emits 4 (c_emit r)
unfolding c_emit
Emits-c_emit (ok w) = Writes-Emits refl (Writes-e_write_int w)
Emits-c_emit (err e) = λ b b' h. cc

abbrev pub low_bytes : List ℕ → List ℕ
low_bytes [] = []
low_bytes (v ∷ vals) = v % 256 ∷ low_bytes vals

pub Writes-e_write_string : (vals : List ℕ) → Writes (low_bytes vals) (e_write_string vals)
unfolding e_write_string
Writes-e_write_string [] = Writes-pass
Writes-e_write_string (v ∷ vals) = Writes->> (Writes-e_write_byte v) (Writes-e_write_string vals)

pub ruleset emits_rules = (Emits->>, Emits-c_emit, Emits-fail)

-- An append makes the buffer longer by what was appended.
pub length-Appended :
    {ws : List ℕ} {b b' : Buffer} → Appended ws b b' → length b'.bytes ≡ length b.bytes + length ws
length-Appended {ws} {b} a = ap length a.bytes ∙ length-append b.bytes ws
