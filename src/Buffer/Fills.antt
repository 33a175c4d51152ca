-- ===== src/Buffer/Fills.antt =====
-- Programs that write a fixed list of bytes: with room for it they append it, and without room they
-- stop at the end of the array.
use rvcc.Prelude.{
  ℕ, ◌+◌, ◌%◌, ◌≤◌, ◌<◌, ◌⊎◌, inl, inr, ◌≡◌, sym, ap, ◌∙◌, subst, List, [], ◌∷◌, ◌++◌, append_assoc,
  append-nil, arith, length, length-append,
}
use rvcc.Result.{ok, err, ◌>>=◌, Error}
use rvcc.Buffer.Defs.{
  Buffer, Emit, ◌>>◌, pass, e_write_byte, e_extract_byte, e_write_int, e_write_string,
}
use rvcc.Buffer.Writes.{le_bytes, low_bytes, extracted-le_bytes}

abbrev pub append_to : Buffer → List ℕ → Buffer
append_to b ws = record b { bytes = b.bytes ++ ws }

-- With room for `ws`, `m` appends `ws` and ends well.
abbrev pub Fills : List ℕ → Emit → Type 0
Fills ws m = (b : Buffer) → length b.bytes + length ws ≤ b.cap → m b ≡ ok (append_to b ws)

append_to-append :
    (b : Buffer) (ws vs : List ℕ) → append_to (append_to b ws) vs ≡ append_to b (ws ++ vs)
append_to-append b ws vs = ap (λ t. record b { bytes = t }) (append_assoc b.bytes ws vs)

pub Fills->> : {ws vs : List ℕ} {m n : Emit} → Fills ws m → Fills vs n → Fills (ws ++ vs) (m >> n)
Fills->> {ws} {vs} {m} {n} p q b room =
    ap (λ r. r >>= n) (p b (omega (arith, room, length-append ws vs)))
    ∙ (q (append_to b ws) (omega (arith, room, length-append ws vs, length-append b.bytes ws))
        ∙ ap ok (append_to-append b ws vs))

-- Without room for `ws`, `m` runs into the end of the array.
abbrev pub Bursts : List ℕ → Emit → Type 0
Bursts ws m =
    (b : Buffer)
    → length b.bytes ≤ b.cap
    → b.cap < length b.bytes + length ws
    → m b ≡ err Error.out_of_bounds

pub record Exact (ws : List ℕ) (m : Emit) : Type 0 where
  pub fills : Fills ws m
  pub bursts : Bursts ws m

le_or_lt : (m n : ℕ) → (m ≤ n) ⊎ (n < m)
le_or_lt m n = omega arith

Bursts->> : {ws vs : List ℕ} {m n : Emit} → Exact ws m → Exact vs n → Bursts (ws ++ vs) (m >> n)
Bursts->> {ws} {vs} {m} {n} p q b fits burst = elim (le_or_lt (length b.bytes + length ws) b.cap) [
  | inl room ↦
      ap (λ r. r >>= n) (p.fills b room)
      ∙ q.bursts (append_to b ws) (omega (arith, room, length-append b.bytes ws))
          (omega (arith, burst, length-append ws vs, length-append b.bytes ws))
  | inr full ↦ ap (λ r. r >>= n) (p.bursts b fits full)
]

pub Exact->> : {ws vs : List ℕ} {m n : Emit} → Exact ws m → Exact vs n → Exact (ws ++ vs) (m >> n)
Exact->> p q = record { fills = Fills->> p.fills q.fills; bursts = Bursts->> p q }

pub Exact-e_write_byte : (v : ℕ) → Exact (v % 256 ∷ []) (e_write_byte v)
unfolding e_write_byte
Exact-e_write_byte v = record {
  fills = λ b room. ground arith;
  bursts = λ b fits burst. ground arith;
}

pub Exact-e_write_int : (w : ℕ) → Exact (le_bytes w) (e_write_int w)
unfolding e_write_int
Exact-e_write_int w =
    subst (λ ws. Exact ws (e_write_int w)) (extracted-le_bytes w)
      (Exact->>
        (Exact->>
          (Exact->> (Exact-e_write_byte (e_extract_byte w 0))
            (Exact-e_write_byte (e_extract_byte w 1)))
          (Exact-e_write_byte (e_extract_byte w 2)))
        (Exact-e_write_byte (e_extract_byte w 3)))

Exact-pass : Exact [] pass
Exact-pass = record {
  fills = λ b room. ap (λ t. ok (record b { bytes = t })) (sym (append-nil b.bytes));
  bursts = λ b fits burst. ground arith;
}

-- In a buffer with room for all of a string, e_write_string appends the low eight bits of each
-- of its characters and ends well. In a buffer that is within its array and has no room for all
-- of them, it runs into the end of the array.
pub Exact-e_write_string : (vals : List ℕ) → Exact (low_bytes vals) (e_write_string vals)
unfolding e_write_string
Exact-e_write_string [] = Exact-pass
Exact-e_write_string (v ∷ vals) = Exact->> (Exact-e_write_byte v) (Exact-e_write_string vals)

-- What was written into an empty buffer is what the buffer holds.
pub Bursts-empty :
    {ws : List ℕ} {m : Emit}
    → Exact ws m
    → (b : Buffer) → b.bytes ≡ []
    → b.cap < length ws
    → m b ≡ err Error.out_of_bounds
Bursts-empty p b empty full =
    p.bursts b (omega (arith, ap length empty)) (omega (arith, full, ap length empty))

pub Fills-empty :
    {ws : List ℕ} {m : Emit}
    → Exact ws m
    → (b : Buffer) → b.bytes ≡ []
    → length ws ≤ b.cap
    → m b ≡ ok (record b { bytes = ws })
Fills-empty {ws} p b empty room =
    p.fills b (omega (arith, room, ap length empty))
    ∙ ap (λ t. ok (record b { bytes = t ++ ws })) empty
