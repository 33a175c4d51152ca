-- ===== src/Backend/Sizes.antt =====
-- The bytes that sequences of instructions take, for the laws of both backends.
use mathlib.Core.Path.{subst}
use rvcc.Prelude.{
  ℕ, ◌+◌, ◌*◌, ◌≡◌, refl, sym, Bool, true, false, Option, none, some, ltb, ◌==◌, if◌then◌else◌,
  length,
}
use rvcc.Result.{Result, ok, ◌>>=◌, Error}
use rvcc.Il.{CString, IlInstr}
use rvcc.Tables.{FunctionDef, BlockDef, Tables, find_function, in_range, not_null}
use rvcc.Tables.Shape.{SameShape, option_map, function_shape, local_count, find_function-SameShape}
use rvcc.Buffer.{Emit, ◌>>◌, fail, c_emit}
use rvcc.Buffer.Writes.{Emits, Emits->>, Emits-c_emit, Emits-fail, ok_injective}

-- The length that was promised is the length that was shown.
pub exact : {k n : ℕ} {m : Emit} → Emits k m → ok k ≡ ok n → Emits n m
exact {m = m} p h = subst (λ l. Emits l m) (ok_injective h) p

pub Emits-if :
    {n : ℕ} {m m' : Emit} (b : Bool)
    → (b ≡ true → Emits n m)
    → (b ≡ false → Emits n m')
    → Emits n (if b then m else m')
Emits-if true p q = p refl
Emits-if false p q = q refl

pub one : (r : Result ℕ) → Emits 4 (c_emit r)
one r = Emits-c_emit r

pub two : (r s : Result ℕ) → Emits 8 (c_emit r >> c_emit s)
two r s = Emits->> (one r) (one s)

pub three : (r s u : Result ℕ) → Emits 12 (c_emit r >> (c_emit s >> c_emit u))
three r s u = Emits->> (one r) (two s u)

pub four : (r s u v : Result ℕ) → Emits 16 (c_emit r >> (c_emit s >> (c_emit u >> c_emit v)))
four r s u v = Emits->> (one r) (three s u v)

pub word_access-Emits :
    (len n : ℕ) (r s : Result ℕ)
    → ok 4 ≡ ok n
    → Emits n (
        if len == 4
        then c_emit r
        else if len == 1
        then c_emit s
        else fail Error.unsupported_word_size)
word_access-Emits len n r s h =
    Emits-if (len == 4) (λ _. exact (one r) h)
      (λ _. Emits-if (len == 1) (λ _. exact (one s) h) (λ _. Emits-fail n _))

abbrev pub entry_bytes : Option FunctionDef → Result ℕ
entry_bytes o = do fn ← not_null o; ok (16 + length fn.param_defs * 4)

abbrev pub block_bytes : Option BlockDef → Result ℕ
block_bytes o = do bd ← in_range o; ok (if ltb 0 (length bd.locals) then 4 else 0)

entry_bytes-shape :
    (o o' : Option FunctionDef)
    → option_map function_shape o ≡ option_map function_shape o'
    → entry_bytes o ≡ entry_bytes o'
entry_bytes-shape none none h = refl
entry_bytes-shape none (some f) h = cc
entry_bytes-shape (some f) none h = cc
entry_bytes-shape (some f) (some g) h =
    let e : length f.param_defs ≡ length g.param_defs = cc in rw e

pub block_bytes-shape :
    (o o' : Option BlockDef)
    → option_map local_count o ≡ option_map local_count o'
    → block_bytes o ≡ block_bytes o'
block_bytes-shape none none h = refl
block_bytes-shape none (some b) h = cc
block_bytes-shape (some b) none h = cc
block_bytes-shape (some b) (some c) h = let e : length b.locals ≡ length c.locals = cc in rw e

abbrev pub named_entry_bytes : Option CString → Tables → Result ℕ
named_entry_bytes o t = do name ← not_null o; entry_bytes (find_function name t)

pub named_entry_bytes-SameShape :
    (o : Option CString) (t t' : Tables)
    → SameShape t t'
    → named_entry_bytes o t ≡ named_entry_bytes o t'
named_entry_bytes-SameShape none t t' same = refl
named_entry_bytes-SameShape (some name) t t' same =
    entry_bytes-shape _ _ (find_function-SameShape same name)

pub entry_length_lem :
    (t : Tables) (ii : IlInstr) (n : ℕ) (name : CString) (fn : FunctionDef)
    → ii.string_param1 ≡ some name
    → find_function name t ≡ some fn
    → named_entry_bytes ii.string_param1 t ≡ ok n
    → n ≡ 16 + length fn.param_defs * 4
entry_length_lem t ii n name fn e f h =
    let a : entry_bytes (find_function name t) ≡ ok n =
      subst (λ o. named_entry_bytes o t ≡ ok n) e h in
    let b : entry_bytes (some fn) ≡ ok n = subst (λ o. entry_bytes o ≡ ok n) f a in
    sym (ok_injective b)

-- An instruction at an end of a block stands there exactly where the length counts it.
pub block-Emits :
    (m : ℕ → Emit)
    → ((len : ℕ) → Emits 4 (m len))
    → (bd : BlockDef) (o : Option BlockDef) (n : ℕ) → in_range o ≡ ok bd
    → block_bytes o ≡ ok n
    → ((len : ℕ) → ltb 0 (length bd.locals) ≡ true → Emits n (m len))
      × (ltb 0 (length bd.locals) ≡ false → n ≡ 0)
block-Emits m each bd o n e h =
    let l : ok (if ltb 0 (length bd.locals) then 4 else 0) ≡ ok n =
      subst (λ r. (r >>= λ b. ok (if ltb 0 (length b.locals) then 4 else 0)) ≡ ok n) e h in
    (λ len full. exact (each len) (rw full at l), λ empty. sym (ok_injective (rw empty at l)))
