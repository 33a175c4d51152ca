-- ===== src/Codegen/Growth.antt =====
-- src/codegen.c: one round of the main loop writes as many bytes as the first pass has counted.
use rvcc.Prelude.{
  ℕ, suc, ◌+◌, ◌*◌, ◌≡◌, refl, sym, ap, ◌∙◌, subst, true, false, Option, none, some, List, [], ◌∷◌,
  ◌++◌, arith, inl, inr, Bool-cases, ltb, length, length-append, ap₂,
}
use rvcc.Result.{Result, ok, err, ◌>>=◌, >>=-eq-ok}
use rvcc.Word.{IsWord, sub32}
use rvcc.Il.{CString, IlOp, IlInstr}
use rvcc.Tables.{
  VariableDef, FunctionDef, BlockDef, Tables, at_index, not_null, find_function,
  find_global_variable, find_local_variable,
}
use rvcc.Buffer.{Emit, ◌>>◌, c_emit}
use rvcc.Buffer.Writes.{
  Appended, Appended-refl, Appended-trans, Emits, Emits->>, Emits-c_emit, Writes-Emits, Writes-pass,
  ok_injective,
}
use rvcc.Elf.Defs.{e_add_symbol}
use rvcc.Backend.Defs.{BackendState, BackendDef}
use rvcc.Backend.Laws.{BackendLaws, Length}
use rvcc.Codegen.Shape.{code-e_add_symbol}
use rvcc.Codegen.Defs.{
  Gen, emit_code, store_params, called_function, add_code_symbol, gen_label, function_addr,
  local_addr, global_addr, jump_location, move_stack, gen_var_addr, offset_to, gen_block_start,
  gen_block_end, gen_entry_point, gen_op,
}

-- A round appends `n` bytes to the code and leaves the tables alone.
pub record Grown (n : ℕ) (g g' : Gen) : Type 0 where
  pub tables : g'.tables ≡ g.tables
  pub chunk : List ℕ
  pub code : Appended chunk g.sections.code g'.sections.code
  pub size : length chunk ≡ n

Grown-refl : (g : Gen) → Grown 0 g g
Grown-refl g = record {
  tables = refl;
  chunk = [];
  code = Appended-refl g.sections.code;
  size = refl;
}

Grown-trans : {k n : ℕ} {g g' g'' : Gen} → Grown k g g' → Grown n g' g'' → Grown (k + n) g g''
Grown-trans p q = record {
  tables = q.tables ∙ p.tables;
  chunk = p.chunk ++ q.chunk;
  code = Appended-trans p.code q.code;
  size = length-append p.chunk q.chunk ∙ ap₂ ◌+◌ p.size q.size;
}

-- Every way to end well grows the code by `n`.
abbrev pub Grows : ℕ → Gen → Result Gen → Type 0
Grows n g r = (g' : Gen) → r ≡ ok g' → Grown n g g'

Grows-emit_code : {n : ℕ} {m : Emit} (g : Gen) → Emits n m → Grows n g (emit_code m g)
unfolding emit_code
Grows-emit_code {m = m} g e g' h =
    let (code, h₁, h₂) = >>=-eq-ok (m g.sections.code) _ h in
    let (ws, a, l) = e g.sections.code code h₁ in
    let q = ok_injective h₂ in
    record {
      tables = ap (λ (x : Gen). x.tables) (sym q);
      chunk = ws;
      code = subst (λ (x : Gen). Appended ws g.sections.code x.sections.code) q a;
      size = l;
    }

Grows-bind {ℓ} :
    {A : Type ℓ} {n : ℕ} {g : Gen} (r : Result A) (f : A → Result Gen)
    → ((a : A) → r ≡ ok a → Grows n g (f a))
    → Grows n g (r >>= f)
Grows-bind (ok a) f k = k a refl
Grows-bind (err e) f k = λ g' h. cc

Grows-symbol :
    (name : CString) (state : BackendState) (g : Gen) → Grows 0 g (add_code_symbol name state g)
unfolding add_code_symbol
Grows-symbol name state g g' h =
    let (s, h₁, h₂) = >>=-eq-ok (e_add_symbol name _ _ g.sections) _ h in
    let q = ok_injective h₂ in
    subst (Grown 0 g) q (record {
      tables = refl;
      chunk = [];
      code =
          subst (Appended [] g.sections.code) (sym (code-e_add_symbol name _ _ g.sections s h₁))
            (Appended-refl g.sections.code);
      size = refl;
    })

Grows-label :
    (name : Option CString) (state : BackendState) (g : Gen) → Grows 0 g (gen_label name state g)
unfolding gen_label
Grows-label none state g g' h = subst (Grown 0 g) (ok_injective h) (Grown-refl g)
Grows-label (some name) state g g' h = elim (Bool-cases (ltb 0 (length name))) [
  | inl e ↦ Grows-symbol name state g g' (rw e at h)
  | inr e ↦ subst (Grown 0 g) (ok_injective (rw e at h)) (Grown-refl g)
]

Emits-store_params :
    (be : BackendDef) (laws : BackendLaws be) (pn : ℕ) (vars : List VariableDef)
    → Emits (length vars * laws.param_part) (store_params be pn vars)
unfolding store_params
Emits-store_params be laws pn [] = Writes-Emits (omega arith) Writes-pass
Emits-store_params be laws pn (v ∷ vars) =
    let e : laws.param_part + length vars * laws.param_part ≡ suc (length vars) * laws.param_part =
      grind arith in
    subst (λ n. Emits n (store_params be pn (v ∷ vars))) e
      (Emits->> (laws.param_part-Emits pn _) (Emits-store_params be laws (pn + 1) vars))

-- What follows a growth only sets fields that the growth does not speak of.
Grows-then :
    {n : ℕ} {g : Gen} (r : Result Gen) (f : Gen → Gen)
    → Grows n g r
    → ((x : Gen) → Grown n g x → Grown n g (f x))
    → Grows n g (r >>= λ x. ok (f x))
Grows-then {n} {g} (ok x) f p k g' h = subst (Grown n g) (ok_injective h) (k x (p x refl))
Grows-then (err e) f p k g' h = cc

not_null-ok {ℓ} : {A : Type ℓ} (o : Option A) (a : A) → not_null o ≡ ok a → o ≡ some a
not_null-ok none a h = cc
not_null-ok (some b) a h = ap some (ok_injective h)

-- A step that writes nothing, and then one that does.
Grows-after :
    {n : ℕ} {g : Gen} (r : Result Gen) (f : Gen → Result Gen)
    → Grows 0 g r
    → ((x : Gen) → Grows n x (f x))
    → Grows n g (r >>= f)
Grows-after {n} {g} (ok x) f p k =
    λ g' h. subst (λ m. Grown m g g') (omega arith) (Grown-trans (p x refl) (k x g' h))
Grows-after (err e) f p k = λ g' h. cc

called-found :
    (ii : IlInstr) (t : Tables) (name : CString) (fn : FunctionDef)
    → not_null ii.string_param1 ≡ ok name
    → called_function ii t ≡ ok fn
    → find_function name t ≡ some fn
unfolding called_function
called-found ii t name fn e h =
    not_null-ok _ _
      (subst (λ (r : Result CString). (r >>= λ s. not_null (find_function s t)) ≡ ok fn) e h)

same_growth :
    {n : ℕ} {g x : Gen} (b : Option ℕ) (s l : ℕ)
    → Grown n g x
    → Grown n g (record x { bd = b; stack_size = s; block_level = l })
same_growth b s l p = record { tables = p.tables; chunk = p.chunk; code = p.code; size = p.size }

module _ (be : BackendDef) (laws : BackendLaws be) where
  Grows-function_addr :
      (o : Option FunctionDef) (ii : IlInstr) (n : ℕ) (state : BackendState) (g : Gen)
      → Length be IlOp.get_var_addr g.tables ii n
      → Grows n g (function_addr be o state g)
  unfolding function_addr
  Grows-function_addr none ii n state g l = λ g' h. cc
  Grows-function_addr (some fn) ii n state g l =
      Grows-bind (jump_location g.tables fn.entry_point) _
        λ at _. Grows-emit_code g (laws.get_function_addr g.tables ii n state _ l)

  Grows-local_addr :
      (name : CString) (o : Option VariableDef) (ii : IlInstr) (n : ℕ) (state : BackendState)
      (g : Gen)
      → Length be IlOp.get_var_addr g.tables ii n
      → Grows n g (local_addr be name o state g)
  unfolding local_addr
  Grows-local_addr name (some var) ii n state g l =
      Grows-emit_code g (laws.get_local_addr g.tables ii n state _ l)
  Grows-local_addr name none ii n state g l =
      Grows-function_addr (find_function name g.tables) ii n state g l

  Grows-global_addr :
      (name : CString) (o : Option VariableDef) (ii : IlInstr) (n : ℕ) (state : BackendState)
      (g : Gen)
      → Length be IlOp.get_var_addr g.tables ii n
      → Grows n g (global_addr be name o state g)
  unfolding global_addr
  Grows-global_addr name (some var) ii n state g l =
      Grows-emit_code g (laws.get_global_addr g.tables ii n state _ l)
  Grows-global_addr name none ii n state g l =
      Grows-bind (find_local_variable name g.bd g.tables) _
        λ var _. Grows-local_addr name var ii n state g l

  Grows-move_stack :
      (bd : BlockDef) (len n : ℕ) (g : Gen)
      → ((len : ℕ) → ltb 0 (length bd.locals) ≡ true → Emits n (be.op_block len))
        × (ltb 0 (length bd.locals) ≡ false → n ≡ 0)
      → Grows n g (move_stack be bd len g)
  unfolding move_stack
  Grows-move_stack bd len n g (full, empty) g' h = elim (Bool-cases (ltb 0 (length bd.locals))) [
    | inl e ↦ Grows-emit_code g (full len e) g' (rw e at h)
    | inr e ↦
        subst (λ k. Grown k g g') (sym (empty e))
          (subst (Grown 0 g) (ok_injective (rw e at h)) (Grown-refl g))
  ]

  Grows-block_start :
      (ii : IlInstr) (n : ℕ) (g : Gen)
      → Length be IlOp.block_start g.tables ii n
      → Grows n g (gen_block_start be ii.int_param1 g)
  unfolding gen_block_start
  Grows-block_start ii n g l = Grows-bind (at_index g.tables.blocks ii.int_param1) _ λ bd e.
      Grows-then (move_stack be bd _ g) _
        (Grows-move_stack bd _ n g (laws.block_start g.tables ii n bd e l))
        λ x p. same_growth _ _ _ p

  Grows-block_end :
      (ii : IlInstr) (n : ℕ) (g : Gen)
      → Length be IlOp.block_end g.tables ii n
      → Grows n g (gen_block_end be ii.int_param1 g)
  unfolding gen_block_end
  Grows-block_end ii n g l = Grows-bind (at_index g.tables.blocks ii.int_param1) _ λ bd e.
      Grows-then (move_stack be bd _ g) _
        (Grows-move_stack bd _ n g (laws.block_end g.tables ii n bd e l)) λ x p. same_growth _ _ _ p

  -- The prologue: a symbol, the fixed part and a part for each parameter.
  Grows-prologue :
      (name : CString) (fn : FunctionDef) (state : BackendState) (g : Gen)
      → Grows (laws.fixed_part + length fn.param_defs * laws.param_part) g (do
        g' ← add_code_symbol name state g
        g'' ← emit_code (be.op_entry_point fn.params_size >> store_params be 0 fn.param_defs) g'
        ok (record g'' { stack_size = fn.params_size }))
  Grows-prologue name fn state g =
      Grows-after (add_code_symbol name state g) _ (Grows-symbol name state g) λ x.
        Grows-then (emit_code _ x) _
          (Grows-emit_code x (
            Emits->> (laws.fixed_part-Emits fn.params_size)
              (Emits-store_params be laws 0 fn.param_defs)))
          λ y p. same_growth y.bd fn.params_size y.block_level p

  Grows-entry_point :
      (ii : IlInstr) (n : ℕ) (state : BackendState) (g : Gen)
      → Length be IlOp.entry_point g.tables ii n
      → Grows n g (gen_entry_point be ii state g)
  unfolding gen_entry_point
  Grows-entry_point ii n state g l = Grows-bind (not_null ii.string_param1) _ λ name e.
      Grows-bind (called_function ii g.tables) _ λ fn found.
        subst
          (λ k. Grows k g (do
            g' ← add_code_symbol name state g
            g'' ← emit_code (be.op_entry_point fn.params_size >> store_params be 0 fn.param_defs) g'
            ok (record g'' { stack_size = fn.params_size })))
          (sym (
            laws.entry_point g.tables ii n name fn (not_null-ok _ _ e)
              (called-found ii g.tables name fn e found) l))
          (Grows-prologue name fn state g)

  simple_call :
      (r : Result FunctionDef) (at : FunctionDef → ℕ) (m : ℕ → Emit) (n : ℕ) (state : BackendState)
      (g : Gen)
      → ((ofs : ℕ) → Emits n (m ofs))
      → Grows n g (do fn ← r; ofs ← offset_to state g (at fn); emit_code (m ofs) g)
  simple_call r at m n state g e =
      Grows-bind r _
        λ fn _. Grows-bind (offset_to state g (at fn)) _ λ ofs _. Grows-emit_code g (e ofs)

  simple_jump :
      (m : ℕ → Emit) (i n : ℕ) (state : BackendState) (g : Gen)
      → ((ofs : ℕ) → Emits n (m ofs))
      → Grows n g (do ofs ← offset_to state g i; emit_code (m ofs) g)
  simple_jump m i n state g e =
      Grows-bind (offset_to state g i) _ λ ofs _. Grows-emit_code g (e ofs)

  -- Over a backend that obeys its laws, for an instruction whose register number is a C int and
  -- a state with its destination register: whatever the operation, a round of c_generate that
  -- ends well appends to the code as many bytes as c_get_code_length gives for the instruction,
  -- and leaves the tables alone.
  pub Grows-gen_op :
      (op : IlOp) (ii : IlInstr) (n : ℕ) (state : BackendState) (g : Gen)
      → IsWord ii.param_no
      → state.dest_reg ≡ be.c_dest_reg ii.param_no
      → Length be op g.tables ii n
      → Grows n g (gen_op be op ii state g)
  unfolding gen_op gen_var_addr find_global_variable
  Grows-gen_op IlOp.load_data_address ii n state g w d l =
      Grows-emit_code g (laws.load_data_address g.tables ii n state _ l)
  Grows-gen_op IlOp.load_numeric_constant ii n state g w d l =
      Grows-emit_code g (laws.load_numeric_constant g.tables ii n state l)
  Grows-gen_op IlOp.get_var_addr ii n state g w d l =
      Grows-bind (not_null ii.string_param1) _ λ name _.
        Grows-bind (find_global_variable name g.tables) _
          λ var _. Grows-global_addr name var ii n state g l
  Grows-gen_op IlOp.read_addr ii n state g w d l =
      Grows-emit_code g (laws.read_addr g.tables ii n state _ l)
  Grows-gen_op IlOp.write_addr ii n state g w d l =
      Grows-emit_code g (laws.write_addr g.tables ii n state _ l)
  Grows-gen_op IlOp.jump ii n state g w d l =
      simple_jump be.op_jump _ n state g λ ofs. laws.jump g.tables ii n ofs l
  Grows-gen_op IlOp.return ii n state g w d l =
      simple_call (called_function ii g.tables) (λ f. f.exit_point) be.op_return n state g
        λ ofs. laws.return g.tables ii n ofs l
  Grows-gen_op IlOp.function_call ii n state g w d l =
      simple_call (called_function ii g.tables) (λ f. f.entry_point) (be.op_function_call state) n
        state g λ ofs. laws.function_call g.tables ii n state ofs w d l
  Grows-gen_op IlOp.pointer_call ii n state g w d l =
      Grows-emit_code g (laws.pointer_call g.tables ii n state w d l)
  Grows-gen_op IlOp.push ii n state g w d l = Grows-emit_code g (laws.push g.tables ii n state l)
  Grows-gen_op IlOp.pop ii n state g w d l = Grows-emit_code g (laws.pop g.tables ii n state l)
  Grows-gen_op IlOp.exit_point ii n state g w d l =
      Grows-emit_code g (laws.exit_point g.tables ii n l)
  Grows-gen_op IlOp.label ii n state g w d l =
      subst (λ k. Grows k g (gen_label ii.string_param1 state g)) (sym (laws.label g.tables ii n l))
        (Grows-label ii.string_param1 state g)
  Grows-gen_op IlOp.jz ii n state g w d l =
      simple_jump (λ ofs. be.op_jz state IlOp.jz (sub32 ofs 4)) _ n state g
        λ ofs. laws.jz IlOp.jz g.tables ii n state _ tt l
  Grows-gen_op IlOp.jnz ii n state g w d l =
      simple_jump (λ ofs. be.op_jz state IlOp.jnz (sub32 ofs 4)) _ n state g
        λ ofs. laws.jz IlOp.jnz g.tables ii n state _ tt l
  Grows-gen_op IlOp.generic ii n state g w d l = Grows-emit_code g (
      subst (λ k. Emits k (c_emit (ok ii.int_param1))) (sym (laws.generic g.tables ii n l))
        (Emits-c_emit _))
  Grows-gen_op IlOp.block_start ii n state g w d l = Grows-block_start ii n g l
  Grows-gen_op IlOp.block_end ii n state g w d l = Grows-block_end ii n g l
  Grows-gen_op IlOp.entry_point ii n state g w d l = Grows-entry_point ii n state g l
  Grows-gen_op IlOp.start ii n state g w d l = Grows-emit_code g (laws.start g.tables ii n l)
  Grows-gen_op IlOp.syscall ii n state g w d l = Grows-emit_code g (laws.syscall g.tables ii n l)
  Grows-gen_op IlOp.exit ii n state g w d l = Grows-emit_code g (laws.exit g.tables ii n l)
  Grows-gen_op IlOp.add ii n state g w d l =
      Grows-emit_code g (laws.alu IlOp.add g.tables ii n state tt l)
  Grows-gen_op IlOp.sub ii n state g w d l =
      Grows-emit_code g (laws.alu IlOp.sub g.tables ii n state tt l)
  Grows-gen_op IlOp.mul ii n state g w d l =
      Grows-emit_code g (laws.alu IlOp.mul g.tables ii n state tt l)
  Grows-gen_op IlOp.negate ii n state g w d l =
      Grows-emit_code g (laws.alu IlOp.negate g.tables ii n state tt l)
  Grows-gen_op IlOp.equals ii n state g w d l =
      Grows-emit_code g (laws.cmp IlOp.equals g.tables ii n state tt l)
  Grows-gen_op IlOp.not_equals ii n state g w d l =
      Grows-emit_code g (laws.cmp IlOp.not_equals g.tables ii n state tt l)
  Grows-gen_op IlOp.less_than ii n state g w d l =
      Grows-emit_code g (laws.cmp IlOp.less_than g.tables ii n state tt l)
  Grows-gen_op IlOp.less_eq_than ii n state g w d l =
      Grows-emit_code g (laws.cmp IlOp.less_eq_than g.tables ii n state tt l)
  Grows-gen_op IlOp.greater_than ii n state g w d l =
      Grows-emit_code g (laws.cmp IlOp.greater_than g.tables ii n state tt l)
  Grows-gen_op IlOp.greater_eq_than ii n state g w d l =
      Grows-emit_code g (laws.cmp IlOp.greater_eq_than g.tables ii n state tt l)
  Grows-gen_op IlOp.log_and ii n state g w d l =
      Grows-emit_code g (laws.log IlOp.log_and g.tables ii n state tt l)
  Grows-gen_op IlOp.log_or ii n state g w d l =
      Grows-emit_code g (laws.log IlOp.log_or g.tables ii n state tt l)
  Grows-gen_op IlOp.bit_and ii n state g w d l =
      Grows-emit_code g (laws.bit IlOp.bit_and g.tables ii n state tt l)
  Grows-gen_op IlOp.bit_or ii n state g w d l =
      Grows-emit_code g (laws.bit IlOp.bit_or g.tables ii n state tt l)
  Grows-gen_op IlOp.bit_lshift ii n state g w d l =
      Grows-emit_code g (laws.bit IlOp.bit_lshift g.tables ii n state tt l)
  Grows-gen_op IlOp.bit_rshift ii n state g w d l =
      Grows-emit_code g (laws.bit IlOp.bit_rshift g.tables ii n state tt l)
  Grows-gen_op IlOp.not ii n state g w d l =
      Grows-emit_code g (laws.bit IlOp.not g.tables ii n state tt l)
