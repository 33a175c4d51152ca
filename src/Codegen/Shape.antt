-- ===== src/Codegen/Shape.antt =====
-- src/codegen.c: sizing gives places to variables, and changes nothing that a length depends on.
use rvcc.Prelude.{
  ℕ, zero, suc, ◌+◌, ◌-◌, ◌≡◌, refl, sym, ap, ◌∙◌, subst, Option, none, some, List, [], ◌∷◌, arith,
  length, set,
}
use rvcc.Result.{Result, ok, ◌>>=◌, >>=-eq-ok}
use rvcc.Word.{add32}
use rvcc.Il.{CString}
use rvcc.Tables.{
  VariableDef, FunctionDef, BlockDef, Tables, size_variable, at_index, in_range, function_name_of,
}
use rvcc.Tables.Shape.{
  SameShape, SameShape-refl, SameShape-trans, function_shapes, block_shapes-set,
}
use rvcc.Buffer.{◌>>◌, e_write_byte, e_write_string}
use rvcc.Buffer.Writes.{ok_injective}
use rvcc.Elf.Defs.{Sections, strncpy_bytes, symbol_entry, e_add_symbol}
use rvcc.Codegen.Sizing.{
  place_variables, frame_size, c_size_function, root_offset, size_locals, c_size_block,
  size_functions, size_blocks, place_globals, c_size_functions,
}

in_range-ok {ℓ} : {A : Type ℓ} (o : Option A) {a : A} → in_range o ≡ ok a → o ≡ some a
in_range-ok none h = cc
in_range-ok (some b) h = ap some (ok_injective h)

-- Placing gives each variable a place: none is lost.
pub length-place_variables :
    (t : Tables) (base size total : ℕ) (vars placed : List VariableDef)
    → place_variables t base size vars ≡ ok (placed, total)
    → length placed ≡ length vars
unfolding place_variables
length-place_variables t base size total [] placed h = ground arith
length-place_variables t base size total (v ∷ vars) placed h =
    let (vs, h₁, h₂) = >>=-eq-ok (size_variable v t) _ h in
    let (r, h₃, h₄) = >>=-eq-ok (place_variables t base (add32 size vs) vars) _ h₂ in
    let ih = length-place_variables t base (add32 size vs) r.1 vars r.0 h₃ in
    omega (arith, ap (λ (p : List VariableDef × ℕ). length p.0) (ok_injective h₄), ih)

shape-c_size_function :
    (t : Tables) (fn fn' : FunctionDef)
    → c_size_function t fn ≡ ok fn'
    → (function_name_of fn ≡ function_name_of fn') × (length fn.param_defs ≡ length fn'.param_defs)
unfolding c_size_function
shape-c_size_function t fn fn' h =
    let (r, h₁, h₂) = >>=-eq-ok (place_variables t 0 0 fn.param_defs) _ h in
    let (size, h₃, h₄) = >>=-eq-ok (frame_size r.1) _ h₂ in
    let l = length-place_variables t 0 0 r.1 fn.param_defs r.0 h₁ in
    let e = ok_injective h₄ in
    (ap function_name_of e, omega (arith, ap (λ (f : FunctionDef). length f.param_defs) e, l))

shapes-size_functions :
    (t : Tables) (fns fns' : List FunctionDef)
    → size_functions t fns ≡ ok fns'
    → function_shapes fns ≡ function_shapes fns'
unfolding size_functions
shapes-size_functions t [] fns' h = ap function_shapes (ok_injective h)
shapes-size_functions t (fn ∷ fns) fns' h =
    let (fn', h₁, h₂) = >>=-eq-ok (c_size_function t fn) _ h in
    let (rest, h₃, h₄) = >>=-eq-ok (size_functions t fns) _ h₂ in
    let (n, l) = shape-c_size_function t fn fn' h₁ in
    let ih = shapes-size_functions t fns rest h₃ in cc (ap function_shapes (ok_injective h₄))

-- What sizing leaves alone.
pub record Sized (t t' : Tables) : Type 0 where
  pub shape : SameShape t t'
  pub il : t'.il ≡ t.il
  pub types : t'.types ≡ t.types

Sized-refl : (t : Tables) → Sized t t
Sized-refl t = record { shape = SameShape-refl t; il = refl; types = refl }

Sized-trans : {t u v : Tables} → Sized t u → Sized u v → Sized t v
Sized-trans p q = record {
  shape = SameShape-trans p.shape q.shape;
  il = q.il ∙ p.il;
  types = q.types ∙ p.types;
}

Sized-set_block :
    (t : Tables) (b : ℕ) (bd bd' : BlockDef)
    → at_index t.blocks b ≡ ok bd
    → length bd'.locals ≡ length bd.locals
    → Sized t (record t { blocks = set t.blocks b bd' })
Sized-set_block t b bd bd' h e = record {
  shape = record {
    functions = refl;
    blocks = block_shapes-set t.blocks b bd bd' (in_range-ok _ h) e;
  };
  il = refl;
  types = refl;
}

Sized-size_locals :
    (b offset : ℕ) (t : Tables) (r : ℕ × Tables) → size_locals b offset t ≡ ok r → Sized t r.1
unfolding size_locals
Sized-size_locals b offset t r h =
    let (bd, h₁, h₂) = >>=-eq-ok (at_index t.blocks b) _ h in
    let (p, h₃, h₄) = >>=-eq-ok (place_variables t offset 0 bd.locals) _ h₂ in
    let (size, h₅, h₆) = >>=-eq-ok (frame_size p.1) _ h₄ in
    let l = length-place_variables t offset 0 p.1 bd.locals p.0 h₃ in
    subst (λ (x : ℕ × Tables). Sized t x.1) (ok_injective h₆) (Sized-set_block t b bd _ h₁ l)

Sized-root :
    (t : Tables) (function : Option ℕ) (q : ℕ × Tables)
    → (do start ← root_offset t function; ok (start, t)) ≡ ok q
    → Sized t q.1
Sized-root t function q h =
    let (start, h₁, h₂) = >>=-eq-ok (root_offset t function) _ h in
    subst (λ (x : ℕ × Tables). Sized t x.1) (ok_injective h₂) (Sized-refl t)

-- The tables at which a block's own locals are sized, where its parents keep `Sized`.
Sized-outer :
    (rec : ℕ → Result (ℕ × Tables)) (t : Tables)
    → ((p : ℕ) (q : ℕ × Tables) → rec p ≡ ok q → Sized t q.1)
    → (parent function : Option ℕ) (q : ℕ × Tables)
    → (elim parent [ none ↦ (do start ← root_offset t function; ok (start, t)) | some p ↦ rec p ])
      ≡ ok q
    → Sized t q.1
Sized-outer rec t ih none function q h = Sized-root t function q h
Sized-outer rec t ih (some p) function q h = ih p q h

-- Sizing a block sizes those around it again, and keeps all that a length depends on.
Sized-c_size_block :
    (fuel b : ℕ) (t : Tables) (r : ℕ × Tables) → c_size_block fuel b t ≡ ok r → Sized t r.1
unfolding c_size_block
Sized-c_size_block zero b t r h = cc
Sized-c_size_block (suc fuel) b t r h =
    let (bd, h₁, h₂) = >>=-eq-ok (at_index t.blocks b) _ h in
    let (q, h₃, h₄) = >>=-eq-ok {X = ℕ × Tables} _ (λ q. size_locals b q.0 q.1) h₂ in
    Sized-trans
      (Sized-outer (λ p. c_size_block fuel p t) t (λ p q. Sized-c_size_block fuel p t q) bd.parent
        bd.function q h₃)
      (Sized-size_locals b q.0 q.1 r h₄)

Sized-size_blocks :
    (count first : ℕ) (t t' : Tables) → size_blocks count first t ≡ ok t' → Sized t t'
unfolding size_blocks
Sized-size_blocks zero first t t' h = subst (Sized t) (ok_injective h) (Sized-refl t)
Sized-size_blocks (suc count) first t t' h =
    let (q, h₁, h₂) = >>=-eq-ok (c_size_block (suc (length t.blocks)) first t) _ h in
    Sized-trans (Sized-c_size_block _ first t q h₁) (Sized-size_blocks count (first + 1) q.1 t' h₂)

-- A symbol leaves the code section alone.
pub code-e_add_symbol :
    (name : CString) (len pc : ℕ) (s s' : Sections)
    → e_add_symbol name len pc s ≡ ok s'
    → s'.code ≡ s.code
unfolding e_add_symbol
code-e_add_symbol name len pc s s' h =
    let (symtab, h₁, h₂) = >>=-eq-ok (symbol_entry (length s.strtab.bytes) pc s.symtab) _ h in
    let (strtab, h₃, h₄) =
      >>=-eq-ok ((e_write_string (strncpy_bytes len name) >> e_write_byte 0) s.strtab) _ h₂ in
    ap (λ (x : Sections). x.code) (sym (ok_injective h₄))

code-place_globals :
    (t : Tables) (data_start : ℕ) (vars : List VariableDef) (s : Sections)
    (r : List VariableDef × Sections)
    → place_globals t data_start vars s ≡ ok r
    → (r.1.code ≡ s.code) × (length r.0 ≡ length vars)
unfolding place_globals
code-place_globals t data_start [] s r h = (
  ap (λ (x : List VariableDef × Sections). x.1.code) (sym (ok_injective h)),
  ap (λ (x : List VariableDef × Sections). length x.0) (sym (ok_injective h)),
)
code-place_globals t data_start (v ∷ vars) s r h =
    let (s', h₁, h₂) = >>=-eq-ok (e_add_symbol v.variable_name _ _ s) _ h in
    let (vs, h₃, h₄) = >>=-eq-ok (size_variable v t) _ h₂ in
    let (q, h₅, h₆) = >>=-eq-ok (place_globals t data_start vars _) _ h₄ in
    let ih = code-place_globals t data_start vars _ q h₅ in
    let e = ok_injective h₆ in
    (
      ap (λ (x : List VariableDef × Sections). x.1.code) (sym e)
          ∙ (ih.0 ∙ code-e_add_symbol v.variable_name _ _ s s' h₁),
      omega (arith, ap (λ (x : List VariableDef × Sections). length x.0) e, ih.1),
    )

-- Where c_size_functions ends well, it has changed no instruction, no byte of the code, no type,
-- no name or number of parameters of a function and no number of locals of a block.
pub Sized-c_size_functions :
    (data_start : ℕ) (t : Tables) (s : Sections) (r : Tables × Sections)
    → c_size_functions data_start t s ≡ ok r
    → Sized t r.0 × (r.1.code ≡ s.code)
unfolding c_size_functions
Sized-c_size_functions data_start t s r h =
    let (fns, h₁, h₂) = >>=-eq-ok (size_functions t t.functions) _ h in
    let (t', h₃, h₄) =
      >>=-eq-ok (size_blocks (length t.blocks - 1) 1 (record t { functions = fns })) _ h₂ in
    let (bd, h₅, h₆) = >>=-eq-ok (at_index t'.blocks 0) _ h₄ in
    let (q, h₇, h₈) = >>=-eq-ok (place_globals t' data_start bd.locals s) _ h₆ in
    let (c, l) = code-place_globals t' data_start bd.locals s q h₇ in
    let e = ok_injective h₈ in
    let named : Sized t (record t { functions = fns }) = record {
      shape = record { functions = shapes-size_functions t t.functions fns h₁; blocks = refl };
      il = refl;
      types = refl;
    } in
    (
      subst (λ (x : Tables × Sections). Sized t x.0) e
          (Sized-trans (Sized-trans named (Sized-size_blocks _ 1 _ t' h₃))
            (Sized-set_block t' 0 bd _ h₅ l)),
      ap (λ (x : Tables × Sections). x.1.code) (sym e) ∙ c,
    )
