-- ===== src/Tables/Shape.antt =====
-- What the lengths of instructions depend on: the names and the numbers of parameters of the
-- functions, and the numbers of locals of the blocks.
use rvcc.Prelude.{
  ℕ, zero, suc, ◌≡◌, refl, sym, ap, ◌∙◌, Option, none, some, List, [], ◌∷◌, arith, inl, inr,
  Bool-cases, length, get_elem?, set,
}
use rvcc.Il.{CString, same_string}
use rvcc.Tables.{FunctionDef, BlockDef, Tables, find_by, find_function, function_name_of}

abbrev pub function_shapes : List FunctionDef → List (CString × ℕ)
function_shapes [] = []
function_shapes (fn ∷ fns) = (function_name_of fn, length fn.param_defs) ∷ function_shapes fns

abbrev pub block_shapes : List BlockDef → List ℕ
block_shapes [] = []
block_shapes (bd ∷ bds) = length bd.locals ∷ block_shapes bds

pub record SameShape (t t' : Tables) : Type 0 where
  pub functions : function_shapes t.functions ≡ function_shapes t'.functions
  pub blocks : block_shapes t.blocks ≡ block_shapes t'.blocks

pub SameShape-refl : (t : Tables) → SameShape t t
SameShape-refl t = record { functions = refl; blocks = refl }

pub SameShape-trans : {t u v : Tables} → SameShape t u → SameShape u v → SameShape t v
SameShape-trans p q = record { functions = p.functions ∙ q.functions; blocks = p.blocks ∙ q.blocks }

abbrev pub option_map {ℓ κ} : {A : Type ℓ} {B : Type κ} → (A → B) → Option A → Option B
option_map f none = none
option_map f (some a) = some (f a)

abbrev pub local_count : BlockDef → ℕ
local_count bd = length bd.locals

abbrev pub function_shape : FunctionDef → CString × ℕ
function_shape fn = (function_name_of fn, length fn.param_defs)

find_by-shapes :
    (name : CString) (fns : List FunctionDef)
    → find_by (λ (p : CString × ℕ). p.0) name (function_shapes fns)
      ≡ option_map function_shape (find_by function_name_of name fns)
unfolding find_by
find_by-shapes name [] = refl
find_by-shapes name (fn ∷ fns) = elim (Bool-cases (same_string (function_name_of fn) name)) [
  | inl e ↦ rw e
  | inr e ↦ rw e (find_by-shapes name fns)
]

get_elem?-shapes :
    (bds : List BlockDef) (i : ℕ)
    → get_elem? (block_shapes bds) i ≡ option_map local_count (get_elem? bds i)
get_elem?-shapes [] i = refl
get_elem?-shapes (bd ∷ bds) zero = refl
get_elem?-shapes (bd ∷ bds) (suc i) = get_elem?-shapes bds i

module _ {t t' : Tables} (same : SameShape t t') where
  -- The same function is found, with as many parameters.
  pub find_function-SameShape :
      (name : CString)
      → option_map function_shape (find_function name t)
        ≡ option_map function_shape (find_function name t')
  unfolding find_function
  find_function-SameShape name =
      sym (find_by-shapes name t.functions)
      ∙ (ap (find_by (λ (p : CString × ℕ). p.0) name) same.functions
          ∙ find_by-shapes name t'.functions)

  -- The same block has as many locals.
  pub block-SameShape :
      (i : ℕ)
      → option_map local_count (get_elem? t.blocks i)
        ≡ option_map local_count (get_elem? t'.blocks i)
  block-SameShape i =
      sym (get_elem?-shapes t.blocks i)
      ∙ (ap (λ (l : List ℕ). get_elem? l i) same.blocks ∙ get_elem?-shapes t'.blocks i)

-- An entry replaced by one with as many locals leaves the shapes alone.
pub block_shapes-set :
    (bds : List BlockDef) (i : ℕ) (bd bd' : BlockDef)
    → get_elem? bds i ≡ some bd
    → length bd'.locals ≡ length bd.locals
    → block_shapes bds ≡ block_shapes (set bds i bd')
block_shapes-set [] i bd bd' h e = refl
block_shapes-set (b ∷ bds) zero bd bd' h e = ground arith
block_shapes-set (b ∷ bds) (suc i) bd bd' h e =
    ap (λ l. length b.locals ∷ l) (block_shapes-set bds i bd bd' h e)
