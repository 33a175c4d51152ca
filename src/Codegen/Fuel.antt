-- ===== src/Codegen/Fuel.antt =====
-- c_size_block: the fuel of its recursion is enough.
use rvcc.Prelude.{
  ℕ, zero, suc, ◌<◌, ◌≡◌, ◌≢◌, refl, ap, subst, Option, none, some, List, [], ◌∷◌, arith, get_elem?,
}
use rvcc.Result.{Result, ok, err, ◌>>=◌, Error}
use rvcc.Word.{add32, slt32}
use rvcc.Ends.{Ends, Ends->>=, any-if}
use rvcc.Tables.{
  VariableDef, BlockDef, Tables, size_variable, at_index, in_range, not_null, find_type,
}
use rvcc.Codegen.Sizing.{
  place_variables, frame_size, align_16, c_size_block, root_offset, size_locals,
}

-- The parent of every block stands before it, as add_block is called.
abbrev pub ParentsFirst : Tables → Type 0
ParentsFirst t =
    (b p : ℕ) (bd : BlockDef) → get_elem? t.blocks b ≡ some bd → bd.parent ≡ some p → p < b

abbrev outer : (ℕ → Result (ℕ × Tables)) → Tables → Option ℕ → Option ℕ → Result (ℕ × Tables)
outer rec t f none = root_offset t f >>= λ start. ok (start, t)
outer rec t f (some p) = rec p

outer-same :
    (rec rec' : ℕ → Result (ℕ × Tables)) (t : Tables) (f o : Option ℕ)
    → ((p : ℕ) → o ≡ some p → rec p ≡ rec' p)
    → outer rec t f o ≡ outer rec' t f o
outer-same rec rec' t f none same = refl
outer-same rec rec' t f (some p) same = same p refl

in_range-same {ℓ κ} :
    {A : Type ℓ} {B : Type κ} (o : Option A) (f g : A → Result B)
    → ((a : A) → o ≡ some a → f a ≡ g a)
    → (in_range o >>= f) ≡ (in_range o >>= g)
in_range-same none f g same = refl
in_range-same (some a) f g same = same a refl

-- Any two amounts of fuel above the index of a block give the same result.
c_size_block-same :
    (t : Tables) (fuel fuel' b : ℕ)
    → ParentsFirst t
    → b < fuel
    → b < fuel'
    → c_size_block fuel b t ≡ c_size_block fuel' b t
unfolding c_size_block
c_size_block-same t zero fuel' b first h h' = absurd (omega (arith, h))
c_size_block-same t (suc fuel) zero b first h h' = absurd (omega (arith, h'))
c_size_block-same t (suc fuel) (suc fuel') b first h h' =
    in_range-same (get_elem? t.blocks b) _ _ λ bd e.
      ap (λ r. r >>= (λ x. size_locals b x.0 x.1))
        (outer-same (λ p. c_size_block fuel p t) (λ p. c_size_block fuel' p t) t bd.function
          bd.parent
          λ p parent.
            let before = first b p bd e parent in
            c_size_block-same t fuel fuel' p first (omega (arith, before, h))
              (omega (arith, before, h')))

Ends-in_range :
    {A : Type 0} (P : A → Type 0) (o : Option A)
    → ((a : A) → o ≡ some a → P a)
    → Ends P (in_range o)
Ends-in_range P none h = tt
Ends-in_range P (some a) h = h a refl

Ends-size_variable : (var : VariableDef) (t : Tables) → Ends (λ _. Unit) (size_variable var t)
unfolding size_variable
Ends-size_variable var t =
    any-if (slt32 0 var.is_pointer) _ _ tt
      (any-if (slt32 0 var.is_function) _ _ tt (typed (find_type var.type_name t) _ λ td. tt))
  where
    typed :
        {A : Type 0} (o : Option A) (next : A → Result ℕ)
        → ((a : A) → Ends (λ _. Unit) (next a))
        → Ends (λ _. Unit) (not_null o >>= next)
    typed none next h = tt
    typed (some a) next h = h a

Ends-place_variables :
    (t : Tables) (base size : ℕ) (vars : List VariableDef)
    → Ends (λ _. Unit) (place_variables t base size vars)
unfolding place_variables
Ends-place_variables t base size [] = tt
Ends-place_variables t base size (var ∷ vars) =
    Ends->>= (λ _. Unit) (λ _. Unit) (size_variable var t) _ (Ends-size_variable var t)
      λ vs _.
        Ends->>= (λ _. Unit) (λ _. Unit) (place_variables t base (add32 size vs) vars) _
          (Ends-place_variables t base (add32 size vs) vars) λ r _. tt

Ends-frame_size : (s : ℕ) → Ends (λ _. Unit) (frame_size s)
unfolding frame_size
Ends-frame_size s = any-if (slt32 2047 (align_16 s)) _ _ tt tt

Ends-root_offset : (t : Tables) (f : Option ℕ) → Ends (λ _. Unit) (root_offset t f)
unfolding root_offset
Ends-root_offset t none = tt
Ends-root_offset t (some f) =
    Ends->>= (λ _. Unit) (λ _. Unit) (at_index t.functions f) (λ fn. ok fn.params_size)
      (Ends-in_range (λ _. Unit) (get_elem? t.functions f) λ fn _. tt) λ fn _. tt

Ends-size_locals : (b offset : ℕ) (t : Tables) → Ends (λ _. Unit) (size_locals b offset t)
unfolding size_locals
Ends-size_locals b offset t =
    Ends->>= (λ _. Unit) (λ _. Unit) (at_index t.blocks b) _
      (Ends-in_range (λ _. Unit) (get_elem? t.blocks b) λ bd _. tt)
      λ bd _.
        Ends->>= (λ _. Unit) (λ _. Unit) (place_variables t offset 0 bd.locals) _
          (Ends-place_variables t offset 0 bd.locals)
          λ placed _.
            Ends->>= (λ _. Unit) (λ _. Unit) (frame_size placed.1) _ (Ends-frame_size placed.1)
              λ size _. tt

Ends-outer :
    (rec : ℕ → Result (ℕ × Tables)) (t : Tables) (f o : Option ℕ)
    → ((p : ℕ) → o ≡ some p → Ends (λ _. Unit) (rec p))
    → Ends (λ _. Unit) (outer rec t f o)
Ends-outer rec t f none h =
    Ends->>= (λ _. Unit) (λ _. Unit) (root_offset t f) (λ start. ok (start, t))
      (Ends-root_offset t f) λ start _. tt
Ends-outer rec t f (some p) h = h p refl

Ends-c_size_block :
    (t : Tables) (fuel b : ℕ) → ParentsFirst t → b < fuel → Ends (λ _. Unit) (c_size_block fuel b t)
unfolding c_size_block
Ends-c_size_block t zero b first h = absurd (omega (arith, h))
Ends-c_size_block t (suc fuel) b first h =
    Ends->>= (λ (bd : BlockDef). get_elem? t.blocks b ≡ some bd) (λ _. Unit) (at_index t.blocks b) _
      (Ends-in_range (λ bd. get_elem? t.blocks b ≡ some bd) (get_elem? t.blocks b) λ bd e. e)
      λ bd e.
        Ends->>= (λ _. Unit) (λ _. Unit)
          (outer (λ p. c_size_block fuel p t) t bd.function bd.parent) (λ x. size_locals b x.0 x.1)
          (Ends-outer (λ p. c_size_block fuel p t) t bd.function bd.parent
            λ p parent.
              let before = first b p bd e parent in
              Ends-c_size_block t fuel p first (omega (arith, before, h)))
          λ x _. Ends-size_locals b x.0 x.1

Ends-≢ : {A : Type 0} (r : Result A) → Ends (λ _. Unit) r → r ≢ err Error.out_of_fuel
Ends-≢ r h e = subst (Ends (λ _. Unit)) e h

-- Where the parent of every block stands before it in the table, any two amounts of fuel above
-- the index of a block give the same result of c_size_block, and it is not the error for want of
-- fuel: with that much fuel every call ends with the sizes or with an error of the source.
pub c_size_block-fuel :
    (t : Tables) (fuel fuel' b : ℕ)
    → ParentsFirst t
    → b < fuel
    → b < fuel'
    → (c_size_block fuel b t ≡ c_size_block fuel' b t)
      × (c_size_block fuel b t ≢ err Error.out_of_fuel)
c_size_block-fuel t fuel fuel' b first h h' = (
  c_size_block-same t fuel fuel' b first h h',
  Ends-≢ (c_size_block fuel b t) (Ends-c_size_block t fuel b first h),
)
