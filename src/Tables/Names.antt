-- ===== src/Tables/Names.antt =====
-- src/globals.c: what a lookup by name finds after an addition.
use rvcc.Prelude.{
  ℕ, suc, ◌+◌, ◌≡◌, ◌⊎◌, refl, sym, ap, ap₂, ◌∙◌, subst, Bool, true, false, Option, none, some,
  List, [], ◌∷◌, ◌++◌, arith, inl, inr, Bool-cases, Option-cases, ==_iff, ltb, ◌==◌, ◌&&◌,
  if◌then◌else◌, length, get_elem?,
}
use rvcc.Result.{ok, err, >>=-eq-ok, Error}
use rvcc.Il.{CString, same_string}
use rvcc.Buffer.Writes.{ok_injective}
use rvcc.Tables.{FunctionDef, Tables, find_by, function_name_of}
use rvcc.Tables.Add.{
  strcpy, append_entry, index_by, max_functions, append_function, found_or_append, add_function,
}

pub same_string_refl : (s : CString) → same_string s s ≡ true
unfolding same_string
same_string_refl [] = refl
same_string_refl (c ∷ s) = ground (arith, same_string_refl s)

&&-true : (a b : Bool) → a && b ≡ true → (a ≡ true) × (b ≡ true)
&&-true true b h = (refl, h)
&&-true false b h = cc

pub same_string_sound : (a b : CString) → same_string a b ≡ true → a ≡ b
unfolding same_string
same_string_sound [] [] h = refl
same_string_sound [] (c ∷ b) h = cc
same_string_sound (c ∷ a) [] h = cc
same_string_sound (c ∷ a) (d ∷ b) h =
    let (p, q) = &&-true (c == d) (same_string a b) h in
    ap₂ (λ x xs. x ∷ xs) ((==_iff c d).0 p) (same_string_sound a b q)

abbrev pub or_else {ℓ} : {A : Type ℓ} → Option A → Option A → Option A
or_else none b = b
or_else (some a) b = some a

pub or_else-none {ℓ} : {A : Type ℓ} (o : Option A) → or_else o none ≡ o
or_else-none none = refl
or_else-none (some a) = refl

module _ {ℓ} {A : Type ℓ} (name_of : A → CString) (name : CString) where
  pub find_by-append :
      (xs : List A) (x : A)
      → find_by name_of name (xs ++ x ∷ [])
        ≡ or_else (find_by name_of name xs) (if same_string (name_of x) name then some x else none)
  unfolding find_by
  find_by-append [] x = refl
  find_by-append (y ∷ ys) x = elim (Bool-cases (same_string (name_of y) name)) [
    | inl e ↦ rw e
    | inr e ↦ rw e (find_by-append ys x)
  ]

  pub find_by-append-new :
      (xs : List A) (x : A)
      → find_by name_of name xs ≡ none
      → name_of x ≡ name
      → find_by name_of name (xs ++ x ∷ []) ≡ some x
  find_by-append-new xs x new named =
      let yes =
        subst (λ n. same_string (name_of x) n ≡ true) named (same_string_refl (name_of x)) in
      find_by-append xs x
      ∙ (ap (λ o. or_else o (if same_string (name_of x) name then some x else none)) new
          ∙ ap (λ b. if b then some x else none) yes)

  pub find_by-append-other :
      (xs : List A) (x : A)
      → same_string (name_of x) name ≡ false
      → find_by name_of name (xs ++ x ∷ []) ≡ find_by name_of name xs
  find_by-append-other xs x differs =
      find_by-append xs x
      ∙ (ap (λ b. or_else (find_by name_of name xs) (if b then some x else none)) differs
          ∙ or_else-none (find_by name_of name xs))

  -- The place that the loop of add_function finds is the one that the loop of a lookup finds.
  pub index_by-some :
      (k i : ℕ) (xs : List A)
      → index_by name_of name k xs ≡ some i
      → (j : ℕ) × (x : A) × (i ≡ k + j)
        × (get_elem? xs j ≡ some x)
        × (find_by name_of name xs ≡ some x)
        × (name_of x ≡ name)
  unfolding index_by find_by
  index_by-some k i [] h = cc
  index_by-some k i (x ∷ xs) h = elim (Bool-cases (same_string (name_of x) name)) [
    | inl e ↦
        let f : some k ≡ some i = simp e at h in
        let g : k ≡ i = cc in
        (0, x, omega (arith, g), refl, rw e, same_string_sound (name_of x) name e)
    | inr e ↦
        let f : index_by name_of name (suc k) xs ≡ some i = simp e at h in
        let (j, y, p, q, r, n) = index_by-some (suc k) i xs f in
        (suc j, y, omega (arith, p), q, rw e r, n)
  ]

  pub index_by-none :
      (k : ℕ) (xs : List A) → index_by name_of name k xs ≡ none → find_by name_of name xs ≡ none
  unfolding index_by find_by
  index_by-none k [] h = refl
  index_by-none k (x ∷ xs) h = elim (Bool-cases (same_string (name_of x) name)) [
    | inl e ↦ let f : some k ≡ none = simp e at h in cc
    | inr e ↦
        let f : index_by name_of name (suc k) xs ≡ none = simp e at h in
        rw e (index_by-none (suc k) xs f)
  ]

  pub index_by-append :
      (k : ℕ) (xs : List A) (x : A)
      → index_by name_of name k xs ≡ none
      → name_of x ≡ name
      → index_by name_of name k (xs ++ x ∷ []) ≡ some (k + length xs)
  unfolding index_by
  index_by-append k [] x h e =
      let same = subst (λ n. same_string (name_of x) n ≡ true) e (same_string_refl (name_of x)) in
      rw same (ap some (omega arith))
  index_by-append k (y ∷ ys) x h e = elim (Bool-cases (same_string (name_of y) name)) [
    | inl d ↦ let f : some k ≡ none = simp d at h in cc
    | inr d ↦
        let f : index_by name_of name (suc k) ys ≡ none = simp d at h in
        rw d (index_by-append (suc k) ys x f e ∙ ap some (omega arith))
  ]

pub strcpy-ok : (s copied : CString) → strcpy s ≡ ok copied → copied ≡ s
unfolding strcpy
strcpy-ok s copied h = elim (Bool-cases (ltb (length s) 64)) [
  | inl e ↦ let f : ok s ≡ ok copied = simp e at h in sym (ok_injective f)
  | inr e ↦ let f : err Error.out_of_bounds ≡ ok copied = simp e at h in cc
]

pub append_entry-ok {ℓ} :
    {A : Type ℓ} (max : ℕ) (x : A) (xs xs' : List A)
    → append_entry max x xs ≡ ok xs'
    → xs' ≡ xs ++ x ∷ []
unfolding append_entry
append_entry-ok max x xs xs' h = elim (Bool-cases (ltb (length xs) max)) [
  | inl e ↦ let f : ok (xs ++ x ∷ []) ≡ ok xs' = simp e at h in sym (ok_injective f)
  | inr e ↦ let f : err Error.out_of_bounds ≡ ok xs' = simp e at h in cc
]

-- What add_function did: it found the function, or it appended one with the name.
abbrev pub FunctionAppended : CString → Tables → ℕ → Tables → Type 0
FunctionAppended name t i t' =
    (fn : FunctionDef) × (index_by function_name_of name 0 t.functions ≡ none)
    × (i ≡ length t.functions)
    × (function_name_of fn ≡ name)
    × (t'.functions ≡ t.functions ++ fn ∷ [])

abbrev pub Added : CString → Tables → ℕ → Tables → Type 0
Added name t i t' =
    ((index_by function_name_of name 0 t.functions ≡ some i) × (t' ≡ t))
    ⊎ FunctionAppended name t i t'

append_function-Added :
    (name : CString) (cell : FunctionDef) (t : Tables) (i : ℕ) (t' : Tables)
    → index_by function_name_of name 0 t.functions ≡ none
    → append_function name cell t ≡ ok (i, t')
    → FunctionAppended name t i t'
unfolding append_function
append_function-Added name cell t i t' e h =
    let (copied, h₁, h₂) = >>=-eq-ok (strcpy name) _ h in
    let (functions, h₃, h₄) = >>=-eq-ok (append_entry max_functions _ t.functions) _ h₂ in
    let g : (length t.functions, record t { functions = functions }) ≡ (i, t') = ok_injective h₄ in
    (
      record cell { return_def = record cell.return_def { variable_name = copied } },
      e,
      sym (ap (λ p. p.0) g),
      strcpy-ok name copied h₁,
      sym (ap (λ p. p.1.functions) g) ∙ append_entry-ok max_functions _ t.functions functions h₃,
    )

pub add_function-Added :
    (name : CString) (cell : FunctionDef) (t : Tables) (i : ℕ) (t' : Tables)
    → add_function name cell t ≡ ok (i, t')
    → Added name t i t'
unfolding add_function
add_function-Added name cell t i t' h =
    elim (Option-cases (index_by function_name_of name 0 t.functions)) [
      | inl e ↦ inr (
          append_function-Added name cell t i t' e
            (subst (λ o. found_or_append o name cell t ≡ ok (i, t')) e h))
      | inr (j, e) ↦
          let f : ok (j, t) ≡ ok (i, t') =
            subst (λ o. found_or_append o name cell t ≡ ok (i, t')) e h in
          let g : (j, t) ≡ (i, t') = ok_injective f in
          inl (e ∙ ap some (ap (λ p. p.0) g), sym (ap (λ p. p.1) g))
    ]
