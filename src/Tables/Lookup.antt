-- ===== src/Tables/Lookup.antt =====
-- src/globals.c: the lookups of functions, aliases and constants behind the additions to the tables.
use rvcc.Prelude.{
  ℕ, ◌≡◌, refl, sym, ap, ap₂, ◌∙◌, subst, Bool, true, false, Option, none, some, List, [], ◌∷◌,
  ◌++◌, arith, inl, inr, if◌then◌else◌, length, get_elem?,
}
use rvcc.Result.{ok, >>=-eq-ok}
use rvcc.Il.{CString, same_string}
use rvcc.Buffer.Writes.{ok_injective}
use rvcc.Tables.{
  FunctionDef, AliasDef, ConstantDef, Tables, find_by, find_function, find_alias, find_constant,
  value_of, function_name_of,
}
use rvcc.Tables.Add.{
  strcpy, append_entry, index_by, found_or_append, add_function, add_alias, add_constant,
  max_aliases, max_constants,
}
use rvcc.Tables.Names.{
  or_else, find_by-append-new, find_by-append-other, find_by-append, index_by-some, index_by-none,
  index_by-append, add_function-Added, strcpy-ok, append_entry-ok,
}

get_elem?-last {ℓ} :
    {A : Type ℓ} (xs : List A) (x : A) → get_elem? (xs ++ x ∷ []) (length xs) ≡ some x
get_elem?-last [] x = refl
get_elem?-last (y ∷ ys) x = get_elem?-last ys x

-- Where add_function ends well, the entry that it points to has the name, and it is the one that
-- find_function finds for the name.
pub add_function-found :
    (name : CString) (cell : FunctionDef) (t : Tables) (i : ℕ) (t' : Tables)
    → add_function name cell t ≡ ok (i, t')
    → (fn : FunctionDef) × (get_elem? t'.functions i ≡ some fn)
      × (find_function name t' ≡ some fn)
      × (function_name_of fn ≡ name)
unfolding find_function
add_function-found name cell t i t' h = elim (add_function-Added name cell t i t' h) [
  | inl (found, same) ↦
      let (j, fn, e, at, by, named) = index_by-some function_name_of name 0 i t.functions found in
      let e' : j ≡ i = omega (arith, e) in
      (
        fn,
        ap (λ u. get_elem? u.functions i) same ∙ (ap (get_elem? t.functions) (sym e') ∙ at),
        ap (λ u. find_by function_name_of name u.functions) same ∙ by,
        named,
      )
  | inr (fn, new, e, named, fns) ↦ (
    fn,
    ap (λ l. get_elem? l i) fns
        ∙ (ap (get_elem? (t.functions ++ fn ∷ [])) e ∙ get_elem?-last t.functions fn),
    ap (find_by function_name_of name) fns
        ∙ find_by-append-new function_name_of name t.functions fn
            (index_by-none function_name_of name 0 t.functions new) named,
    named,
  )
]

-- Behind an add_function that ended well, a second add_function with the same name ends well
-- too, changes nothing and points to the same entry.
pub add_function-twice :
    (name : CString) (cell cell' : FunctionDef) (t : Tables) (i : ℕ) (t' : Tables)
    → add_function name cell t ≡ ok (i, t')
    → add_function name cell' t' ≡ ok (i, t')
unfolding add_function
add_function-twice name cell cell' t i t' h =
    ap (λ o. found_or_append o name cell' t')
      (elim (add_function-Added name cell t i t' h) [
        | inl (found, same) ↦ ap (λ u. index_by function_name_of name 0 u.functions) same ∙ found
        | inr (fn, new, e, named, fns) ↦
            ap (index_by function_name_of name 0) fns
            ∙ (index_by-append function_name_of name 0 t.functions fn new named
                ∙ ap some (omega (arith, e)))
      ])

-- Where add_function ends well, it leaves what find_function finds for any other name alone.
pub add_function-others :
    (name other : CString) (cell : FunctionDef) (t : Tables) (i : ℕ) (t' : Tables)
    → add_function name cell t ≡ ok (i, t')
    → same_string name other ≡ false
    → find_function other t' ≡ find_function other t
unfolding find_function
add_function-others name other cell t i t' h differs =
    elim (add_function-Added name cell t i t' h) [
      | inl (found, same) ↦ ap (λ u. find_by function_name_of other u.functions) same
      | inr (fn, new, e, named, fns) ↦
          let differs_fn = subst (λ n. same_string n other ≡ false) (sym named) differs in
          ap (find_by function_name_of other) fns
          ∙ find_by-append-other function_name_of other t.functions fn differs_fn
    ]

value_of-or_else :
    (o : Option AliasDef) (b : Bool) (al : AliasDef)
    → value_of (or_else o (if b then some al else none))
      ≡ or_else (value_of o) (if b then some al.value else none)
value_of-or_else none true al = refl
value_of-or_else none false al = refl
value_of-or_else (some a) b al = refl

-- Where add_alias ends well, find_alias finds what it found before, and where it found nothing
-- and is asked for the new alias, it finds the new value: the first definition of an alias stays
-- in force.
pub find_alias-add_alias :
    (alias value asked : CString) (cell : AliasDef) (t t' : Tables)
    → add_alias alias value cell t ≡ ok t'
    → find_alias asked t'
      ≡ or_else (find_alias asked t) (if same_string alias asked then some value else none)
unfolding find_alias add_alias
find_alias-add_alias alias value asked cell t t' h =
    let (a, h₁, h₂) = >>=-eq-ok (strcpy alias) _ h in
    let (v, h₃, h₄) = >>=-eq-ok (strcpy value) _ h₂ in
    let (aliases, h₅, h₆) = >>=-eq-ok (append_entry max_aliases _ t.aliases) _ h₄ in
    let e : t'.aliases ≡ t.aliases ++ record cell { alias = a; value = v } ∷ [] =
      sym (ap (λ u. u.aliases) (ok_injective h₆))
      ∙ append_entry-ok max_aliases _ t.aliases aliases h₅ in
    ap (λ l. value_of (find_by (λ al. al.alias) asked l)) e
    ∙ (ap value_of (find_by-append (λ al. al.alias) asked t.aliases _)
        ∙ (value_of-or_else (find_by (λ al. al.alias) asked t.aliases) (same_string a asked)
              (record cell { alias = a; value = v })
            ∙ ap₂
                (λ n w. or_else (find_alias asked t) (if same_string n asked then some w else none))
                (strcpy-ok alias a h₁) (strcpy-ok value v h₃)))

abbrev pub constant_value : Option ConstantDef → Option ℕ
constant_value none = none
constant_value (some c) = some c.value

constant_value-or_else :
    (o : Option ConstantDef) (b : Bool) (c : ConstantDef)
    → constant_value (or_else o (if b then some c else none))
      ≡ or_else (constant_value o) (if b then some c.value else none)
constant_value-or_else none true c = refl
constant_value-or_else none false c = refl
constant_value-or_else (some a) b c = refl

-- Where add_constant ends well, find_constant finds the value that it found before, and where it
-- found none and is asked for the new constant, it finds the new value.
pub find_constant-add_constant :
    (alias : CString) (value : ℕ) (asked : CString) (cell : ConstantDef) (t t' : Tables)
    → add_constant alias value cell t ≡ ok t'
    → constant_value (find_constant asked t')
      ≡ or_else
          (constant_value (find_constant asked t))
          (if same_string alias asked then some value else none)
unfolding find_constant add_constant
find_constant-add_constant alias value asked cell t t' h =
    let (a, h₁, h₂) = >>=-eq-ok (strcpy alias) _ h in
    let (constants, h₃, h₄) = >>=-eq-ok (append_entry max_constants _ t.constants) _ h₂ in
    let e : t'.constants ≡ t.constants ++ record cell { alias = a; value = value } ∷ [] =
      sym (ap (λ u. u.constants) (ok_injective h₄))
      ∙ append_entry-ok max_constants _ t.constants constants h₃ in
    ap (λ l. constant_value (find_by (λ c. c.alias) asked l)) e
    ∙ (ap constant_value (find_by-append (λ c. c.alias) asked t.constants _)
        ∙ (constant_value-or_else (find_by (λ c. c.alias) asked t.constants) (same_string a asked)
              (record cell { alias = a; value = value })
            ∙ ap
                (λ n.
                  or_else (constant_value (find_constant asked t))
                    (if same_string n asked then some value else none))
                (strcpy-ok alias a h₁)))
