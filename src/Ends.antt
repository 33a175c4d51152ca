-- ===== src/Ends.antt =====
-- How calls end: with a value that has a property, or with an error that is not the end of fuel.
use rvcc.Prelude.{ℕ, Bool, true, false, if◌then◌else◌}
use rvcc.Result.{Result, ok, err, ◌>>=◌, Error}

-- An error of the source, and not the end of the fuel.
abbrev pub IsReal : Error → Type 0
IsReal Error.out_of_fuel = ⊥
IsReal _ = Unit

-- Not out of fuel, and a result with the property.
abbrev pub Ends : {A : Type 0} → (A → Type 0) → Result A → Type 0
Ends P (err e) = IsReal e
Ends P (ok a) = P a

pub Ends->>= :
    {A B : Type 0} (P : A → Type 0) (Q : B → Type 0) (first : Result A) (next : A → Result B)
    → Ends P first
    → ((a : A) → P a → Ends Q (next a))
    → Ends Q (first >>= next)
Ends->>= P Q (err e) next h k = h
Ends->>= P Q (ok a) next h k = k a h

-- A test decides which of two results it is.
pub Ends-if :
    {A : Type 0} (P : A → Type 0) (b : Bool) (x y : Result A)
    → Ends P x
    → Ends P y
    → Ends P (if b then x else y)
Ends-if P true x y hx hy = hx
Ends-if P false x y hx hy = hy

pub any-if :
    (b : Bool) (x y : Result ℕ)
    → Ends (λ _. Unit) x
    → Ends (λ _. Unit) y
    → Ends (λ _. Unit) (if b then x else y)
any-if = Ends-if (λ _. Unit)

pub Ends-elim :
    {A : Type 0} (P : A → Type 0) (b : Bool) (x y : Result A)
    → Ends P x
    → Ends P y
    → Ends P (elim b [ true ↦ x | false ↦ y ])
Ends-elim P true x y hx hy = hx
Ends-elim P false x y hx hy = hy

pub Ends-weaken :
    {A : Type 0} (P Q : A → Type 0) (r : Result A) → Ends P r → ((a : A) → P a → Q a) → Ends Q r
Ends-weaken P Q (err e) h k = h
Ends-weaken P Q (ok a) h k = k a h
