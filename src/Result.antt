-- ===== src/Result.antt =====
-- How a call of the compiler ends: with a value, or where the source stops. `error()` of
-- src/globals.c prints its message and aborts, so an error carries the message and no state.
use rvcc.Prelude.{◌≡◌, refl}

-- `error(msg)` is told apart by its message, and
-- `aborted` stands for a call of abort() without one. `null_pointer` and `out_of_bounds` stand for a
-- dereference of NULL and for an access past the end of an array, which C leaves undefined.
pub data Error : Type 0 where
  offset_too_large invalid_bit_copy unsupported_word_size : Error
  unsupported_il_op unsupported_conditional_il_op : Error
  local_stack_size_exceeded undefined_identifier : Error
  unsupported_condition_il_op unable_to_represent_value : Error
  length_exceeded unknown_directive unexpected_slash unrecognized_input unexpected_token : Error
  aborted : Error
  out_of_fuel : Error
  invalid_numeric_constant unexpected_end_of_expression : Error
  null_pointer out_of_bounds : Error

pub data Result {ℓ} (A : Type ℓ) : Type ℓ where
  err : Error → Result A
  ok : A → Result A

-- An error ends the chain.
infixl 5 ◌>>=◌
abbrev pub ◌>>=◌ {i j} : {X : Type i} {Y : Type j} → Result X → (X → Result Y) → Result Y
err why >>= next = err why
ok x >>= next = next x

-- A successful chain had a successful first step.
pub >>=-eq-ok {i j} :
    {X : Type i} {Y : Type j} (first : Result X) (next : X → Result Y) {y : Y}
    → first >>= next ≡ ok y
    → (x : X) × (first ≡ ok x) × (next x ≡ ok y)
>>=-eq-ok (err why) next ended = cc
>>=-eq-ok (ok x) next ended = (x, refl, ended)
