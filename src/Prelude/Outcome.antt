-- ===== src/Prelude/Outcome.antt =====
-- What a method that awaits the chain may do: return, throw, or use up the fuel of its loop.

pub data Error : Type 0 where
  -- `EosError`: the RPC node could not be read
  eos_error : Error
  -- `TypeError`, as thrown by a read of a property of undefined
  type_error : Error
  -- an array index out of range
  bad_index : Error

pub data Result {ℓ} (A : Type ℓ) : Type ℓ where
  ok : A → Result A
  threw : Error → Result A
  out_of_fuel : Result A

infixl 5 ◌>>=◌
abbrev pub ◌>>=◌ {ℓ κ} : {A : Type ℓ} {B : Type κ} → Result A → (A → Result B) → Result B
ok a >>= f = f a
threw e >>= f = threw e
out_of_fuel >>= f = out_of_fuel
