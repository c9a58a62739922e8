-- ===== src/Interleaved/Alone.antt =====
-- A poll of lib/poller.js that goes on while no other does, with the answers that the chain gives and
-- the times that the clock shows.
use wax_rng_oracle.Prelude.{◌≡◌, List, [], ◌∷◌}
use wax_rng_oracle.Contract.{Action}
use wax_rng_oracle.RngPusher.{Answer, failed, type_error}
use wax_rng_oracle.Poller.{Outside}

-- The chain's answer to the latest push. A poll that waits for one has pushed.
abbrev pub given_answer : Outside → List Action → Answer
given_answer o [] = failed type_error
given_answer o (a ∷ before) = o.answer before a

-- Some number of steps leads from the one to the other, where a further step leads nowhere else.
pub data EndsIn {ℓ} {A : Type ℓ} (f : A → A) : A → A → Type ℓ where
  rests : {a : A} → f a ≡ a → EndsIn f a a
  goes : {a b : A} → EndsIn f (f a) b → EndsIn f a b
