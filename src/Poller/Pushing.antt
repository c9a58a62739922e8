-- ===== src/Poller/Pushing.antt =====
-- The transactions that a poll pushes, between two states.
use mathlib.Core.List.{append_assoc}
use wax_rng_oracle.Prelude.{◌≡◌, sym, ap, ◌∙◌, List, [], ◌∷◌, ◌++◌, All, All-append}
use wax_rng_oracle.Contract.{Action}
use wax_rng_oracle.Poller.{State}

-- From `s` to `s'` only actions with the property `P` were pushed.
pub record Pushes (P : Action → Type 0) (s s' : State) : Type 0 where
  pub latest : List Action
  pub split : s'.pushed ≡ latest ++ s.pushed
  pub right : All P latest

All-map :
    (P Q : Action → Type 0) (f : (a : Action) → P a → Q a) (xs : List Action) → All P xs → All Q xs
All-map P Q f [] h = tt
All-map P Q f (x ∷ xs) h = (f x h.0, All-map P Q f xs h.1)

module _ {P : Action → Type 0} where
  pub Pushes-none : (s s' : State) → s'.pushed ≡ s.pushed → Pushes P s s'
  Pushes-none s s' e = record { latest = []; split = e; right = tt }

  pub Pushes-one : (s s' : State) (a : Action) → s'.pushed ≡ a ∷ s.pushed → P a → Pushes P s s'
  Pushes-one s s' a e p = record { latest = a ∷ []; split = e; right = (p, tt) }

  pub Pushes-trans : {s t u : State} → Pushes P s t → Pushes P t u → Pushes P s u
  Pushes-trans {s} p q = record {
    latest = q.latest ++ p.latest;
    split =
        q.split
        ∙ ap (λ (l : List Action). q.latest ++ l) p.split
        ∙ sym (append_assoc q.latest p.latest s.pushed);
    right = All-append P q.latest p.latest q.right p.right;
  }

pub Pushes-map :
    (P Q : Action → Type 0) {s t : State} → ((a : Action) → P a → Q a) → Pushes P s t → Pushes Q s t
Pushes-map P Q f p = record {
  latest = p.latest;
  split = p.split;
  right = All-map P Q f p.latest p.right;
}
