-- ===== src/Interleaved/Effect.antt =====
-- What one step does to the storage (lib/storage.js).
use wax_rng_oracle.Prelude.{◌≡◌, refl, sym, ap, subst, ◌∙◌, List, [], ◌∷◌, ◌++◌, All, All-append}
use wax_rng_oracle.Storage.{Storage}
use wax_rng_oracle.Storage.Cleared.{
  Call, set_failed_call, clear_all_call, perform, perform_all, perform_all-IsValid, IsValid,
}

-- The methods that the polls call.
abbrev pub OfPolls : Call → Type 0
OfPolls (set_failed_call f) = ⊥
OfPolls clear_all_call = ⊥
OfPolls _ = Unit

-- The calls of such methods, one after another, lead from one storage to another.
pub record Serial (d d' : Storage) : Type 0 where
  pub calls : List Call
  pub of_polls : All OfPolls calls
  pub result : d' ≡ perform_all calls d

pub Serial-none : (d d' : Storage) → d' ≡ d → Serial d d'
unfolding perform_all
Serial-none d d' e = record { calls = []; of_polls = tt; result = e }

pub Serial-one : (d d' : Storage) (c : Call) → OfPolls c → d' ≡ perform c d → Serial d d'
unfolding perform_all
Serial-one d d' c p e = record { calls = c ∷ []; of_polls = (p, tt); result = e }

pub perform_all-append :
    (cs ds : List Call) (d : Storage) → perform_all (cs ++ ds) d ≡ perform_all ds (perform_all cs d)
unfolding perform_all
perform_all-append [] ds d = refl
perform_all-append (c ∷ cs) ds d = perform_all-append cs ds (perform c d)

pub Serial-trans : {c d e : Storage} → Serial c d → Serial d e → Serial c e
Serial-trans {c} p q = record {
  calls = p.calls ++ q.calls;
  of_polls = All-append OfPolls p.calls q.calls p.of_polls q.of_polls;
  result =
      q.result ∙ ap (perform_all q.calls) p.result ∙ sym (perform_all-append p.calls q.calls c);
}

pub Serial-IsValid : {c d : Storage} → Serial c d → IsValid c → IsValid d
Serial-IsValid {c} p v = subst IsValid (sym p.result) (perform_all-IsValid p.calls c v)
