-- ===== src/Poller/Execute/Logged.antt =====
-- `logCombineDiagnostics` of lib/poller.js only counts.
use wax_rng_oracle.Prelude.{◌≡◌, refl, ◌∙◌, ◌&&◌, List, [], ◌∷◌, length, ◌==◌, Bool-cases, inl, inr}
use wax_rng_oracle.ShareKey.{Diagnostics}
use wax_rng_oracle.Poller.{State, Metric, count, combine_suspect_share, combine_rejected_part}
use wax_rng_oracle.Poller.Execute.{count_each, log_combine_diagnostics}

-- What a field has that counting does not change is the same after the log.
module _ {ℓ} {B : Type ℓ} (field : State → B)
    (of_rejected : (s : State) → field (count combine_rejected_part s) ≡ field s)
    (of_suspect : (s : State) → field (count combine_suspect_share s) ≡ field s) where
  count_each-kept {κ} :
      {A : Type κ} (m : Metric) (h : (s : State) → field (count m s) ≡ field s) (xs : List A)
      (s : State)
      → field (count_each m xs s) ≡ field s
  count_each-kept m h [] s = refl
  count_each-kept m h (x ∷ xs) s = count_each-kept m h xs (count m s) ∙ h s

  pub log-kept : (d : Diagnostics) (s : State) → field (log_combine_diagnostics d s) ≡ field s
  unfolding log_combine_diagnostics
  log-kept d s = elim (Bool-cases (length d.rejected == 0 && length d.failed_subsets == 0)) [
    | inl clean ↦ rw clean refl
    | inr marked ↦ rw marked (
        count_each-kept combine_suspect_share of_suspect d.suspects _
        ∙ count_each-kept combine_rejected_part of_rejected d.rejected s)
  ]

pub pushed-logged : (d : Diagnostics) (s : State) → (log_combine_diagnostics d s).pushed ≡ s.pushed
pushed-logged = log-kept (λ s. s.pushed) (λ s. refl) (λ s. refl)

pub db-logged : (d : Diagnostics) (s : State) → (log_combine_diagnostics d s).db ≡ s.db
db-logged = log-kept (λ s. s.db) (λ s. refl) (λ s. refl)
