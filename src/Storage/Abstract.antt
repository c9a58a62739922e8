-- ===== src/Storage/Abstract.antt =====
-- That lib/storage.js keeps what Storage/History.antt promises.
use wax_rng_oracle.Prelude.{
  ℕ, ◌+◌, ◌*◌, ◌^◌, String, ◌≡◌, refl, sym, ap, ◌∙◌, Option, none, some, List, [], ◌∷◌, map, arith,
  any, ◌==◌, if◌then◌else◌, pow-add, Bool-cases, inl, inr,
}
use wax_rng_oracle.Dict.{Dict, lookup, lookup-put, lookup-remove_all}
use wax_rng_oracle.Model.{Job, Undelivered}
use wax_rng_oracle.Storage.{
  Storage, Failure, DeliveryFailure, job_failed, clear_failed_jobs, job_deliver_fail,
  clear_delivery_failures, set_failed_job, clear_all_failed_jobs, failure_after, delivery_after,
}
use wax_rng_oracle.Storage.History.{
  Counted, History, update, clear, from_now, pinned_by, one_more, one_more_delivery, specify,
  specify_all, delayed, delayed_delivery, Represents,
}
use wax_rng_oracle.Storage.Cleared.{
  Call, job_failed_call, clear_failed_call, deliver_fail_call, clear_deliveries_call,
  set_failed_call, clear_all_call, perform, perform_all,
}

-- Every key of a table is among its keys.
lookup-absent {ℓ} :
    {V : Type ℓ} (id : ℕ) (d : Dict V)
    → (if any (λ k. k == id) (map (λ e. e.0) d) then none else lookup id d) ≡ none
unfolding lookup
lookup-absent id [] = refl
lookup-absent id ((k, v) ∷ d) = ground (arith, lookup-absent id d)

double : (d n : ℕ) → d * 2 ^ n * 2 ≡ d * 2 ^ (n + 1)
double d n = let step : 2 ^ (n + 1) ≡ 2 ^ n * 2 = pow-add n 1 in rw step (omega arith)

delayed-one_more :
    (now : ℕ) (job : Job) (meta : Option String) (c : Option (Counted Failure))
    → some (failure_after now job meta (delayed c)) ≡ delayed (some (one_more now job meta c))
delayed-one_more now job none none = refl
delayed-one_more now job (some fp) none = refl
delayed-one_more now job none (some c) =
    ap (λ d. some (record c.first { next_retry = d; parts_fingerprint = none }))
      (double c.first.next_retry c.since)
delayed-one_more now job (some fp) (some c) =
    ap (λ d. some (record c.first { next_retry = d; parts_fingerprint = pinned_by (some fp) }))
      (double c.first.next_retry c.since)

delayed-one_more_delivery :
    (now : ℕ) (u : Undelivered) (c : Option (Counted DeliveryFailure))
    → some (delivery_after now u (delayed_delivery c))
      ≡ delayed_delivery (some (one_more_delivery now u c))
delayed-one_more_delivery now u none = refl
delayed-one_more_delivery now u (some c) =
    ap (λ d. some (record c.first { next_retry = d })) (double c.first.next_retry c.since)

-- A change at one id, and the clearing of ids, on both sides.
update-delayed {ℓ κ} :
    {R : Type ℓ} {C : Type κ} (stands : Option C → Option R) (k id : ℕ) (r : R) (c : C)
    (d : Option R) (f : ℕ → Option C)
    → some r ≡ stands (some c)
    → d ≡ stands (f id)
    → (if k == id then some r else d) ≡ stands (update k c f id)
update-delayed stands k id r c d f p q = elim (Bool-cases (k == id)) [
  | inl here ↦ rw here p
  | inr there ↦ rw there q
]

clear-delayed {ℓ κ} :
    {R : Type ℓ} {C : Type κ} (stands : Option C → Option R) (ids : List ℕ) (id : ℕ) (d : Option R)
    (f : ℕ → Option C)
    → stands none ≡ none
    → d ≡ stands (f id)
    → (if any (λ k. k == id) ids then none else d) ≡ stands (clear ids f id)
clear-delayed stands ids id d f p q = elim (Bool-cases (any (λ k. k == id) ids)) [
  | inl gone ↦ rw gone (sym p)
  | inr kept ↦ rw kept q
]

perform-Represents :
    (c : Call) (v : History) (s : Storage) → Represents v s → Represents (specify c v) (perform c s)
unfolding perform specify job_failed clear_failed_jobs job_deliver_fail clear_delivery_failures
    set_failed_job clear_all_failed_jobs
perform-Represents (job_failed_call now job meta) v s h = record {
  failures = λ id.
      lookup-put job.id id _ s.failures
      ∙ update-delayed delayed job.id id _ _ _ v.failure
          (ap (λ x. some (failure_after now job meta x)) (h.failures job.id)
            ∙ delayed-one_more now job meta (v.failure job.id))
          (h.failures id);
  deliveries = h.deliveries;
}
perform-Represents (clear_failed_call ids) v s h = record {
  failures = λ id.
      lookup-remove_all ids id s.failures
      ∙ clear-delayed delayed ids id _ v.failure refl (h.failures id);
  deliveries = h.deliveries;
}
perform-Represents (deliver_fail_call now u) v s h = record {
  failures = h.failures;
  deliveries = λ id.
      lookup-put u.request_id id _ s.delivery_failures
      ∙ update-delayed delayed_delivery u.request_id id _ _ _ v.delivery
          (ap (λ x. some (delivery_after now u x)) (h.deliveries u.request_id)
            ∙ delayed-one_more_delivery now u (v.delivery u.request_id))
          (h.deliveries id);
}
perform-Represents (clear_deliveries_call ids) v s h = record {
  failures = h.failures;
  deliveries = λ id.
      lookup-remove_all ids id s.delivery_failures
      ∙ clear-delayed delayed_delivery ids id _ v.delivery refl (h.deliveries id);
}
perform-Represents (set_failed_call f) v s h = record {
  failures = λ id.
      lookup-put f.id id f s.failures
      ∙ update-delayed delayed f.id id f (from_now f) _ v.failure
          (ap (λ d. some (record f { next_retry = d })) (omega arith)) (h.failures id);
  deliveries = h.deliveries;
}
perform-Represents clear_all_call v s h = record {
  failures = λ id.
      lookup-remove_all (map (λ e. e.0) s.failures) id s.failures ∙ lookup-absent id s.failures;
  deliveries = h.deliveries;
}

abbrev pub none_since {ℓ} : {R : Type ℓ} → Option R → Option (Counted R)
none_since none = none
none_since (some r) = some (from_now r)

-- Every storage holds what some history stands for: that of its records, none of which failed since.
abbrev pub so_far : Storage → History
so_far s = record {
  failure = λ id. none_since (lookup id s.failures);
  delivery = λ id. none_since (lookup id s.delivery_failures);
}

pub Represents-so_far : (s : Storage) → Represents (so_far s) s
Represents-so_far s = record {
  failures = λ id. stands (lookup id s.failures);
  deliveries = λ id. stands_delivery (lookup id s.delivery_failures);
}
  where
    stands : (f : Option Failure) → f ≡ delayed (none_since f)
    stands none = refl
    stands (some f) = ap (λ d. some (record f { next_retry = d })) (omega arith)

    stands_delivery : (f : Option DeliveryFailure) → f ≡ delayed_delivery (none_since f)
    stands_delivery none = refl
    stands_delivery (some f) = ap (λ d. some (record f { next_retry = d })) (omega arith)

-- The storage refines the history of failures: if it holds what a history stands for, so it does after any
-- sequence of the methods that change it, for the history that the sequence gives: there a failure
-- counts one for its id, or begins a record with a delay of 500 ms, clearing forgets the ids that it
-- names, and a record stands for the first one with its delay doubled once for each failure since.
pub perform_all-Represents :
    (cs : List Call) (v : History) (s : Storage)
    → Represents v s
    → Represents (specify_all cs v) (perform_all cs s)
unfolding perform_all specify_all
perform_all-Represents [] v s h = h
perform_all-Represents (c ∷ cs) v s h =
    perform_all-Represents cs (specify c v) (perform c s) (perform-Represents c v s h)
