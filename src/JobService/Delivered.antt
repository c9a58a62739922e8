-- ===== src/JobService/Delivered.antt =====
-- Which failure records `clearResolvedDeliveryFailures` drops.
use wax_rng_oracle.Prelude.{
  ℕ, ◌≡◌, refl, ap, Option, none, some, List, [], ◌∷◌, Bool, map, arith, keep, ok, if◌then◌else◌,
}
use wax_rng_oracle.Dict.{lookup, lookup-remove_all, values}
use wax_rng_oracle.Dict.Table.{any-keep-values, test}
use wax_rng_oracle.Model.{Undelivered}
use wax_rng_oracle.Storage.{
  Storage, DeliveryFailure, clear_delivery_failures, get_all_failed_deliveries,
}
use wax_rng_oracle.Storage.Cleared.{IsValid}
use wax_rng_oracle.JobService.{
  Finder, first, row_of, is_delivered, delivered_ids, clear_resolved_delivery_failures,
}

-- A record is kept while the chain has a row of the request.
abbrev pub still_undelivered :
    (ℕ → List Undelivered) → Option DeliveryFailure → Option DeliveryFailure
still_undelivered rows none = none
still_undelivered rows (some f) = if is_delivered (first (rows f.request_id)) then none else some f

module _ (find : Finder Undelivered) (rows : ℕ → List Undelivered)
    (reads : (id : ℕ) → find id ≡ ok (rows id)) where
  abbrev is_gone : DeliveryFailure → Bool
  is_gone f = is_delivered (first (rows f.request_id))

  delivered_ids-keep :
      (fs : List DeliveryFailure)
      → delivered_ids find fs ≡ ok (map (λ f. f.request_id) (keep is_gone fs))
  unfolding delivered_ids row_of
  delivered_ids-keep [] = refl
  delivered_ids-keep (f ∷ fs) =
      rw (reads f.request_id, delivered_ids-keep fs) (ap ok (ground arith))

  drop_delivered :
      (o : Option DeliveryFailure) → (if test is_gone o then none else o) ≡ still_undelivered rows o
  drop_delivered none = refl
  drop_delivered (some f) = refl

  -- If every read succeeds, `clearResolvedDeliveryFailures` on a valid storage drops exactly the
  -- records of requests that the chain no longer holds as undelivered.
  clear_resolved_delivery_failures_lem :
      (s : Storage)
      → IsValid s
      → (s' : Storage) × (clear_resolved_delivery_failures find s ≡ ok s')
        × ((id : ℕ)
            → lookup id s'.delivery_failures
              ≡ still_undelivered rows (lookup id s.delivery_failures))
  unfolding clear_resolved_delivery_failures clear_delivery_failures get_all_failed_deliveries
  clear_resolved_delivery_failures_lem s v = (
    clear_delivery_failures (map (λ f. f.request_id) (keep is_gone (values s.delivery_failures))) s,
    rw (delivered_ids-keep (values s.delivery_failures)),
    λ id.
        rw
          (
            lookup-remove_all,
            any-keep-values (λ (f : DeliveryFailure). f.request_id) is_gone id s.delivery_failures
                v.deliveries,
          )
          (drop_delivered (lookup id s.delivery_failures)),
  )
