-- ===== src/JobService/Paging.antt =====
-- The paging loops read the whole table, or enough of it, and end.
use mathlib.Core.List.{append_assoc}
use wax_rng_oracle.Prelude.{
  ℕ, zero, suc, ◌+◌, ◌≤◌, ◌<◌, ◌≡◌, refl, ap, sym, ◌∙◌, ◌⊎◌, inl, inr, Bool, true, false, List, [],
  ◌∷◌, ◌++◌, arith, ltb, leb, Bool-cases, length, length-append, keep, keep-append, ok,
}
use wax_rng_oracle.JobService.{Page, Reader, count_pages, collect}

module _ {ℓ} {R : Type ℓ} (key : R → ℕ) where
  -- The rows from a key on.
  abbrev pub from : ℕ → List R → List R
  from lower table = keep (λ r. leb lower (key r)) table

  -- What an answer holds: rows from the lower bound on, and what is left. With `more`, at least one
  -- row was returned and `next_key` is where the rest begins.
  pub record Answers (table : List R) (lower : ℕ) (p : Page R) : Type ℓ where
    pub rest : List R
    pub split : from lower table ≡ p.rows ++ rest
    pub last : p.more ≡ false → rest ≡ []
    pub further : p.more ≡ true → from p.next_key table ≡ rest
    pub progress : p.more ≡ true → 0 < length p.rows

  -- The documented behaviour of `get_table_rows` on a table that does not change meanwhile.
  abbrev pub IsReaderOf : List R → Reader R → Type ℓ
  IsReaderOf table read =
      (lower limit : ℕ) → (p : Page R) × (read lower limit ≡ ok p) × Answers table lower p

  pub from-zero : (table : List R) → from 0 table ≡ table
  from-zero [] = refl
  from-zero (r ∷ table) = ground (arith, from-zero table)

  module _ (table : List R) (read : Reader R) (reads : IsReaderOf table read) where
    pub count_pages-table :
        (fuel limit next_key count : ℕ)
        → length (from next_key table) < fuel
        → count_pages read fuel limit next_key count ≡ ok (count + length (from next_key table))
    unfolding count_pages
    count_pages-table zero limit next_key count h = elim h [ ]
    count_pages-table (suc fuel) limit next_key count h =
        let (p, e, a) = reads next_key limit in
        let l = ap (λ (rs : List R). length rs) a.split ∙ length-append p.rows a.rest in
        elim (Bool-cases p.more) [
          | inl more ↦
              rw (e, more)
                (count_pages-table fuel limit p.next_key (count + length p.rows)
                    (rw (a.further more) (omega (arith, a.progress more, l)))
                  ∙ ap ok (rw (a.further more) (omega (arith, l))))
          | inr done ↦
              rw (e, done) (ap ok (omega (arith, l, ap (λ (rs : List R). length rs) (a.last done))))
        ]

    -- What a run of the loop has found: the rows of a first part of the table that pass the test.
    -- It is the whole table, or there are enough of them.
    pub record Found (should : R → Bool) (limit next_key : ℕ) (results ys : List R) : Type ℓ where
      pub scanned : List R
      pub rest : List R
      pub split : from next_key table ≡ scanned ++ rest
      pub found : ys ≡ results ++ keep should scanned
      pub enough : (rest ≡ []) ⊎ (limit ≤ length ys)

    pub collect-table :
        (should : R → Bool) (fuel limit next_key : ℕ) (results : List R)
        → length (from next_key table) < fuel
        → (ys : List R) × (collect read fuel should limit next_key results ≡ ok ys)
          × Found should limit next_key results ys
    unfolding collect
    collect-table should zero limit next_key results h = elim h [ ]
    collect-table should (suc fuel) limit next_key results h =
        let (p, e, a) = reads next_key limit in
        let found = results ++ keep should p.rows in
        elim (Bool-cases (ltb (length found) limit)) [
          | inr full ↦ (
            found,
            rw (e, full),
            record {
              scanned = p.rows;
              rest = a.rest;
              split = a.split;
              found = refl;
              enough = inr (ground arith);
            },
          )
          | inl short ↦ elim (Bool-cases p.more) [
            | inr done ↦ (
              found,
              rw (e, short, done),
              record {
                scanned = p.rows;
                rest = a.rest;
                split = a.split;
                found = refl;
                enough = inl (a.last done);
              },
            )
            | inl more ↦
                let l = ap (λ (rs : List R). length rs) a.split ∙ length-append p.rows a.rest in
                let (ys, e', f) =
                  collect-table should fuel limit p.next_key found
                    (rw (a.further more) (omega (arith, a.progress more, l))) in
                (
                  ys,
                  rw (e, short, more) e',
                  record {
                    scanned = p.rows ++ f.scanned;
                    rest = f.rest;
                    split =
                        a.split
                        ∙ ap (λ (rs : List R). p.rows ++ rs) (sym (a.further more) ∙ f.split)
                        ∙ sym (append_assoc p.rows f.scanned f.rest);
                    found =
                        f.found
                        ∙ append_assoc results (keep should p.rows) (keep should f.scanned)
                        ∙ ap (λ (rs : List R). results ++ rs)
                            (sym (keep-append should p.rows f.scanned));
                    enough = f.enough;
                  },
                )
          ]
        ]
