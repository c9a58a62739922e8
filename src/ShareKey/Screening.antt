-- ===== src/ShareKey/Screening.antt =====
-- The screening of partial signatures loses none, and reports each under its own position.
use mathlib.Core.List.{append_assoc}
use wax_rng_oracle.Prelude.{
  ℕ, suc, ◌+◌, ◌≡◌, refl, sym, ◌∙◌, Bool, true, false, List, [], ◌∷◌, ◌++◌, arith, length, not, map,
  if◌then◌else◌, length-append, get_elem?, All, some, Bool-cases, inl, inr,
}
use wax_rng_oracle.Model.{Value, undefined, integer, text, Part}
use wax_rng_oracle.ShareKey.{
  Accepted, Rejected, Screened, codes, nonempty_hex, judge, judge_signature, screen_from,
  screen_partials,
}

-- An integer index and a hexadecimal text.
abbrev pub hex_value : Value → Bool
hex_value (text sig) = nonempty_hex (codes sig)
hex_value _ = false

abbrev both : Value → Bool → Bool
both (integer n) b = b
both _ b = false

abbrev pub well_formed : Part → Bool
well_formed p = both p.idx (hex_value p.sig_i)

module _ (parts : List Part) where
  pub record AcceptedAt (a : Accepted) : Type 0 where
    pub part : Part
    pub found : get_elem? parts a.position ≡ some part
    pub index : part.idx ≡ integer a.share_index
    pub signature : part.sig_i ≡ text a.signature_share
    pub formed : well_formed part ≡ true

  pub record RejectedAt (r : Rejected) : Type 0 where
    pub part : Part
    pub found : get_elem? parts r.position ≡ some part
    pub index : part.idx ≡ r.share_index
    pub formed : well_formed part ≡ false

  -- Each list names the parts by their positions on the chain and by their indices, the accepted are
  -- well formed and the rejected are not.
  pub record IsReported (count : ℕ) (s : Screened) : Type 0 where
    pub accepted : All AcceptedAt s.accepted
    pub rejected : All RejectedAt s.rejected
    pub total : length s.accepted + length s.rejected ≡ count

  judge_signature-IsReported :
      (n position idx : ℕ) (sig : Value) (rest : Screened)
      → get_elem? parts position ≡ some (record { idx = integer idx; sig_i = sig })
      → IsReported n rest
      → IsReported (suc n) (judge_signature position idx sig rest)
  judge_signature-IsReported n position idx (text sig) rest at h =
      elim (Bool-cases (nonempty_hex (codes sig))) [
        | inl hex ↦ rw hex (record {
          accepted = (
            record { part = _; found = at; index = refl; signature = refl; formed = hex },
            h.accepted,
          );
          rejected = h.rejected;
          total = omega (arith, h.total);
        })
        | inr bad ↦ rw bad (record {
          accepted = h.accepted;
          rejected = (record { part = _; found = at; index = refl; formed = bad }, h.rejected);
          total = omega (arith, h.total);
        })
      ]
  judge_signature-IsReported n position idx undefined rest at h = record {
    accepted = h.accepted;
    rejected = (record { part = _; found = at; index = refl; formed = refl }, h.rejected);
    total = omega (arith, h.total);
  }
  judge_signature-IsReported n position idx _ rest at h = record {
    accepted = h.accepted;
    rejected = (record { part = _; found = at; index = refl; formed = refl }, h.rejected);
    total = omega (arith, h.total);
  }

  judge-IsReported :
      (n position : ℕ) (idx sig : Value) (rest : Screened)
      → get_elem? parts position ≡ some (record { idx = idx; sig_i = sig })
      → IsReported n rest
      → IsReported (suc n) (judge position idx sig rest)
  judge-IsReported n position (integer idx) sig rest at h =
      judge_signature-IsReported n position idx sig rest at h
  judge-IsReported n position _ sig rest at h = record {
    accepted = h.accepted;
    rejected = (record { part = _; found = at; index = refl; formed = refl }, h.rejected);
    total = omega (arith, h.total);
  }

get_elem?-append_at {ℓ} :
    {A : Type ℓ} (before : List A) (a : A) (after : List A)
    → get_elem? (before ++ a ∷ after) (length before) ≡ some a
get_elem?-append_at [] a after = refl
get_elem?-append_at (b ∷ before) a after = get_elem?-append_at before a after

screen_from-IsReported :
    (parts before ps : List Part) (position : ℕ)
    → parts ≡ before ++ ps
    → position ≡ length before
    → IsReported parts (length ps) (screen_from position ps)
unfolding screen_from
screen_from-IsReported parts before [] position e k = record {
  accepted = tt;
  rejected = tt;
  total = refl;
}
screen_from-IsReported parts before (p ∷ ps) position e k =
    judge-IsReported parts (length ps) position p.idx p.sig_i (screen_from (position + 1) ps)
      (rw (e, k) (get_elem?-append_at before p ps))
      (screen_from-IsReported parts (before ++ p ∷ []) ps (position + 1)
        (e ∙ sym (append_assoc before (p ∷ []) ps)) (omega (arith, length-append before (p ∷ []))))

-- The positions, counted from one on, of the parts that the test accepts.
abbrev pub positions_where : (Part → Bool) → ℕ → List Part → List ℕ
positions_where test position [] = []
positions_where test position (p ∷ ps) =
    let rest = positions_where test (position + 1) ps in if test p then position ∷ rest else rest

abbrev accepted_positions : Screened → List ℕ
accepted_positions s = map (λ (a : Accepted). a.position) s.accepted

abbrev rejected_positions : Screened → List ℕ
rejected_positions s = map (λ (r : Rejected). r.position) s.rejected

-- The part at the position is put where it belongs, before the rest.
abbrev Sorts : ℕ → Part → Screened → Screened → Type 0
Sorts position p rest s =
    (accepted_positions s
      ≡ (if well_formed p then position ∷ accepted_positions rest else accepted_positions rest))
    × (rejected_positions s ≡ (
        if not (well_formed p)
        then position ∷ rejected_positions rest
        else rejected_positions rest))

judge_signature-Sorts :
    (position idx : ℕ) (sig : Value) (rest : Screened)
    → Sorts position
        (record { idx = integer idx; sig_i = sig })
        rest
        (judge_signature position idx sig rest)
judge_signature-Sorts position idx (text sig) rest = elim (Bool-cases (nonempty_hex (codes sig))) [
  | inl hex ↦ rw hex (refl, refl)
  | inr bad ↦ rw bad (refl, refl)
]
judge_signature-Sorts position idx undefined rest = (refl, refl)
judge_signature-Sorts position idx _ rest = (refl, refl)

judge-Sorts :
    (position : ℕ) (idx sig : Value) (rest : Screened)
    → Sorts position (record { idx = idx; sig_i = sig }) rest (judge position idx sig rest)
judge-Sorts position (integer idx) sig rest = judge_signature-Sorts position idx sig rest
judge-Sorts position _ sig rest = (refl, refl)

screen_from-positions :
    (ps : List Part) (position : ℕ)
    → (accepted_positions (screen_from position ps) ≡ positions_where well_formed position ps)
      × (rejected_positions (screen_from position ps)
          ≡ positions_where (λ p. not (well_formed p)) position ps)
unfolding screen_from
screen_from-positions [] position = (refl, refl)
screen_from-positions (p ∷ ps) position =
    let s = judge-Sorts position p.idx p.sig_i (screen_from (position + 1) ps) in
    let h = screen_from-positions ps (position + 1) in (s.0 ∙ rw (h.0) refl, s.1 ∙ rw (h.1) refl)

-- Each part is accepted or rejected, once, at its own position.
pub record IsScreened (parts : List Part) (s : Screened) : Type 0 where
  pub accepts : accepted_positions s ≡ positions_where well_formed 0 parts
  pub rejects : rejected_positions s ≡ positions_where (λ p. not (well_formed p)) 0 parts
  pub reports : IsReported parts (length parts) s

-- `screenPartials` accepts exactly the parts with an integer index and a nonempty hexadecimal
-- signature and rejects exactly the others: the positions of the accepted, in the order of the list, are all
-- those of the former, each once, the positions of the rejected all those of the latter, and each
-- entry has the index of the part at its position, an accepted one also its signature.
pub screen_partials-IsScreened : (parts : List Part) → IsScreened parts (screen_partials parts)
unfolding screen_partials
screen_partials-IsScreened parts =
    let p = screen_from-positions parts 0 in
    record {
      accepts = p.0;
      rejects = p.1;
      reports = screen_from-IsReported parts [] parts 0 refl refl;
    }
