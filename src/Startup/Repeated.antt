-- ===== src/Startup/Repeated.antt =====
-- When the rounds of `poll` of index.js start.
use wax_rng_oracle.Prelude.{
  ℕ, zero, suc, ◌+◌, ◌≤◌, ◌≡◌, refl, sym, ap, ◌∙◌, subst, some, List, [], ◌∷◌, arith, length,
  get_elem?,
}
use wax_rng_oracle.Startup.{Round, ended, threw, lasts, pause_after, poll}

-- A round that starts at `a` is over, and `time` has passed, when the next starts at `b`, no later
-- than both together.
pub record Apart (time : ℕ) (r : Round) (a b : ℕ) : Type 0 where
  pub over : a + lasts r ≤ b
  pub spaced : a + time ≤ b
  pub soon : b ≤ a + lasts r + time

apart : (time : ℕ) (r : Round) (a : ℕ) → Apart time r a (a + lasts r + pause_after time r)
apart time (ended ms) a = record { over = omega arith; spaced = omega arith; soon = omega arith }
apart time (threw ms) a = record { over = omega arith; spaced = omega arith; soon = omega arith }

first : (time now : ℕ) (rs : List Round) → get_elem? (poll time now rs) 0 ≡ some now
unfolding poll
first time now [] = refl
first time now (r ∷ rs) = refl

same-Apart :
    (time : ℕ) (r r' : Round) (a a' b : ℕ)
    → r' ≡ r
    → a' ≡ a
    → a' + lasts r' + pause_after time r' ≡ b
    → Apart time r a b
same-Apart time r r' a a' b er ea eb =
    subst (λ (x : Round). Apart time x a b) er
      (subst (λ (x : ℕ). Apart time r' x b) ea
        (subst (λ (x : ℕ). Apart time r' a' x) eb (apart time r' a')))

inside : (x y : ℕ) → some x ≡ some y → x ≡ y
inside x y h = cc

Apart-at :
    (time now : ℕ) (rs : List Round) (i : ℕ) (r : Round) (a b : ℕ)
    → get_elem? rs i ≡ some r
    → get_elem? (poll time now rs) i ≡ some a
    → get_elem? (poll time now rs) (suc i) ≡ some b
    → Apart time r a b
unfolding poll
Apart-at time now [] i r a b h ha hb = absurd (cc)
Apart-at time now (r' ∷ rs) (suc i) r a b h ha hb =
    Apart-at time (now + lasts r' + pause_after time r') rs i r a b h ha hb
Apart-at time now (r' ∷ rs) zero r a b h ha hb =
    same-Apart time r r' a now b (cc) (cc)
      (inside _ _ (sym (first time (now + lasts r' + pause_after time r') rs) ∙ hb))

-- Whatever rounds throw, each is followed by one more.
length-poll : (time now : ℕ) (rs : List Round) → length (poll time now rs) ≡ suc (length rs)
unfolding poll
length-poll time now [] = refl
length-poll time now (r ∷ rs) = ap suc (length-poll time (now + lasts r + pause_after time r) rs)

-- Whatever rounds throw, each is followed by one more; none starts before the one before it is over, or
-- less than `time` after its start, and none later than `time` after its end.
pub poll-Apart :
    (time now : ℕ) (rs : List Round) (i : ℕ) (r : Round) (a b : ℕ)
    → get_elem? rs i ≡ some r
    → get_elem? (poll time now rs) i ≡ some a
    → get_elem? (poll time now rs) (suc i) ≡ some b
    → (length (poll time now rs) ≡ suc (length rs)) × Apart time r a b
poll-Apart time now rs i r a b h ha hb =
    (length-poll time now rs, Apart-at time now rs i r a b h ha hb)
