-- ===== src/ShareKey/Redaction.antt =====
-- `redactValueEcho` of lib/shareKeyService.js: the value that the library's parser quotes is taken out
-- of an error's message before the message is logged. A text is the list of its code points here.
use wax_rng_oracle.Prelude.{
  ℕ, ◌≡◌, refl, sym, ◌∙◌, ap₂, Bool, false, ◌&&◌, List, [], ◌∷◌, ◌++◌, ◌==◌, if◌then◌else◌,
  is_space, arith,
}
use wax_rng_oracle.ShareKey.{codes}

-- `got\s`, at the start of a text.
abbrev got_space : List ℕ → Bool
got_space (a ∷ b ∷ c ∷ d ∷ s) = a == b'g' && (b == b'o' && (c == b't' && is_space d))
got_space _ = false

-- `\s*got\s`
after_spaces : List ℕ → Bool
after_spaces [] = false
after_spaces (c ∷ s) = let later = after_spaces s in if is_space c then later else got_space (c ∷ s)

-- `/;\s*got\s/`, at the start of a text.
abbrev echoes : List ℕ → Bool
echoes [] = false
echoes (c ∷ s) = c == b';' && after_spaces s

-- The text up to the first match, which the rest of the text belongs to.
unfoldable pub redact_value_echo : List ℕ → List ℕ
unfolding after_spaces
redact_value_echo [] = []
redact_value_echo (c ∷ s) =
    let rest = redact_value_echo s in
    if c == b';' && after_spaces s then codes "; got <redacted>" else c ∷ rest

semicolon_third : (c d : ℕ) (v : List ℕ) → got_space (c ∷ d ∷ b';' ∷ v) ≡ false
semicolon_third c d [] = refl
semicolon_third c d (x ∷ v) = ground arith

semicolon_second : (c : ℕ) (v : List ℕ) → got_space (c ∷ b';' ∷ v) ≡ false
semicolon_second c [] = refl
semicolon_second c (x ∷ []) = refl
semicolon_second c (x ∷ y ∷ v) = ground arith

semicolon_first : (v : List ℕ) → got_space (b';' ∷ v) ≡ false
semicolon_first [] = refl
semicolon_first (x ∷ []) = refl
semicolon_first (x ∷ y ∷ []) = refl
semicolon_first (x ∷ y ∷ z ∷ v) = refl

-- What stands after a semicolon does not count before it.
got_space-after :
    (c : ℕ) (s v w : List ℕ) → got_space (c ∷ s ++ b';' ∷ v) ≡ got_space (c ∷ s ++ b';' ∷ w)
got_space-after c (d ∷ e ∷ f ∷ s) v w = refl
got_space-after c (d ∷ e ∷ []) v w = refl
got_space-after c (d ∷ []) v w = semicolon_third c d v ∙ sym (semicolon_third c d w)
got_space-after c [] v w = semicolon_second c v ∙ sym (semicolon_second c w)

after_spaces-after : (s v w : List ℕ) → after_spaces (s ++ b';' ∷ v) ≡ after_spaces (s ++ b';' ∷ w)
unfolding after_spaces
after_spaces-after [] v w = semicolon_first v ∙ sym (semicolon_first w)
after_spaces-after (c ∷ s) v w =
    ap₂ (λ (a b : Bool). if is_space c then a else b) (after_spaces-after s v w)
      (got_space-after c s v w)

-- A message that quotes a value after `; got ` is redacted to the same text whatever the value is.
pub redact_value_echo-hides :
    (before v w : List ℕ)
    → redact_value_echo (before ++ (codes "; got " ++ v))
      ≡ redact_value_echo (before ++ (codes "; got " ++ w))
unfolding redact_value_echo
redact_value_echo-hides [] v w = refl
redact_value_echo-hides (c ∷ s) v w =
    ap₂ (λ (a : Bool) (r : List ℕ). if c == b';' && a then codes "; got <redacted>" else c ∷ r)
      (after_spaces-after s (codes " got " ++ v) (codes " got " ++ w))
      (redact_value_echo-hides s v w)
