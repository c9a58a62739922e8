-- ===== src/ShareKey/Service/Ready.antt =====
-- When the service of lib/shareKeyService.js is ready.
use wax_rng_oracle.Prelude.{
  ℕ, ◌≡◌, refl, sym, ap, subst, String, ◌∙◌, Bool, true, false, ◌&&◌, ◌||◌, Option, none, some, ◌⊎◌,
  inl, inr, List, [], ◌∷◌, arith, any, Bool-cases,
}
use wax_rng_oracle.ShareKey.Service.{
  Parsed, not_a_number, minus, plus, parsed, index_after, config_after, ShareConfig, Parameters,
  Validated, refused, valid, has_key, has_text, with_defaults, validate_share_config, Failure,
  Library, Service, new_service, make_share, construct, initialize, is_ready, is_some,
}

-- `initialize` threw nothing.
abbrev pub is_none {ℓ} : {A : Type ℓ} → Option A → Bool
is_none none = true
is_none (some a) = false

pub initialize_all : List Library → Service → Service
initialize_all [] s = s
initialize_all (l ∷ ls) s = initialize_all ls (initialize l s).1

abbrev is_valid : Validated → Bool
is_valid (refused r) = false
is_valid (valid p) = true

-- An initialized service has its share and its parameters, and a valid configuration.
record IsSound (s : Service) : Type 0 where
  share : s.initialized ≡ true → s.share ≡ true
  parameters : s.initialized ≡ true → is_some s.parameters ≡ true
  config : s.initialized ≡ true → is_valid (validate_share_config s.config) ≡ true

-- One call of `initialize` that ends with `r`.
record Steps (s : Service) (r : Option Failure × Service) : Type 0 where
  sound : IsSound r.1
  config : r.1.config ≡ s.config
  initialized : r.1.initialized ≡ (is_none r.0 || s.initialized)

make-Steps :
    (a : Option (List ℕ)) (b : List ℕ ⊎ ℕ) (d : Option (List ℕ)) (q : Parameters) (s : Service)
    → is_valid (validate_share_config s.config) ≡ true
    → IsSound s
    → Steps s (make_share a b d (record s { parameters = some q }))
make-Steps (some x) b d q s v h = record {
  sound = record { share = h.share; parameters = λ e. refl; config = h.config };
  config = refl;
  initialized = refl;
}
make-Steps none (inl x) d q s v h = record {
  sound = record { share = λ e. refl; parameters = λ e. refl; config = h.config };
  config = refl;
  initialized = refl;
}
make-Steps none (inr n) (some x) q s v h = record {
  sound = record { share = λ e. refl; parameters = λ e. refl; config = h.config };
  config = refl;
  initialized = refl;
}
make-Steps none (inr n) none q s v h = record {
  sound = record { share = λ e. refl; parameters = λ e. refl; config = λ e. v };
  config = refl;
  initialized = refl;
}

-- The index of the share parses, so that it is kept.
abbrev pub is_parsed : Parsed → Bool
is_parsed not_a_number = false
is_parsed (minus n) = true
is_parsed (plus n) = true

index_after-same : (x : Parsed) (t : Option String) → is_parsed x ≡ true → index_after x t ≡ t
index_after-same not_a_number t h = absurd (cc)
index_after-same (minus n) t h = refl
index_after-same (plus n) t h = refl

config_after-same : (c : ShareConfig) → is_parsed (parsed c.share_index) ≡ true → config_after c ≡ c
config_after-same c h =
    ap (λ (t : Option String). record c { share_index = t })
      (index_after-same (parsed c.share_index) c.share_index h)

construct-Steps :
    (l : Library) (v : Validated) (s : Service)
    → is_parsed (parsed s.config.share_index) ≡ true
    → validate_share_config s.config ≡ v
    → IsSound s
    → Steps s (construct l v s)
construct-Steps l (refused r) s n e h = record { sound = h; config = refl; initialized = refl }
construct-Steps l (valid p) s n e h =
    let q = with_defaults p in
    subst
      (λ (c : ShareConfig). Steps s (
        make_share (l.new_share s.config q) (l.parse_big_integer s.config.public_key)
          (l.new_verifier s.config q) (record s { config = c; parameters = some q })))
      (sym (config_after-same s.config n))
      (make-Steps (l.new_share s.config q) (l.parse_big_integer s.config.public_key)
        (l.new_verifier s.config q) q s (ap is_valid e) h)

initialize-Steps :
    (l : Library) (s : Service)
    → is_parsed (parsed s.config.share_index) ≡ true
    → IsSound s
    → Steps s (initialize l s)
unfolding initialize
initialize-Steps l s n h = construct-Steps l (validate_share_config s.config) s n refl h

-- A call ends alike for two services of one configuration.
same_end :
    (l : Library) (a : Option (List ℕ)) (b : List ℕ ⊎ ℕ) (d : Option (List ℕ)) (s t : Service)
    → is_none (make_share a b d s).0 ≡ is_none (make_share a b d t).0
same_end l (some x) b d s t = refl
same_end l none (inl x) d s t = refl
same_end l none (inr n) (some x) s t = refl
same_end l none (inr n) none s t = refl

construct-same :
    (l : Library) (v : Validated) (s t : Service)
    → s.config ≡ t.config
    → is_none (construct l v s).0 ≡ is_none (construct l v t).0
construct-same l (refused r) s t e = refl
construct-same l (valid p) s t e = rw e (same_end l _ _ _ _ _)

initialize-same :
    (l : Library) (s t : Service)
    → s.config ≡ t.config
    → is_none (initialize l s).0 ≡ is_none (initialize l t).0
unfolding initialize
initialize-same l s t e =
    construct-same l (validate_share_config s.config) s t e
    ∙ ap (λ (v : Validated). is_none (construct l v t).0) (ap validate_share_config e)

has_fields :
    (c : ShareConfig)
    → is_valid (validate_share_config c) ≡ true
    → (has_key c.public_key
        && (has_text c.shared_key
            && (has_text c.verification_key && has_text c.verification_key_share)))
      ≡ true
unfolding validate_share_config
has_fields c h = ground (arith, h)

ready_if : (s : Service) → IsSound s → is_ready s ≡ s.initialized
unfolding is_ready
ready_if s h = elim (Bool-cases s.initialized) [
  | inl done ↦
      ground (arith, done, h.share done, h.parameters done, has_fields s.config (h.config done))
  | inr fresh ↦ ground (arith, fresh)
]

all_ready :
    (c : ShareConfig) (ls : List Library) (s : Service)
    → is_parsed (parsed c.share_index) ≡ true
    → s.config ≡ c
    → IsSound s
    → is_ready (initialize_all ls s)
      ≡ (any (λ l. is_none (initialize l (new_service c)).0) ls || s.initialized)
unfolding initialize_all new_service
all_ready c [] s n e h = ready_if s h
all_ready c (l ∷ ls) s n e h =
    let t =
      initialize-Steps l s (ap (λ (x : ShareConfig). is_parsed (parsed x.share_index)) e ∙ n) h in
    all_ready c ls (initialize l s).1 n (t.config ∙ e) t.sound
    ∙ regroup _ _ _ _ _ t.initialized (initialize-same l s (new_service c) (e ∙ sym new_config))
  where
    new_config : (new_service c).config ≡ c
    new_config = refl

    regroup : (a b f g i : Bool) → f ≡ (g || i) → g ≡ b → (a || f) ≡ ((b || a) || i)
    regroup a b f g i p q = ground (arith, p, q)

-- If the index of the share parses, then after any calls of `initialize`, whatever the library does in each,
-- the service is ready exactly when one of the calls would throw nothing on a new service.
pub initialize_all-is_ready :
    (c : ShareConfig) (ls : List Library)
    → is_parsed (parsed c.share_index) ≡ true
    → is_ready (initialize_all ls (new_service c))
      ≡ any (λ l. is_none (initialize l (new_service c)).0) ls
unfolding new_service
initialize_all-is_ready c ls n =
    all_ready c ls (new_service c) n refl (record {
      share = λ e. absurd (cc);
      parameters = λ e. absurd (cc);
      config = λ e. absurd (cc);
    })
    ∙ or_false (any (λ l. is_none (initialize l (new_service c)).0) ls)
  where
    or_false : (b : Bool) → (b || false) ≡ b
    or_false b = ground arith
