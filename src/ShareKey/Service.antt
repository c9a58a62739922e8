-- ===== src/ShareKey/Service.antt =====
-- The life of the service of lib/shareKeyService.js: its configuration, `initialize`, its status and
-- the guards of its methods. The configuration's values are texts, as the environment gives them; the
-- threshold library's constructors and its parser are parameters.
mod Numbers
pub mod Ready
use wax_rng_oracle.Prelude.{
  ℕ, zero, suc, ◌+◌, ◌-◌, ◌*◌, String, Bool, true, false, not, ◌&&◌, ◌||◌, Option, none, some, ◌⊎◌,
  inl, inr, List, [], ◌∷◌, ltb, leb, ◌==◌, text_eq, if◌then◌else◌, is_space,
}
use wax_rng_oracle.BootChecks.{Verified, unparseable}
use wax_rng_oracle.BootChecks.Rows.{PublicKey}
use wax_rng_oracle.ShareKey.{codes, Accepted, Combined, combine_threw, combine_partial_signatures}
use wax_rng_oracle.ShareKey.Signing.{SignResult, sign}
use wax_rng_oracle.ShareKey.Redaction.{redact_value_echo}
use wax_rng_oracle.Model.{Part}
unfoldable pub use Numbers.*

pub record KeyText : Type 0 where
  pub n : String
  pub e : String

-- `config.get('shareKey')`
pub record ShareConfig : Type 0 where
  pub public_key : Option KeyText
  pub shared_key : Option String
  pub verification_key : Option String
  pub share_index : Option String
  pub verification_key_share : Option String
  pub vku : Option String
  pub threshold : Option String
  pub num_parties : Option String
  pub bits : Option String

pub data Field : Type 0 where
  public_key shared_key verification_key share_index verification_key_share vku : Field

-- `!!text`
abbrev pub has_text : Option String → Bool
has_text none = false
has_text (some t) = not (text_eq t "")

abbrev pub has_key : Option KeyText → Bool
has_key none = false
has_key (some k) = true

pub data Refusal : Type 0 where
  missing : Field → Refusal
  index_not_positive index_exceeds_parties : Refusal

pub record Parameters : Type 0 where
  pub share_index : Parsed
  pub threshold : Parsed
  pub num_parties : Parsed
  pub bits : Parsed

pub data Validated : Type 0 where
  refused : Refusal → Validated
  valid : Parameters → Validated

abbrev pub parameters_of : ShareConfig → Parameters
parameters_of c = record {
  share_index = parsed c.share_index;
  threshold = or_else 0 (parsed c.threshold);
  num_parties = or_else 0 (parsed c.num_parties);
  bits = or_else 4096 (parsed c.bits);
}

abbrev pub check_range : Parameters → Validated
check_range p =
    if below_one p.share_index
    then refused index_not_positive
    else if exceeds p.share_index p.num_parties
    then refused index_exceeds_parties
    else valid p

unfoldable pub validate_share_config : ShareConfig → Validated
unfolding parse_int
validate_share_config c =
    if not (has_key c.public_key)
    then refused (missing public_key)
    else if not (has_text c.shared_key)
    then refused (missing shared_key)
    else if not (has_text c.verification_key)
    then refused (missing verification_key)
    else if not (has_text c.share_index)
    then refused (missing share_index)
    else if not (has_text c.verification_key_share)
    then refused (missing verification_key_share)
    else if not (has_text c.vku)
    then refused (missing vku)
    else check_range (parameters_of c)

-- What `initialize` throws: a refusal of its own, or an error of the library with its redacted message.
pub data Failure : Type 0 where
  invalid : Refusal → Failure
  library_error : (message : List ℕ) → Failure

-- The library: a constructor returns (`none`) or throws a message.
pub record Library : Type 0 where
  pub new_share : ShareConfig → Parameters → Option (List ℕ)
  pub parse_big_integer : Option KeyText → List ℕ ⊎ ℕ
  pub new_verifier : ShareConfig → Parameters → Option (List ℕ)

-- The fields of the service.
pub record Service : Type 0 where
  pub config : ShareConfig
  pub parameters : Option Parameters
  pub share : Bool
  pub modulus : Option ℕ
  pub verifier : Bool
  pub initialized : Bool

unfoldable pub new_service : ShareConfig → Service
new_service c = record {
  config = c;
  parameters = none;
  share = false;
  modulus = none;
  verifier = false;
  initialized = false;
}

-- `this.threshold = this.config.threshold || 2`, and so on.
abbrev pub with_defaults : Parameters → Parameters
with_defaults p = record p {
  threshold = or_else 2 p.threshold;
  num_parties = or_else 3 p.num_parties;
  bits = or_else 4096 p.bits;
}

abbrev pub failed_with : List ℕ → Service → Option Failure × Service
failed_with message s = (some (library_error (redact_value_echo message)), s)

abbrev pub make_verifier : Option (List ℕ) → Service → Option Failure × Service
make_verifier (some message) s = failed_with message s
make_verifier none s = (none, record s { verifier = true; initialized = true })

abbrev pub make_modulus : Option (List ℕ) → List ℕ ⊎ ℕ → Service → Option Failure × Service
make_modulus verifier (inl message) s = failed_with message s
make_modulus verifier (inr n) s = make_verifier verifier (record s { modulus = some n })

abbrev pub make_share :
    Option (List ℕ) → List ℕ ⊎ ℕ → Option (List ℕ) → Service → Option Failure × Service
make_share (some message) modulus verifier s = failed_with message s
make_share none modulus verifier s = make_modulus verifier modulus (record s { share = true })

-- A NaN is falsy, like a field that is missing.
abbrev pub index_after : Parsed → Option String → Option String
index_after not_a_number t = none
index_after (minus n) t = t
index_after (plus n) t = t

-- The configuration that a valid one is replaced by. Its other numbers are parsed to themselves.
abbrev pub config_after : ShareConfig → ShareConfig
config_after c = record c { share_index = index_after (parsed c.share_index) c.share_index }

abbrev pub construct : Library → Validated → Service → Option Failure × Service
construct l (refused r) s = (some (invalid r), s)
construct l (valid p) s =
    let q = with_defaults p in
    make_share (l.new_share s.config q) (l.parse_big_integer s.config.public_key)
      (l.new_verifier s.config q) (record s { config = config_after s.config; parameters = some q })

-- What it throws, and the service after it.
unfoldable pub initialize : Library → Service → Option Failure × Service
unfolding validate_share_config
initialize l s = construct l (validate_share_config s.config) s

abbrev is_some {ℓ} : {A : Type ℓ} → Option A → Bool
is_some none = false
is_some (some a) = true

unfoldable pub is_ready : Service → Bool
is_ready s =
    s.initialized
    && (s.share
        && (has_key s.config.public_key
            && (has_text s.config.shared_key
                && (has_text s.config.verification_key
                    && (has_text s.config.verification_key_share && is_some s.parameters)))))

pub record Status : Type 0 where
  pub initialized : Bool
  pub parameters : Option Parameters
  pub has_public_key : Bool
  pub has_shared_key : Bool
  pub has_verification_key : Bool
  pub has_verification_key_share : Bool

-- A key field is assigned with the parameters.
unfoldable pub get_status : Service → Status
get_status s = record {
  initialized = s.initialized;
  parameters = s.parameters;
  has_public_key = is_some s.parameters && has_key s.config.public_key;
  has_shared_key = is_some s.parameters && has_text s.config.shared_key;
  has_verification_key = is_some s.parameters && has_text s.config.verification_key;
  has_verification_key_share = is_some s.parameters && has_text s.config.verification_key_share;
}

-- `verifyConsistency` with the key on the chain: it throws before `initialize`, which sets the
-- parameters.
abbrev pub consistency :
    (Parameters → PublicKey → Verified) → Option Parameters → PublicKey → Verified
consistency library none k = unparseable
consistency library (some p) k = library p k

unfoldable pub verify_consistency :
    (Parameters → PublicKey → Verified) → Service → PublicKey → Verified
verify_consistency library s k =
    if s.initialized then consistency library s.parameters k else unparseable
