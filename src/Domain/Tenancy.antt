-- ===== src/Domain/Tenancy.antt =====
-- internal/domain/config.go and event.go: tenants, the endpoints that receive for them, and the raw
-- events that arrive there.
use status_hub.Prelude.{ℕ, Bool, ◌||◌, ◌++◌, ◌∷◌, List, ◌==◌, Text, text_Eq, codes, Dict}

abbrev pub env_test : Text
env_test = codes "test"

abbrev pub env_live : Text
env_live = codes "live"

unfoldable pub valid_environment : Text → Bool
valid_environment e = (e == env_test) || (e == env_live)

pub record Tenant : Type 0 where
  pub id : Text
  pub slug : Text
  pub name : Text
  pub created_at : ℕ

pub record Endpoint : Type 0 where
  pub id : Text
  pub tenant_id : Text
  pub provider : Text
  pub environment : Text
  pub receiver_token : Text
  pub secret_ref : Text
  pub adapter_name : Text
  pub adapter_config : Text
  pub allowed_source_cidrs : List Text
  pub enabled : Bool
  pub created_at : ℕ
  pub rotated_at : ℕ

unfoldable pub receiver_path : Endpoint → Text → Text
receiver_path e tenant_slug =
    codes "/v1/hooks/"
    ++ (tenant_slug ++ (b'/' ∷ e.provider ++ (b'/' ∷ e.environment ++ (b'/' ∷ e.receiver_token))))

-- `source_ip` is the text of the address, empty where there is none.
pub record RawEvent : Type 0 where
  pub id : Text
  pub tenant_id : Text
  pub endpoint_id : Text
  pub provider : Text
  pub headers : Dict Text Text
  pub body : Text
  pub body_sha256 : Text
  pub redacted : Bool
  pub redaction_note : Text
  pub source_ip : Text
  pub signature_valid : Bool
  pub signature_error : Text
  pub received_at : ℕ
