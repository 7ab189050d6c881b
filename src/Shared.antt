-- ===== src/Shared.antt =====
-- Value objects of the domain (src/hisiem_soc_copilot/domain/investigation/value_objects.py).
-- A UUID is a number, a point in time is a number of microseconds.
use hisiem_soc_copilot.Prelude.{ℕ, ◌*◌, String, Option, Bool, ◌&&◌, str_eq}

pub record ExternalResourceRef : Type 0 where
  pub provider : String
  pub resource_type : String
  pub address_id : String
  pub business_id : Option String

unfoldable pub is_alert : ExternalResourceRef → Bool
is_alert r = str_eq r.provider "hisiem" && str_eq r.resource_type "alert"

pub record ActorRef : Type 0 where
  pub subject_id : String
  pub tenant_id : String
  pub display_name : Option String
  pub role_snapshot : Option String

pub record BudgetLimits : Type 0 where
  pub max_steps : ℕ
  pub max_tool_calls : ℕ
  pub max_llm_calls : ℕ
  pub max_llm_tokens : ℕ
  pub max_duration_seconds : ℕ

abbrev pub default_limits : BudgetLimits
default_limits = record {
  max_steps = 20;
  max_tool_calls = 30;
  max_llm_calls = 20;
  max_llm_tokens = 20000;
  max_duration_seconds = 600;
}

-- `timedelta(seconds=n)`.
abbrev pub seconds : ℕ → ℕ
seconds n = n * 1000000
