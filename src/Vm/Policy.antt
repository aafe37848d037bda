-- ===== src/Vm/Policy.antt =====
-- crates/llmvm/src/capability_gateway.rs: `Policy` and its rules.
use boruna.Prelude.{ℕ, String, Bool, true, false, List, [], Option, none}
use boruna.Prelude.BTreeMap
use boruna.Prelude.BTreeMap.{BTreeMap}
use boruna.Bytecode.Capability.{Capability, name}

pub record PolicyRule : Type 0 where
  pub allow : Bool
  pub budget : ℕ

pub record NetPolicy : Type 0 where
  pub allowed_domains : List String
  pub allowed_methods : List String
  pub max_response_bytes : ℕ
  pub timeout_ms : ℕ
  pub allow_redirects : Bool

pub record Policy : Type 0 where
  pub schema_version : ℕ
  pub rules : BTreeMap PolicyRule
  pub default_allow : Bool
  pub net_policy : Option NetPolicy

abbrev pub default_rule : PolicyRule
default_rule = record { allow = true; budget = 0 }

abbrev pub default_net_policy : NetPolicy
default_net_policy = record {
  allowed_domains = [];
  allowed_methods = [];
  max_response_bytes = 10485760;
  timeout_ms = 30000;
  allow_redirects = true;
}

abbrev pub allow_all : Policy
allow_all = record { schema_version = 1; rules = []; default_allow = true; net_policy = none }

abbrev pub deny_all : Policy
deny_all = record { schema_version = 1; rules = []; default_allow = false; net_policy = none }

unfoldable pub allow : Capability → ℕ → Policy → Policy
allow c budget p = record p {
  rules = BTreeMap.insert (name c) (record { allow = true; budget = budget }) p.rules;
}

unfoldable pub deny : Capability → Policy → Policy
deny c p = record p {
  rules = BTreeMap.insert (name c) (record { allow = false; budget = 0 }) p.rules;
}
