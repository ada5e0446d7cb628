-- ===== src/Machine.antt =====
-- src/machine.rs: how the profiles of a machine, of which each has a panel, become the nodes that the
-- agent runs. Names has the names and directories, Offered and Merge the configuration of the
-- subscription proxy, Resolve the resolution of all profiles; the other children have the proofs.
-- The types of the configuration are those of src/config.rs.
pub mod Names
pub mod Offered
pub mod Merge
pub mod Resolve
pub mod Resolved
pub mod Summary
pub mod Answered
pub mod Keys
pub mod Pushed
pub mod Sites
pub mod Served
mod Tests
use kelinode_rs.Prelude.{ℕ, Bool, Option, none, some, List}
use kelinode_rs.Prelude.Text.{Text, text}
use kelinode_rs.Prelude.Result.{Result}
use kelinode_rs.Panel.{Value, RealtimeBaseConfig}
use kelinode_rs.SubscriptionProxy.{
  SubscriptionProxyProfile, WebsiteProxyProfile, SubscriptionProxyZeroSslConfig,
  SubscriptionProxyConfig as RuntimeSubscriptionProxyConfig,
}

abbrev pub default_config_dir : Text
default_config_dir = text "/etc/kelinode"

pub record MachineProfileConfig : Type 0 where
  pub name : Text
  pub url : Text
  pub token : Text
  pub machine_id : ℕ
  pub timeout : ℕ
  pub config_dir : Text

pub record NodeConfig : Type 0 where
  pub url : Text
  pub token : Text
  pub node_id : ℕ
  pub machine_id : ℕ
  pub timeout : ℕ
  pub config_dir : Text

pub record AgentConfig : Type 0 where
  pub subscription_proxy : RuntimeSubscriptionProxyConfig

pub record MachinePanelNode : Type 0 where
  pub id : ℕ
  pub code : Text
  pub node_type : Text
  pub name : Text
  pub updated_at : Value

pub record MachineProfileBaseConfig : Type 0 where
  pub realtime : Option RealtimeBaseConfig

-- What a panel says of the proxy.
pub record SubscriptionProxyConfig : Type 0 where
  pub enabled : Bool
  pub https_listen : Text
  pub http_listen : Text
  pub cert_file : Text
  pub key_file : Text
  pub certificate_domain : Text
  pub challenge_dir : Text
  pub zerossl : SubscriptionProxyZeroSslConfig
  pub site_id : Text
  pub upstream_base_url : Text
  pub subscribe_path : Text
  pub allow_http_fallback : Bool
  pub max_response_bytes : ℕ
  pub profiles : List SubscriptionProxyProfile
  pub website_profiles : List WebsiteProxyProfile

pub record MachineAgentConfig : Type 0 where
  pub subscription_proxy : Option SubscriptionProxyConfig

pub record MachineNodesResponse : Type 0 where
  pub nodes : List MachinePanelNode
  pub base_config : Option MachineProfileBaseConfig
  pub agent : Option MachineAgentConfig

pub record MachineNodesEnvelope : Type 0 where
  pub nodes : List MachinePanelNode
  pub base_config : Option MachineProfileBaseConfig
  pub agent : Option MachineAgentConfig
  pub data' : Option MachineNodesResponse

pub record MachineProfileRealtime : Type 0 where
  pub profile : Text
  pub machine_id : ℕ
  pub enabled : Bool
  pub url : Text
  pub ping_interval : ℕ

pub record MachineResolveFailure : Type 0 where
  pub profile : Text
  pub machine_id : ℕ
  pub error : Text

pub record MachineResolveResult : Type 0 where
  pub nodes : List NodeConfig
  pub agent : AgentConfig
  pub realtime : Option MachineProfileRealtime

pub record MachineProfileInput : Type 0 where
  pub profile : MachineProfileConfig
  pub result : Result Text MachineNodesResponse

pub record MachineResolveSummary : Type 0 where
  pub nodes : List NodeConfig
  pub agent : AgentConfig
  pub realtime : List MachineProfileRealtime
  pub failures : List MachineResolveFailure
  pub subscription_proxy_only : Bool

abbrev pub into_response : MachineNodesEnvelope → MachineNodesResponse
into_response envelope = elim envelope.data' [
  | some response ↦ response
  | none ↦ record {
    nodes = envelope.nodes;
    base_config = envelope.base_config;
    agent = envelope.agent;
  }
]
