-- ===== src/Panel.antt =====
-- src/panel/types.rs: the node as the panel describes it, with the fields that the code of the other
-- modules reads. A `PortValue` is the text that it holds.
use kelinode_rs.Prelude.{ℕ, Bool, Option}
use kelinode_rs.Prelude.Text.{Text}

-- A JSON value, as far as the code tells one from another: a number has its `as_u64`, and null,
-- booleans, arrays and objects are read alike.
pub data Value : Type 0 where
  number : Option ℕ → Value
  string : Text → Value
  other : Value

pub record RealtimeBaseConfig : Type 0 where
  pub enabled : Bool
  pub url : Text
  pub ping_interval : Value

pub record BaseConfig : Type 0 where
  pub push_interval : Value
  pub pull_interval : Value
  pub device_online_min_traffic : ℕ
  pub node_report_min_traffic : ℕ
  pub device_limit_fallback : ℕ
  pub realtime : Option RealtimeBaseConfig

pub data Protocol : Type 0 where
  vmess vless trojan shadowsocks hysteria2 tuic anytls socks http naive mieru : Protocol

pub record CommonNode : Type 0 where
  pub server_port : ℕ
  pub port : Text
  pub ports : Text
  pub transport : Text
  pub base_config : Option BaseConfig

pub record NodeInfo : Type 0 where
  pub id : ℕ
  pub tag : Text
  pub protocol : Protocol
  pub common : CommonNode
