-- ===== src/Realtime/Options.antt =====
-- The options of the connection of src/realtime.rs. A `Url` is one of the crate `url`, whose
-- operations are the record `Urls`.
use kelinode_rs.Prelude.{
  ℕ, Bool, false, not, ◌||◌, Option, none, some, [], ◌++◌, ltb, if◌then◌else◌, is_empty,
}
use kelinode_rs.Prelude.Text.{Text, text, text_eq, trim}
use kelinode_rs.Prelude.Decimal.{decimal, parse_usize}
use kelinode_rs.Prelude.Result.{Result, ok, err}
use kelinode_rs.Panel.{Value, number, string, other, RealtimeBaseConfig, BaseConfig, NodeInfo}
use kelinode_rs.Machine.{NodeConfig}
use kelinode_rs.Realtime.{RealtimeConfig, RealtimeOptions}

pub record Urls (U : Type 0) : Type 0 where
  pub parse : Text → Result Text U
  pub scheme : U → Text
  pub set_scheme : Text → U → U
  pub set_path : Text → U → U
  pub set_query : Option Text → U → U
  pub set_fragment : Option Text → U → U
  pub append_pair : Text → Text → U → U
  pub to_string : U → Text

abbrev pub or_zero : Option ℕ → ℕ
or_zero none = 0
or_zero (some n) = n

unfoldable pub realtime_interval_to_duration : Value → ℕ
realtime_interval_to_duration (number n) = or_zero n
realtime_interval_to_duration (string s) = or_zero (parse_usize (trim s))
realtime_interval_to_duration other = 0

abbrev pub realtime_config : Option BaseConfig → Option RealtimeBaseConfig
realtime_config none = none
realtime_config (some config) = config.realtime

abbrev pub panel_enabled : Option RealtimeBaseConfig → Bool
panel_enabled none = false
panel_enabled (some config) = config.enabled

abbrev pub panel_url : Option RealtimeBaseConfig → Text
panel_url none = []
panel_url (some config) = trim config.url

abbrev pub panel_ping : Option RealtimeBaseConfig → ℕ
panel_ping none = 0
panel_ping (some config) = realtime_interval_to_duration config.ping_interval

abbrev pub first_url : Text → Text → Text
first_url url fallback = if is_empty url then fallback else url

abbrev pub first_seconds : ℕ → ℕ → ℕ
first_seconds seconds fallback = if ltb 0 seconds then seconds else fallback

module _ {U : Type 0} (urls : Urls U) where
  abbrev websocket : U → Text → U
  websocket parsed scheme =
      if text_eq scheme (text "http")
      then urls.set_scheme (text "ws") parsed
      else if text_eq scheme (text "https")
      then urls.set_scheme (text "wss") parsed
      else if text_eq scheme (text "ws") || text_eq scheme (text "wss")
      then parsed
      else urls.set_scheme (text "ws") parsed

  abbrev node_socket : Result Text U → Text
  node_socket (err e) = []
  node_socket (ok parsed) = urls.to_string (
      urls.set_fragment none (
        urls.set_query none
          (urls.set_path (text "/ws/node") (websocket parsed (urls.scheme parsed)))))

  unfoldable pub derive_realtime_url : Text → Text
  derive_realtime_url api_host = node_socket (urls.parse (trim api_host))

  unfoldable pub resolve_realtime_options :
      RealtimeConfig → NodeConfig → NodeInfo → Option RealtimeOptions
  unfolding derive_realtime_url
  resolve_realtime_options local node_config node_info =
      let panel = realtime_config node_info.common.base_config in
      let local_url = trim local.url in
      let url =
        first_url (first_url local_url (panel_url panel)) (derive_realtime_url node_config.url) in
      let enabled = local.enabled || (not (is_empty local_url) || panel_enabled panel) in
      if not enabled || is_empty url
      then none
      else some (record {
        url = url;
        token = trim node_config.token;
        node_id = node_config.node_id;
        machine_id = node_config.machine_id;
        node_type = text "v2node";
        ping_interval = first_seconds local.ping_interval (first_seconds (panel_ping panel) 30);
        reconnect_delay = first_seconds local.reconnect_interval 5;
        log_tag = node_info.tag;
      })

  abbrev dialled : RealtimeOptions → Result Text U → Result Text Text
  dialled options (err e) = err (text "parse realtime url: " ++ e)
  dialled options (ok parsed) =
      let query = urls.append_pair (text "node_type") options.node_type (
        urls.append_pair (text "node_id") (decimal options.node_id)
          (urls.append_pair (text "token") options.token parsed)) in
      ok (
        urls.to_string (
          if ltb 0 options.machine_id
          then urls.append_pair (text "machine_id") (decimal options.machine_id) query
          else query))

  unfoldable pub build_realtime_dial_url : RealtimeOptions → Result Text Text
  build_realtime_dial_url options = dialled options (urls.parse (trim options.url))
