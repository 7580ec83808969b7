-- ===== src/Config/Load.antt =====
-- Loading of the configuration (internal/config/config.go). The environment is a parameter: its variables, of
-- which an unset one is empty, the machine's name, the files and the reading of durations and of JSON.
pub mod Bounds
pub mod Required
use ha.Base.{
  String, ◌<>◌, Bool, true, false, ◌||◌, Option, none, some, List, [], ◌∷◌, if◌then◌else◌, ◌==◌,
}
use ha.Base.Int.{ℤ, pos, ltb_ℤ, leb_ℤ}
use ha.Base.Parsing.{parse_int, parse_bool}
use ha.Base.Strings.{split, trim_space}
use ha.Exec.{Result, ok, err, map_err}
use ha.Model.{AgentNodeConfig}
use ha.Config.{Config}

pub record Environment : Type 0 where
  pub getenv : String → String  -- os.Getenv
  pub machine_name : Result String  -- os.Hostname
  pub read_file : String → Result String  -- os.ReadFile
  pub parse_duration : String → Result ℤ  -- time.ParseDuration, in nanoseconds
  pub unmarshal_nodes : String → Result (List AgentNodeConfig)  -- json.Unmarshal

-- `AgentConfig`
pub record AgentConfig : Type 0 where
  pub http_addr : String
  pub node_id : String
  pub node_address : String
  pub my_sql_dsn : String
  pub replication_user : String
  pub replication_pass : String
  pub agent_ca_file : String
  pub agent_cert_file : String
  pub agent_key_file : String
  pub etcd_endpoints : List String
  pub cluster_name : String

-- The loop of `split`: the parts that are not blank, trimmed.
unfoldable pub items : List String → List String
unfolding trim_space
items [] = []
items (part ∷ parts) =
    let rest = items parts in let item = trim_space part in if item == "" then rest else item ∷ rest

-- `split`; a comma is 44.
unfoldable pub endpoints_of : String → List String
unfolding items split
endpoints_of value = items (split 44 value)

-- `env`, from the variable's value.
unfoldable pub value_or : String → String → String
value_or value fallback = if value == "" then fallback else value

unfoldable pub hostname_of : Result String → String
hostname_of (ok value) = if value == "" then "ha-controller" else value
hostname_of (err e) = "ha-controller"

unfoldable pub parsed_or : ℤ → Result ℤ → ℤ
parsed_or fallback (ok parsed) = parsed
parsed_or fallback (err e) = fallback

-- A positive value, of `integer`.
unfoldable pub positive_or : ℤ → Option ℤ → ℤ
positive_or fallback none = fallback
positive_or fallback (some value) = if ltb_ℤ (pos 0) value then value else fallback

-- A value that is not negative, of `int64Value`.
unfoldable pub natural_or : ℤ → Option ℤ → ℤ
natural_or fallback none = fallback
natural_or fallback (some value) = if leb_ℤ (pos 0) value then value else fallback

unfoldable pub bool_or : Bool → Option Bool → Bool
bool_or fallback none = fallback
bool_or fallback (some value) = value

-- The configuration with the nodes that were read.
unfoldable pub with_nodes : Config → Result (List AgentNodeConfig) → Result Config
with_nodes c (ok nodes) = ok (record c { nodes = nodes })
with_nodes c (err e) = err e

module _ (environment : Environment) where
  unfoldable pub env : String → String → String
  unfolding value_or
  env key fallback = value_or (environment.getenv key) fallback

  unfoldable pub hostname : String
  unfolding hostname_of
  hostname = hostname_of environment.machine_name

  unfoldable pub duration : String → ℤ → ℤ
  unfolding parsed_or
  duration key fallback =
      if environment.getenv key == ""
      then fallback
      else parsed_or fallback (environment.parse_duration (environment.getenv key))

  unfoldable pub integer : String → ℤ → ℤ
  unfolding positive_or
  integer key fallback = positive_or fallback (parse_int (environment.getenv key))

  unfoldable pub int64_value : String → ℤ → ℤ
  unfolding natural_or
  int64_value key fallback = natural_or fallback (parse_int (environment.getenv key))

  unfoldable pub boolean : String → Bool → Bool
  unfolding bool_or
  boolean key fallback = bool_or fallback (parse_bool (environment.getenv key))

  unfoldable pub initial_config : Config
  unfolding endpoints_of env hostname duration integer int64_value boolean
  initial_config = record {
    http_addr = env "HA_HTTP_ADDR" ":8080";
    cluster_name = env "HA_CLUSTER_NAME" "mysql-ha";
    controller_id = env "HA_CONTROLLER_ID" hostname;
    etcd_endpoints = endpoints_of (env "HA_ETCD_ENDPOINTS" "http://127.0.0.1:2379");
    nodes = [];
    agent_ca_file = env "HA_AGENT_CA_FILE" "/etc/ha/pki/ca.crt";
    agent_cert_file = env "HA_AGENT_CERT_FILE" "/etc/ha/pki/controller.crt";
    agent_key_file = env "HA_AGENT_KEY_FILE" "/etc/ha/pki/controller.key";
    agents_file = environment.getenv "HA_AGENTS_FILE";
    probe_interval = duration "HA_PROBE_INTERVAL" (pos 5000000000);
    failure_threshold = integer "HA_FAILURE_THRESHOLD" (pos 3);
    alert_webhook_url = environment.getenv "HA_ALERT_WEBHOOK_URL";
    execute_actions = boolean "HA_EXECUTE_ACTIONS" true;
    auto_failover_execute = boolean "HA_AUTO_FAILOVER_EXECUTE" false;
    require_etcd = boolean "HA_REQUIRE_ETCD" false;
    max_replica_lag_seconds = int64_value "HA_MAX_REPLICA_LAG_SECONDS" (pos 30);
  }

  -- The text of the nodes: the file's, where one is named.
  unfoldable pub raw_nodes : String → Result String
  raw_nodes file =
      if file == ""
      then ok (environment.getenv "HA_AGENTS_JSON")
      else map_err (λ e. "read HA_AGENTS_FILE: " <> e) (environment.read_file file)

  unfoldable pub decode_nodes : Config → Result String → Result Config
  unfolding with_nodes
  decode_nodes c (err e) = err e
  decode_nodes c (ok raw) =
      if raw == "" then ok c else with_nodes c (environment.unmarshal_nodes raw)

  -- `Load`
  unfoldable pub load : Result Config
  unfolding initial_config raw_nodes decode_nodes
  load = decode_nodes initial_config (raw_nodes initial_config.agents_file)

  unfoldable pub initial_agent_config : AgentConfig
  unfolding endpoints_of env
  initial_agent_config = record {
    http_addr = env "HA_AGENT_HTTP_ADDR" ":9443";
    node_id = environment.getenv "HA_NODE_ID";
    node_address = environment.getenv "HA_NODE_ADDRESS";
    my_sql_dsn = environment.getenv "HA_MYSQL_DSN";
    replication_user = environment.getenv "HA_REPLICATION_USER";
    replication_pass = environment.getenv "HA_REPLICATION_PASSWORD";
    agent_ca_file = env "HA_AGENT_CA_FILE" "/etc/ha/pki/ca.crt";
    agent_cert_file = env "HA_AGENT_CERT_FILE" "/etc/ha/pki/agent.crt";
    agent_key_file = env "HA_AGENT_KEY_FILE" "/etc/ha/pki/agent.key";
    etcd_endpoints = endpoints_of (env "HA_ETCD_ENDPOINTS" "http://127.0.0.1:2379");
    cluster_name = env "HA_CLUSTER_NAME" "mysql-ha";
  }

  -- A required variable is empty.
  unfoldable pub lacks_required : AgentConfig → Bool
  lacks_required c =
      c.node_id == ""
      || c.node_address == ""
      || c.my_sql_dsn == ""
      || c.replication_user == ""
      || c.replication_pass == ""

  -- `LoadAgent`
  unfoldable pub load_agent : Result AgentConfig
  unfolding initial_agent_config lacks_required
  load_agent =
      if lacks_required initial_agent_config
      then err (
          "HA_NODE_ID, HA_NODE_ADDRESS, HA_MYSQL_DSN, HA_REPLICATION_USER and HA_REPLICATION_PASSWORD are "
          <> "required")
      else ok initial_agent_config
