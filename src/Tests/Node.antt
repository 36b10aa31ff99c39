-- ===== src/Tests/Node.antt =====
-- The configuration file of a node with one neighbor.
use cmpe275_enterprise_apps.Common.{ℕ, Option, some, List, [], ◌∷◌, ◌≡◌, refl}
use cmpe275_enterprise_apps.Engine.{Bytes}
use cmpe275_enterprise_apps.Csv.Row.{is_name}
use cmpe275_enterprise_apps.Config.{
  NodeConfig, load_config, read_lines, read_line, set_key, cut_first, cut_last, split_items,
  read_neighbors, parse_neighbor, trim_front, trim_back, validate_config, validate_neighbors,
  bytes_eq, contains,
}
use cmpe275_enterprise_apps.Config.Validity.{IsValid, load_config-IsValid}
use cmpe275_enterprise_apps.Tests.Csv.{bytes}

abbrev lines : List Bytes
lines =
    bytes "# node A"
    ∷ bytes "node_id = A "
    ∷ bytes "language=cpp"
    ∷ []
    ∷ bytes "listen_host=0.0.0.0"
    ∷ bytes "listen_port=50051"
    ∷ bytes "neighbors= B@127.0.0.1:50052 ,"
    ∷ []

abbrev stoul : Bytes → Option ℕ
stoul s = some 50051

abbrev config : NodeConfig
config = record {
  node_id = bytes "A";
  language = bytes "cpp";
  listen_host = bytes "0.0.0.0";
  listen_port = 50051;
  neighbors = record { node_id = bytes "B"; host = bytes "127.0.0.1"; port = 50051 } ∷ [];
  assigned_files = [];
}

loaded : load_config stoul (some lines) ≡ some config
unfolding load_config read_lines read_line set_key cut_first cut_last split_items read_neighbors
    parse_neighbor trim_front trim_back validate_config validate_neighbors bytes_eq contains is_name
loaded = refl

load_config-IsValid_example : IsValid config
load_config-IsValid_example = load_config-IsValid stoul (some lines) config loaded
