-- ===== src/Config.antt =====
-- basic/src/common/config.h and config.cc: the configuration file of a node. Texts are lists of
-- bytes; `none` stands for an exception, without its message. `std::stoul` is a parameter.
pub mod Validity
use cmpe275_enterprise_apps.Common.{
  ℕ, ◌%◌, ◌^◌, ◌==◌, Bool, true, false, not, ◌&&◌, ◌||◌, List, [], ◌∷◌, ◌++◌, Option, none, some,
  leb, if◌then◌else◌,
}
use cmpe275_enterprise_apps.Engine.{Bytes}
use cmpe275_enterprise_apps.Csv.Row.{is_name}

pub record NeighborConfig : Type 0 where
  pub node_id : Bytes
  pub host : Bytes
  pub port : ℕ

pub record NodeConfig : Type 0 where
  pub node_id : Bytes
  pub language : Bytes
  pub listen_host : Bytes
  pub listen_port : ℕ
  pub neighbors : List NeighborConfig
  pub assigned_files : List Bytes

abbrev pub empty_config : NodeConfig
empty_config = record {
  node_id = [];
  language = [];
  listen_host = [];
  listen_port = 0;
  neighbors = [];
  assigned_files = [];
}

-- `std::isspace` in the "C" locale.
abbrev is_space : ℕ → Bool
is_space c = c == b' ' || leb 9 c && leb c 13

abbrev pub is_nil : Bytes → Bool
is_nil [] = true
is_nil (c ∷ cs) = false

-- The two loops of `trim`.
unfoldable pub trim_front : Bytes → Bytes
trim_front [] = []
trim_front (c ∷ cs) = if is_space c then trim_front cs else c ∷ cs

unfoldable pub trim_back : Bytes → Bytes
trim_back [] = []
trim_back (c ∷ cs) = let rest = trim_back cs in if is_space c && is_nil rest then [] else c ∷ rest

abbrev trim : Bytes → Bytes
trim s = trim_back (trim_front s)

-- The loop of `split`, with the item that is open; `std::getline` gives no empty item at the end.
unfoldable pub split_items : ℕ → Bytes → Bytes → List Bytes
split_items delim item [] = if is_nil item then [] else item ∷ []
split_items delim item (c ∷ cs) =
    let next = split_items delim [] cs in
    let longer = split_items delim (item ++ c ∷ []) cs in if c == delim then item ∷ next else longer

abbrev split : Bytes → ℕ → List Bytes
split s delim = split_items delim [] s

abbrev around : ℕ → Option (Bytes × Bytes) → Option (Bytes × Bytes)
around c none = none
around c (some (before, after)) = some (c ∷ before, after)

-- What is in front of the first `d` and behind it, by `find` and `substr`.
unfoldable pub cut_first : ℕ → Bytes → Option (Bytes × Bytes)
cut_first d [] = none
cut_first d (c ∷ cs) = let rest = cut_first d cs in if c == d then some ([], cs) else around c rest

abbrev last_or : ℕ → ℕ → Bytes → Option (Bytes × Bytes) → Option (Bytes × Bytes)
last_or d c cs (some (before, after)) = some (c ∷ before, after)
last_or d c cs none = if c == d then some ([], cs) else none

-- What is in front of the last `d` and behind it, by `rfind` and `substr`.
unfoldable pub cut_last : ℕ → Bytes → Option (Bytes × Bytes)
cut_last d [] = none
cut_last d (c ∷ cs) = last_or d c cs (cut_last d cs)

unfoldable pub bytes_eq : Bytes → Bytes → Bool
bytes_eq [] [] = true
bytes_eq [] (b ∷ bs) = false
bytes_eq (a ∷ as_) [] = false
bytes_eq (a ∷ as_) (b ∷ bs) = a == b && bytes_eq as_ bs

unfoldable pub contains : Bytes → List Bytes → Bool
contains x [] = false
contains x (y ∷ ys) = bytes_eq y x || contains x ys

-- The loop over the neighbors of `validateConfig`, with the names seen so far.
unfoldable pub validate_neighbors : Bytes → List Bytes → List NeighborConfig → Bool
validate_neighbors self seen [] = true
validate_neighbors self seen (n ∷ ns) =
    let rest = validate_neighbors self (n.node_id ∷ seen) ns in
    if is_nil n.node_id || is_nil n.host || n.port == 0
    then false
    else if bytes_eq n.node_id self
    then false
    else if contains n.node_id seen
    then false
    else rest

-- Whether `validateConfig` returns.
unfoldable pub validate_config : NodeConfig → Bool
validate_config cfg =
    if is_nil cfg.node_id
    then false
    else if is_nil cfg.language
    then false
    else if is_nil cfg.listen_host
    then false
    else if cfg.listen_port == 0
    then false
    else if not (is_name "cpp" cfg.language) && not (is_name "python" cfg.language)
    then false
    else validate_neighbors cfg.node_id [] cfg.neighbors

module _ (stoul : Bytes → Option ℕ) where
  -- `static_cast<uint32_t>(std::stoul(s))`.
  abbrev port_of : Option ℕ → Option ℕ
  port_of none = none
  port_of (some n) = some (n % 2 ^ 32)

  abbrev neighbor_at : Bytes → Bytes → Option ℕ → Option NeighborConfig
  neighbor_at id host none = none
  neighbor_at id host (some port) = some (record { node_id = id; host = host; port = port })

  abbrev neighbor_of : Bytes → Option (Bytes × Bytes) → Option NeighborConfig
  neighbor_of id none = none
  neighbor_of id (some (host, port)) =
      if is_nil (trim id) || is_nil (trim host) || is_nil (trim port)
      then none
      else neighbor_at (trim id) (trim host) (port_of (stoul (trim port)))

  abbrev neighbor_from : Option (Bytes × Bytes) → Option NeighborConfig
  neighbor_from none = none
  neighbor_from (some (id, rest)) = neighbor_of id (cut_last b':' rest)

  -- A colon in front of the first at-sign does not count, as in the code.
  unfoldable pub parse_neighbor : Bytes → Option NeighborConfig
  parse_neighbor raw = neighbor_from (cut_first b'@' raw)

  abbrev and_neighbor : List NeighborConfig → Option NeighborConfig → Option (List NeighborConfig)
  and_neighbor ns none = none
  and_neighbor ns (some n) = some (ns ++ n ∷ [])

  abbrev next_neighbors :
      Option (List NeighborConfig)
      → (List NeighborConfig → Option (List NeighborConfig))
      → Option (List NeighborConfig)
  next_neighbors none f = none
  next_neighbors (some ns) f = f ns

  -- The loop over the items of `neighbors`.
  unfoldable pub read_neighbors : List Bytes → List NeighborConfig → Option (List NeighborConfig)
  read_neighbors [] ns = some ns
  read_neighbors (item ∷ items) ns =
      let skipped = read_neighbors items ns in
      let read =
        next_neighbors (and_neighbor ns (parse_neighbor (trim item)))
          (λ ms. read_neighbors items ms) in
      if is_nil (trim item) then skipped else read

  -- The loop over the items of `assigned_files`.
  unfoldable pub read_files : List Bytes → List Bytes
  read_files [] = []
  read_files (item ∷ items) =
      if is_nil (trim item) then read_files items else trim item ∷ read_files items

  abbrev with_port : NodeConfig → Option ℕ → Option NodeConfig
  with_port cfg none = none
  with_port cfg (some port) = some (record cfg { listen_port = port })

  abbrev with_neighbors : NodeConfig → Option (List NeighborConfig) → Option NodeConfig
  with_neighbors cfg none = none
  with_neighbors cfg (some ns) = some (record cfg { neighbors = ns })

  -- One entry.
  unfoldable pub set_key : Bytes → Bytes → NodeConfig → Option NodeConfig
  set_key key value cfg =
      if is_name "node_id" key
      then some (record cfg { node_id = value })
      else if is_name "language" key
      then some (record cfg { language = value })
      else if is_name "listen_host" key
      then some (record cfg { listen_host = value })
      else if is_name "listen_port" key
      then with_port cfg (port_of (stoul value))
      else if is_name "neighbors" key
      then with_neighbors cfg (read_neighbors (split value b',') [])
      else if is_name "assigned_files" key
      then some (record cfg { assigned_files = read_files (split value b',') })
      else none

  abbrev set_entry : Option (Bytes × Bytes) → NodeConfig → Option NodeConfig
  set_entry none cfg = none
  set_entry (some (key, value)) cfg = set_key (trim key) (trim value) cfg

  abbrev starts_comment : Bytes → Bool
  starts_comment [] = false
  starts_comment (c ∷ cs) = c == b'#'

  -- One line, already trimmed.
  unfoldable pub read_line : Bytes → NodeConfig → Option NodeConfig
  read_line line cfg =
      if is_nil line
      then some cfg
      else if starts_comment line
      then some cfg
      else set_entry (cut_first b'=' line) cfg

  abbrev next_config : Option NodeConfig → (NodeConfig → Option NodeConfig) → Option NodeConfig
  next_config none f = none
  next_config (some cfg) f = f cfg

  unfoldable pub read_lines : List Bytes → NodeConfig → Option NodeConfig
  read_lines [] cfg = some cfg
  read_lines (line ∷ lines) cfg =
      next_config (read_line (trim line) cfg) (λ cfg'. read_lines lines cfg')

  abbrev pub checked : Option NodeConfig → Option NodeConfig
  checked none = none
  checked (some cfg) = if validate_config cfg then some cfg else none

  abbrev pub load_lines : Option (List Bytes) → Option NodeConfig
  load_lines none = none
  load_lines (some lines) = checked (read_lines lines empty_config)

  -- `content` is what the file holds, `none` if it does not open.
  unfoldable pub load_config : Option (List Bytes) → Option NodeConfig
  load_config content = load_lines content
