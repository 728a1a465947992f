-- ===== src/Engines.antt =====
-- engines/mod.rs: the engines' names, their configuration, and the choice of an engine.
pub mod Permute
pub mod Sort
pub mod MergeTree
pub mod Replacing
use touchhouse.Prelude.{String, List, str_eq, if◌then◌else◌}
use touchhouse.Outcome.{Result, ok, err, invalid_engine_name}
use touchhouse.Storage.Table.{EngineName, merge_tree, replacing_merge_tree}
use touchhouse.Storage.Column.{OutputColumn}
use touchhouse.Engines.Sort.{EngineConfig}

pub engine_of_name : String → Result EngineName
engine_of_name s =
    if str_eq s "MergeTree"
    then ok merge_tree
    else if str_eq s "ReplacingMergeTree"
    then ok replacing_merge_tree
    else err invalid_engine_name

-- `Box<dyn Engine>`: what an engine does with columns.
abbrev pub Engine : Type 0
Engine = List OutputColumn → Result (List OutputColumn)

unfoldable pub get_engine : EngineName → EngineConfig → Engine
get_engine merge_tree config = MergeTree.order_columns config
get_engine replacing_merge_tree config = Replacing.order_columns config
