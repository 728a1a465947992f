-- ===== src/Execution/Folders.antt =====
-- storage/table_def.rs `get_path`, and the calls `create_dir` and `remove_dir_all` of the standard
-- library on the folders that there are. What a joined path reaches is a parameter, which does not
-- depend on the folders that there are; other failures than a folder's being there or not are left
-- out, and so are the folders inside a table's.
pub mod Plain
use touchhouse.Prelude.{
  String, Bool, true, false, not, ◌&&◌, Option, none, some, List, [], ◌∷◌, any, filter, str_eq,
  if◌then◌else◌,
}
use touchhouse.Externs.{Externs}
use touchhouse.Storage.Table.{TableDef}

-- The names on the way from the root.
abbrev pub FolderPath : Type 0
FolderPath = List String

-- The second is the first or inside of it.
abbrev pub is_within : FolderPath → FolderPath → Bool
is_within [] q = true
is_within (a ∷ p) [] = false
is_within (a ∷ p) (b ∷ q) = str_eq a b && is_within p q

abbrev pub eq_path : FolderPath → FolderPath → Bool
eq_path [] [] = true
eq_path (a ∷ p) (b ∷ q) = str_eq a b && eq_path p q
eq_path _ _ = false

abbrev pub has_dir : List FolderPath → FolderPath → Bool
has_dir folders p = any (λ q. eq_path q p) folders

abbrev pub parent : FolderPath → FolderPath
parent [] = []
parent (a ∷ []) = []
parent (a ∷ b ∷ p) = a ∷ parent (b ∷ p)

pub data Created : Type 0 where
  created : List FolderPath → Created
  already_exists not_created : Created

-- `create_dir`: one folder, in one that is there.
unfoldable pub create_dir : List FolderPath → FolderPath → Created
create_dir folders p =
    if has_dir folders p
    then already_exists
    else if has_dir folders (parent p)
    then created (p ∷ folders)
    else not_created

-- `remove_dir_all`: the folder, where it is there, and all inside of it.
unfoldable pub remove_dir_all : List FolderPath → FolderPath → Option (List FolderPath)
remove_dir_all folders p =
    if has_dir folders p then some (filter (λ q. not (is_within p q)) folders) else none

abbrev pub or_same : List FolderPath → Option (List FolderPath) → List FolderPath
or_same folders none = folders
or_same folders (some rest) = rest

abbrev pub database_path : Externs → String → FolderPath
database_path x name = x.join x.db_dir name

unfoldable pub get_path : Externs → TableDef → FolderPath
get_path x t = x.join (x.join x.db_dir t.database) t.table
