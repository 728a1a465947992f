-- ===== src/Config.antt =====
-- config.rs: the configuration of the server, read from its file, which is written where there is
-- none. What the crate toml makes of a text, and what the file system allows, are parameters.
use touchhouse.Prelude.{
  ℕ, zero, suc, String, Bool, true, false, ◌≡◌, refl, ap, Option, none, some, str_eq, if◌then◌else◌,
}
use mathlib.Core.Path.{subst}
use touchhouse.Outcome.{Result, ok, panics, ◌>>=◌, >>=-eq-ok, >>=-ok, ok-eq}

pub record Config : Type 0 where
  pub tcp_socket : String
  pub storage_directory : String
  pub log_level : ℕ
  pub max_concurrent_connections : ℕ
  pub background_merge_available_under : ℕ

pub data LevelFilter : Type 0 where
  info warn error : LevelFilter

abbrev level_of : ℕ → LevelFilter
level_of (suc (suc zero)) = LevelFilter.warn
level_of (suc (suc (suc zero))) = LevelFilter.error
level_of _ = LevelFilter.info

abbrev get_log_level : Config → LevelFilter
get_log_level c = level_of c.log_level

-- The texts of files by path, none where a file is there and cannot be read, and what the file system answers: whether a file can be written,
-- whether a folder can be made, whether it is there after that, if this can be told, and whether
-- it is a folder.
pub record Host : Type 0 where
  pub config_path : Option String
  pub files : String → Option (Option String)
  pub can_write : String → Bool
  pub can_create_dir : String → Bool
  pub is_there : String → Option Bool
  pub is_dir : String → Bool

-- `expect`
abbrev expect {ℓ} : {A : Type ℓ} → Option A → Result A
expect none = panics
expect (some a) = ok a

abbrev assert : Bool → Result (Unit {0})
assert true = ok tt
assert false = panics

ensure_storage_directory_exists : Host → String → Result (Unit {0})
ensure_storage_directory_exists h dir = do
  _ ← assert (h.can_create_dir dir)
  there ← expect (h.is_there dir)
  _ ← assert there
  assert (h.is_dir dir)

abbrev default_config_filename : String
default_config_filename = "touch_config.toml"

abbrev path_of : Option String → String
path_of none = default_config_filename
path_of (some p) = p

abbrev put : String → String → (String → Option (Option String)) → String → Option (Option String)
put p text files q = if str_eq p q then some (some text) else files q

-- `read_to_string(...).expect(...)`
contents_of : Option (Option String) → Result String
contents_of none = panics
contents_of (some o) = expect o

read_to_string : (String → Option (Option String)) → String → Result String
unfolding contents_of
read_to_string files p = contents_of (files p)

contents :
    (o : Option (Option String)) (text : String) → contents_of o ≡ ok text → o ≡ some (some text)
unfolding contents_of
contents none text h = cc h
contents (some none) text h = cc h
contents (some (some a)) text h = ap (λ t. some (some t)) (ok-eq h)

was_read :
    (files : String → Option (Option String)) (p text : String)
    → read_to_string files p ≡ ok text
    → files p ≡ some (some text)
unfolding read_to_string
was_read files p text h = contents (files p) text h

-- `toml` reads a configuration, and `default_text` is `DEFAULT_CONFIG_STR`.
module _ (toml : String → Option Config) (default_text : String) where
  -- The file is written where it is not there.
  written_config : Host → Result (String → Option (Option String))
  written_config h = elim (h.files (path_of h.config_path)) [
    | some text ↦ ok h.files
    | none ↦
        if h.can_write (path_of h.config_path)
        then ok (put (path_of h.config_path) default_text h.files)
        else panics
  ]

  -- The files that there are then, and the configuration.
  build : Host → Result ((String → Option (Option String)) × Config)
  unfolding written_config ensure_storage_directory_exists
  build h = do
    files ← written_config h
    config_file ← read_to_string files (path_of h.config_path)
    raw_config ← expect (toml config_file)
    _ ← ensure_storage_directory_exists h raw_config.storage_directory
    ok (files, raw_config)

  -- After `written_config` the file is there, and it writes nothing more.
  written_again :
      (h : Host) (files : String → Option (Option String)) (text : String)
      → files (path_of h.config_path) ≡ some (some text)
      → written_config record h { files = files } ≡ ok files
  unfolding written_config
  written_again h files text e = rw e refl

  -- A server that started starts again, on the files that it left, with the same configuration.
  build-again :
      (h : Host) (files : String → Option (Option String)) (c : Config)
      → build h ≡ ok (files, c)
      → build record h { files = files } ≡ ok (files, c)
  unfolding build ensure_storage_directory_exists
  build-again h files c b =
      let (w, ew, b1) = >>=-eq-ok (written_config h) _ b in
      let (text, et, b2) = >>=-eq-ok (read_to_string w (path_of h.config_path)) _ b1 in
      let (raw, er, b3) = >>=-eq-ok (expect (toml text)) _ b2 in
      let (_, ee, b4) = >>=-eq-ok (ensure_storage_directory_exists h raw.storage_directory) _ b3 in
      let same : w ≡ files =
        ap (λ (r : (String → Option (Option String)) × Config). r.0) (ok-eq b4) in
      subst (λ g. build record h { files = g } ≡ ok (files, c)) same
        (>>=-ok (written_config record h { files = w }) _
          (written_again h w text (was_read w (path_of h.config_path) text et)) b1)
