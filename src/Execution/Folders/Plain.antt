-- ===== src/Execution/Folders/Plain.antt =====
-- storage/table_def.rs: the folders of tables and databases of valid names.
use touchhouse.Prelude.{
  ◌≡◌, refl, sym, ap, ◌∙◌, ◌⊎◌, String, Bool, true, false, not, ◌&&◌, List, [], ◌∷◌, ◌++◌, filter,
  any, any-filter, str_eq, eq_iff, and_true, Bool-cases, inl, inr,
}
use mathlib.Core.Path.{subst}
use touchhouse.Externs.{Externs}
use touchhouse.Sql.Names.{validate_name}
use touchhouse.Storage.Table.{TableDef}
use touchhouse.Execution.Folders.{
  FolderPath, Created, created, already_exists, not_created, is_within, eq_path, has_dir, parent,
  create_dir, remove_dir_all, or_same, get_path,
}

-- What is documented of `Path::join`: a name with no separator and no dot is one more folder.
abbrev pub JoinsNames : Externs → Type 0
JoinsNames x = (p : FolderPath) (n : String) → validate_name n ≡ true → x.join p n ≡ p ++ (n ∷ [])

str_eq_self : (s : String) → str_eq s s ≡ true
str_eq_self s = (eq_iff s s).1 refl

pub eq_path_self : (p : FolderPath) → eq_path p p ≡ true
eq_path_self [] = refl
eq_path_self (a ∷ p) = rw (str_eq_self a, eq_path_self p) refl

eq_of_eq_path : (p q : FolderPath) → eq_path p q ≡ true → p ≡ q
eq_of_eq_path [] [] h = refl
eq_of_eq_path [] (b ∷ q) h = cc h
eq_of_eq_path (a ∷ p) [] h = cc h
eq_of_eq_path (a ∷ p) (b ∷ q) h =
    let (e, f) = and_true (str_eq a b) (eq_path p q) h in cc ((eq_iff a b).0 e, eq_of_eq_path p q f)

is_within-append : (p a b : FolderPath) → is_within (p ++ a) (p ++ b) ≡ is_within a b
is_within-append [] a b = refl
is_within-append (n ∷ p) a b = rw (str_eq_self n, is_within-append p a b) refl

is_within_self : (p : FolderPath) → is_within p p ≡ true
is_within_self [] = refl
is_within_self (n ∷ p) = rw (str_eq_self n, is_within_self p) refl

pub parent-append : (p : FolderPath) (d t : String) → parent (p ++ (d ∷ t ∷ [])) ≡ p ++ (d ∷ [])
parent-append [] d t = refl
parent-append (a ∷ []) d t = refl
parent-append (a ∷ b ∷ p) d t = ap (λ q. a ∷ q) (parent-append (b ∷ p) d t)

-- A folder that is not inside of the removed one stays.
pub has_dir-remove :
    (folders : List FolderPath) (p q : FolderPath)
    → has_dir folders q ≡ true
    → is_within p q ≡ false
    → has_dir (or_same folders (remove_dir_all folders p)) q ≡ true
unfolding remove_dir_all
has_dir-remove folders p q h w = elim (Bool-cases (has_dir folders p)) [
  | inr e ↦ rw (e, remove_dir_all) h
  | inl e ↦
      rw (e, remove_dir_all)
        (any-filter (λ r. eq_path r q) (λ r. not (is_within p r)) folders h
          (λ r f. subst (λ z. not (is_within p z) ≡ true) (sym (eq_of_eq_path r q f)) (rw w refl)))
]

not_any :
    (p : FolderPath) (folders : List FolderPath)
    → has_dir (filter (λ q. not (is_within p q)) folders) p ≡ false
not_any p [] = refl
not_any p (q ∷ folders) = elim (Bool-cases (is_within p q)) [
  | inl e ↦ rw (e, filter) (not_any p folders)
  | inr e ↦ elim (Bool-cases (eq_path q p)) [
    | inl f ↦
        let same : is_within p q ≡ true =
          subst (λ z. is_within p z ≡ true) (sym (eq_of_eq_path q p f)) (is_within_self p) in
        cc (e, same)
    | inr f ↦ rw (e, filter, f, any) (not_any p folders)
  ]
]

-- The removed folder is gone.
pub has_dir-removed :
    (folders : List FolderPath) (p : FolderPath)
    → has_dir (or_same folders (remove_dir_all folders p)) p ≡ false
unfolding remove_dir_all
has_dir-removed folders p = elim (Bool-cases (has_dir folders p)) [
  | inr e ↦ rw (e, remove_dir_all) e
  | inl e ↦ rw (e, remove_dir_all) (not_any p folders)
]

pub Created-cases :
    (c : Created)
    → ((folders : List FolderPath) × (c ≡ created folders))
      ⊎ ((c ≡ already_exists) ⊎ (c ≡ not_created))
Created-cases (created folders) = inl (folders, refl)
Created-cases already_exists = inr (inl refl)
Created-cases not_created = inr (inr refl)

pub create_dir-created :
    (folders out : List FolderPath) (p : FolderPath)
    → create_dir folders p ≡ created out
    → (p ∷ folders ≡ out) × (has_dir folders (parent p) ≡ true)
unfolding create_dir
create_dir-created folders out p h = elim (Bool-cases (has_dir folders p)) [
  | inl e ↦ cc (rw (e, create_dir) at h)
  | inr e ↦ elim (Bool-cases (has_dir folders (parent p))) [
    | inl f ↦
        let same : created (p ∷ folders) ≡ created out = rw (e, f, create_dir) at h in (cc same, f)
    | inr f ↦ cc (rw (e, f, create_dir) at h)
  ]
]

abbrev pub HasNames : TableDef → Type 0
HasNames t = (validate_name t.database ≡ true) × (validate_name t.table ≡ true)

module _ (x : Externs) (joins : JoinsNames x) where
  pub get_path_plain :
      (t : TableDef) → HasNames t → get_path x t ≡ x.db_dir ++ (t.database ∷ t.table ∷ [])
  unfolding get_path
  get_path_plain t h =
      ap (λ p. x.join p t.table) (joins x.db_dir t.database h.0)
      ∙ joins (x.db_dir ++ (t.database ∷ [])) t.table h.1
      ∙ append_two x.db_dir
    where
      append_two :
          (p : FolderPath)
          → (p ++ (t.database ∷ [])) ++ (t.table ∷ []) ≡ p ++ (t.database ∷ t.table ∷ [])
      append_two [] = refl
      append_two (a ∷ p) = ap (λ q. a ∷ q) (append_two p)

  -- The folder of a database holds those of its tables and no other table's.
  pub database-table :
      (n : String) (t : TableDef)
      → validate_name n ≡ true
      → HasNames t
      → is_within (x.join x.db_dir n) (get_path x t) ≡ str_eq n t.database
  database-table n t v h =
      rw (joins x.db_dir n v, get_path_plain t h)
        (is_within-append x.db_dir (n ∷ []) (t.database ∷ t.table ∷ []) ∙ and_true_right _)
    where
      and_true_right : (b : Bool) → (b && true) ≡ b
      and_true_right true = refl
      and_true_right false = refl

  pub database-database :
      (n m : String)
      → validate_name n ≡ true
      → validate_name m ≡ true
      → is_within (x.join x.db_dir n) (x.join x.db_dir m) ≡ str_eq n m
  database-database n m v w =
      rw (joins x.db_dir n v, joins x.db_dir m w)
        (is_within-append x.db_dir (n ∷ []) (m ∷ []) ∙ and_true_right _)
    where
      and_true_right : (b : Bool) → (b && true) ≡ b
      and_true_right true = refl
      and_true_right false = refl

  pub table-database :
      (t : TableDef) (m : String)
      → HasNames t
      → validate_name m ≡ true
      → is_within (get_path x t) (x.join x.db_dir m) ≡ false
  table-database t m h w =
      rw (get_path_plain t h, joins x.db_dir m w)
        (is_within-append x.db_dir (t.database ∷ t.table ∷ []) (m ∷ []) ∙ and_false_right _)
    where
      and_false_right : (b : Bool) → (b && false) ≡ false
      and_false_right true = refl
      and_false_right false = refl

  pub table-table :
      (t u : TableDef)
      → HasNames t
      → HasNames u
      → is_within (get_path x t) (get_path x u)
        ≡ (str_eq t.database u.database && (str_eq t.table u.table && true))
  table-table t u h k =
      rw (get_path_plain t h, get_path_plain u k)
        (is_within-append x.db_dir (t.database ∷ t.table ∷ []) (u.database ∷ u.table ∷ []))
