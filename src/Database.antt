-- ===== src/Database.antt =====
-- src/server/database/database-manager.cpp: the queries about a user. SQLite is a parameter: whether a
-- statement gives a row, and the first column of that row.
use project_secure_chat.Base.{ℕ, Bool, true, false, Option, none, some, List, [], ◌∷◌, ◌++◌, codes}
use project_secure_chat.Buffer.Defs.{bytes_eq}

-- `step`: the first row of a statement, as its first column.
pub record Sqlite : Type 0 where
  pub step : List ℕ → Option (List ℕ)

abbrev quote : ℕ
quote = b'"'

-- The condition that both queries end with.
abbrev condition : List ℕ → List ℕ
condition username = codes "username=\"" ++ (username ++ quote ∷ [])

unfoldable pub username_query : List ℕ → List ℕ
username_query username = codes "select * from user where " ++ condition username

unfoldable pub password_query : List ℕ → List ℕ
password_query username = codes "select password from user where " ++ condition username

found : Option (List ℕ) → Bool
found none = false
found (some column) = true

-- CheckUsername
unfoldable pub check_username : Sqlite → List ℕ → Bool
unfolding found
check_username db username = found (db.step (username_query username))

same_hash : Option (List ℕ) → List ℕ → Bool
same_hash none hash = false
same_hash (some column) hash = bytes_eq column hash

-- CheckPassword
unfoldable pub check_password : Sqlite → List ℕ → List ℕ → Bool
unfolding same_hash
check_password db username hash = same_hash (db.step (password_query username)) hash
