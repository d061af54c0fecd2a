-- ===== src/Tests/Accounts.antt =====
-- A table of two users, of the names 1 and 2.
use protos_tpe.Base.{ℕ, ◌≡◌, ◌↔◌, ◌⊎◌, refl, false, none, some, List, [], ◌∷◌, arith, if◌then◌else◌}
use protos_tpe.Users.Text.{strcmp_eq}
use protos_tpe.Users.{
  Status, User, users_ok, user_not_found, wrong_password, unkown_error, user_create, user_login,
  user_change_password, user_delete, valid_user,
}
use protos_tpe.Users.Table.{find, IsValid}
use protos_tpe.Users.Creation.{Creatable, user_create-Creatable}
use protos_tpe.Users.Account.{
  user_login-find, user_create-find, user_delete-find, user_change_password-find,
  valid_user-refuses,
}

abbrev first : User
first = record { username = 1 ∷ []; password = 7 ∷ []; access_level = 0 }

abbrev second : User
second = record { username = 2 ∷ []; password = 8 ∷ []; access_level = 1 }

abbrev table : List User
table = first ∷ second ∷ []

table-IsValid : IsValid table
unfolding find strcmp_eq
table-IsValid = record {
  distinct = (refl, (refl, tt));
  bounded = omega arith;
  fit = (refl, refl, omega arith, (refl, refl, omega arith, tt));
}

second_there : find table (2 ∷ []) ≡ some second
unfolding find strcmp_eq
second_there = refl

third_new : find table (3 ∷ []) ≡ none
unfolding find strcmp_eq
third_new = refl

user_login-find_example : user_login table (2 ∷ []) (7 ∷ []) ≡ elim (find table (2 ∷ [])) [
  | none ↦ (user_not_found, none)
  | some u ↦
      if strcmp_eq u.password (7 ∷ [])
      then (users_ok, some u.access_level)
      else (wrong_password, none)
]
user_login-find_example = user_login-find table (2 ∷ []) (7 ∷ [])

abbrev third : User
third = record { username = 3 ∷ []; password = 9 ∷ []; access_level = 1 }

user_create-find_example :
    (us' : List User) × (user_create table (some (3 ∷ [])) (some (9 ∷ [])) 1 ≡ some (users_ok, us'))
    × IsValid us'
    × ((j : List ℕ) → find us' j ≡ (if strcmp_eq (3 ∷ []) j then some third else find table j))
user_create-find_example =
    user_create-find table (3 ∷ []) (9 ∷ []) 1 table-IsValid (omega arith) (omega arith) third_new
      refl refl

-- the name of the second user is taken
user_create-Creatable_example :
    (st : Status) × (us' : List User) × (user_create table (some (2 ∷ [])) (some (9 ∷ [])) 1
      ≡ some (st, us'))
    × ((st ≡ users_ok) ↔ Creatable table (2 ∷ []) 1)
    × ((st ≡ users_ok) ⊎ (us' ≡ table))
user_create-Creatable_example = user_create-Creatable table (2 ∷ []) (9 ∷ []) 1 refl refl

user_delete-find_example :
    (us' : List User) × (user_delete table (some (2 ∷ [])) ≡ (users_ok, us'))
    × IsValid us'
    × ((j : List ℕ) → find us' j ≡ (if strcmp_eq (2 ∷ []) j then none else find table j))
user_delete-find_example = user_delete-find table (2 ∷ []) {u = second} table-IsValid second_there

user_change_password-find_example :
    (us' : List User) × (user_change_password table (some (2 ∷ [])) (some (9 ∷ []))
      ≡ some (users_ok, us'))
    × IsValid us'
    × (user_login us' (2 ∷ []) (9 ∷ []) ≡ (users_ok, some 1))
    × ((j : List ℕ) → strcmp_eq (2 ∷ []) j ≡ false → find us' j ≡ find table j)
user_change_password-find_example =
    user_change_password-find table (2 ∷ []) (9 ∷ []) second table-IsValid second_there refl

valid_user-refuses_example : valid_user (some (65 ∷ 66 ∷ [])) none ≡ unkown_error
valid_user-refuses_example = valid_user-refuses (65 ∷ 66 ∷ []) none
