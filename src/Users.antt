-- ===== src/Users.antt =====
-- src/server/users.c: the table of users. A C string is the list of its bytes before the NUL. The
-- array `users` is the list of its first `users_size` entries. `none` is a `strcpy` past the end of
-- a field of a user.
pub mod Text
pub mod Table
pub mod Account
pub mod Creation
pub mod File
use protos_tpe.Base.{
  ℕ, ◌+◌, ◌-◌, Bool, true, false, not, ◌&&◌, ◌||◌, Option, none, some, List, [], ◌∷◌, ◌++◌, ltb,
  leb, ◌==◌, if◌then◌else◌, ◌>>=◌, length, get_elem?, set, take, drop,
}
use Text.{strcmp_eq}

-- `user_status`
pub data Status : Type 0 where
  users_ok invalid_access_level wrong_username invalid_username wrong_password : Status
  invalid_password user_already_exists user_not_found max_users_reached io_error : Status
  nomem_error unkown_error : Status

abbrev pub admin : ℕ
admin = 0

abbrev pub user : ℕ
user = 1

abbrev pub max_username_len : ℕ
max_username_len = 255

abbrev pub max_password_len : ℕ
max_password_len = 255

abbrev pub max_users_registered : ℕ
max_users_registered = 50

-- `user_t`
pub record User : Type 0 where
  pub username : List ℕ
  pub password : List ℕ
  pub access_level : ℕ

-- the loop of `get_user_index`, from index `i` on
unfoldable pub index_from : List User → List ℕ → ℕ → Option ℕ
index_from [] name i = none
index_from (u ∷ us) name i =
    let later = index_from us name (i + 1) in if strcmp_eq u.username name then some i else later

-- `get_user_index`; `none` for -1, and for a name that is NULL
unfoldable pub get_user_index : List User → Option (List ℕ) → Option ℕ
unfolding index_from
get_user_index us none = none
get_user_index us (some name) = index_from us name 0

-- `strcpy` into an array of 256 bytes
abbrev pub fits_field : List ℕ → Bool
fits_field s = ltb (length s) 256

-- `user_create`
create_named : List User → List ℕ → List ℕ → ℕ → Option (Status × List User)
create_named us name pass level =
    if not (level == admin) && not (level == user)
    then some (invalid_access_level, us)
    else if leb max_users_registered (length us)
    then some (max_users_reached, us)
    else (elim (get_user_index us (some name)) [
      | some i ↦ some (user_already_exists, us)
      | none ↦
          if fits_field name && fits_field pass
          then some (
            users_ok,
            us ++ record { username = name; password = pass; access_level = level } ∷ [],
          )
          else none
    ])

unfoldable pub user_create :
    List User → Option (List ℕ) → Option (List ℕ) → ℕ → Option (Status × List User)
unfolding create_named
user_create us none pass level = some (invalid_username, us)
user_create us (some name) none level = some (invalid_password, us)
user_create us (some name) (some pass) level = create_named us name pass level

-- `user_login`: the status, and the level that goes through `output_level` where it is written
unfoldable pub user_login : List User → List ℕ → List ℕ → Status × Option ℕ
user_login us name pass = elim (get_user_index us (some name)) [
  | none ↦ (user_not_found, none)
  | some i ↦ (elim (get_elem? us i) [
    | none ↦ (user_not_found, none)
    | some u ↦
        if strcmp_eq u.password pass
        then (users_ok, some u.access_level)
        else (wrong_password, none)
  ])
]

-- The loop of `valid_user` over one string. A `char` is signed, so a byte from 128 on is negative;
-- the NUL that ends the string is below 32 as well.
unfoldable pub valid_text : List ℕ → Status
valid_text [] = unkown_error
valid_text (c ∷ cs) =
    let rest = valid_text cs in if ltb c 32 || leb 128 c then unkown_error else rest

-- `valid_user`; a loop is not entered for NULL, and is only left by its `return`.
unfoldable pub valid_user : Option (List ℕ) → Option (List ℕ) → Status
unfolding valid_text
valid_user (some name) pass = valid_text name
valid_user none (some pass) = valid_text pass
valid_user none none = users_ok

abbrev set_password : List User → ℕ → List ℕ → List User
set_password us i pass = elim (get_elem? us i) [
  | none ↦ us
  | some u ↦ set us i (record u { password = pass })
]

unfoldable pub user_change_password :
    List User → Option (List ℕ) → Option (List ℕ) → Option (Status × List User)
user_change_password us none pass = some (invalid_username, us)
user_change_password us (some name) none = some (invalid_password, us)
user_change_password us (some name) (some pass) = elim (get_user_index us (some name)) [
  | none ↦ some (user_not_found, us)
  | some i ↦ if fits_field pass then some (users_ok, set_password us i pass) else none
]

-- the entries behind index `i` moved down by one, and one entry less
abbrev remove_at : List User → ℕ → List User
remove_at us i = take i us ++ drop (i + 1) us

unfoldable pub user_delete : List User → Option (List ℕ) → Status × List User
user_delete us none = (invalid_username, us)
user_delete us (some name) = elim (get_user_index us (some name)) [
  | none ↦ (invalid_username, us)
  | some i ↦ (users_ok, remove_at us i)
]
