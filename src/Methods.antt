-- ===== src/Methods.antt =====
-- src/server/auth_utils.c: the authentication methods that the server accepts. An int8_t is kept as
-- its bit pattern, a number below 256: -1 is 255, and the negative ones are those from 128 on.
-- `none` is an access outside the array `accepted_methods`.
pub mod Accepted
use protos_tpe.Base.{
  ℕ, ◌+◌, Bool, true, false, not, ◌&&◌, ◌||◌, Option, none, some, List, [], ◌∷◌, ltb, leb, ◌==◌,
  if◌then◌else◌, ◌>>=◌, length, set, take, u8,
}

-- `auth_status_t`
pub data AuthStatus : Type 0 where
  auth_ok auth_error : AuthStatus

abbrev pub no_auth : ℕ
no_auth = 0

abbrev pub user_pass : ℕ
user_pass = 2

abbrev pub no_method_accepted : ℕ
no_method_accepted = 255

-- the terminator, -1
abbrev pub stop : ℕ
stop = 255

unfoldable pub supported_method : ℕ → Bool
supported_method m = m == no_auth || m == user_pass

-- A write at an index of the array, of MAX_BUFFER_SIZE = 255 entries.
unfoldable pub put : List ℕ → ℕ → ℕ → Option (List ℕ)
put methods i m = if ltb i (length methods) then some (set methods i m) else none

-- `*current`: the first byte of an argument, the NUL that ends it where it is empty
abbrev pub first_byte : List ℕ → ℕ
first_byte [] = 0
first_byte (c ∷ cs) = c

-- the loop of `change_auth_methods`, at index `i`, a uint8_t
unfoldable pub change_from : List ℕ → ℕ → List (List ℕ) → Option (AuthStatus × List ℕ)
unfolding put supported_method
change_from methods i [] = do methods' ← put methods i stop; some (auth_ok, methods')
change_from methods i (a ∷ as') =
    let rest = λ (ms : List ℕ). change_from ms (u8 (i + 1)) as' in
    if not (supported_method (first_byte a))
    then some (auth_error, methods)
    else (do methods' ← put methods i (first_byte a); rest methods')

-- `change_auth_methods`; `none` for the argument is NULL, which asks for the default.
unfoldable pub change_auth_methods : List ℕ → Option (List (List ℕ)) → Option (AuthStatus × List ℕ)
unfolding change_from
change_auth_methods methods none = do
  ms ← put methods 0 user_pass
  ms' ← put ms 1 stop
  some (auth_ok, ms')
change_auth_methods methods (some args) = change_from methods 0 args

-- The loop of `accepted_method`. A match is left only after the next entry is read too.
unfoldable pub search_from : List ℕ → ℕ → Option Bool
search_from [] m = none
search_from (current ∷ rest) m =
    let later = search_from rest m in
    if current == stop
    then some false
    else if m == current
    then (elim rest [ [] ↦ none | _ ∷ _ ↦ some true ])
    else later

-- `accepted_method`: its index is an int8_t, so it reaches the first 128 entries.
unfoldable pub accepted_method : List ℕ → ℕ → Option Bool
unfolding search_from
accepted_method methods m = if leb 128 m then some false else search_from (take 128 methods) m
