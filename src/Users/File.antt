-- ===== src/Users/File.antt =====
-- The users file: parse_user, load_users and save_users. A file is the list of its bytes. `char` is
-- signed: a byte from 128 on is negative, and ends a loop as the end of the file does. `none` is a
-- write behind a field of the user that is parsed.
pub mod Saved
pub mod Rounds
use protos_tpe.Base.{
  ℕ, zero, suc, ◌+◌, Bool, true, false, ◌&&◌, ◌||◌, Option, none, some, List, [], ◌∷◌, ◌++◌, ltb,
  leb, ◌==◌, if◌then◌else◌, ◌>>=◌, length,
}
use protos_tpe.Users.{User, Status, users_ok, io_error, admin, user, user_create, fits_field}

abbrev pub newline : ℕ
newline = 10

abbrev pub username_delimiter : ℕ
username_delimiter = 58

abbrev pub admin_specifier : ℕ
admin_specifier = 64

abbrev pub user_specifier : ℕ
user_specifier = 35

-- `skipLine`: whether it has met the end of the line, and the rest of the file
unfoldable pub skip_line : List ℕ → Bool × List ℕ
skip_line [] = (false, [])
skip_line (c ∷ cs) =
    let later = skip_line cs in
    if leb 128 c then (false, cs) else if c == newline then (true, cs) else later

-- `isspace`, in the C locale
abbrev pub is_space : ℕ → Bool
is_space c = c == 32 || (leb 9 c && leb c 13)

-- `skipWhiteSpaces`: the character behind the spaces, `none` where it is negative, and the rest
unfoldable pub skip_white_spaces : List ℕ → Option ℕ × List ℕ
skip_white_spaces [] = (none, [])
skip_white_spaces (c ∷ cs) =
    let later = skip_white_spaces cs in
    if leb 128 c then (none, cs) else if is_space c then later else (some c, cs)

-- what a loop over a field gives: its text, or the result of `parse_user`
pub data Field : Type 0 where
  whole : List ℕ → List ℕ → Field
  skipped : List ℕ → Field
  ended : Field

abbrev pub push : ℕ → Field → Field
push c (whole text rest) = whole (c ∷ text) rest
push c other = other

-- a line with an invalid character, behind it
abbrev pub invalid_line : List ℕ → Field
invalid_line cs = let (met, rest) = skip_line cs in if met then skipped rest else ended

-- The loops over the name and over the password, which end at `stop`; `n` is the length so far.
unfoldable pub read_field : ℕ → List ℕ → ℕ → Field
unfolding skip_line
read_field stop [] n = whole [] []
read_field stop (c ∷ cs) n =
    let later = read_field stop cs (n + 1) in
    if leb 128 c || c == stop
    then whole [] cs
    else if ltb c 32 || ltb 255 n
    then (if c == newline then skipped cs else invalid_line cs)
    else push c later

-- The result of `parse_user`: 0 with the user, a positive one, or a negative one.
pub data Parsed : Type 0 where
  parsed : User → List ℕ → Parsed
  skipped : List ℕ → Parsed
  ended : Parsed

-- behind the password's loop
parse_end : ℕ → List ℕ → Field → Option Parsed
parse_end level name (Field.whole pass rest) =
    if fits_field pass
    then some (parsed (record { username = name; password = pass; access_level = level }) rest)
    else none
parse_end level name (Field.skipped rest) = some (Parsed.skipped rest)
parse_end level name Field.ended = some Parsed.ended

-- behind the name's loop
parse_password : ℕ → Field → Option Parsed
unfolding read_field parse_end
parse_password level (Field.whole name rest) =
    if fits_field name then parse_end level name (read_field newline rest 0) else none
parse_password level (Field.skipped rest) = some (Parsed.skipped rest)
parse_password level Field.ended = some Parsed.ended

-- behind the spaces
parse_line : Option ℕ → List ℕ → Option Parsed
unfolding read_field parse_password
parse_line none rest = some Parsed.ended
parse_line (some c) rest =
    if c == admin_specifier
    then parse_password admin (read_field username_delimiter rest 0)
    else if c == user_specifier
    then parse_password user (read_field username_delimiter rest 0)
    else some (Parsed.skipped rest)

-- `parse_user`
unfoldable pub parse_user : List ℕ → Option Parsed
unfolding skip_white_spaces parse_line
parse_user file = let (first, rest) = skip_white_spaces file in parse_line first rest

-- How `load_users` ends: with the table that it leaves, at a write behind a field, or, which does not
-- happen, for want of rounds.
pub data Loaded : Type 0 where
  loaded : List User → Loaded
  overrun : Loaded
  unfinished : Loaded

-- The loop of `load_users`, of at most `rounds` rounds; a user that is refused is left out.
unfoldable pub load_from : ℕ → List ℕ → List User → Loaded
load_from zero file us = unfinished
load_from (suc rounds) file us = elim (parse_user file) [
  | none ↦ overrun
  | some p ↦ (elim p [
    | Parsed.ended ↦ loaded us
    | Parsed.skipped rest ↦ load_from rounds rest us
    | Parsed.parsed u rest ↦
        (elim (user_create us (some u.username) (some u.password) u.access_level) [
          | none ↦ overrun
          | some r ↦ load_from rounds rest r.1
        ])
  ])
]

-- `load_users`, from `users_init`: `opened` says whether `fopen` gives a file. Each round but the last
-- reads a byte, so there are enough rounds.
unfoldable pub load_users : Bool → List ℕ → List User → Loaded
unfolding load_from
load_users opened file us = if opened then load_from (length file + 1) file us else loaded us

-- the line of a user
abbrev pub print_user : User → List ℕ
print_user u =
    (if u.access_level == admin then admin_specifier else user_specifier)
    ∷ (u.username ++ username_delimiter ∷ (u.password ++ newline ∷ []))

abbrev pub print_users : List User → List ℕ
print_users [] = []
print_users (u ∷ us) = print_user u ++ print_users us

-- `save_users`: the status, and what the file then holds, or `none` where it is left as it was
unfoldable pub save_users : Bool → List User → Status × Option (List ℕ)
save_users opened [] = (users_ok, none)
save_users opened (u ∷ us) =
    if opened then (users_ok, some (print_users (u ∷ us))) else (io_error, none)
