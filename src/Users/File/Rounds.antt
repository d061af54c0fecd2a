-- ===== src/Users/File/Rounds.antt =====
-- The loop of `load_users`: it has enough rounds, and what it leaves is a valid table.
use protos_tpe.Base.{
  ℕ, zero, suc, ◌+◌, ◌≤◌, ◌<◌, ◌≡◌, refl, inl, inr, Bool, true, false, ◌||◌, Option, none, some,
  List, [], ◌∷◌, ltb, leb, ◌==◌, length, arith, Bool-cases, Option-cases,
}
use protos_tpe.Users.{User, admin, user, user_create, fits_field}
use mathlib.Core.Path.{subst}
use protos_tpe.Users.Table.{IsValid}
use protos_tpe.Users.Account.{Keeps, user_create-Keeps}
use protos_tpe.Users.File.{
  Loaded, loaded, overrun, unfinished, Field, Parsed, read_field, parse_user, parse_line,
  parse_password, parse_end, load_from, load_users, push, newline, username_delimiter,
  admin_specifier, user_specifier, skip_white_spaces, skip_line, invalid_line, is_space,
}

length-skip_line : (cs : List ℕ) → length (skip_line cs).1 ≤ length cs
unfolding skip_line
length-skip_line [] = omega arith
length-skip_line (c ∷ cs) = ground (arith, length-skip_line cs)

-- What is left behind a field has at most `n` bytes.
abbrev Left : Field → ℕ → Type 0
Left (Field.whole text rest) n = length rest ≤ n
Left (Field.skipped rest) n = length rest ≤ n
Left Field.ended n = 0 ≤ n

push-Left : (c n : ℕ) (f : Field) → Left f n → Left (push c f) (suc n)
push-Left c n (Field.whole text rest) h = omega (arith, h)
push-Left c n (Field.skipped rest) h = omega (arith, h)
push-Left c n Field.ended h = omega arith

invalid_line-Left : (cs : List ℕ) → Left (invalid_line cs) (suc (length cs))
invalid_line-Left cs = elim (Bool-cases (skip_line cs).0) [
  | inl y ↦ rw y (omega (arith, length-skip_line cs))
  | inr n ↦ rw n (omega arith)
]

read_field-Left : (stop : ℕ) (cs : List ℕ) (n : ℕ) → Left (read_field stop cs n) (length cs)
unfolding read_field
read_field-Left stop [] n = omega arith
read_field-Left stop (c ∷ cs) n = elim (Bool-cases (leb 128 c || c == stop)) [
  | inl y ↦ rw y (omega arith)
  | inr a ↦ rw a (elim (Bool-cases (ltb c 32 || ltb 255 n)) [
    | inl y ↦ rw y (elim (Bool-cases (c == newline)) [
      | inl z ↦ rw z (omega arith)
      | inr z ↦ rw z (invalid_line-Left cs)
    ])
    | inr b ↦
        rw b
          (push-Left c (length cs) (read_field stop cs (n + 1)) (read_field-Left stop cs (n + 1)))
  ])
]

-- What `parse_user` leaves has at most `n` bytes, where it does not end the loop.
abbrev Progress : Option Parsed → ℕ → Type 0
Progress none n = 0 ≤ n
Progress (some (Parsed.parsed u rest)) n = length rest ≤ n
Progress (some (Parsed.skipped rest)) n = length rest ≤ n
Progress (some Parsed.ended) n = 0 ≤ n

parse_end-Progress :
    (level : ℕ) (name : List ℕ) (f : Field) (n : ℕ) → Left f n → Progress (parse_end level name f) n
unfolding parse_end
parse_end-Progress level name (Field.whole pass rest) n h = elim (Bool-cases (fits_field pass)) [
  | inl y ↦ rw y h
  | inr z ↦ rw z (omega arith)
]
parse_end-Progress level name (Field.skipped rest) n h = h
parse_end-Progress level name Field.ended n h = omega arith

Progress-more : (p : Option Parsed) (n m : ℕ) → n ≤ m → Progress p n → Progress p m
Progress-more none n m l h = omega arith
Progress-more (some (Parsed.parsed u rest)) n m l h = omega (arith, h)
Progress-more (some (Parsed.skipped rest)) n m l h = omega (arith, h)
Progress-more (some Parsed.ended) n m l h = omega arith

parse_password-Progress :
    (level : ℕ) (f : Field) (n : ℕ) → Left f n → Progress (parse_password level f) n
unfolding parse_password
parse_password-Progress level (Field.whole name rest) n h = elim (Bool-cases (fits_field name)) [
  | inl y ↦ rw y (
      Progress-more (parse_end level name (read_field newline rest 0)) (length rest) n h (
        parse_end-Progress level name (read_field newline rest 0) (length rest)
          (read_field-Left newline rest 0)))
  | inr z ↦ rw z (omega arith)
]
parse_password-Progress level (Field.skipped rest) n h = h
parse_password-Progress level Field.ended n h = omega arith

-- Behind the spaces, and the character after them, fewer than `n` bytes are left.
abbrev Ahead : Option ℕ × List ℕ → ℕ → Type 0
Ahead (none, rest) n = 0 ≤ n
Ahead (some c, rest) n = length rest < n

Ahead-suc : (p : Option ℕ × List ℕ) (n : ℕ) → Ahead p n → Ahead p (suc n)
Ahead-suc (none, rest) n h = omega arith
Ahead-suc (some c, rest) n h = omega (arith, h)

skip_white_spaces-Ahead : (cs : List ℕ) → Ahead (skip_white_spaces cs) (length cs)
unfolding skip_white_spaces
skip_white_spaces-Ahead [] = omega arith
skip_white_spaces-Ahead (c ∷ cs) = elim (Bool-cases (leb 128 c)) [
  | inl y ↦ rw y (omega arith)
  | inr a ↦ rw a (elim (Bool-cases (is_space c)) [
    | inl y ↦ rw y (Ahead-suc (skip_white_spaces cs) (length cs) (skip_white_spaces-Ahead cs))
    | inr b ↦ rw b (omega arith)
  ])
]

parse_line-Progress :
    (first : Option ℕ) (rest : List ℕ) (n : ℕ)
    → Ahead (first, rest) (suc n)
    → Progress (parse_line first rest) n
unfolding parse_line
parse_line-Progress none rest n h = omega arith
parse_line-Progress (some c) rest n h =
    let field = read_field username_delimiter rest 0 in
    let left = read_field-Left username_delimiter rest 0 in
    let more : length rest ≤ n = omega (arith, h) in
    elim (Bool-cases (c == admin_specifier)) [
      | inl y ↦ rw y (
          Progress-more (parse_password admin field) (length rest) n more
            (parse_password-Progress admin field (length rest) left))
      | inr a ↦ rw a (elim (Bool-cases (c == user_specifier)) [
        | inl y ↦ rw y (
            Progress-more (parse_password user field) (length rest) n more
              (parse_password-Progress user field (length rest) left))
        | inr b ↦ rw b more
      ])
    ]

parse_user-Progress : (c : ℕ) (cs : List ℕ) → Progress (parse_user (c ∷ cs)) (length cs)
unfolding parse_user
parse_user-Progress c cs =
    let p = skip_white_spaces (c ∷ cs) in
    parse_line-Progress p.0 p.1 (length cs) (skip_white_spaces-Ahead (c ∷ cs))

-- The loop has come to its end, with a valid table where there is one.
abbrev pub Finished : Loaded → Type 0
Finished (loaded us) = IsValid us
Finished overrun = Unit
Finished unfinished = 1 ≤ 0

-- What follows a round, where the rest of the loop finishes.
round-Finished :
    (p : Option Parsed) (us : List User) (n k : ℕ)
    → Progress p n
    → IsValid us
    → ((rest : List ℕ) (vs : List User)
        → length rest ≤ n
        → IsValid vs
        → Finished (load_from k rest vs))
    → (file : List ℕ) → parse_user file ≡ p
    → Finished (load_from (suc k) file us)
unfolding load_from
round-Finished none us n k h v ih file e = rw (Finished, load_from, e) tt
round-Finished (some Parsed.ended) us n k h v ih file e = rw (Finished, load_from, e) v
round-Finished (some (Parsed.skipped rest)) us n k h v ih file e =
    rw (Finished, load_from, e) (ih rest us h v)
round-Finished (some (Parsed.parsed u rest)) us n k h v ih file e =
    let kept = user_create-Keeps us u.username u.password u.access_level v in
    rw (Finished, load_from, e)
      (elim (Option-cases (user_create us (some u.username) (some u.password) u.access_level)) [
        | inl f ↦ rw f tt
        | inr (r, f) ↦ rw f (ih rest r.1 h (subst Keeps f kept))
      ])

load_from-Finished :
    (k : ℕ) (file : List ℕ) (us : List User)
    → length file < k
    → IsValid us
    → Finished (load_from k file us)
load_from-Finished zero file us h v = absurd (omega arith)
load_from-Finished (suc k) [] us h v = unfold load_from parse_user parse_line skip_white_spaces in v
load_from-Finished (suc k) (c ∷ cs) us h v =
    round-Finished (parse_user (c ∷ cs)) us (length cs) k (parse_user-Progress c cs) v
      (λ rest vs less w. load_from-Finished k rest vs (omega (arith, h)) w) (c ∷ cs) refl

-- From a valid table, and on any file, the loop of `load_users` ends: at the end of the file, or at a
-- write behind a field. Where it leaves a table, that is a valid one: no name twice, at most 50 users,
-- and each text in its field.
pub load_users-Finished :
    (opened : Bool) (file : List ℕ) (us : List User)
    → IsValid us
    → Finished (load_users opened file us)
unfolding load_users
load_users-Finished false file us v = v
load_users-Finished true file us v = load_from-Finished (length file + 1) file us (omega arith) v
