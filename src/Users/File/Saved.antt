-- ===== src/Users/File/Saved.antt =====
-- The users file that `save_users` writes, read by `load_users`.
use protos_tpe.Base.{
  ℕ, zero, suc, ◌+◌, ◌≤◌, ◌<◌, ◌≡◌, ◌≢◌, ◌⊎◌, inl, inr, refl, sym, ap, ◌∙◌, true, false, ◌||◌, none,
  some, List, [], ◌∷◌, ◌++◌, ltb, leb, ◌==◌, length, append-nil, append_assoc, arith, length-append,
}
use mathlib.Core.Path.{subst}
use protos_tpe.Users.{User, users_ok, admin, user, user_create, fits_field, max_users_registered}
use protos_tpe.Users.Text.{strcmp_eq, strcmp_eq_iff}
use protos_tpe.Users.Table.{find, Distinct, AllFit, IsValid}
use protos_tpe.Users.Account.{user_create-append}
use protos_tpe.Users.File.{
  loaded, overrun, admin_specifier, user_specifier, Field, Parsed, read_field, parse_user,
  parse_line, parse_password, parse_end, load_from, load_users, save_users, print_user, print_users,
  push, newline, username_delimiter, skip_white_spaces,
}

-- A text without control characters, bytes from 128 on, and the character that ends its field.
abbrev pub Printable : ℕ → List ℕ → Type 0
Printable stop [] = Unit
Printable stop (c ∷ cs) = (32 ≤ c) × (c < 128) × (c ≢ stop) × Printable stop cs

abbrev pub AllPrintable : List User → Type 0
AllPrintable [] = Unit
AllPrintable (u ∷ us) =
    Printable username_delimiter u.username × Printable newline u.password × AllPrintable us

read_field-text :
    (stop : ℕ) (text rest : List ℕ) (n : ℕ)
    → stop < 128
    → Printable stop text
    → n + length text ≤ 256
    → read_field stop (text ++ stop ∷ rest) n ≡ Field.whole text rest
unfolding read_field
read_field-text stop [] rest n s p h = ground arith
read_field-text stop (c ∷ text) rest n s p h =
    let ih = read_field-text stop text rest (n + 1) s p.3 (omega (arith, h)) in
    let a : (leb 128 c || c == stop) ≡ false = ground (arith, p.1, p.2) in
    let b : (ltb c 32 || ltb 255 n) ≡ false = ground (arith, p.0, h) in rw (a, b) (ap (push c) ih)

fits-length : (text : List ℕ) → fits_field text ≡ true → length text < 256
fits-length text h = ground arith

-- the two fields of a line
parse_password-text :
    (level : ℕ) (name pass rest : List ℕ)
    → Printable username_delimiter name
    → Printable newline pass
    → fits_field name ≡ true
    → fits_field pass ≡ true
    → parse_password level
        (read_field username_delimiter (name ++ username_delimiter ∷ (pass ++ newline ∷ rest)) 0)
      ≡ some
          (Parsed.parsed (record { username = name; password = pass; access_level = level }) rest)
unfolding parse_password parse_end
parse_password-text level name pass rest pn pp fn fp =
    let first =
      read_field-text username_delimiter name (pass ++ newline ∷ rest) 0 (omega arith) pn
        (omega (arith, fits-length name fn)) in
    let second =
      read_field-text newline pass rest 0 (omega arith) pp (omega (arith, fits-length pass fp)) in
    rw (first, fn, second, fp) refl

print_user-append :
    (name pass rest : List ℕ)
    → (name ++ username_delimiter ∷ (pass ++ newline ∷ [])) ++ rest
      ≡ name ++ username_delimiter ∷ (pass ++ newline ∷ rest)
print_user-append name pass rest =
    append_assoc name (username_delimiter ∷ (pass ++ newline ∷ [])) rest
    ∙ ap (λ l. name ++ username_delimiter ∷ l) (append_assoc pass (newline ∷ []) rest)

level-cases : (l : ℕ) → l ≤ 1 → (l ≡ admin) ⊎ (l ≡ user)
level-cases zero h = inl refl
level-cases (suc zero) h = inr refl
level-cases (suc (suc l)) h = absurd (omega arith)

parse_user-admin :
    (cs : List ℕ)
    → parse_user (admin_specifier ∷ cs) ≡ parse_password admin (read_field username_delimiter cs 0)
unfolding parse_user parse_line skip_white_spaces
parse_user-admin cs = refl

parse_user-user :
    (cs : List ℕ)
    → parse_user (user_specifier ∷ cs) ≡ parse_password user (read_field username_delimiter cs 0)
unfolding parse_user parse_line skip_white_spaces
parse_user-user cs = refl

-- the line of a user, in front of the rest of the file
parse_user-print :
    (name pass rest : List ℕ) (level : ℕ)
    → level ≤ 1
    → Printable username_delimiter name
    → Printable newline pass
    → fits_field name ≡ true
    → fits_field pass ≡ true
    → let u : User = record { username = name; password = pass; access_level = level } in
      parse_user (print_user u ++ rest) ≡ some (Parsed.parsed u rest)
parse_user-print name pass rest level l pn pp fn fp =
    let tail = name ++ username_delimiter ∷ (pass ++ newline ∷ rest) in
    elim (level-cases level l) [
      | inl a ↦
          rw (a, print_user-append name pass rest)
            (parse_user-admin tail ∙ parse_password-text admin name pass rest pn pp fn fp)
      | inr b ↦
          rw (b, print_user-append name pass rest)
            (parse_user-user tail ∙ parse_password-text user name pass rest pn pp fn fp)
    ]

-- What the invariant of a table says of a user in its middle.
other_name :
    (us : List User) (v : User) (vs : List User) (k : List ℕ)
    → find (us ++ v ∷ vs) k ≡ none
    → strcmp_eq v.username k ≡ false
unfolding find
other_name [] v vs k h = ground arith
other_name (u ∷ us) v vs k h = other_name us v vs k (ground arith)

Distinct-find :
    (us : List User) (v : User) (vs : List User)
    → Distinct (us ++ v ∷ vs)
    → find us v.username ≡ none
unfolding find
Distinct-find [] v vs d = refl
Distinct-find (u ∷ us) v vs d =
    let off = other_name us v vs u.username d.0 in
    let rest = Distinct-find us v vs d.1 in
    ground
      (arith, off, rest, strcmp_eq_iff u.username v.username, strcmp_eq_iff v.username u.username)

AllFit-middle :
    (us : List User) (v : User) (vs : List User) → AllFit (us ++ v ∷ vs) → AllFit (v ∷ [])
AllFit-middle [] v vs a = (a.0, a.1, a.2, tt)
AllFit-middle (u ∷ us) v vs a = AllFit-middle us v vs a.3

load_from-created :
    (u : User) (us : List User) (file rest : List ℕ) (k : ℕ)
    → parse_user file ≡ some (Parsed.parsed u rest)
    → user_create us (some u.username) (some u.password) u.access_level
      ≡ some (users_ok, us ++ u ∷ [])
    → load_from (suc k) file us ≡ load_from k rest (us ++ u ∷ [])
unfolding load_from
load_from-created u us file rest k e f = rw (load_from, e, f) refl

load_from-print :
    (vs us : List User) (k : ℕ)
    → length vs < k
    → IsValid (us ++ vs)
    → AllPrintable vs
    → load_from k (print_users vs) us ≡ loaded (us ++ vs)
load_from-print vs us zero h w p = absurd (omega arith)
load_from-print [] us (suc k) h w p =
    unfold load_from parse_user parse_line skip_white_spaces in ap loaded (sym (append-nil us))
load_from-print (v ∷ vs) us (suc k) h w p =
    let fit = AllFit-middle us v vs w.fit in
    let room : length us < max_users_registered =
      omega (arith, w.bounded, length-append us (v ∷ vs)) in
    let shift : us ++ v ∷ vs ≡ (us ++ v ∷ []) ++ vs = sym (append_assoc us (v ∷ []) vs) in
    load_from-created v us (print_users (v ∷ vs)) (print_users vs) k
      (parse_user-print v.username v.password (print_users vs) v.access_level fit.2 p.0 p.1 fit.0
        fit.1)
      (user_create-append us v fit.2 room (Distinct-find us v vs w.distinct) fit.0 fit.1)
    ∙ load_from-print vs (us ++ v ∷ []) k (omega (arith, h)) (subst IsValid shift w) p.2
    ∙ ap loaded (sym shift)

length-print_users : (us : List User) → length us ≤ length (print_users us)
length-print_users [] = omega arith
length-print_users (u ∷ us) =
    omega (arith, length-print_users us, length-append (print_user u) (print_users us))

-- A valid table that is not empty, whose names and passwords have printable ASCII characters only,
-- the names no `:`, is saved to a file that loads to the same table: the same users, in the same order,
-- with their passwords and levels.
pub load_users-save_users :
    (u : User) (us : List User)
    → IsValid (u ∷ us)
    → AllPrintable (u ∷ us)
    → (file : List ℕ) × (save_users true (u ∷ us) ≡ (users_ok, some file))
      × (load_users true file [] ≡ loaded (u ∷ us))
unfolding load_users save_users
load_users-save_users u us w p =
    let file = print_users (u ∷ us) in
    (
      file,
      refl,
      load_from-print (u ∷ us) [] (length file + 1) (omega (arith, length-print_users (u ∷ us))) w
          p,
    )

parse_password-long :
    (level : ℕ) (name rest : List ℕ)
    → Printable username_delimiter name
    → length name ≡ 256
    → parse_password level (read_field username_delimiter (name ++ username_delimiter ∷ rest) 0)
      ≡ none
unfolding parse_password
parse_password-long level name rest p h =
    let long : fits_field name ≡ false = ground (arith, h) in
    let field = read_field-text username_delimiter name rest 0 (omega arith) p (omega (arith, h)) in
    rw (field, long) refl

load_from-overrun :
    (us : List User) (file : List ℕ) (k : ℕ)
    → parse_user file ≡ none
    → load_from (suc k) file us ≡ overrun
unfolding load_from
load_from-overrun us file k e = rw (load_from, e) refl

-- A users file whose first line has a name of 256 characters, one more than the limit, makes the loop
-- of `load_users` write behind the name's array, whatever follows in the file.
pub load_users-overruns :
    (name rest : List ℕ) (us : List User)
    → Printable username_delimiter name
    → length name ≡ 256
    → load_users true (admin_specifier ∷ (name ++ username_delimiter ∷ rest)) us ≡ overrun
unfolding load_users
load_users-overruns name rest us p h =
    let tail = name ++ username_delimiter ∷ rest in
    ap (λ k. load_from k (admin_specifier ∷ tail) us) {y = suc (length tail + 1)} (omega arith)
    ∙ load_from-overrun us (admin_specifier ∷ tail) (length tail + 1)
        (parse_user-admin tail ∙ parse_password-long admin name rest p h)
