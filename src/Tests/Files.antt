-- ===== src/Tests/Files.antt =====
-- The users file, for an administrator `a` with the password `b`, and a user `c` with none.
use protos_tpe.Base.{ℕ, zero, suc, ◌≡◌, refl, true, some, List, [], ◌∷◌, ◌++◌, arith, replicate}
use protos_tpe.Users.{User, users_ok}
use protos_tpe.Users.Table.{find, IsValid}
use protos_tpe.Users.Text.{strcmp_eq}
use protos_tpe.Users.File.{load_users, save_users, loaded, overrun}
use protos_tpe.Users.File.Saved.{load_users-save_users, load_users-overruns, Printable}
use protos_tpe.Users.File.Rounds.{Finished, load_users-Finished}

abbrev boss : User
boss = record { username = 97 ∷ []; password = 98 ∷ []; access_level = 0 }

abbrev guest : User
guest = record { username = 99 ∷ []; password = []; access_level = 1 }

two-IsValid : IsValid (boss ∷ guest ∷ [])
unfolding find strcmp_eq
two-IsValid = record {
  distinct = (refl, (refl, tt));
  bounded = omega arith;
  fit = (refl, refl, omega arith, (refl, refl, omega arith, tt));
}

load_users-save_users_example :
    (file : List ℕ) × (save_users true (boss ∷ guest ∷ []) ≡ (users_ok, some file))
    × (load_users true file [] ≡ loaded (boss ∷ guest ∷ []))
load_users-save_users_example = load_users-save_users boss (guest ∷ []) two-IsValid (
  (omega arith, omega arith, omega arith, tt),
  (omega arith, omega arith, omega arith, tt),
  ((omega arith, omega arith, omega arith, tt), tt, tt),
)

load_users-Finished_example : Finished (load_users true (64 ∷ 97 ∷ []) (boss ∷ guest ∷ []))
load_users-Finished_example =
    load_users-Finished true (64 ∷ 97 ∷ []) (boss ∷ guest ∷ []) two-IsValid

letters-Printable : (n : ℕ) → Printable 58 (replicate n 97)
letters-Printable zero = tt
letters-Printable (suc n) = (omega arith, omega arith, omega arith, letters-Printable n)

load_users-overruns_example : load_users true (64 ∷ (replicate 256 97 ++ 58 ∷ 98 ∷ [])) [] ≡ overrun
load_users-overruns_example =
    load_users-overruns (replicate 256 97) (98 ∷ []) [] (letters-Printable 256) refl
