-- ===== src/Users/Creation.antt =====
-- src/server/users.c: when user_create creates a user.
use protos_tpe.Base.{
  ℕ, ◌≤◌, ◌<◌, ◌≡◌, ◌≢◌, ◌↔◌, ◌⊎◌, inl, inr, refl, true, none, some, List, [], ◌∷◌, ◌++◌, arith,
  leb, if◌then◌else◌, Bool-cases, Option-cases, length,
}
use protos_tpe.Users.{
  User, Status, users_ok, user_already_exists, max_users_reached, invalid_access_level, fits_field,
  user_create, max_users_registered,
}
use protos_tpe.Users.Table.{find}
use protos_tpe.Users.Account.{user_create-append, user_create-refused}

-- The user can be created: the level is one of the two, the table has room, and the name is nobody's.
abbrev pub Creatable : List User → List ℕ → ℕ → Type 0
Creatable us name level = (level ≤ 1) × (length us < max_users_registered) × (find us name ≡ none)

-- With a name and a password that are within their fields, `user_create` returns, with USERS_OK
-- exactly if the level is one of the two, the table is not full and the name stands for nobody in
-- it; with any other status the table is as it was.
pub user_create-Creatable :
    (us : List User) (name pass : List ℕ) (level : ℕ)
    → fits_field name ≡ true
    → fits_field pass ≡ true
    → (st : Status) × (us' : List User) × (user_create us (some name) (some pass) level
        ≡ some (st, us'))
      × ((st ≡ users_ok) ↔ Creatable us name level)
      × ((st ≡ users_ok) ⊎ (us' ≡ us))
user_create-Creatable us name pass level fn fp =
    let someone : User = record { username = name; password = pass; access_level = level } in
    let status : Status =
      if leb 2 level
      then invalid_access_level
      else if leb max_users_registered (length us)
      then max_users_reached
      else user_already_exists in
    let refused : status ≢ users_ok = λ e. ground (arith, e) in
    elim (Bool-cases (leb 2 level)) [
      | inl y ↦ (
        status,
        us,
        user_create-refused us name pass level {u = someone} (inl (ground (arith, y))),
        (λ e. absurd (refused e), λ k. absurd (ground (arith, y, k.0))),
        inr refl,
      )
      | inr a ↦ (elim (Bool-cases (leb max_users_registered (length us))) [
        | inl y ↦ (
          status,
          us,
          user_create-refused us name pass level {u = someone} (inr (inl (ground (arith, y)))),
          (λ e. absurd (refused e), λ k. absurd (ground (arith, y, k.1))),
          inr refl,
        )
        | inr b ↦ (elim (Option-cases (find us name)) [
          | inr (u, e) ↦ (
            status,
            us,
            user_create-refused us name pass level (inr (inr e)),
            (λ q. absurd (refused q), λ k. absurd (ground (arith, e, k.2))),
            inr refl,
          )
          | inl e ↦
              let can : Creatable us name level = (ground (arith, a), ground (arith, b), e) in
              (
                users_ok,
                us ++ someone ∷ [],
                user_create-append us someone can.0 can.1 e fn fp,
                (λ q. can, λ k. refl),
                inl refl,
              )
        ])
      ])
    ]
