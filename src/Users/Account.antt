-- ===== src/Users/Account.antt =====
-- The operations on users against the map from names: what each changes, and the invariant.
use protos_tpe.Base.{
  ℕ, ◌≤◌, ◌<◌, ◌≡◌, ◌⊎◌, inl, inr, refl, sym, ◌∙◌, true, false, ◌&&◌, Option, none, some, List, [],
  ◌∷◌, ◌++◌, arith, leb, if◌then◌else◌, Bool-cases, Option-cases, length, length-append,
}
use protos_tpe.Users.Text.{strcmp_eq, strcmp_eq_iff}
use protos_tpe.Users.{
  User, Status, users_ok, user_not_found, wrong_password, unkown_error, user_already_exists,
  max_users_reached, invalid_access_level, index_from, get_user_index, fits_field, user_create,
  user_login, user_change_password, user_delete, valid_user, valid_text, max_users_registered,
}
use protos_tpe.Users.Table.{
  find, Distinct, AllFit, IsValid, erase, renew, Located, locate, find-append, find-erase,
  find-renew,
}

Distinct-append :
    (us : List User) (v : User) → Distinct us → find us v.username ≡ none → Distinct (us ++ v ∷ [])
unfolding find
Distinct-append [] v d h = (refl, tt)
Distinct-append (u ∷ us) v d h = (
  ground (
    arith,
    find-append us v u.username,
    strcmp_eq_iff u.username v.username,
    strcmp_eq_iff v.username u.username,
    d.0,
  ),
  Distinct-append us v d.1 (ground arith),
)

Distinct-erase : (us : List User) (k : List ℕ) → Distinct us → Distinct (erase us k)
unfolding erase
Distinct-erase [] k d = tt
Distinct-erase (u ∷ us) k d = elim (Bool-cases (strcmp_eq u.username k)) [
  | inl y ↦ rw y d.1
  | inr n ↦ rw n (ground (arith, find-erase us k u.username d.1, d.0), Distinct-erase us k d.1)
]

Distinct-renew : (us : List User) (k p : List ℕ) → Distinct us → Distinct (renew us k p)
unfolding renew
Distinct-renew [] k p d = tt
Distinct-renew (u ∷ us) k p d = elim (Bool-cases (strcmp_eq u.username k)) [
  | inl y ↦ rw y d
  | inr n ↦ rw n (
    ground (
      arith,
      find-renew us k p u.username,
      strcmp_eq_iff k u.username,
      strcmp_eq_iff u.username k,
      d.0,
    ),
    Distinct-renew us k p d.1,
  )
]

AllFit-append : (us : List User) (v : User) → AllFit us → AllFit (v ∷ []) → AllFit (us ++ v ∷ [])
AllFit-append [] v a h = h
AllFit-append (u ∷ us) v a h = (a.0, a.1, a.2, AllFit-append us v a.3 h)

AllFit-erase : (us : List User) (k : List ℕ) → AllFit us → AllFit (erase us k)
unfolding erase
AllFit-erase [] k a = tt
AllFit-erase (u ∷ us) k a = elim (Bool-cases (strcmp_eq u.username k)) [
  | inl y ↦ rw y a.3
  | inr n ↦ rw n (a.0, a.1, a.2, AllFit-erase us k a.3)
]

AllFit-renew :
    (us : List User) (k p : List ℕ) → AllFit us → fits_field p ≡ true → AllFit (renew us k p)
unfolding renew
AllFit-renew [] k p a h = tt
AllFit-renew (u ∷ us) k p a h = elim (Bool-cases (strcmp_eq u.username k)) [
  | inl y ↦ rw y (a.0, h, a.2, a.3)
  | inr n ↦ rw n (a.0, a.1, a.2, AllFit-renew us k p a.3 h)
]

length-erase : (us : List User) (k : List ℕ) → length (erase us k) ≤ length us
unfolding erase
length-erase [] k = omega arith
length-erase (u ∷ us) k = ground (arith, length-erase us k)

length-renew : (us : List User) (k p : List ℕ) → length (renew us k p) ≡ length us
unfolding renew
length-renew [] k p = refl
length-renew (u ∷ us) k p = ground (arith, length-renew us k p)

-- `user_login` answers by the entry of the name alone: not found, wrong password, or the level.
pub user_login-find :
    (us : List User) (name pass : List ℕ)
    → user_login us name pass ≡ elim (find us name) [
      | none ↦ (user_not_found, none)
      | some u ↦
          if strcmp_eq u.password pass
          then (users_ok, some u.access_level)
          else (wrong_password, none)
    ]
unfolding user_login get_user_index
user_login-find us name pass = elim (locate us name 0) [
  | inl (a, b) ↦ ground (arith, a, b)
  | inr l ↦ ground (arith, l.index, l.found, l.entry)
]

not_found : (us : List User) (name : List ℕ) → find us name ≡ none → index_from us name 0 ≡ none
not_found us name h = elim (locate us name 0) [
  | inl (a, b) ↦ a
  | inr l ↦ absurd (none-ne-some l.who (sym h ∙ l.found))
]
  where
    none-ne-some : (u : User) → ◌≡◌ {A = Option User} none (some u) → ⊥
    none-ne-some u q = cc

located : (us : List User) (name : List ℕ) {u : User} → find us name ≡ some u → Located us name 0
located us name h = elim (locate us name 0) [
  | inl (a, b) ↦ absurd (some-ne-none (sym h ∙ b))
  | inr l ↦ l
]
  where
    some-ne-none : {u : User} → ◌≡◌ {A = Option User} (some u) none → ⊥
    some-ne-none q = cc

pub user_create-append :
    (us : List User) (v : User)
    → v.access_level ≤ 1
    → length us < max_users_registered
    → find us v.username ≡ none
    → fits_field v.username ≡ true
    → fits_field v.password ≡ true
    → user_create us (some v.username) (some v.password) v.access_level
      ≡ some (users_ok, us ++ v ∷ [])
unfolding user_create get_user_index
user_create-append us v small room new fn fp = ground (arith, not_found us v.username new)

-- In a valid table, a user that can be created, is: a level of the two, room in the table, a new
-- name, and both texts within their fields. Afterwards the table is valid, the name stands for that
-- user and every other name for what it stood for.
pub user_create-find :
    (us : List User) (name pass : List ℕ) (level : ℕ)
    → IsValid us
    → level ≤ 1
    → length us < max_users_registered
    → find us name ≡ none
    → fits_field name ≡ true
    → fits_field pass ≡ true
    → let v : User = record { username = name; password = pass; access_level = level } in
      (us' : List User) × (user_create us (some name) (some pass) level ≡ some (users_ok, us'))
      × IsValid us'
      × ((j : List ℕ) → find us' j ≡ (if strcmp_eq name j then some v else find us j))
user_create-find us name pass level v small room new fn fp =
    let w : User = record { username = name; password = pass; access_level = level } in
    (
      us ++ w ∷ [],
      user_create-append us w small room new fn fp,
      record {
        distinct = Distinct-append us w v.distinct new;
        bounded = omega (arith, length-append us (w ∷ []));
        fit = AllFit-append us w v.fit (fn, fp, small, tt);
      },
      λ j. ground (arith, find-append us w j, strcmp_eq_iff name j, new),
    )

-- a creation that is refused, for one of the three reasons
pub user_create-refused :
    (us : List User) (name pass : List ℕ) (level : ℕ) {u : User}
    → (2 ≤ level) ⊎ ((max_users_registered ≤ length us) ⊎ (find us name ≡ some u))
    → user_create us (some name) (some pass) level
      ≡ some (
        if leb 2 level
            then invalid_access_level
            else if leb max_users_registered (length us)
            then max_users_reached
            else user_already_exists,
        us,
      )
unfolding user_create get_user_index
user_create-refused us name pass level (inl h) = ground arith
user_create-refused us name pass level (inr (inl h)) = ground arith
user_create-refused us name pass level (inr (inr h)) = ground (arith, (located us name h).index)

user_create-overruns :
    (us : List User) (name pass : List ℕ) (level : ℕ)
    → level ≤ 1
    → length us < max_users_registered
    → find us name ≡ none
    → (fits_field name && fits_field pass) ≡ false
    → user_create us (some name) (some pass) level ≡ none
unfolding user_create get_user_index
user_create-overruns us name pass level small room new n = ground (arith, not_found us name new)

-- What is left of a table by a creation, where that is defined, is valid.
abbrev pub Keeps : Option (Status × List User) → Type 0
Keeps none = Unit
Keeps (some (st, us)) = IsValid us

pub user_create-Keeps :
    (us : List User) (name pass : List ℕ) (level : ℕ)
    → IsValid us
    → Keeps (user_create us (some name) (some pass) level)
user_create-Keeps us name pass level v =
    let someone : User = record { username = name; password = pass; access_level = level } in
    elim (Bool-cases (leb 2 level)) [
      | inl y ↦
          rw (user_create-refused us name pass level {u = someone} (inl (ground (arith, y)))) v
      | inr a ↦ (elim (Bool-cases (leb max_users_registered (length us))) [
        | inl y ↦
            rw
              (user_create-refused us name pass level {u = someone} (inr (inl (ground (arith, y)))))
              v
        | inr b ↦ (elim (Option-cases (find us name)) [
          | inr (u, e) ↦ rw (user_create-refused us name pass level (inr (inr e))) v
          | inl e ↦
              let small : level ≤ 1 = ground (arith, a) in
              let room : length us < max_users_registered = ground (arith, b) in
              (elim (Bool-cases (fits_field name && fits_field pass)) [
                | inr n ↦ rw (user_create-overruns us name pass level small room e n) tt
                | inl y ↦
                    let (us', f, v', found) =
                      user_create-find us name pass level v small room e (ground (arith, y))
                        (ground (arith, y)) in
                    rw f v'
              ])
        ])
      ])
    ]

-- Deleting a user that is there from a valid table: the table is still valid, the name stands for
-- nobody, every other for whom it stood for.
pub user_delete-find :
    (us : List User) (name : List ℕ) {u : User}
    → IsValid us
    → find us name ≡ some u
    → (us' : List User) × (user_delete us (some name) ≡ (users_ok, us'))
      × IsValid us'
      × ((j : List ℕ) → find us' j ≡ (if strcmp_eq name j then none else find us j))
unfolding user_delete get_user_index
user_delete-find us name v h =
    let l = located us name h in
    (
      erase us name,
      ground (arith, l.index, l.removed),
      record {
        distinct = Distinct-erase us name v.distinct;
        bounded = omega (arith, length-erase us name, v.bounded);
        fit = AllFit-erase us name v.fit;
      },
      λ j. find-erase us name j v.distinct,
    )

-- The password of a user of a valid table changed to one that fits its field: the table is still
-- valid, the user keeps its level and logs in with the new password; every other user is as before.
pub user_change_password-find :
    (us : List User) (name pass : List ℕ) (u : User)
    → IsValid us
    → find us name ≡ some u
    → fits_field pass ≡ true
    → (us' : List User) × (user_change_password us (some name) (some pass) ≡ some (users_ok, us'))
      × IsValid us'
      × (user_login us' name pass ≡ (users_ok, some u.access_level))
      × ((j : List ℕ) → strcmp_eq name j ≡ false → find us' j ≡ find us j)
unfolding user_change_password get_user_index
user_change_password-find us name pass u v h f =
    let l = located us name h in
    (
      renew us name pass,
      ground (arith, l.index, l.entry, l.renewed pass, f),
      record {
        distinct = Distinct-renew us name pass v.distinct;
        bounded = omega (arith, length-renew us name pass, v.bounded);
        fit = AllFit-renew us name pass v.fit f;
      },
      ground (
        arith,
        user_login-find (renew us name pass) name pass,
        find-renew us name pass name,
        strcmp_eq_iff name name,
        strcmp_eq_iff pass pass,
        h,
      ),
      λ j ne. ground (arith, find-renew us name pass j, ne),
    )

-- `valid_user` refuses every name: the NUL that ends it is no printable character.
pub valid_user-refuses :
    (name : List ℕ) (pass : Option (List ℕ)) → valid_user (some name) pass ≡ unkown_error
unfolding valid_user
valid_user-refuses name pass = refuses name
  where
    refuses : (cs : List ℕ) → valid_text cs ≡ unkown_error
    refuses [] = refl
    refuses (c ∷ cs) = ground (arith, refuses cs)
