-- ===== src/Tests/Acceptance.antt =====
-- The array of the accepted methods, zeroed, and requests for both methods.
use protos_tpe.Base.{
  ℕ, ◌≡◌, refl, false, none, some, List, [], ◌∷◌, ◌++◌, arith, leb, ◌==◌, if◌then◌else◌, length,
  replicate, store,
}
use protos_tpe.Methods.{
  auth_ok, auth_error, user_pass, change_auth_methods, accepted_method, supported_method,
}
use protos_tpe.Methods.Accepted.{
  AllSupported, named, first_bytes, accepted_method-change, accepted_method-default, change-refused,
}

abbrev zeros : List ℕ
zeros = replicate 255 0

abbrev both_methods : List (List ℕ)
both_methods = (0 ∷ []) ∷ (2 ∷ []) ∷ []

both-AllSupported : AllSupported both_methods
unfolding supported_method
both-AllSupported = (refl, (refl, tt))

three_unsupported : supported_method 3 ≡ false
unfolding supported_method
three_unsupported = refl

accepted_method-change_example :
    (ms' : List ℕ) × (change_auth_methods zeros (some both_methods) ≡ some (auth_ok, ms'))
    × (length ms' ≡ 255)
    × ((m : ℕ) → accepted_method ms' m ≡ some (if leb 128 m then false else named both_methods m))
accepted_method-change_example =
    accepted_method-change both_methods zeros refl (omega arith) both-AllSupported

change-refused_example :
    change_auth_methods zeros (some (both_methods ++ (3 ∷ []) ∷ []))
    ≡ some (auth_error, store zeros 0 (first_bytes both_methods))
change-refused_example =
    change-refused both_methods (3 ∷ []) [] zeros refl (omega arith) both-AllSupported
      three_unsupported

accepted_method-default_example :
    (ms' : List ℕ) × (change_auth_methods zeros none ≡ some (auth_ok, ms'))
    × (accepted_method ms' 2 ≡ some (2 == user_pass))
accepted_method-default_example = accepted_method-default zeros 2 refl
