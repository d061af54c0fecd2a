-- ===== src/Tests/Greeting.antt =====
-- The greeting 5, 2, 0, 2 where the server accepts user and password only.
use protos_tpe.Base.{
  ℕ, ◌≡◌, ◌≢◌, refl, inl, Bool, true, false, some, List, [], ◌∷◌, arith, ◌<◌, ◌==◌, take, replicate,
}
use protos_tpe.Os.{Os, Errno, Interest, writing, set_interest}
use protos_tpe.States.{ClientState}
use protos_tpe.Methods.{accepted_method, user_pass}
use protos_tpe.Hello.{HelloParser, hello_parser_init, protocol_version, select_method}
use protos_tpe.Hello.Select.{IsSelected, select_method-IsSelected}
use protos_tpe.Hello.Run.{read_all}
use protos_tpe.Hello.Greeting.{read_all-greeting, read_all-refused}

-- the array of the default, user and password only
abbrev only_user_pass : List ℕ
only_user_pass = 2 ∷ 255 ∷ replicate 253 0

abbrev ok : ℕ → Bool
ok m = m == user_pass

ok-small : (m : ℕ) → ok m ≡ true → m < 128
ok-small m h = ground arith

ok-accepted : (m : ℕ) → accepted_method only_user_pass m ≡ some (ok m)
unfolding accepted_method
ok-accepted m = ground arith

abbrev os : Os
os = record {
  errno = Errno.clear;
  interest = λ fd. some Interest.reading;
  sent = λ fd. [];
  shut = λ fd. false;
  closed = [];
}

select_method-IsSelected_example :
    (r : ℕ) × (select_method only_user_pass (0 ∷ 2 ∷ 7 ∷ []) 2 ≡ some r)
    × IsSelected ok (take 2 (0 ∷ 2 ∷ 7 ∷ [])) r
select_method-IsSelected_example =
    select_method-IsSelected ok ok-small only_user_pass ok-accepted (0 ∷ 2 ∷ 7 ∷ []) 2 (omega arith)

read_all-greeting_example :
    (hp : HelloParser) × (os' : Os) × (read_all only_user_pass 7 7
        (hello_parser_init true 0).1
        os
        (5 ∷ 2 ∷ 0 ∷ 2 ∷ 9 ∷ [])
      ≡ some (ClientState.hello_write, hp, os', 9 ∷ []))
    × (os' ≡ set_interest os 7 writing)
    × (hp.methods_read ≡ hp.nmethods)
    × (take 2 hp.methods ≡ 0 ∷ 2 ∷ [])
    × IsSelected ok (0 ∷ 2 ∷ []) hp.method_selected
read_all-greeting_example =
    read_all-greeting only_user_pass 7 7 ok ok-small ok-accepted 0 2 (0 ∷ 2 ∷ []) (9 ∷ []) os refl
      (omega arith) (omega arith)

four-ne-version : 4 ≢ protocol_version
four-ne-version e = absurd (omega (arith, e))

read_all-refused_example :
    (hp : HelloParser) × (read_all only_user_pass 7 7
        (hello_parser_init true 0).1
        os
        (4 ∷ 1 ∷ 0 ∷ [])
      ≡ some (ClientState.error, hp, os, 1 ∷ 0 ∷ []))
read_all-refused_example =
    read_all-refused only_user_pass 7 7 0 4 1 (0 ∷ []) os (inl four-ne-version)
