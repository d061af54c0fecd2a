-- ===== src/Hello/Greeting.antt =====
-- A whole greeting.
use protos_tpe.Base.{
  ℕ, ◌≤◌, ◌<◌, ◌≡◌, refl, ◌∙◌, sym, Bool, true, some, List, [], ◌∷◌, ◌++◌, arith, ◌==◌,
  if◌then◌else◌, length, take, store, take-store, Bool-cases, ◌⊎◌, inl, inr, ◌≢◌, length-store,
}
use mathlib.Core.Path.{subst}
use protos_tpe.Os.{Os, RecvReply, writing, set_interest}
use protos_tpe.Parser
use protos_tpe.Parser.{Parser, always}
use protos_tpe.Parser.Always.{At, feed-At, stepped}
use protos_tpe.Methods.{accepted_method}
use protos_tpe.States.{ClientState}
use protos_tpe.Hello.{HelloParser, hello_parser_init, hello_read, protocol_version}
use protos_tpe.Hello.State
use protos_tpe.Hello.Table.{hello_parser_def, act_ver_hello, act_nmethods_hello}
use protos_tpe.Hello.Select.{IsSelected, select_method-IsSelected}
use protos_tpe.Hello.Run.{read_all, read_all-next, read_all-fail, read_all-methods}

module _ (array : List ℕ) (fd client_fd : ℕ) where
  read-ver :
      (past_end c : ℕ) (os : Os)
      → let hp = (hello_parser_init true past_end).1 in
        (p : Parser) × At hello_parser_def State.nmethods p
        × (hello_read array fd client_fd hp os (RecvReply.received c)
            ≡ some (
              if c == protocol_version then ClientState.hello_read else ClientState.error,
              record hp { ver = c; p = some p },
              os,
            ))
  unfolding hello_read hello_parser_init Parser.feed Parser.events
  read-ver past_end c os = (
    stepped (Parser.start Parser.no_classes past_end hello_parser_def) State.nmethods act_ver_hello
        c,
    record { same = refl; state_is = refl },
    ground arith,
  )

  read-nmethods :
      (hp : HelloParser) (os : Os) (n : ℕ) (p : Parser)
      → hp.p ≡ some p
      → At hello_parser_def State.nmethods p
      → hello_read array fd client_fd hp os (RecvReply.received n)
        ≡ some (
            if n == 0
            then (
              ClientState.error,
              record hp { p = some (stepped p State.methods act_nmethods_hello n) },
              os,
            )
            else (
              ClientState.hello_read,
              record hp {
                nmethods = n;
                methods_read = 0;
                p = some (stepped p State.methods act_nmethods_hello n);
              },
              os,
            ))
  unfolding hello_read Parser.events
  read-nmethods hp os n p live at =
      rw (live, feed-At State.methods act_nmethods_hello n at refl) (ground arith)

  room : (past_end : ℕ) → length (hello_parser_init true past_end).1.methods ≡ 255
  unfolding hello_parser_init
  room past_end = refl

  -- A greeting that a new parser is given byte by byte: VER = 5, NMETHODS = n > 0, n methods, then
  -- anything, where `accepted_method` accepts the methods of `ok`, all below 128. `hello_read`
  -- leaves HELLO_READ with the last method, for HELLO_WRITE; the method that it has selected is the
  -- greatest accepted one, or 0xFF where there is none; it waits to write; no other byte is read.
  pub read_all-greeting :
      (ok : ℕ → Bool)
      → ((m : ℕ) → ok m ≡ true → m < 128)
      → ((m : ℕ) → accepted_method array m ≡ some (ok m))
      → (past_end n : ℕ) (ms rest : List ℕ) (os : Os) → length ms ≡ n
      → 0 < n
      → n ≤ 255
      → (hp : HelloParser) × (os' : Os) × (read_all array fd client_fd
            (hello_parser_init true past_end).1
            os
            (protocol_version ∷ n ∷ (ms ++ rest))
          ≡ some (ClientState.hello_write, hp, os', rest))
        × (os' ≡ set_interest os fd writing)
        × (hp.methods_read ≡ hp.nmethods)
        × (take n hp.methods ≡ ms)
        × IsSelected ok ms hp.method_selected
  read_all-greeting ok small a past_end n [] rest os len pos_n small_n = absurd (omega arith)
  read_all-greeting ok small a past_end n (c ∷ cs) rest os len pos_n small_n =
      let hp0 = (hello_parser_init true past_end).1 in
      let (p1, at1, e1) = read-ver past_end protocol_version os in
      let hp1 : HelloParser = record hp0 { ver = protocol_version; p = some p1 } in
      let p2 = stepped p1 State.methods act_nmethods_hello n in
      let hp2 : HelloParser = record hp1 { nmethods = n; methods_read = 0; p = some p2 } in
      let e2 : hello_read array fd client_fd hp1 os (RecvReply.received n)
          ≡ some (ClientState.hello_read, hp2, os) =
        read-nmethods hp1 os n p1 refl at1 ∙ ground arith in
      let (r, sel, is) =
        select_method-IsSelected ok small array a (store hp0.methods 0 (c ∷ cs)) n
          (omega (arith, length-store hp0.methods 0 (c ∷ cs), room past_end)) in
      let (hp', os', run, g) =
        read_all-methods array fd client_fd cs hp2 os n 0 r c p2 rest
          (record {
            live = refl;
            at = record { same = at1.same; state_is = refl };
            total = refl;
            count = refl;
            room = room past_end;
          })
          (omega arith) small_n sel in
      let kept : take n (store hp0.methods 0 (c ∷ cs)) ≡ c ∷ cs =
        take-store hp0.methods (c ∷ cs) n (sym len) (omega (arith, room past_end)) in
      (
        hp',
        os',
        read_all-next array fd client_fd hp0 hp1 os os protocol_version (n ∷ c ∷ (cs ++ rest)) e1
            ∙ read_all-next array fd client_fd hp1 hp2 os os n (c ∷ (cs ++ rest)) e2
            ∙ run,
        g.asked,
        g.all_read,
        rw g.stored kept,
        subst (IsSelected ok (c ∷ cs)) (sym g.selected) (subst (λ l. IsSelected ok l r) kept is),
      )

  -- What is no greeting: another version, or no method. The connection goes to ERROR at that byte,
  -- the first or the second, and reads none of those behind it.
  pub read_all-refused :
      (past_end v n : ℕ) (rest : List ℕ) (os : Os)
      → (v ≢ protocol_version) ⊎ (n ≡ 0)
      → (hp : HelloParser) × (read_all array fd client_fd
            (hello_parser_init true past_end).1
            os
            (v ∷ n ∷ rest)
          ≡ some (ClientState.error, hp, os, if v == protocol_version then rest else n ∷ rest))
  read_all-refused past_end v n rest os bad =
      let hp0 = (hello_parser_init true past_end).1 in
      let (p1, at1, e1) = read-ver past_end v os in
      let hp1 : HelloParser = record hp0 { ver = v; p = some p1 } in
      elim (Bool-cases (v == protocol_version)) [
        | inl y ↦
            let z : n ≡ 0 = ground arith in
            let hp2 : HelloParser = record hp1 {
              p = some (stepped p1 State.methods act_nmethods_hello n);
            } in
            let e2 : hello_read array fd client_fd hp1 os (RecvReply.received n)
                ≡ some (ClientState.error, hp2, os) =
              read-nmethods hp1 os n p1 refl at1 ∙ rw z in
            (
              hp2,
              rw y (
                  read_all-next array fd client_fd hp0 hp1 os os v (n ∷ rest) (rw y at e1)
                  ∙ read_all-fail array fd client_fd hp1 hp2 os os n rest e2),
            )
        | inr x ↦
            (hp1, rw x (read_all-fail array fd client_fd hp0 hp1 os os v (n ∷ rest) (rw x at e1)))
      ]
