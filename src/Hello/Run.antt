-- ===== src/Hello/Run.antt =====
-- The bytes of a greeting, each handed to `hello_read` when it arrives, and those of its methods.
use protos_tpe.Base.{
  ℕ, suc, ◌+◌, ◌≤◌, ◌<◌, ◌≡◌, refl, ◌∙◌, sym, Option, some, List, [], ◌∷◌, ◌++◌, arith, ◌>>=◌,
  length, set, store, length-set, store-set, set-store,
}
use protos_tpe.Os.{Os, RecvReply, writing, set_interest}
use protos_tpe.Parser
use protos_tpe.Parser.{Parser, always}
use protos_tpe.Parser.Always.{At, feed-At, stepped}
use protos_tpe.States.{ClientState}
use protos_tpe.Hello.{HelloParser, select_method, hello_read}
use protos_tpe.Hello.State
use protos_tpe.Hello.Table.{hello_parser_def, act_method_hello}

module _ (array : List ℕ) (fd client_fd : ℕ) where
  -- The bytes `bs` arrive while the connection stays in HELLO_READ; the bytes that are left over
  -- when it leaves that state are the last part of the result.
  unfoldable pub read_all :
      HelloParser → Os → List ℕ → Option (ClientState × HelloParser × Os × List ℕ)
  read_all hp os [] = some (ClientState.hello_read, hp, os, [])
  read_all hp os (c ∷ cs) =
      let later = λ (hp' : HelloParser) (os' : Os). read_all hp' os' cs in
      do
        r ← hello_read array fd client_fd hp os (RecvReply.received c)
        elim r.0 [ ClientState.hello_read ↦ later r.1 r.2 | s ↦ some (s, r.1, r.2, cs) ]

  pub read_all-next :
      (hp hp' : HelloParser) (os os' : Os) (c : ℕ) (cs : List ℕ)
      → hello_read array fd client_fd hp os (RecvReply.received c)
        ≡ some (ClientState.hello_read, hp', os')
      → read_all hp os (c ∷ cs) ≡ read_all hp' os' cs
  unfolding read_all
  read_all-next hp hp' os os' c cs e = rw e

  pub read_all-leave :
      (hp hp' : HelloParser) (os os' : Os) (c : ℕ) (cs : List ℕ)
      → hello_read array fd client_fd hp os (RecvReply.received c)
        ≡ some (ClientState.hello_write, hp', os')
      → read_all hp os (c ∷ cs) ≡ some (ClientState.hello_write, hp', os', cs)
  unfolding read_all
  read_all-leave hp hp' os os' c cs e = rw e

  pub read_all-fail :
      (hp hp' : HelloParser) (os os' : Os) (c : ℕ) (cs : List ℕ)
      → hello_read array fd client_fd hp os (RecvReply.received c)
        ≡ some (ClientState.error, hp', os')
      → read_all hp os (c ∷ cs) ≡ some (ClientState.error, hp', os', cs)
  unfolding read_all
  read_all-fail hp hp' os os' c cs e = rw e

  -- the greeting's parser, waiting for methods, of which `k` are read
  pub record Waiting (hp : HelloParser) (n k : ℕ) (p : Parser) : Type 0 where
    pub live : hp.p ≡ some p
    pub at : At hello_parser_def State.methods p
    pub total : hp.nmethods ≡ n
    pub count : hp.methods_read ≡ k
    pub room : length hp.methods ≡ 255

  read-method_more :
      (hp : HelloParser) (os : Os) (n k c : ℕ) (p : Parser)
      → Waiting hp n k p
      → k + 1 < n
      → n ≤ 255
      → hello_read array fd client_fd hp os (RecvReply.received c)
        ≡ some (
          ClientState.hello_read,
          record hp {
            methods = set hp.methods k c;
            methods_read = k + 1;
            p = some (stepped p State.methods act_method_hello c);
          },
          os,
        )
  unfolding hello_read Parser.events
  read-method_more hp os n k c p w h l =
      rw (w.live, feed-At State.methods act_method_hello c w.at refl) (ground arith)

  read-method_last :
      (hp : HelloParser) (os : Os) (n k c r : ℕ) (p : Parser)
      → Waiting hp n k p
      → k + 1 ≡ n
      → n ≤ 255
      → select_method array (set hp.methods k c) n ≡ some r
      → hello_read array fd client_fd hp os (RecvReply.received c)
        ≡ some (
          ClientState.hello_write,
          record hp {
            methods = set hp.methods k c;
            methods_read = k + 1;
            method_selected = r;
            p = some (Parser.reset (stepped p State.methods act_method_hello c));
          },
          set_interest os fd writing,
        )
  unfolding hello_read Parser.events
  read-method_last hp os n k c r p w h l e =
      rw (w.live, feed-At State.methods act_method_hello c w.at refl) (ground (arith, e))

  -- What the greeting leaves behind, once its last method is read.
  pub record Greeted (os : Os) (methods : List ℕ) (r : ℕ) (hp : HelloParser) (os' : Os)
      : Type 0 where
    pub selected : hp.method_selected ≡ r
    pub stored : hp.methods ≡ methods
    pub all_read : hp.methods_read ≡ hp.nmethods
    pub asked : os' ≡ set_interest os fd writing

  -- the parser's record after one more method, of more to come
  abbrev after_method : HelloParser → Parser → ℕ → ℕ → HelloParser
  after_method hp p k c = record hp {
    methods = set hp.methods k c;
    methods_read = k + 1;
    p = some (stepped p State.methods act_method_hello c);
  }

  after_method-Waiting :
      (hp : HelloParser) (n k c : ℕ) (p : Parser)
      → Waiting hp n k p
      → Waiting (after_method hp p k c) n (k + 1) (stepped p State.methods act_method_hello c)
  after_method-Waiting hp n k c p w = record {
    live = refl;
    at = record { same = w.at.same; state_is = refl };
    total = w.total;
    count = refl;
    room = length-set hp.methods k c ∙ w.room;
  }

  pub read_all-methods :
      (cs : List ℕ) (hp : HelloParser) (os : Os) (n k r c : ℕ) (p : Parser) (rest : List ℕ)
      → Waiting hp n k p
      → k + suc (length cs) ≡ n
      → n ≤ 255
      → select_method array (store hp.methods k (c ∷ cs)) n ≡ some r
      → (hp' : HelloParser) × (os' : Os) × (read_all hp os (c ∷ (cs ++ rest))
          ≡ some (ClientState.hello_write, hp', os', rest))
        × Greeted os (store hp.methods k (c ∷ cs)) r hp' os'
  read_all-methods [] hp os n k r c p rest w h l e = (
    _,
    _,
    read_all-leave hp _ os _ c rest (read-method_last hp os n k c r p w h l (rw set-store e)),
    record {
      selected = refl;
      stored = set-store hp.methods k c;
      all_read = h ∙ sym w.total;
      asked = refl;
    },
  )
  read_all-methods (d ∷ cs) hp os n k r c p rest w h l e =
      let hp1 = after_method hp p k c in
      let (hp', os', run, g) =
        read_all-methods cs hp1 os n (k + 1) r d (stepped p State.methods act_method_hello c) rest
          (after_method-Waiting hp n k c p w) (omega arith) l (rw store-set e) in
      (
        hp',
        os',
        read_all-next hp hp1 os os c (d ∷ (cs ++ rest))
              (read-method_more hp os n k c p w (omega arith) l)
            ∙ run,
        record {
          selected = g.selected;
          stored = g.stored ∙ store-set hp.methods k c (d ∷ cs);
          all_read = g.all_read;
          asked = g.asked;
        },
      )
