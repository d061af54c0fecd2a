-- ===== src/MonitorReq/Parsed.antt =====
-- A whole request: the arguments that its bytes announce are those that are handled.
use protos_tpe.Base.{
  ℕ, suc, ◌+◌, ◌<◌, ◌≡◌, refl, ap, ◌∙◌, true, false, Option, some, List, [], ◌∷◌, ◌++◌, arith, ◌==◌,
  length, append_assoc, ◌>>=◌,
}
use protos_tpe.Os.{Os, RecvReply}
use protos_tpe.Parser
use protos_tpe.Parser.{Parser}
use protos_tpe.Parser.Always.{stepped}
use protos_tpe.MonitorAuth.{MonitorState}
use protos_tpe.MonitorReq.{MonitorReqParser, Server, Result, monitor_req_read}
use protos_tpe.MonitorReq.State
use protos_tpe.MonitorReq.Table.{act_monitor_req_argument}
use protos_tpe.MonitorReq.Steps.{In, read-argument, after_argument}

-- The bytes of the arguments of a request: each behind its length, and a 0 behind the last.
abbrev pub encode : List (List ℕ) → List ℕ
encode [] = 0 ∷ []
encode (a ∷ as') = length a ∷ (a ++ encode as')

-- Arguments that a length byte can announce, and that are no end of the request.
abbrev pub Announced : List (List ℕ) → Type 0
Announced [] = Unit
Announced (a ∷ as') = (0 < length a) × (length a < 256) × Announced as'

module _ (fd : ℕ) where
  -- The bytes arrive while the monitor stays in MONITOR_REQ.
  unfoldable pub read_all : MonitorReqParser → Server → Os → List ℕ → Option Result
  read_all mrq sv os [] = some (MonitorState.monitor_req, mrq, sv, os)
  read_all mrq sv os (c ∷ cs) =
      let later = λ (mrq' : MonitorReqParser) (sv' : Server) (os' : Os). read_all mrq' sv' os' cs in
      do
        r ← monitor_req_read fd mrq sv os (RecvReply.received c)
        elim r.0 [ MonitorState.monitor_req ↦ later r.1 r.2 r.3 | s ↦ some (s, r.1, r.2, r.3) ]

  pub read_all-next :
      (mrq mrq' : MonitorReqParser) (sv sv' : Server) (os os' : Os) (c : ℕ) (cs : List ℕ)
      → monitor_req_read fd mrq sv os (RecvReply.received c)
        ≡ some (MonitorState.monitor_req, mrq', sv', os')
      → read_all mrq sv os (c ∷ cs) ≡ read_all mrq' sv' os' cs
  unfolding read_all
  read_all-next mrq mrq' sv sv' os os' c cs e = rw e

  pub read_all-last :
      (mrq : MonitorReqParser) (sv : Server) (os : Os) (c : ℕ) (r : Result)
      → monitor_req_read fd mrq sv os (RecvReply.received c) ≡ some r
      → read_all mrq sv os (c ∷ []) ≡ some r
  unfolding read_all
  read_all-last mrq sv os c r e = rw e (ground arith)

  -- What an argument leaves behind: it stands behind the ones before it.
  pub record Gathered (mrq : MonitorReqParser) (args : List (List ℕ)) (mrq' : MonitorReqParser)
      : Type 0 where
    pub parser : Parser
    pub ready : In State.argument_length mrq' parser
    pub type_same : mrq'.type ≡ mrq.type
    pub stored : mrq'.arguments ≡ args

  pub read_all-argument :
      (cs : List ℕ) (mrq : MonitorReqParser) (sv : Server) (os : Os) (as' : List (List ℕ))
      (a : List ℕ) (n k c : ℕ) (p : Parser) (rest : List ℕ)
      → In State.argument mrq p
      → mrq.current_argument_length ≡ n
      → mrq.current_argument_read ≡ k
      → mrq.arguments ≡ as' ++ a ∷ []
      → k + suc (length cs) ≡ n
      → n < 256
      → (mrq' : MonitorReqParser) × (read_all mrq sv os (c ∷ (cs ++ rest))
          ≡ read_all mrq' sv os rest)
        × Gathered mrq (as' ++ (a ++ c ∷ cs) ∷ []) mrq'
  read_all-argument [] mrq sv os as' a n k c p rest w total count args h small =
      let mrq1 = after_argument fd mrq p (as' ++ (a ++ c ∷ []) ∷ []) k c true in
      let q = stepped p State.argument act_monitor_req_argument c in
      let last : (k + 1 == n) ≡ true = ground arith in
      let step : monitor_req_read fd mrq sv os (RecvReply.received c)
          ≡ some (MonitorState.monitor_req, mrq1, sv, os) =
        read-argument fd mrq sv os as' a n k c p w total count args (omega arith) small ∙ rw last in
      (
        mrq1,
        read_all-next mrq mrq1 sv sv os os c rest step,
        record {
          parser = Parser.set_state q State.argument_length;
          ready = record {
            live = refl;
            at = unfold Parser.set_state in record { same = w.at.same; state_is = refl };
          };
          type_same = refl;
          stored = refl;
        },
      )
  read_all-argument (d ∷ cs) mrq sv os as' a n k c p rest w total count args h small =
      let mrq1 = after_argument fd mrq p (as' ++ (a ++ c ∷ []) ∷ []) k c false in
      let q = stepped p State.argument act_monitor_req_argument c in
      let more : (k + 1 == n) ≡ false = ground arith in
      let step : monitor_req_read fd mrq sv os (RecvReply.received c)
          ≡ some (MonitorState.monitor_req, mrq1, sv, os) =
        read-argument fd mrq sv os as' a n k c p w total count args (omega arith) small ∙ rw more in
      let (mrq', run, g) =
        read_all-argument cs mrq1 sv os as' (a ++ c ∷ []) n (k + 1) d q rest
          (record { live = refl; at = record { same = w.at.same; state_is = refl } }) total refl
          refl (omega arith) small in
      (
        mrq',
        read_all-next mrq mrq1 sv sv os os c (d ∷ (cs ++ rest)) step ∙ run,
        record {
          parser = g.parser;
          ready = g.ready;
          type_same = g.type_same;
          stored = g.stored ∙ ap (λ l. as' ++ l ∷ []) (append_assoc a (c ∷ []) (d ∷ cs));
        },
      )
