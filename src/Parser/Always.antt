-- ===== src/Parser/Always.antt =====
-- A byte in a state of the table that has one transition, taken on any byte.
use protos_tpe.Base.{ℕ, ◌≡◌, false, some, get_elem?}
use protos_tpe.Parser.{Parser, Action, Definition, always, feed}

-- the parser after such a byte
abbrev pub stepped : Parser → ℕ → Action → ℕ → Parser
stepped p dest act c = record p {
  e1 = act (record p.e1 { chained = false }) c;
  e2 = record p.e2 { chained = false };
  state = dest;
}

pub feed-always :
    (p : Parser) (dest : ℕ) (act : Action) (c : ℕ)
    → get_elem? p.definition.states p.state ≡ some (always dest act)
    → feed p c ≡ some (stepped p dest act c)
unfolding feed
feed-always p dest act c h = rw h

-- The parser works by the table `d`, and is in state `k` of it.
pub record At (d : Definition) (k : ℕ) (p : Parser) : Type 0 where
  pub same : p.definition ≡ d
  pub state_is : p.state ≡ k

pub feed-At :
    {d : Definition} {k : ℕ} {p : Parser} (dest : ℕ) (act : Action) (c : ℕ)
    → At d k p
    → get_elem? d.states k ≡ some (always dest act)
    → feed p c ≡ some (stepped p dest act c)
feed-At {d} {k} {p} dest act c a h = feed-always p dest act c (rw (a.same, a.state_is) h)
