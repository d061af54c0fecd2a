-- ===== src/Parser.antt =====
-- src/lib/parser: the table-driven byte parser that the protocol parsers share. `none` is a read
-- outside the table of states, which the code does not check.
pub mod Always
pub mod Compare
pub mod Compared
use Prim.Native.Nat.{bit_and}
use protos_tpe.Base.{
  ℕ, Bool, true, false, not, Option, none, some, List, [], ◌∷◌, ltb, leb, ◌==◌, if◌then◌else◌,
  ◌>>=◌, get_elem?, replicate,
}

-- `struct parser_event`; `chained` is `next != NULL`, and `payload` the array `data`.
pub record Event : Type 0 where
  pub type : ℕ
  pub payload : ℕ
  pub n : ℕ
  pub chained : Bool

abbrev pub Action : Type 0
Action = Event → ℕ → Event

-- `struct parser_state_transition`
pub record Transition : Type 0 where
  pub when : ℕ
  pub dest : ℕ
  pub act1 : Action
  pub act2 : Option Action

abbrev pub any : ℕ
any = 512

-- the row of a state whose one transition takes any byte
abbrev pub always : ℕ → Action → List Transition
always dest act = record { when = any; dest = dest; act1 = act; act2 = none } ∷ []

-- `struct parser_definition`; `states_count` and `states_n` are lengths of the lists.
pub record Definition : Type 0 where
  pub states : List (List Transition)
  pub start_state : ℕ

-- `struct parser`. `past_end` stands for the word behind the table of classes.
pub record Parser : Type 0 where
  pub classes : List ℕ
  pub past_end : ℕ
  pub definition : Definition
  pub state : ℕ
  pub e1 : Event
  pub e2 : Event

-- `parser_no_classes`: the table has 0xFF entries.
abbrev pub no_classes : List ℕ
no_classes = replicate 255 0

abbrev pub blank : Event
blank = record { type = 0; payload = 0; n = 0; chained = false }

-- what `parser_init` sets up
abbrev pub start : List ℕ → ℕ → Definition → Parser
start classes past_end d = record {
  classes = classes;
  past_end = past_end;
  definition = d;
  state = d.start_state;
  e1 = blank;
  e2 = blank;
}

-- `parser_init`; the flag says whether `malloc` gave memory.
unfoldable pub init : Bool → List ℕ → ℕ → Definition → Option Parser
init memory classes past_end d = if memory then some (start classes past_end d) else none

-- `parser_reset`
unfoldable pub reset : Parser → Parser
reset p = record p { state = p.definition.start_state }

-- `parser_set_state`
unfoldable pub set_state : Parser → ℕ → Parser
set_state p s = record p { state = s }

-- `p->classes[c]`
class_of : Parser → ℕ → ℕ
class_of p c = elim (get_elem? p.classes c) [ none ↦ p.past_end | some t ↦ t ]

-- the condition of a transition, on the byte and its class
matches : ℕ → ℕ → ℕ → Bool
matches when c type =
    if leb when 0xFF
    then c == when
    else if when == any
    then true
    else if ltb 0xFF when
    then not (bit_and type when == 0)
    else false

-- the body of the `if (matched)`
take_transition : Parser → Transition → ℕ → Parser
take_transition p t c = elim t.act2 [
  | none ↦ record p { e1 = t.act1 p.e1 c; state = t.dest }
  | some act ↦ record p {
    e1 = record (t.act1 p.e1 c) { chained = true };
    e2 = act p.e2 c;
    state = t.dest;
  }
]

-- the loop over the transitions of the state
first_match : Parser → List Transition → ℕ → ℕ → Parser
first_match p [] type c = p
first_match p (t ∷ ts) type c =
    let later = first_match p ts type c in
    if matches t.when c type then take_transition p t c else later

unfoldable pub feed : Parser → ℕ → Option Parser
unfolding class_of matches take_transition first_match
feed p c =
    let fresh : Parser = record p {
      e1 = record p.e1 { chained = false };
      e2 = record p.e2 { chained = false };
    } in
    do ts ← get_elem? p.definition.states p.state; some (first_match fresh ts (class_of p c) c)

-- the list that `feed` returns, as the handlers walk it
unfoldable pub events : Parser → List Event
events p = if p.e1.chained then p.e1 ∷ p.e2 ∷ [] else p.e1 ∷ []
