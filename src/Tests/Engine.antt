-- ===== src/Tests/Engine.antt =====
-- An engine of two states, where a read in state 0 gets on to state 1; its handlers count.
use protos_tpe.Base.{ℕ, zero, suc, ◌+◌, ◌≡◌, refl, Option, none, some, [], ◌∷◌, arith, get_elem?}
use mathlib.Core.Path.{subst}
use protos_tpe.Stm
use protos_tpe.Stm.{StateDefinition, StateMachine, notify, handler_read}
use protos_tpe.Stm.Jump.{IsReady, Serves, Lands, init-IsReady, handlers-state}

abbrev row : ℕ → Option (ℕ → Option (ℕ × ℕ)) → StateDefinition ℕ
row s reads = record {
  state = s;
  on_arrival = some (λ _ k. some (k + 10));
  on_departure = none;
  on_read_ready = reads;
  on_write_ready = none;
  on_block_ready = none;
}

abbrev reads : ℕ → Option (ℕ × ℕ)
reads k = some (1, k + 1)

abbrev engine : StateMachine ℕ
engine = record {
  initial = 0;
  states = row 0 (some reads) ∷ row 1 none ∷ [];
  max_state = 1;
  current = none;
}

abbrev Returns : ℕ → StateDefinition ℕ → Type 0
Returns k d =
    ((k' : ℕ) × (notify d.on_arrival d.state k ≡ some k'))
    × ((k' : ℕ) × (notify d.on_departure d.state k ≡ some k'))

calls : (i : ℕ) (d : StateDefinition ℕ) (k : ℕ) → get_elem? engine.states i ≡ some d → Returns k d
unfolding notify
calls zero d k e =
    let same : row 0 (some reads) ≡ d = cc in subst (Returns k) same ((k + 10, refl), (k, refl))
calls (suc zero) d k e =
    let same : row 1 none ≡ d = cc in subst (Returns k) same ((k + 10, refl), (k, refl))
calls (suc (suc i)) d k e = absurd (ground (arith, e))

init_runs : Stm.init engine ≡ some engine
unfolding Stm.init
init_runs = refl

engine-IsReady : IsReady engine
engine-IsReady = (init-IsReady engine engine calls init_runs).0

served : Serves (λ d. d.on_read_ready) engine 0 reads
served = record {
  entry = (row 0 (some reads), refl, refl);
  returns = λ k. ((1, k + 1), refl, omega arith);
}

starts_in : Stm.state engine ≡ some 0
unfolding Stm.state
starts_in = refl

handlers-state_example :
    (Serves (λ d. d.on_read_ready) engine 0 reads → Lands engine 0 0 reads (handler_read engine 0))
    × (Serves (λ d. d.on_write_ready) engine 0 reads
        → Lands engine 0 0 reads (Stm.handler_write engine 0))
    × (Serves (λ d. d.on_block_ready) engine 0 reads
        → Lands engine 0 0 reads (Stm.handler_block engine 0))
handlers-state_example = handlers-state engine 0 0 reads engine-IsReady starts_in

read-Lands : Lands engine 0 0 reads (handler_read engine 0)
read-Lands = (handlers-state engine 0 0 reads engine-IsReady starts_in).0 served

-- The arrival in both states is notified, and the counter of the handler is kept.
read_runs : handler_read engine 0 ≡ some (1, record engine { current = some 1 }, 21)
unfolding handler_read Stm.handle_first Stm.jump Stm.dispatch
read_runs = refl
