-- ===== src/Stm.antt =====
-- src/lib/stm: the engine that hands the selector's events to the handlers of the current state.
-- `none` is an `abort`, a call through a NULL handler included. `K` is what a handler reaches
-- through its `struct selector_key`.
pub mod Jump
use protos_tpe.Base.{
  ℕ, zero, suc, ◌+◌, Bool, true, false, not, Option, none, some, List, [], ◌∷◌, ltb, ◌==◌,
  if◌then◌else◌, ◌>>=◌, get_elem?,
}

-- `struct state_definition`; a handler is `none` for NULL.
pub record StateDefinition (K : Type 0) : Type 0 where
  pub state : ℕ
  pub on_arrival : Option (ℕ → K → Option K)
  pub on_departure : Option (ℕ → K → Option K)
  pub on_read_ready : Option (K → Option (ℕ × K))
  pub on_write_ready : Option (K → Option (ℕ × K))
  pub on_block_ready : Option (K → Option (ℕ × K))

-- `struct state_machine`; `current`, a pointer into `states`, is the index, or `none` for NULL.
pub record StateMachine (K : Type 0) : Type 0 where
  pub initial : ℕ
  pub states : List (StateDefinition K)
  pub max_state : ℕ
  pub current : Option ℕ

module _ {K : Type 0} where
  -- the loop of `stm_init` over the states from index `i` on, with `left` of them to go
  unfoldable pub correlative : List (StateDefinition K) → ℕ → ℕ → Bool
  correlative states i zero = true
  correlative states i (suc left) =
      let rest = correlative states (i + 1) left in
      elim (get_elem? states i) [ none ↦ false | some d ↦ if i == d.state then rest else false ]

  -- `stm_init`
  unfoldable pub init : StateMachine K → Option (StateMachine K)
  unfolding correlative
  init stm =
      if not (correlative stm.states 0 (stm.max_state + 1))
      then none
      else if ltb stm.initial stm.max_state
      then some (record stm { current = none })
      else none

  -- a call of `on_arrival` or `on_departure`, which is skipped for NULL
  unfoldable pub notify : Option (ℕ → K → Option K) → ℕ → K → Option K
  notify none s k = some k
  notify (some f) s k = f s k

  unfoldable pub handle_first : StateMachine K → K → Option (StateMachine K × K)
  unfolding notify
  handle_first stm k = elim stm.current [
    | some c ↦ some (stm, k)
    | none ↦ (do
      d ← get_elem? stm.states stm.initial
      k' ← notify d.on_arrival d.state k
      some (record stm { current = some stm.initial }, k'))
  ]

  -- the change from the state `c` to another one, `next`
  unfoldable pub move_to : StateMachine K → ℕ → ℕ → K → Option (StateMachine K × K)
  unfolding notify
  move_to stm c next k = do
    from ← get_elem? stm.states c
    k1 ← notify from.on_departure from.state k
    to ← get_elem? stm.states next
    k2 ← notify to.on_arrival to.state k1
    some (record stm { current = some next }, k2)

  -- `jump`, from a state that is set
  unfoldable pub jump : StateMachine K → ℕ → ℕ → K → Option (StateMachine K × K)
  unfolding move_to
  jump stm c next k =
      if ltb stm.max_state next
      then none
      else if c == next
      then some (stm, k)
      else move_to stm c next k

  -- what the three handlers do with the event's handler of the current state
  unfoldable pub dispatch :
      (StateDefinition K → Option (K → Option (ℕ × K)))
      → StateMachine K
      → K
      → Option (ℕ × StateMachine K × K)
  dispatch handler stm k = do
    r ← handle_first stm k
    c ← r.0.current
    d ← get_elem? r.0.states c
    f ← handler d
    out ← f r.1
    after ← jump r.0 c out.0 out.1
    some (out.0, after.0, after.1)

  unfoldable pub handler_read : StateMachine K → K → Option (ℕ × StateMachine K × K)
  unfolding dispatch
  handler_read = dispatch (λ d. d.on_read_ready)

  unfoldable pub handler_write : StateMachine K → K → Option (ℕ × StateMachine K × K)
  unfolding dispatch
  handler_write = dispatch (λ d. d.on_write_ready)

  unfoldable pub handler_block : StateMachine K → K → Option (ℕ × StateMachine K × K)
  unfolding dispatch
  handler_block = dispatch (λ d. d.on_block_ready)

  -- `stm_handler_close`
  unfoldable pub handler_close : StateMachine K → K → Option K
  unfolding notify
  handler_close stm k = elim stm.current [
    | none ↦ some k
    | some c ↦ (do d ← get_elem? stm.states c; notify d.on_departure d.state k)
  ]

  -- `stm_state`
  unfoldable pub state : StateMachine K → Option ℕ
  state stm = elim stm.current [
    | none ↦ some stm.initial
    | some c ↦ (do d ← get_elem? stm.states c; some d.state)
  ]
