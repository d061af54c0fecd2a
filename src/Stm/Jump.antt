-- ===== src/Stm/Jump.antt =====
-- What the engine promises: the state that a handler returns is the state it is in afterwards.
use protos_tpe.Base.{
  ℕ, zero, suc, ◌+◌, ◌≤◌, ◌<◌, ◌≡◌, ◌≢◌, ◌⊎◌, refl, ap, ◌∙◌, sym, true, false, Option, none, some,
  List, arith, ltb, ◌==◌, get_elem?, Bool-cases, Option-cases, inl, inr,
}
use mathlib.Core.Path.{subst}
use protos_tpe.Stm.{
  StateDefinition, StateMachine, correlative, init, notify, handle_first, move_to, jump, dispatch,
  handler_read, handler_write, handler_block, state,
}

module _ {K : Type 0} where
  -- The identifiers of the states are their indices, as `stm_init` asserts.
  abbrev pub Numbered : List (StateDefinition K) → ℕ → Type 0
  Numbered states bound =
      (i : ℕ) → i ≤ bound → (d : StateDefinition K) × (get_elem? states i ≡ some d) × (d.state ≡ i)

  correlative-numbered :
      (states : List (StateDefinition K)) (left i j : ℕ)
      → correlative states i left ≡ true
      → i ≤ j
      → j < i + left
      → (d : StateDefinition K) × (get_elem? states j ≡ some d) × (d.state ≡ j)
  unfolding correlative
  correlative-numbered states zero i j h a b = absurd (omega arith)
  correlative-numbered states (suc left) i j h a b = elim (Option-cases (get_elem? states i)) [
    | inl n ↦ absurd (ground (arith, h, n))
    | inr (d, e) ↦ elim (Bool-cases (i == j)) [
      | inl y ↦
          let q : i ≡ j = ground arith in
          (d, ap (get_elem? states) (sym q) ∙ e, ground (arith, h, e))
      | inr n ↦
          correlative-numbered states left (i + 1) j (ground (arith, h, e)) (ground arith)
            (omega arith)
    ]
  ]

  -- A machine that can be run: in no state yet or in one of the table, with callbacks that return.
  pub record IsReady (stm : StateMachine K) : Type 0 where
    pub numbered : Numbered stm.states stm.max_state
    pub starts : stm.initial < stm.max_state
    pub placed : (c : ℕ) → stm.current ≡ some c → c ≤ stm.max_state
    pub arrives :
        (i : ℕ) (d : StateDefinition K) (k : K)
        → get_elem? stm.states i ≡ some d
        → (k' : K) × (notify d.on_arrival d.state k ≡ some k')
    pub departs :
        (i : ℕ) (d : StateDefinition K) (k : K)
        → get_elem? stm.states i ≡ some d
        → (k' : K) × (notify d.on_departure d.state k ≡ some k')

  -- `t` is `stm` with another state.
  pub record Same (stm t : StateMachine K) : Type 0 where
    pub initial : t.initial ≡ stm.initial
    pub states : t.states ≡ stm.states
    pub max_state : t.max_state ≡ stm.max_state

  moved :
      {stm : StateMachine K} (c : ℕ)
      → IsReady stm
      → c ≤ stm.max_state
      → IsReady (record stm { current = some c })
  moved {stm} c r h = record {
    numbered = r.numbered;
    starts = r.starts;
    placed = λ d e. ground (arith, e, h);
    arrives = r.arrives;
    departs = r.departs;
  }

  state-at :
      {stm : StateMachine K} (c : ℕ)
      → IsReady stm
      → c ≤ stm.max_state
      → state (record stm { current = some c }) ≡ some c
  unfolding state
  state-at {stm} c r h = let (d, e, q) = r.numbered c h in rw e (ap some q)

  -- The state `s` is entered, where the machine is in none yet: its callback makes `k'` of `k`.
  abbrev pub Entered : StateMachine K → ℕ → K → K → Type 0
  Entered stm s k k' =
      ((stm.current ≡ some s) × (k' ≡ k))
      ⊎ ((stm.current ≡ none)
          × (d : StateDefinition K) × (get_elem? stm.states s ≡ some d)
          × (notify d.on_arrival d.state k ≡ some k'))

  -- The state `s` is left for `next`, where that is another: the departure and then the arrival make
  -- `k'` of `k`.
  abbrev pub Changed : StateMachine K → ℕ → ℕ → K → K → Type 0
  Changed stm s next k k' =
      ((s ≡ next) × (k' ≡ k))
      ⊎ ((s ≢ next)
          × (from : StateDefinition K) × (to : StateDefinition K) × (k1 : K) × (get_elem? stm.states
                s
              ≡ some from)
          × (get_elem? stm.states next ≡ some to)
          × (notify from.on_departure s k ≡ some k1)
          × (notify to.on_arrival next k1 ≡ some k'))

  handle_first_lem :
      (stm : StateMachine K) (k : K)
      → IsReady stm
      → (s : ℕ) × (k' : K) × (s ≤ stm.max_state)
        × Entered stm s k k'
        × (state stm ≡ some s)
        × (handle_first stm k ≡ some (record stm { current = some s }, k'))
  unfolding handle_first state
  handle_first_lem stm k r = elim (Option-cases stm.current) [
    | inl n ↦
        let (d, e, q) = r.numbered stm.initial (omega (arith, r.starts)) in
        let (k', a) = r.arrives stm.initial d k e in
        (stm.initial, k', omega (arith, r.starts), inr (n, d, e, a), rw n, rw (n, e, a))
    | inr (c, e) ↦
        let (d, g, q) = r.numbered c (r.placed c e) in
        (c, k, r.placed c e, inl (e, refl), rw (e, g, q), rw (e, sym e))
  ]

  jump_lem :
      (stm : StateMachine K) (c next : ℕ) (k : K)
      → IsReady stm
      → c ≤ stm.max_state
      → next ≤ stm.max_state
      → (k' : K) × Changed stm c next k k'
        × (jump (record stm { current = some c }) c next k
            ≡ some (record stm { current = some next }, k'))
  unfolding jump move_to
  jump_lem stm c next k r h w = elim (Bool-cases (c == next)) [
    | inl y ↦ (k, inl (ground (arith, y), refl), ground arith)
    | inr n ↦
        let (d, e, q) = r.numbered c h in
        let (k1, a) = r.departs c d k e in
        let (d', e', q') = r.numbered next w in
        let (k2, a') = r.arrives next d' k1 e' in
        let big : ltb stm.max_state next ≡ false = ground arith in
        (
          k2,
          inr (
            ground (arith, n),
            d,
            d',
            k1,
            e,
            e',
            ap (λ i. notify d.on_departure i k) (sym q) ∙ a,
            ap (λ i. notify d'.on_arrival i k1) (sym q') ∙ a',
          ),
          rw (big, n, e, a, e', a'),
        )
  ]

  -- the handler of an event in the state `s`, which returns, with a state of the table
  pub record Serves (handler : StateDefinition K → Option (K → Option (ℕ × K)))
      (stm : StateMachine K) (s : ℕ) (f : K → Option (ℕ × K)) : Type 0 where
    pub entry : (d : StateDefinition K) × (get_elem? stm.states s ≡ some d) × (handler d ≡ some f)
    pub returns : (k : K) → (out : ℕ × K) × (f k ≡ some out) × (out.0 ≤ stm.max_state)

  -- The call returns: the handler `f` of the state `s`, called with what the arrival in `s` has made
  -- of `k` if the machine was in no state yet, gives `next`, and the change of state follows.
  abbrev pub Lands :
      StateMachine K → K → ℕ → (K → Option (ℕ × K)) → Option (ℕ × StateMachine K × K) → Type 0
  Lands stm k s f r =
      (next : ℕ) × (stm' : StateMachine K) × (k1 : K) × (k2 : K) × (k' : K) × Entered stm s k k1
      × (f k1 ≡ some (next, k2))
      × Changed stm s next k2 k'
      × (r ≡ some (next, stm', k'))
      × (state stm' ≡ some next)
      × IsReady stm'

  dispatch_lem :
      (handler : StateDefinition K → Option (K → Option (ℕ × K))) (stm : StateMachine K) (k : K)
      (s : ℕ) (f : K → Option (ℕ × K))
      → IsReady stm
      → state stm ≡ some s
      → Serves handler stm s f
      → Lands stm k s f (dispatch handler stm k)
  unfolding dispatch
  dispatch_lem handler stm k s f r h w =
      let (c, k1, b, g1, q, e) = handle_first_lem stm k r in
      let (d, g, hd) = w.entry in
      let same : c ≡ s = cc in
      let (out, o, l) = w.returns k1 in
      let (k', g2, j) = jump_lem stm c out.0 out.1 r b l in
      (
        out.0,
        record stm { current = some out.0 },
        k1,
        out.1,
        k',
        subst (λ i. Entered stm i k k1) same g1,
        o,
        subst (λ i. Changed stm i out.0 out.1 k') same g2,
        rw (e, ap (get_elem? stm.states) same ∙ g, hd, o, j),
        state-at out.0 r l,
        moved out.0 r l,
      )

  -- An event in a state that has a handler for it, which returns with a state of the table, where
  -- the identifiers of the states are their indices and the callbacks return: the engine does not
  -- abort, returns what the handler has returned, and is then in that state, for each of the three
  -- kinds of events. Before the handler comes the arrival in the initial state, if there was none yet;
  -- after it the departure from the old state and the arrival in the new one, if they differ.
  pub handlers-state :
      (stm : StateMachine K) (k : K) (s : ℕ) (f : K → Option (ℕ × K))
      → IsReady stm
      → state stm ≡ some s
      → (Serves (λ d. d.on_read_ready) stm s f → Lands stm k s f (handler_read stm k))
        × (Serves (λ d. d.on_write_ready) stm s f → Lands stm k s f (handler_write stm k))
        × (Serves (λ d. d.on_block_ready) stm s f → Lands stm k s f (handler_block stm k))
  unfolding handler_read handler_write handler_block
  handlers-state stm k s f r h = (
    dispatch_lem (λ d. d.on_read_ready) stm k s f r h,
    dispatch_lem (λ d. d.on_write_ready) stm k s f r h,
    dispatch_lem (λ d. d.on_block_ready) stm k s f r h,
  )

  -- A table that `stm_init` accepts, with callbacks that return, is ready, in its initial state.
  pub init-IsReady :
      (stm stm' : StateMachine K)
      → ((i : ℕ) (d : StateDefinition K) (k : K)
          → get_elem? stm.states i ≡ some d
          → ((k' : K) × (notify d.on_arrival d.state k ≡ some k'))
            × ((k' : K) × (notify d.on_departure d.state k ≡ some k')))
      → init stm ≡ some stm'
      → IsReady stm' × (state stm' ≡ some stm.initial)
  unfolding init state
  init-IsReady stm stm' calls h = elim (Bool-cases (correlative stm.states 0 (stm.max_state + 1))) [
    | inl y ↦ elim (Bool-cases (ltb stm.initial stm.max_state)) [
      | inl z ↦
          let q : ◌≡◌ {A = Option (StateMachine K)} (some (record stm { current = none }))
              (some stm') =
            rw (y, z) at h in
          let same : record stm { current = none } ≡ stm' = cc in
          subst (λ t. IsReady t × (state t ≡ some stm.initial)) same
            (
              record {
                numbered = λ i l.
                    correlative-numbered stm.states (stm.max_state + 1) 0 i y (omega arith)
                      (omega arith);
                starts = ground arith;
                placed = λ c e. ground arith;
                arrives = λ i d k e. (calls i d k e).0;
                departs = λ i d k e. (calls i d k e).1;
              },
              refl,
            )
      | inr z ↦ absurd (ground (arith, y, z, h))
    ]
    | inr n ↦ absurd (ground (arith, n, h))
  ]
