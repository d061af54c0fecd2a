-- ===== src/Selector/Served.antt =====
-- An iteration over the descriptors that are ready, whatever the handlers do to the selector.
use protos_tpe.Base.{
  ℕ, zero, suc, ◌+◌, ◌≤◌, ◌<◌, ◌≡◌, refl, sym, ap, ◌∙◌, Bool, true, false, ◌&&◌, Option, none, some,
  ◌>>=◌, get_elem?, arith, Bool-cases, Option-cases, inl, inr,
}
use protos_tpe.Os.{Interest, noop}
use protos_tpe.Selector.{Item, Selector, asks_read, asks_write}
use protos_tpe.Selector.Keeps.{IsConsistent}
use protos_tpe.Selector.Ops.{in_table}
use protos_tpe.Selector.Iteration.{
  Callback, call, attend, visit, serve, serve_item, iterate, handle_iteration,
}

-- what a callback does
abbrev pub Action : Type 0 → Type 0 → Type 0 → Type 0
Action H D W = ℕ → Option D → Selector H D × W → Selector H D × W

module _ {H D W : Type 0} where
  -- An item whose interest asks for a callback has it.
  abbrev pub Served : Callback H D W → (Interest → Bool) → Selector H D → Type 0
  Served callback asks s =
      (i : ℕ) (item : Item H D)
      → get_elem? s.fds i ≡ some item
      → asks item.interest ≡ true
      → (h : H) × (f : Action H D W) × (item.handler ≡ some h) × (callback h ≡ some f)

module _ {H D : Type 0} where
  -- The descriptor `fd` is in use, with the handler `h`, the attachment `a` and an interest that
  -- asks for the call.
  abbrev pub At : (Interest → Bool) → H → ℕ → Option D → Selector H D → Type 0
  At asks h fd a s =
      (item : Item H D) × (get_elem? s.fds fd ≡ some item)
      × (item.fd ≡ some fd)
      × (item.handler ≡ some h)
      × (item.attachment ≡ a)
      × (asks item.interest ≡ true)

  -- If the descriptor is in use, then with the attachment `a`.
  abbrev pub Stays : ℕ → Option D → Selector H D → Type 0
  Stays fd a s =
      (item : Item H D) → get_elem? s.fds fd ≡ some item → item.fd ≡ some fd → item.attachment ≡ a

-- a consistent selector whose interests are all served, and which has none for what is not in use
pub record IsServed {H D W : Type 0} (handle_read handle_write : Callback H D W) (s : Selector H D)
    : Type 0 where
  pub consistent : IsConsistent s
  pub idle :
      (i : ℕ) (item : Item H D)
      → get_elem? s.fds i ≡ some item
      → item.fd ≡ none
      → item.interest ≡ noop
  pub reads : Served handle_read asks_read s
  pub writes : Served handle_write asks_write s

module _ {H D W : Type 0} (handle_read handle_write : Callback H D W)
    (Inv : Selector H D × W → Type 0) where
  -- A read handler, called for a descriptor of its own that waits to read, keeps the invariant, and
  -- gives that descriptor no other attachment.
  abbrev pub ReadKeeps : Type 0
  ReadKeeps =
      (h : H) (f : Action H D W) (fd : ℕ) (a : Option D) (k : Selector H D × W)
      → handle_read h ≡ some f
      → Inv k
      → At asks_read h fd a k.0
      → Inv (f fd a k) × Stays fd a (f fd a k).0

  -- A write handler, called for a descriptor of its own that waits to write, keeps the invariant.
  abbrev pub WriteKeeps : Type 0
  WriteKeeps =
      (h : H) (f : Action H D W) (fd : ℕ) (a : Option D) (k : Selector H D × W)
      → handle_write h ≡ some f
      → Inv k
      → At asks_write h fd a k.0
      → Inv (f fd a k)

  call-runs :
      (callback : Callback H D W) (item : Item H D) (fd : ℕ) (a : Option D) (k : Selector H D × W)
      (h : H) (f : Action H D W)
      → item.handler ≡ some h
      → callback h ≡ some f
      → call handle_read handle_write callback item fd a k ≡ some (f fd a k)
  unfolding call
  call-runs callback item fd a k h f e g = rw e (rw g refl)

  visit-item :
      (callback : Callback H D W) (ready : Bool) (asks : Interest → Bool) (i fd : ℕ) (a : Option D)
      (k : Selector H D × W) (item : Item H D)
      → get_elem? k.0.fds i ≡ some item
      → visit handle_read handle_write callback ready (λ item. asks item.interest) i fd a k
        ≡ attend handle_read handle_write callback item fd a k (ready && asks item.interest)
  unfolding visit
  visit-item callback ready asks i fd a k item e = rw e refl

  -- an item whose interest asks for a call is in use
  used :
      (asks : Interest → Bool) (s : Selector H D) (i : ℕ) (item : Item H D)
      → IsServed handle_read handle_write s
      → asks noop ≡ false
      → get_elem? s.fds i ≡ some item
      → asks item.interest ≡ true
      → item.fd ≡ some i
  used asks s i item w off e y = elim (Option-cases item.fd) [
    | inl n ↦ let quiet = ap asks (w.idle i item e n) in absurd cc
    | inr (f, g) ↦ g ∙ ap some (w.consistent.placed i f item e g)
  ]

  -- One test and its call: `Post` holds afterwards, if it does before and the call brings it about.
  visit-runs :
      (Post : Selector H D × W → Type 0) (callback : Callback H D W) (ready : Bool)
      (asks : Interest → Bool) (i : ℕ) (a : Option D) (k : Selector H D × W)
      → IsServed handle_read handle_write k.0
      → i < 1024
      → asks noop ≡ false
      → Served callback asks k.0
      → Stays i a k.0
      → Post k
      → ((h : H) (f : Action H D W) → callback h ≡ some f → At asks h i a k.0 → Post (f i a k))
      → (k' : Selector H D × W) × (visit handle_read handle_write callback ready
            (λ item. asks item.interest)
            i
            i
            a
            k
          ≡ some k')
        × Post k'
  unfolding attend
  visit-runs Post callback ready asks i a k w lt off has stays before after =
      let (item, e) = in_table k.0 i w.consistent lt in
      let run = visit-item callback ready asks i i a k item e in
      elim (Bool-cases (ready && asks item.interest)) [
        | inr n ↦ (k, run ∙ ap (attend handle_read handle_write callback item i a k) n, before)
        | inl y ↦
            let asked : asks item.interest ≡ true = ground (arith, y) in
            let here = used asks k.0 i item w off e asked in
            let (h, f, p, q) = has i item e asked in
            (
              f i a k,
              run
                  ∙ ap (attend handle_read handle_write callback item i a k) y
                  ∙ call-runs callback item i a k h f p q,
              after h f q (item, e, here, p, stays item e here, asked),
            )
      ]

  module _ (serves : (k : Selector H D × W) → Inv k → IsServed handle_read handle_write k.0)
      (keeps_r : ReadKeeps) (keeps_w : WriteKeeps) (slave_r slave_w : ℕ → Bool) where
    Goes : Option (Selector H D × W) → Type 0
    Goes r = (k : Selector H D × W) × (r ≡ some k) × Inv k

    serve-Goes :
        (i : ℕ) (a : Option D) (k : Selector H D × W)
        → Inv k
        → Stays i a k.0
        → i < 1024
        → Goes (serve handle_read handle_write slave_r slave_w i i a k)
    unfolding serve Goes
    serve-Goes i a k v stays lt =
        let w = serves k v in
        let (k1, e1, (v1, stays1)) =
          visit-runs (λ k. Inv k × Stays i a k.0) handle_read (slave_r i) asks_read i a k w lt refl
            w.reads stays (v, stays) (λ h f q at. keeps_r h f i a k q v at) in
        let w1 = serves k1 v1 in
        let (k2, e2, v2) =
          visit-runs Inv handle_write (slave_w i) asks_write i a k1 w1 lt refl w1.writes stays1 v1
            (λ h f q at. keeps_w h f i a k1 q v1 at) in
        (
          k2,
          ap
                (λ m. m >>= λ k1.
                  visit handle_read handle_write handle_write (slave_w i)
                    (λ item. asks_write item.interest) i i a k1)
                e1
              ∙ e2,
          v2,
        )

    serve_item-Goes :
        (i : ℕ) (k : Selector H D × W) (item : Item H D)
        → Inv k
        → i < 1024
        → get_elem? k.0.fds i ≡ some item
        → Goes (serve_item handle_read handle_write slave_r slave_w i item.attachment k item.fd)
    unfolding serve_item Goes
    serve_item-Goes i k item v lt e = elim (Option-cases item.fd) [
      | inl n ↦ rw n (k, refl, v)
      | inr (f, g) ↦
          let at = (serves k v).consistent.placed i f item e g in
          let same : Stays i item.attachment k.0 = λ j e' _.
            ap
              (λ (o : Option (Item H D)). elim o [ none ↦ item.attachment | some x ↦ x.attachment ])
              (sym e' ∙ e) in
          rw (g, at) (serve-Goes i item.attachment k v same lt)
    ]

    iterate-next :
        (i left : ℕ) (k k1 : Selector H D × W) (item : Item H D)
        → get_elem? k.0.fds i ≡ some item
        → serve_item handle_read handle_write slave_r slave_w i item.attachment k item.fd ≡ some k1
        → iterate handle_read handle_write slave_r slave_w i (suc left) k
          ≡ iterate handle_read handle_write slave_r slave_w (i + 1) left k1
    unfolding iterate
    iterate-next i left k k1 item e f = rw e (rw f refl)

    iterate-Goes :
        (left i : ℕ) (k : Selector H D × W)
        → Inv k
        → i + left ≤ 1024
        → Goes (iterate handle_read handle_write slave_r slave_w i left k)
    unfolding Goes
    iterate-Goes zero i k v h = (k, unfold iterate in refl, v)
    iterate-Goes (suc left) i k v h =
        let (item, e) = in_table k.0 i (serves k v).consistent (omega (arith, h)) in
        let (k1, f, v1) = serve_item-Goes i k item v (omega (arith, h)) e in
        let (k2, f2, v2) = iterate-Goes left (i + 1) k1 v1 (omega (arith, h)) in
        (k2, iterate-next i left k k1 item e f ∙ f2, v2)

    -- Let an invariant of the selector and of what is outside of it say at least that the selector is
    -- consistent and that each item has the callbacks that its interest asks for, and none that is not
    -- in use an interest. Let each read handler and each write handler keep it when it is called for a
    -- descriptor that is registered with it, that waits for that event, and whose attachment it is
    -- given; and let a read handler not replace the attachment of the descriptor that it is called for,
    -- unless it unregisters it. Whatever else the handlers do to the selector, an iteration over all
    -- that is ready then ends with the invariant: no access is behind the table, no call goes through
    -- NULL and no assert fails.
    pub handle_iteration-IsServed :
        (k : Selector H D × W)
        → Inv k
        → (k' : Selector H D × W) × (handle_iteration handle_read handle_write slave_r slave_w k
            ≡ some k')
          × Inv k'
          × IsServed handle_read handle_write k'.0
    unfolding handle_iteration Goes
    handle_iteration-IsServed k v =
        let top = (serves k v).consistent.top in
        let (k', e, v') = iterate-Goes (k.0.max_fd + 1) 0 k v (omega (arith, top)) in
        (k', e, v', serves k' v')
