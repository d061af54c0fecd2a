-- ===== src/Selector/Refines.antt =====
-- The view of the selector that the handlers of the server have, `Os.interest`.
use protos_tpe.Base.{
  ℕ, ◌<◌, ◌≡◌, ◌≢◌, inl, inr, refl, sym, ap, ◌∙◌, Bool, true, false, Option, none, some, List,
  arith, ◌==◌, ◌&&◌, ltb, get_elem?, set, if◌then◌else◌, Bool-cases, Option-cases,
}
use protos_tpe.Os
use protos_tpe.Os.{Os, Interest, writing, update}
use protos_tpe.Connect
use protos_tpe.Selector.{
  Item, Selector, SelectorStatus, success, fdinuse, selector_set_interest, selector_register,
  set_interest_in, register_at, items_update_fdset_for_fd,
}
use protos_tpe.Selector.Keeps.{IsConsistent}
use protos_tpe.Selector.Table.{get-set_same, get-set_other}
use protos_tpe.Selector.Ops.{in_table, selector_set_interest-in, selector_register-in}

-- whether a descriptor with that entry is taken
abbrev takes : Option Interest → ℕ → Bool
takes k fd = elim k [ none ↦ ltb fd 1024 && true | some i ↦ false ]

module _ {H D : Type 0} where
  -- the interest of an entry in use
  abbrev pub entry : Option (Item H D) → Option Interest
  entry none = none
  entry (some item) = elim item.fd [ none ↦ none | some f ↦ some item.interest ]

  abbrev pub interest_of : Selector H D → ℕ → Option Interest
  interest_of s fd = entry (get_elem? s.fds fd)

  -- what the handlers see of a selector
  abbrev pub seen : Os → Selector H D → Os
  seen os s = record os { interest = interest_of s }

  fds-items_update :
      (s : Selector H D) (item : Item H D) → (items_update_fdset_for_fd s item).fds ≡ s.fds
  unfolding items_update_fdset_for_fd
  fds-items_update s item = ground arith

  -- the entries of a table with one item replaced
  entry-set :
      (xs : List (Item H D)) (fd j : ℕ) (old item : Item H D)
      → get_elem? xs fd ≡ some old
      → entry (get_elem? (set xs fd item) j)
        ≡ (if j == fd then entry (some item) else entry (get_elem? xs j))
  entry-set xs fd j old item e = elim (Bool-cases (j == fd)) [
    | inl y ↦
        let at : j ≡ fd = ground (arith, y) in
        rw y (rw at (ap entry (get-set_same xs fd item old e)))
    | inr n ↦
        let off : j ≢ fd = ground (arith, n) in rw n (ap entry (get-set_other xs fd j item off))
  ]

  -- the view of a table with one item replaced
  interest_of-set :
      (s : Selector H D) (fd j max : ℕ) (old item : Item H D) (new : Option Interest)
      → get_elem? s.fds fd ≡ some old
      → entry (some item) ≡ new
      → interest_of
          (items_update_fdset_for_fd (record s { fds = set s.fds fd item; max_fd = max }) item)
          j
        ≡ (if j == fd then new else interest_of s j)
  interest_of-set s fd j max old item new e q =
      ap (λ xs. entry (get_elem? xs j))
        (fds-items_update (record s { fds = set s.fds fd item; max_fd = max }) item)
      ∙ entry-set s.fds fd j old item e
      ∙ ap (λ x. if j == fd then x else interest_of s j) q

  same_at :
      (s : Selector H D) (fd j : ℕ)
      → (if j == fd then interest_of s fd else interest_of s j) ≡ interest_of s j
  same_at s fd j = elim (Bool-cases (j == fd)) [
    | inl y ↦ let at : fd ≡ j = ground (arith, y) in rw y (ap (interest_of s) at)
    | inr n ↦ rw n refl
  ]

  set_interest_in-seen :
      (os : Os) (s : Selector H D) (fd j : ℕ) (i : Interest) (item : Item H D) (o : Option ℕ)
      → get_elem? s.fds fd ≡ some item
      → item.fd ≡ o
      → interest_of (set_interest_in s fd i item o).1 j
        ≡ (Os.set_interest (seen os s) fd i).interest j
  unfolding set_interest_in
  set_interest_in-seen os s fd j i item none e u =
      let free : interest_of s fd ≡ none = rw e (rw u refl) in
      sym (same_at s fd j)
      ∙ ap (λ x. if j == fd then x else interest_of s j)
          (free ∙ ap (λ (k : Option Interest). elim k [ none ↦ none | some x ↦ some i ]) (sym free))
  set_interest_in-seen os s fd j i item (some f) e u =
      let used : interest_of s fd ≡ some item.interest = rw e (rw u refl) in
      let item' : Item H D = record item { interest = i } in
      interest_of-set s fd j s.max_fd item item' (some i) e (rw u refl)
      ∙ ap (λ x. if j == fd then x else interest_of s j)
          (ap (λ (k : Option Interest). elim k [ none ↦ none | some x ↦ some i ]) (sym used))

  -- the two ends of a registration
  register_at-free :
      (os : Os) (s : Selector H D) (fd j : ℕ) (handler : H) (attachment : Option D) (old : Item H D)
      → get_elem? s.fds fd ≡ some old
      → old.fd ≡ none
      → let r = register_at s fd handler writing attachment old in
        (r.0 ≡ success) × (interest_of r.1 j ≡ (Connect.register (seen os s) fd).interest j)
  unfolding register_at
  register_at-free os s fd j handler attachment old e u =
      let item : Item H D = record {
        fd = some fd;
        interest = writing;
        handler = some handler;
        attachment = attachment;
      } in
      let max = if ltb s.max_fd fd then fd else s.max_fd in
      rw u (refl, interest_of-set s fd j max old item (some writing) e refl)

  register_at-used :
      (s : Selector H D) (fd f : ℕ) (handler : H) (attachment : Option D) (old : Item H D)
      → old.fd ≡ some f
      → register_at s fd handler writing attachment old ≡ (fdinuse, s)
  unfolding register_at
  register_at-used s fd f handler attachment old u = rw u refl

  -- a registration, against the view
  RegisterSeen : Os → Selector H D → ℕ → ℕ → SelectorStatus × Selector H D → Type 0
  RegisterSeen os s fd j r =
      let taken = Connect.registers (seen os s) fd true in
      (r.0 ≡ (if taken then success else fdinuse))
      × (interest_of r.1 j
          ≡ (if taken then (Connect.register (seen os s) fd).interest j else interest_of s j))

  register_at-seen :
      (os : Os) (s : Selector H D) (fd j : ℕ) (handler : H) (attachment : Option D) (old : Item H D)
      → get_elem? s.fds fd ≡ some old
      → fd < 1024
      → RegisterSeen os s fd j (register_at s fd handler writing attachment old)
  unfolding RegisterSeen
  register_at-seen os s fd j handler attachment old e h = elim (Option-cases old.fd) [
    | inl u ↦
        let free : interest_of s fd ≡ none = rw e (rw u refl) in
        let small : (ltb fd 1024 && true) ≡ true = ground arith in
        let t = ap (λ k. takes k fd) free ∙ small in
        let (p, q) = register_at-free os s fd j handler attachment old e u in
        (
          p ∙ ap (λ b. if b then success else fdinuse) (sym t),
          q
              ∙ ap
                  (λ b. if b then (Connect.register (seen os s) fd).interest j else interest_of s j)
                  (sym t),
        )
    | inr (f, u) ↦
        let used : interest_of s fd ≡ some old.interest = rw e (rw u refl) in
        let t = ap (λ k. takes k fd) used in
        let r = register_at-used s fd f handler attachment old u in
        (
          ap (λ x. x.0) r ∙ ap (λ b. if b then success else fdinuse) (sym t),
          ap (λ x. interest_of x.1 j) r
              ∙ ap
                  (λ b. if b then (Connect.register (seen os s) fd).interest j else interest_of s j)
                  (sym t),
        )
  ]

  -- In a consistent selector, a change of interest and a registration with OP_WRITE answer and do
  -- just what the handlers' view of the selector says: an entry in use gets the interest and any
  -- other stays; and a descriptor, below FD_SETSIZE, is taken just where it has no entry, and is
  -- refused as in use with no change where it has one. `j` is the descriptor that is then looked at.
  pub selector-refines-Os :
      (os : Os) (s : Selector H D) (fd j : ℕ) (i : Interest) (handler : H) (attachment : Option D)
      → IsConsistent s
      → fd < 1024
      → let taken = Connect.registers (seen os s) fd true in
        ((st : SelectorStatus) × (s' : Selector H D) × (selector_set_interest s fd i
            ≡ some (st, s'))
          × (interest_of s' j ≡ (Os.set_interest (seen os s) fd i).interest j))
        × ((st : SelectorStatus) × (s' : Selector H D) × (selector_register s fd
                (some handler)
                writing
                attachment
                true
              ≡ some (st, s'))
            × (st ≡ (if taken then success else fdinuse))
            × (interest_of s' j ≡ (
                if taken then (Connect.register (seen os s) fd).interest j else interest_of s j)))
  unfolding RegisterSeen
  selector-refines-Os os s fd j i handler attachment c h =
      let (item, e) = in_table s fd c h in
      let put = set_interest_in s fd i item item.fd in
      let reg = register_at s fd handler writing attachment item in
      let (p, q) = register_at-seen os s fd j handler attachment item e h in
      (
        (
          put.0,
          put.1,
          selector_set_interest-in s fd i item h e,
          set_interest_in-seen os s fd j i item item.fd e refl,
        ),
        (
          reg.0,
          reg.1,
          selector_register-in s fd handler writing attachment true item h (omega (arith, c.room))
              e,
          p,
          q,
        ),
      )
