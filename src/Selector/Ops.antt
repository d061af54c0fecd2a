-- ===== src/Selector/Ops.antt =====
-- Each operation on a consistent selector: it is defined, and keeps the selector consistent.
use protos_tpe.Base.{
  ℕ, ◌<◌, ◌≡◌, inl, inr, refl, ap, ◌∙◌, Bool, false, Option, none, some, List, [], ◌∷◌, arith, ltb,
  leb, ◌>>=◌, length, get_elem?, Option-cases, get_elem?-drop,
}
use protos_tpe.Os.{Interest}
use protos_tpe.Selector.{
  Item, Selector, SelectorStatus, success, iargs, items_max_size, selector_register,
  selector_unregister_fd, selector_set_interest, grow_for, register_in, register_at, clear_at,
  unregister_in, set_interest_in,
}
use protos_tpe.Selector.Keeps.{
  IsConsistent, register_at-IsConsistent, set_interest-IsConsistent, clear_at-IsConsistent,
}

pub data Op (H D : Type 0) : Type 0 where
  register : ℕ → Option H → Interest → Option D → Bool → Op H D
  unregister : ℕ → Op H D
  interest : ℕ → Interest → Op H D

module _ {H D : Type 0} where
  pub in_table :
      (s : Selector H D) (fd : ℕ)
      → IsConsistent s
      → fd < 1024
      → (item : Item H D) × (get_elem? s.fds fd ≡ some item)
  in_table s fd c h =
      let (item, e, rest) = get_elem?-drop s.fds fd (omega (arith, c.room, h)) in (item, e)

  grow_for-room :
      (s : Selector H D) (fd : ℕ) (memory : Bool)
      → fd < length s.fds
      → grow_for s fd memory ≡ (success, s)
  unfolding grow_for
  grow_for-room s fd memory h =
      let room : ltb (length s.fds) fd ≡ false = ground arith in rw room refl

  register_in-table :
      (s : Selector H D) (fd : ℕ) (handler : H) (i : Interest) (attachment : Option D)
      (item : Item H D)
      → get_elem? s.fds fd ≡ some item
      → register_in s fd handler i attachment (success, s)
        ≡ some (register_at s fd handler i attachment item)
  unfolding register_in
  register_in-table s fd handler i attachment item e = rw e refl

  pub selector_register-in :
      (s : Selector H D) (fd : ℕ) (handler : H) (i : Interest) (attachment : Option D)
      (memory : Bool) (item : Item H D)
      → fd < 1024
      → fd < length s.fds
      → get_elem? s.fds fd ≡ some item
      → selector_register s fd (some handler) i attachment memory
        ≡ some (register_at s fd handler i attachment item)
  unfolding selector_register
  selector_register-in s fd handler i attachment memory item h l e =
      let small : leb items_max_size fd ≡ false = ground arith in
      rw small (
        ap (register_in s fd handler i attachment) (grow_for-room s fd memory l)
        ∙ register_in-table s fd handler i attachment item e)

  pub selector_set_interest-in :
      (s : Selector H D) (fd : ℕ) (i : Interest) (item : Item H D)
      → fd < 1024
      → get_elem? s.fds fd ≡ some item
      → selector_set_interest s fd i ≡ some (set_interest_in s fd i item item.fd)
  unfolding selector_set_interest
  selector_set_interest-in s fd i item h e =
      let small : leb items_max_size fd ≡ false = ground arith in rw small (rw e refl)

module _ {H D W : Type 0} (handle_close : H → Option (ℕ → Option D → W → W)) where
  -- one operation, on the selector and on what is outside of it
  abbrev pub apply : Op H D → Selector H D → W → Option (Selector H D × W)
  apply (Op.register fd handler i attachment memory) s w = do
    r ← selector_register s fd handler i attachment memory
    some (r.1, w)
  apply (Op.unregister fd) s w = do r ← selector_unregister_fd handle_close s fd w; some (r.1, r.2)
  apply (Op.interest fd i) s w = do r ← selector_set_interest s fd i; some (r.1, w)

  abbrev pub run : List (Op H D) → Selector H D → W → Option (Selector H D × W)
  run [] s w = some (s, w)
  run (op ∷ ops) s w = do r ← apply op s w; run ops r.0 r.1

  -- an operation that is defined, and keeps the invariant
  abbrev pub Fine : Option (Selector H D × W) → Type 0
  Fine r = (s : Selector H D) × (w : W) × (r ≡ some (s, w)) × IsConsistent s

  -- A result of an operation on the table alone.
  fine :
      (w : W) {s : Selector H D} (m : Option (SelectorStatus × Selector H D)) (st : SelectorStatus)
      → m ≡ some (st, s)
      → IsConsistent s
      → Fine (m >>= λ r. some (r.1, w))
  fine w {s} m st e c = (s, w, rw e refl, c)

  pub register-Fine :
      (s : Selector H D) (w : W) (fd : ℕ) (handler : H) (i : Interest) (attachment : Option D)
      (memory : Bool)
      → IsConsistent s
      → fd < 1024
      → Fine (apply (Op.register fd (some handler) i attachment memory) s w)
  register-Fine s w fd handler i attachment memory c h =
      let (item, e) = in_table s fd c h in
      let r = register_at s fd handler i attachment item in
      fine w (selector_register s fd (some handler) i attachment memory) r.0
        (selector_register-in s fd handler i attachment memory item h (omega (arith, c.room)) e)
        (register_at-IsConsistent s fd handler i attachment item c e h)

  pub interest-Fine :
      (s : Selector H D) (w : W) (fd : ℕ) (i : Interest)
      → IsConsistent s
      → fd < 1024
      → Fine (apply (Op.interest fd i) s w)
  unfolding set_interest_in
  interest-Fine s w fd i c h =
      let (item, e) = in_table s fd c h in
      let run = selector_set_interest-in s fd i item h e in
      elim (Option-cases item.fd) [
        | inl n ↦
            fine w (selector_set_interest s fd i) iargs
              (run ∙ ap (λ o. some (set_interest_in s fd i item o)) n) c
        | inr (f, u) ↦
            fine w (selector_set_interest s fd i) success
              (run ∙ ap (λ o. some (set_interest_in s fd i item o)) u)
              (set_interest-IsConsistent s fd i item c e (u ∙ ap some (c.placed fd f item e u)))
      ]

  selector_unregister_fd-in :
      (s : Selector H D) (fd : ℕ) (w : W) (item : Item H D)
      → fd < 1024
      → get_elem? s.fds fd ≡ some item
      → selector_unregister_fd handle_close s fd w
        ≡ unregister_in handle_close s fd w item item.fd item.handler
  unfolding selector_unregister_fd
  selector_unregister_fd-in s fd w item h e =
      let small : leb items_max_size fd ≡ false = ground arith in rw small (rw e refl)

  pub unregister-Fine :
      (s : Selector H D) (w : W) (fd : ℕ)
      → IsConsistent s
      → fd < 1024
      → Fine (apply (Op.unregister fd) s w)
  unfolding unregister_in
  unregister-Fine s w fd c h =
      let (item, e) = in_table s fd c h in
      let run = selector_unregister_fd-in s fd w item h e in
      elim (Option-cases item.fd) [
        | inl n ↦ (
          s,
          w,
          ap (λ m. m >>= λ r. some (r.1, r.2))
              (run ∙ ap (λ o. unregister_in handle_close s fd w item o item.handler) n),
          c,
        )
        | inr (f, u) ↦
            let (k, has) = c.handled fd f item e u in
            (
              clear_at s fd item,
              (elim (handle_close k) [ none ↦ w | some close ↦ close f item.attachment w ]),
              ap (λ m. m >>= λ r. some (r.1, r.2))
                  (run
                    ∙ ap (λ o. unregister_in handle_close s fd w item o item.handler) u
                    ∙ ap (unregister_in handle_close s fd w item (some f)) has),
              clear_at-IsConsistent s fd item c e (u ∙ ap some (c.placed fd f item e u)),
            )
      ]
