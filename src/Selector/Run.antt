-- ===== src/Selector/Run.antt =====
-- Any sequence of operations on the selector of the server.
use protos_tpe.Base.{
  ℕ, ◌<◌, ◌≡◌, ◌⊎◌, inl, inr, refl, ap, ◌∙◌, true, Option, none, some, List, [], ◌∷◌, arith, leb,
  ◌>>=◌, Bool-cases,
}
use protos_tpe.Selector.{
  Selector, items_max_size, selector_new, selector_register, selector_unregister_fd,
  selector_set_interest,
}
use protos_tpe.Selector.Keeps.{IsConsistent}
use protos_tpe.Selector.Ops.{Op, apply, run, Fine, register-Fine, interest-Fine, unregister-Fine}
use protos_tpe.Selector.Fresh.{blank, new-blank, blank-IsConsistent}

small_or_big : (fd : ℕ) → (fd < 1024) ⊎ (leb items_max_size fd ≡ true)
small_or_big fd = elim (Bool-cases (leb items_max_size fd)) [
  | inl y ↦ inr y
  | inr n ↦ inl (ground (arith, n))
]

module _ {H D W : Type 0} (handle_close : H → Option (ℕ → Option D → W → W)) where
  -- an operation that is refused for its descriptor
  refused :
      (s : Selector H D) (w : W) (r : Option (Selector H D × W))
      → r ≡ some (s, w)
      → IsConsistent s
      → Fine handle_close r
  refused s w r e c = (s, w, e, c)

  -- Each operation is defined on a consistent selector and keeps it so.
  apply-Fine :
      (op : Op H D) (s : Selector H D) (w : W)
      → IsConsistent s
      → Fine handle_close (apply handle_close op s w)
  unfolding selector_register selector_set_interest selector_unregister_fd
  apply-Fine (Op.register fd none i attachment memory) s w c =
      refused s w (apply handle_close (Op.register fd none i attachment memory) s w) refl c
  apply-Fine (Op.register fd (some handler) i attachment memory) s w c = elim (small_or_big fd) [
    | inl h ↦ register-Fine handle_close s w fd handler i attachment memory c h
    | inr b ↦
        refused s w (apply handle_close (Op.register fd (some handler) i attachment memory) s w)
          (rw b refl) c
  ]
  apply-Fine (Op.unregister fd) s w c = elim (small_or_big fd) [
    | inl h ↦ unregister-Fine handle_close s w fd c h
    | inr b ↦ refused s w (apply handle_close (Op.unregister fd) s w) (rw b refl) c
  ]
  apply-Fine (Op.interest fd i) s w c = elim (small_or_big fd) [
    | inl h ↦ interest-Fine handle_close s w fd i c h
    | inr b ↦ refused s w (apply handle_close (Op.interest fd i) s w) (rw b refl) c
  ]

  run-Fine :
      (ops : List (Op H D)) (s : Selector H D) (w : W)
      → IsConsistent s
      → Fine handle_close (run handle_close ops s w)
  run-Fine [] s w c = (s, w, refl, c)
  run-Fine (op ∷ ops) s w c =
      let (s1, w1, e, c1) = apply-Fine op s w c in
      let (s2, w2, e2, c2) = run-Fine ops s1 w1 c1 in
      (s2, w2, ap (λ m. m >>= λ r. run handle_close ops r.0 r.1) e ∙ e2, c2)

  -- The selector that the server makes, of 1000 elements, has room for each descriptor that `select`
  -- can take. So any sequence of registrations, unregistrations and changes of interest, with
  -- whatever arguments, runs with no access behind the table and no call through NULL, and leaves it
  -- consistent: each item in use stands at its descriptor and not above `max_fd`, and the sets for
  -- `select` hold just the descriptors in use whose interest asks for it.
  pub run-IsConsistent :
      (ops : List (Op H D)) (w : W)
      → (start s : Selector H D) × (w' : W) × (selector_new 1000 true true ≡ some start)
        × (run handle_close ops start w ≡ some (s, w'))
        × IsConsistent s
  run-IsConsistent ops w =
      let (s, w', e, c) = run-Fine ops (blank 1025) w (blank-IsConsistent 1025 (omega arith)) in
      (blank 1025, s, w', new-blank, e, c)
