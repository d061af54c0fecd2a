-- ===== src/Selector/Serving.antt =====
-- A change of interest keeps all interests served, where the handler has the callbacks for it.
use protos_tpe.Base.{
  ℕ, ◌<◌, ◌≡◌, refl, sym, ap, ◌∙◌, Bool, true, none, some, get_elem?, set, arith, inl, inr,
}
use mathlib.Core.Path.{subst}
use protos_tpe.Os.{Interest, update}
use protos_tpe.Selector.{
  Item, Selector, success, asks_read, asks_write, set_interest_in, selector_set_interest,
}
use protos_tpe.Selector.Keeps.{IsConsistent, replaced, items_update-used, set_interest-IsConsistent}
use protos_tpe.Selector.Ops.{selector_set_interest-in}
use protos_tpe.Selector.Iteration.{Callback}
use protos_tpe.Selector.Served.{Action, Served, Stays, IsServed}

module _ {H D W : Type 0} where
  -- the handler has the callback that the interest asks for
  abbrev pub Has : Callback H D W → (Interest → Bool) → H → Interest → Type 0
  Has callback asks h i = asks i ≡ true → (f : Action H D W) × (callback h ≡ some f)

  Served-set :
      (callback : Callback H D W) (asks : Interest → Bool) (s : Selector H D) (fd : ℕ)
      (i : Interest) (item : Item H D) (h : H) (r w : ℕ → Bool)
      → Served callback asks s
      → get_elem? s.fds fd ≡ some item
      → item.handler ≡ some h
      → Has callback asks h i
      → Served callback asks (record s {
        fds = set s.fds fd (record item { interest = i });
        master_r = r;
        master_w = w;
      })
  Served-set callback asks s fd i item h r w v e p has j it g y =
      elim (replaced s.fds fd j (record item { interest = i }) item it e g) [
        | inl (at, same) ↦
            let asked : asks i ≡ true = ap (λ (x : Item H D). asks x.interest) (sym same) ∙ y in
            let (f, q) = has asked in (h, f, ap (λ (x : Item H D). x.handler) same ∙ p, q)
        | inr (off, g') ↦ v j it g' y
      ]

module _ {H D W : Type 0} (handle_read handle_write : Callback H D W) where
  -- `selector_set_interest` on a descriptor in use succeeds; it keeps the attachment.
  pub set_interest-IsServed :
      (s : Selector H D) (fd : ℕ) (i : Interest) (item : Item H D) (h : H)
      → IsServed handle_read handle_write s
      → get_elem? s.fds fd ≡ some item
      → item.fd ≡ some fd
      → item.handler ≡ some h
      → Has handle_read asks_read h i
      → Has handle_write asks_write h i
      → (s' : Selector H D) × (selector_set_interest s fd i ≡ some (success, s'))
        × IsServed handle_read handle_write s'
        × Stays fd item.attachment s'
  unfolding set_interest_in
  set_interest-IsServed s fd i item h v e u p has_r has_w =
      let item' : Item H D = record item { interest = i } in
      let r = update s.master_r fd (asks_read i) in
      let w = update s.master_w fd (asks_write i) in
      let s' : Selector H D = record s { fds = set s.fds fd item'; master_r = r; master_w = w } in
      let small : fd < 1024 = omega (arith, v.consistent.below fd fd item e u, v.consistent.top) in
      let same = items_update-used (record s { fds = set s.fds fd item' }) item' fd u in
      (
        s',
        selector_set_interest-in s fd i item small e
            ∙ ap (λ o. some (set_interest_in s fd i item o)) u
            ∙ ap (λ (t : Selector H D). some (success, t)) same,
        record {
          consistent =
              subst IsConsistent same (set_interest-IsConsistent s fd i item v.consistent e u);
          idle = λ j it g n. elim (replaced s.fds fd j item' item it e g) [
            | inl (at, q) ↦
                let gone : some fd ≡ none = sym u ∙ ap (λ (x : Item H D). x.fd) (sym q) ∙ n in
                absurd cc
            | inr (off, g') ↦ v.idle j it g' n
          ];
          reads = Served-set handle_read asks_read s fd i item h r w v.reads e p has_r;
          writes = Served-set handle_write asks_write s fd i item h r w v.writes e p has_w;
        },
        λ it g n. elim (replaced s.fds fd fd item' item it e g) [
          | inl (at, q) ↦ ap (λ (x : Item H D). x.attachment) q
          | inr (off, g') ↦ absurd (off refl)
        ],
      )
