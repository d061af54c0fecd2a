-- ===== src/Selector/Keeps.antt =====
-- The invariant of the selector's table, which each operation keeps.
use protos_tpe.Base.{
  ℕ, ◌+◌, ◌<◌, ◌≤◌, ◌≡◌, ◌≢◌, ◌⊎◌, inl, inr, refl, sym, ap, ◌∙◌, Bool, false, Option, none, some,
  List, arith, ltb, ◌==◌, if◌then◌else◌, length, length-set, get_elem?, set, take, Bool-cases,
  Option-cases,
}
use mathlib.Core.Path.{subst}
use protos_tpe.Os.{Interest, noop, update}
use protos_tpe.Selector.{
  Item, Selector, unused, max_from, asks_read, asks_write, register_at, clear_at,
  items_update_fdset_for_fd, items_max_fd,
}
use protos_tpe.Selector.Table.{
  get-set_same, get-set_other, get-take, get-take-some, max_from-le, max_from-bound,
}

module _ {H D : Type 0} where
  -- whether the sets hold a descriptor, by the interest of its item
  abbrev pub wanted : (Interest → Bool) → Option (Item H D) → Bool
  wanted can none = false
  wanted can (some item) = elim item.fd [ none ↦ false | some f ↦ can item.interest ]

  -- The table has room for each descriptor of `select`, and `max_fd` is one of these; an item in use
  -- stands at its descriptor, not above `max_fd`, and has a handler; and the sets hold just the
  -- descriptors in use whose interest asks for it.
  pub record IsConsistent (s : Selector H D) : Type 0 where
    pub room : 1024 ≤ length s.fds
    pub top : s.max_fd < 1024
    pub placed :
        (i f : ℕ) (item : Item H D) → get_elem? s.fds i ≡ some item → item.fd ≡ some f → f ≡ i
    pub handled :
        (i f : ℕ) (item : Item H D)
        → get_elem? s.fds i ≡ some item
        → item.fd ≡ some f
        → (h : H) × (item.handler ≡ some h)
    pub below :
        (i f : ℕ) (item : Item H D)
        → get_elem? s.fds i ≡ some item
        → item.fd ≡ some f
        → i ≤ s.max_fd
    pub reads : (i : ℕ) → s.master_r i ≡ wanted asks_read (get_elem? s.fds i)
    pub writes : (i : ℕ) → s.master_w i ≡ wanted asks_write (get_elem? s.fds i)

  -- What `get_elem?` shows of a table with one item replaced.
  pub replaced :
      (xs : List (Item H D)) (i j : ℕ) (new old item : Item H D)
      → get_elem? xs i ≡ some old
      → get_elem? (set xs i new) j ≡ some item
      → ((j ≡ i) × (item ≡ new)) ⊎ ((j ≢ i) × (get_elem? xs j ≡ some item))
  replaced xs i j new old item h g = elim (Bool-cases (j == i)) [
    | inl y ↦
        let at : j ≡ i = ground (arith, y) in let same = get-set_same xs i new old h in inl (at, cc)
    | inr n ↦
        let off : j ≢ i = ground (arith, n) in inr (off, sym (get-set_other xs i j new off) ∙ g)
  ]

  -- the sets, where one item is replaced
  update-wanted :
      (can : Interest → Bool) (m : ℕ → Bool) (xs : List (Item H D)) (i j : ℕ) (new old : Item H D)
      (v : Bool)
      → get_elem? xs i ≡ some old
      → v ≡ wanted can (some new)
      → ((k : ℕ) → m k ≡ wanted can (get_elem? xs k))
      → update m i v j ≡ wanted can (get_elem? (set xs i new) j)
  update-wanted can m xs i j new old v h q e = elim (Bool-cases (j == i)) [
    | inl y ↦
        let at : j ≡ i = ground (arith, y) in rw (update, y, at, get-set_same xs i new old h) q
    | inr n ↦
        let off : j ≢ i = ground (arith, n) in rw (update, n, get-set_other xs i j new off) (e j)
  ]

  -- a consistent selector in which the item of `i` is replaced
  put-IsConsistent :
      (s : Selector H D) (i max : ℕ) (new old : Item H D) (r w : ℕ → Bool)
      → IsConsistent s
      → get_elem? s.fds i ≡ some old
      → max < 1024
      → ((f : ℕ) → new.fd ≡ some f → (f ≡ i) × (h : H) × (new.handler ≡ some h))
      → ((j f : ℕ) (item : Item H D)
          → get_elem? (set s.fds i new) j ≡ some item
          → item.fd ≡ some f
          → j ≤ max)
      → ((j : ℕ) → r j ≡ wanted asks_read (get_elem? (set s.fds i new) j))
      → ((j : ℕ) → w j ≡ wanted asks_write (get_elem? (set s.fds i new) j))
      → IsConsistent (record { fds = set s.fds i new; max_fd = max; master_r = r; master_w = w })
  put-IsConsistent s i max new old r w c h peak fresh low reads writes = record {
    room = omega (arith, length-set s.fds i new, c.room);
    top = peak;
    placed = λ j f item g e. elim (replaced s.fds i j new old item h g) [
      | inl (at, same) ↦ (fresh f (ap (λ (x : Item H D). x.fd) (sym same) ∙ e)).0 ∙ sym at
      | inr (off, g') ↦ c.placed j f item g' e
    ];
    handled = λ j f item g e. elim (replaced s.fds i j new old item h g) [
      | inl (at, same) ↦
          let (p, k, has) = fresh f (ap (λ (x : Item H D). x.fd) (sym same) ∙ e) in
          (k, ap (λ (x : Item H D). x.handler) same ∙ has)
      | inr (off, g') ↦ c.handled j f item g' e
    ];
    below = low;
    reads = reads;
    writes = writes;
  }

  pub items_update-used :
      (s : Selector H D) (item : Item H D) (f : ℕ)
      → item.fd ≡ some f
      → items_update_fdset_for_fd s item ≡ record s {
        master_r = update s.master_r f (asks_read item.interest);
        master_w = update s.master_w f (asks_write item.interest);
      }
  unfolding items_update_fdset_for_fd
  items_update-used s item f e = rw e refl

  wanted-used :
      (can : Interest → Bool) (item : Item H D) (f : ℕ)
      → item.fd ≡ some f
      → can item.interest ≡ wanted can (some item)
  wanted-used can item f e = rw (wanted, e) refl

  pub register_at-IsConsistent :
      (s : Selector H D) (fd : ℕ) (handler : H) (i : Interest) (attachment : Option D)
      (old : Item H D)
      → IsConsistent s
      → get_elem? s.fds fd ≡ some old
      → fd < 1024
      → IsConsistent (register_at s fd handler i attachment old).1
  unfolding register_at items_update_fdset_for_fd
  register_at-IsConsistent s fd handler i attachment old c h small =
      let max = if ltb s.max_fd fd then fd else s.max_fd in
      let item : Item H D = record {
        fd = some fd;
        interest = i;
        handler = some handler;
        attachment = attachment;
      } in
      elim (Option-cases old.fd) [
        | inr (f, e) ↦ rw e c
        | inl n ↦ rw n (
            put-IsConsistent s fd max item old (update s.master_r fd (asks_read i))
              (update s.master_w fd (asks_write i)) c h (ground (arith, small, c.top))
              (λ f e. (cc, handler, refl))
              (λ j f it g e. elim (replaced s.fds fd j item old it h g) [
                | inl (at, same) ↦ ground (arith, at)
                | inr (off, g') ↦ let low = c.below j f it g' e in ground (arith, low)
              ])
              (λ j.
                update-wanted asks_read s.master_r s.fds fd j item old (asks_read i) h refl c.reads)
              (λ j.
                update-wanted asks_write s.master_w s.fds fd j item old (asks_write i) h refl
                  c.writes))
      ]

  pub set_interest-IsConsistent :
      (s : Selector H D) (fd : ℕ) (i : Interest) (item : Item H D)
      → IsConsistent s
      → get_elem? s.fds fd ≡ some item
      → item.fd ≡ some fd
      → let item' : Item H D = record item { interest = i } in
        IsConsistent (items_update_fdset_for_fd (record s { fds = set s.fds fd item' }) item')
  set_interest-IsConsistent s fd i item c h e =
      let item' : Item H D = record item { interest = i } in
      let (k, has) = c.handled fd fd item h e in
      subst IsConsistent
        (sym (items_update-used (record s { fds = set s.fds fd item' }) item' fd e))
        (put-IsConsistent s fd s.max_fd item' item (update s.master_r fd (asks_read i))
          (update s.master_w fd (asks_write i)) c h c.top (λ f q. (cc, k, has))
          (λ j f it g q. elim (replaced s.fds fd j item' item it h g) [
            | inl (at, same) ↦ rw at (c.below fd fd item h e)
            | inr (off, g') ↦ c.below j f it g' q
          ])
          (λ j.
            update-wanted asks_read s.master_r s.fds fd j item' item (asks_read i) h
              (wanted-used asks_read item' fd e) c.reads)
          (λ j.
            update-wanted asks_write s.master_w s.fds fd j item' item (asks_write i) h
              (wanted-used asks_write item' fd e) c.writes))

  -- a descriptor that is left when one is cleared
  cleared-below :
      (s : Selector H D) (fd j f : ℕ) (item it : Item H D)
      → IsConsistent s
      → get_elem? s.fds fd ≡ some item
      → get_elem? (set s.fds fd unused) j ≡ some it
      → it.fd ≡ some f
      → f ≤ s.max_fd
  cleared-below s fd j f item it c h g q = elim (replaced s.fds fd j unused item it h g) [
    | inl (at, same) ↦
        let blank : none ≡ some f = ap (λ (x : Item H D). x.fd) (sym same) ∙ q in absurd cc
    | inr (off, g') ↦ omega (arith, c.below j f it g' q, c.placed j f it g' q)
  ]

  pub clear_at-IsConsistent :
      (s : Selector H D) (fd : ℕ) (item : Item H D)
      → IsConsistent s
      → get_elem? s.fds fd ≡ some item
      → item.fd ≡ some fd
      → IsConsistent (clear_at s fd item)
  unfolding clear_at items_max_fd
  clear_at-IsConsistent s fd item c h e =
      let kept = take (s.max_fd + 1) (set s.fds fd unused) in
      let max = max_from kept 0 in
      let peak : max ≤ s.max_fd = max_from-le kept 0 s.max_fd (omega arith) (λ j f it g q.
        cleared-below s fd j f item it c h
          (get-take-some (set s.fds fd unused) (s.max_fd + 1) j it g) q) in
      subst IsConsistent
        (ap
          (λ (s1 : Selector H D). record s1 {
            fds = set s1.fds fd unused;
            max_fd = max_from (take (s1.max_fd + 1) (set s1.fds fd unused)) 0;
          })
          (sym (items_update-used s (record item { interest = noop }) fd e)))
        (put-IsConsistent s fd max unused item (update s.master_r fd false)
          (update s.master_w fd false) c h (omega (arith, c.top, peak)) (λ f q. absurd cc)
          (λ j f it g q. elim (replaced s.fds fd j unused item it h g) [
            | inl (at, same) ↦
                let blank : none ≡ some f = ap (λ (x : Item H D). x.fd) (sym same) ∙ q in absurd cc
            | inr (off, g') ↦
                let low = c.below j f it g' q in
                let seen =
                  get-take (set s.fds fd unused) (s.max_fd + 1) j (omega (arith, low)) ∙ g in
                let top =
                  max_from-bound (take (s.max_fd + 1) (set s.fds fd unused)) j f 0 it seen q in
                omega (arith, top, c.placed j f it g' q)
          ])
          (λ j. update-wanted asks_read s.master_r s.fds fd j unused item false h refl c.reads)
          (λ j. update-wanted asks_write s.master_w s.fds fd j unused item false h refl c.writes))
