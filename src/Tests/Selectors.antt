-- ===== src/Tests/Selectors.antt =====
-- The server's selector, with the handlers as numbers.
use protos_tpe.Base.{
  ℕ, zero, suc, ◌⊎◌, sym, ◌∙◌, ◌≡◌, true, false, Option, none, some, List, [], ◌∷◌, arith,
  if◌then◌else◌, Bool, refl, inl, inr, set, replicate, ap, get_elem?,
}
use protos_tpe.Os
use protos_tpe.Os.{Os, Errno, Interest, reading, writing}
use protos_tpe.Connect
use mathlib.Core.Path.{subst}
use protos_tpe.Os.{update}
use protos_tpe.Selector.{
  Item, asks_read, asks_write, unused, register_at, items_update_fdset_for_fd, Selector,
  SelectorStatus, success, fdinuse, selector_new, selector_register, selector_set_interest,
}
use protos_tpe.Selector.Keeps.{IsConsistent, replaced, register_at-IsConsistent}
use protos_tpe.Selector.Fresh.{unused_at, blank, blank-IsConsistent}
use protos_tpe.Selector.Ops.{Op, run}
use protos_tpe.Selector.Iteration.{Callback, handle_iteration}
use protos_tpe.Selector.Served.{
  Action, At, Stays, ReadKeeps, WriteKeeps, IsServed, handle_iteration-IsServed,
}
use protos_tpe.Selector.Serving.{set_interest-IsServed}
use protos_tpe.Selector.Run.{run-IsConsistent}
use protos_tpe.Selector.Refines.{seen, interest_of, selector-refines-Os}

-- `handle_close` counts the descriptors that are closed
abbrev count_close : ℕ → Option (ℕ → Option ℕ → ℕ → ℕ)
count_close h = some (λ fd a n. suc n)

abbrev ops : List (Op ℕ ℕ)
ops =
    Op.register 7 (some 1) reading none true
    ∷ Op.interest 7 writing
    ∷ Op.register 7 (some 1) reading none true
    ∷ Op.unregister 7
    ∷ []

run-IsConsistent_example :
    (start s : Selector ℕ ℕ) × (n : ℕ) × (selector_new 1000 true true ≡ some start)
    × (run count_close ops start 0 ≡ some (s, n))
    × IsConsistent s
run-IsConsistent_example = run-IsConsistent count_close ops 0

abbrev os : Os
os = record {
  errno = Errno.clear;
  interest = λ fd. none;
  sent = λ fd. [];
  shut = λ fd. false;
  closed = [];
}

selector-refines-Os_example :
    let s : Selector ℕ ℕ = blank 1024 in
    let taken = Connect.registers (seen os s) 7 true in
    ((st : SelectorStatus) × (s' : Selector ℕ ℕ) × (selector_set_interest s 7 reading
        ≡ some (st, s'))
      × (interest_of s' 7 ≡ (Os.set_interest (seen os s) 7 reading).interest 7))
    × ((st : SelectorStatus) × (s' : Selector ℕ ℕ) × (selector_register s 7
            (some 1)
            writing
            none
            true
          ≡ some (st, s'))
        × (st ≡ (if taken then success else fdinuse))
        × (interest_of s' 7
            ≡ (if taken then (Connect.register (seen os s) 7).interest 7 else interest_of s 7)))
selector-refines-Os_example =
    selector-refines-Os os (blank 1024) 7 7 reading 1 none (blank-IsConsistent 1024 (omega arith))
      (omega arith)

-- Two handlers, which count their calls: 0, of a passive socket, has no handle_write; 1, of a client,
-- asks to write when it is read, and to read when it has written.
abbrev count_call : Action ℕ ℕ ℕ
count_call fd a k = (k.0, suc k.1)

abbrev counted : Option (SelectorStatus × Selector ℕ ℕ) → Selector ℕ ℕ × ℕ → Selector ℕ ℕ × ℕ
counted none k = k
counted (some (st, s)) k = (s, suc k.1)

abbrev ask : Interest → Action ℕ ℕ ℕ
ask i fd a k = counted (selector_set_interest k.0 fd i) k

abbrev on_read : Callback ℕ ℕ ℕ
on_read zero = some count_call
on_read (suc h) = some (ask writing)

abbrev on_write : Callback ℕ ℕ ℕ
on_write zero = none
on_write (suc h) = some (ask reading)

abbrev item_of : ℕ → ℕ → Item ℕ ℕ
item_of fd h = record { fd = some fd; interest = reading; handler = some h; attachment = none }

-- a selector in which the descriptor 5, passive, waits for a read
abbrev listening : Selector ℕ ℕ
listening = record {
  fds = set (replicate 1024 unused) 5 (item_of 5 0);
  max_fd = 5;
  master_r = update (λ fd. false) 5 true;
  master_w = update (λ fd. false) 5 false;
}

-- ... and the descriptor 7, of a client, too
abbrev two_wait : Selector ℕ ℕ
two_wait = record {
  fds = set listening.fds 7 (item_of 7 1);
  max_fd = 7;
  master_r = update listening.master_r 7 true;
  master_w = update listening.master_w 7 false;
}

registered :
    ((register_at (blank 1024) 5 0 reading none unused).1 ≡ listening)
    × ((register_at listening 7 1 reading none unused).1 ≡ two_wait)
unfolding register_at items_update_fdset_for_fd
registered = (refl, refl)

two_wait-IsConsistent : IsConsistent two_wait
two_wait-IsConsistent = subst IsConsistent registered.1 (
    register_at-IsConsistent listening 7 1 reading none unused
      (subst IsConsistent registered.0 (
        register_at-IsConsistent (blank 1024) 5 0 reading none unused
          (blank-IsConsistent 1024 (omega arith)) refl (omega arith)))
      refl (omega arith))

-- the items of that selector
items_of :
    (i : ℕ) (item : Item ℕ ℕ)
    → get_elem? two_wait.fds i ≡ some item
    → (item ≡ item_of 7 1) ⊎ ((item ≡ item_of 5 0) ⊎ (item ≡ unused))
items_of i item e = elim (replaced listening.fds 7 i (item_of 7 1) unused item refl e) [
  | inl (at, same) ↦ inl same
  | inr (away, g) ↦ (elim (replaced (replicate 1024 unused) 5 i (item_of 5 0) unused item refl g) [
    | inl (at, same) ↦ inr (inl same)
    | inr (off, g') ↦ inr (inr (unused_at 1024 i item g'))
  ])
]

two_wait-IsServed : IsServed on_read on_write two_wait
two_wait-IsServed = record {
  consistent = two_wait-IsConsistent;
  idle = λ i item e n. elim (items_of i item e) [
    | inl q ↦ let u = ap (λ (x : Item ℕ ℕ). x.fd) q in absurd cc
    | inr (inl q) ↦ let u = ap (λ (x : Item ℕ ℕ). x.fd) q in absurd cc
    | inr (inr q) ↦ ap (λ (x : Item ℕ ℕ). x.interest) q
  ];
  reads = λ i item e y. elim (items_of i item e) [
    | inl q ↦ (1, ask writing, ap (λ (x : Item ℕ ℕ). x.handler) q, refl)
    | inr (inl q) ↦ (0, count_call, ap (λ (x : Item ℕ ℕ). x.handler) q, refl)
    | inr (inr q) ↦ let u = ap (λ (x : Item ℕ ℕ). asks_read x.interest) q in absurd cc
  ];
  writes = λ i item e y. elim (items_of i item e) [
    | inl q ↦ let u = ap (λ (x : Item ℕ ℕ). asks_write x.interest) q in absurd cc
    | inr (inl q) ↦ let u = ap (λ (x : Item ℕ ℕ). asks_write x.interest) q in absurd cc
    | inr (inr q) ↦ let u = ap (λ (x : Item ℕ ℕ). asks_write x.interest) q in absurd cc
  ];
}

abbrev Kept : Selector ℕ ℕ × ℕ → Type 0
Kept k = IsServed on_read on_write k.0

some-injective : {A : Type 0} {x y : A} → some x ≡ some y → x ≡ y
some-injective p = cc

asks-Kept :
    (asks : Interest → Bool) (n fd : ℕ) (a : Option ℕ) (k : Selector ℕ ℕ × ℕ) (i : Interest)
    → Kept k
    → At asks (suc n) fd a k.0
    → Kept (ask i fd a k) × Stays fd a (ask i fd a k).0
asks-Kept asks n fd a k i v (item, e, u, p, q, y) =
    let (s', run, v', stays) =
      set_interest-IsServed on_read on_write k.0 fd i item (suc n) v e u p
        (λ z. (ask writing, refl)) (λ z. (ask reading, refl)) in
    let after : Kept (ask i fd a k) × Stays fd item.attachment (ask i fd a k).0 =
      subst (λ o. Kept (counted o k) × Stays fd item.attachment (counted o k).0) (sym run)
        (v', stays) in
    (after.0, λ it e' n. after.1 it e' n ∙ q)

reads-Keep : ReadKeeps on_read on_write Kept
reads-Keep zero f fd a k p v (item, e, u, q, g, y) =
    subst (λ f. Kept (f fd a k) × Stays fd a (f fd a k).0) (some-injective p)
      (
        v,
        λ it e' n.
            ap (λ (o : Option (Item ℕ ℕ)). elim o [ none ↦ a | some x ↦ x.attachment ]) (sym e' ∙ e)
            ∙ g,
      )
reads-Keep (suc n) f fd a k p v at =
    subst (λ f. Kept (f fd a k) × Stays fd a (f fd a k).0) (some-injective p)
      (asks-Kept asks_read n fd a k writing v at)

writes-Keep : WriteKeeps on_read on_write Kept
writes-Keep zero f fd a k p v at = absurd cc
writes-Keep (suc n) f fd a k p v at =
    subst (λ f. Kept (f fd a k)) (some-injective p) (asks-Kept asks_write n fd a k reading v at).0

handle_iteration-IsServed_example :
    (k' : Selector ℕ ℕ × ℕ) × (handle_iteration on_read on_write
        (λ fd. true)
        (λ fd. true)
        (two_wait, 0)
      ≡ some k')
    × Kept k'
    × IsServed on_read on_write k'.0
handle_iteration-IsServed_example =
    handle_iteration-IsServed on_read on_write Kept (λ k v. v) reads-Keep writes-Keep (λ fd. true)
      (λ fd. true) (two_wait, 0) two_wait-IsServed
