-- ===== src/Selector/Fresh.antt =====
-- A selector that is new.
use protos_tpe.Base.{
  ℕ, zero, suc, ◌≤◌, ◌≡◌, ◌≢◌, refl, sym, ap, ◌∙◌, Bool, true, false, none, some, arith, length,
  get_elem?, replicate,
}
use protos_tpe.Os.{Interest}
use protos_tpe.Selector.{Item, Selector, unused, asks_read, asks_write, selector_new, next_capacity}
use protos_tpe.Selector.Keeps.{IsConsistent, wanted}

module _ {H D : Type 0} where
  pub unused_at :
      (k i : ℕ) (item : Item H D)
      → get_elem? (replicate k (unused {H = H} {D = D})) i ≡ some item
      → item ≡ unused
  unused_at zero i item h = cc
  unused_at (suc k) zero item h = cc
  unused_at (suc k) (suc i) item h = unused_at k i item h

  length-replicate : (k : ℕ) (item : Item H D) → length (replicate k item) ≡ k
  length-replicate zero item = refl
  length-replicate (suc k) item = ap suc (length-replicate k item)

  blank_wanted :
      (can : Interest → Bool) (k i : ℕ) (item : Item H D)
      → item.fd ≡ none
      → false ≡ wanted can (get_elem? (replicate k item) i)
  blank_wanted can zero i item e = refl
  blank_wanted can (suc k) zero item e = rw (wanted, e) refl
  blank_wanted can (suc k) (suc i) item e = blank_wanted can k i item e

  not_blank :
      (k i f : ℕ) (item : Item H D)
      → get_elem? (replicate k (unused {H = H} {D = D})) i ≡ some item
      → item.fd ≢ some f
  not_blank k i f item h e =
      let blank : none ≡ some f = ap (λ (x : Item H D). x.fd) (sym (unused_at k i item h)) ∙ e in cc

  -- a selector whose table has `k` items, of which none is in use
  abbrev pub blank : ℕ → Selector H D
  blank k = record {
    fds = replicate k unused;
    max_fd = 0;
    master_r = λ fd. false;
    master_w = λ fd. false;
  }

  pub blank-IsConsistent : (k : ℕ) → 1024 ≤ k → IsConsistent (blank k)
  blank-IsConsistent k h = record {
    room = omega (arith, h, length-replicate k (unused {H = H} {D = D}));
    top = omega arith;
    placed = λ i f item g e. absurd (not_blank k i f item g e);
    handled = λ i f item g e. absurd (not_blank k i f item g e);
    below = λ i f item g e. absurd (not_blank k i f item g e);
    reads = λ i. blank_wanted asks_read k i unused refl;
    writes = λ i. blank_wanted asks_write k i unused refl;
  }

  -- The selector of src/server/main.c has 1025 items.
  pub new-blank : selector_new {H = H} {D = D} 1000 true true ≡ some (blank 1025)
  unfolding selector_new next_capacity
  new-blank = refl
