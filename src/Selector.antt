-- ===== src/Selector.antt =====
-- src/lib/selector/selector.c: the table of descriptors, its growth, and the sets for `select`. A
-- descriptor is a number, so the tests against negative ones are left out; `none` is a read or a
-- write behind the table, or a call through NULL. `H` is what a handler is, and `D` what `data`
-- points to.
pub mod Table
pub mod Keeps
pub mod Ops
pub mod Fresh
pub mod Run
pub mod Iteration
pub mod Served
pub mod Serving
pub mod Refines
use protos_tpe.Base.{
  ℕ, zero, suc, ◌+◌, ◌*◌, ◌/◌, ◌-◌, ◌^◌, Bool, true, false, not, ◌&&◌, ◌||◌, Option, none, some,
  List, [], ◌∷◌, ◌++◌, ltb, leb, if◌then◌else◌, ◌>>=◌, length, get_elem?, set, take, replicate, min,
}
use protos_tpe.Os.{Interest, noop, reading, writing, both, update}

-- `selector_status`
pub data SelectorStatus : Type 0 where
  success enomem maxfd iargs io fdinuse : SelectorStatus

-- `struct item`; `fd` is `none` for FD_UNUSED.
pub record Item (H D : Type 0) : Type 0 where
  pub fd : Option ℕ
  pub interest : Interest
  pub handler : Option H
  pub attachment : Option D

-- `struct fdselector`, without its copies of the sets, its timeout and its blocking jobs; `fd_size`
-- is the length of `fds`.
pub record Selector (H D : Type 0) : Type 0 where
  pub fds : List (Item H D)
  pub max_fd : ℕ
  pub master_r : ℕ → Bool
  pub master_w : ℕ → Bool

-- `ITEMS_MAX_SIZE`
abbrev pub items_max_size : ℕ
items_max_size = 1024

-- The loop of `next_capacity`: the number of bits of `n`. A `size_t` has 64 of them, so 64 rounds
-- are enough.
abbrev pub bits_of : ℕ → ℕ → ℕ
bits_of zero n = 0
bits_of (suc rounds) n = let rest = bits_of rounds (n / 2) in elim n [ zero ↦ 0 | suc k ↦ rest + 1 ]

unfoldable pub next_capacity : ℕ → ℕ
next_capacity n = min (2 ^ bits_of 64 n) items_max_size + 1

abbrev pub asks_read : Interest → Bool
asks_read Interest.reading = true
asks_read Interest.both = true
asks_read _ = false

abbrev pub asks_write : Interest → Bool
asks_write Interest.writing = true
asks_write Interest.both = true
asks_write _ = false

module _ {H D : Type 0} where
  -- an item that is blank, behind `item_init`
  abbrev pub unused : Item H D
  unused = record { fd = none; interest = noop; handler = none; attachment = none }

  -- the loop of `items_max_fd`, over the items that are left
  abbrev pub max_from : List (Item H D) → ℕ → ℕ
  max_from [] max = max
  max_from (item ∷ items) max =
      max_from items (elim item.fd [ none ↦ max | some f ↦ if ltb max f then f else max ])

  unfoldable pub items_max_fd : Selector H D → ℕ
  items_max_fd s = max_from (take (s.max_fd + 1) s.fds) 0

  unfoldable pub items_update_fdset_for_fd : Selector H D → Item H D → Selector H D
  items_update_fdset_for_fd s item = elim item.fd [
    | none ↦ s
    | some f ↦ record s {
      master_r = update s.master_r f (asks_read item.interest);
      master_w = update s.master_w f (asks_write item.interest);
    }
  ]

  -- `ensure_capacity`; `memory` says whether `calloc` or `realloc` gave memory.
  unfoldable pub ensure_capacity : Selector H D → ℕ → Bool → SelectorStatus × Selector H D
  ensure_capacity s n memory =
      if ltb n (length s.fds)
      then (success, s)
      else if ltb items_max_size n
      then (maxfd, s)
      else if memory
      then (success, record s { fds = s.fds ++ replicate (next_capacity n - length s.fds) unused })
      else (enomem, s)

  -- `selector_new`; its first memory is for the selector, its second for the table.
  unfoldable pub selector_new : ℕ → Bool → Bool → Option (Selector H D)
  unfolding ensure_capacity
  selector_new n memory table_memory =
      let s : Selector H D = record {
        fds = [];
        max_fd = 0;
        master_r = λ fd. false;
        master_w = λ fd. false;
      } in
      if memory
      then (let (status, s') = ensure_capacity s n table_memory in
          elim status [ success ↦ some s' | _ ↦ none ])
      else none

  -- the registration of a descriptor in its item, `old`
  unfoldable pub register_at :
      Selector H D → ℕ → H → Interest → Option D → Item H D → SelectorStatus × Selector H D
  unfolding items_update_fdset_for_fd
  register_at s fd handler interest attachment old = elim old.fd [
    | some f ↦ (fdinuse, s)
    | none ↦
        let item : Item H D = record {
          fd = some fd;
          interest = interest;
          handler = some handler;
          attachment = attachment;
        } in
        (
          success,
          items_update_fdset_for_fd
              (record s {
                fds = set s.fds fd item;
                max_fd = if ltb s.max_fd fd then fd else s.max_fd;
              })
              item,
        )
  ]

  -- the growth of the table before a registration
  pub grow_for : Selector H D → ℕ → Bool → SelectorStatus × Selector H D
  unfolding ensure_capacity
  grow_for s fd memory = if ltb (length s.fds) fd then ensure_capacity s fd memory else (success, s)

  -- what follows that
  register_in :
      Selector H D
      → ℕ
      → H
      → Interest
      → Option D
      → SelectorStatus × Selector H D
      → Option (SelectorStatus × Selector H D)
  register_in s fd handler interest attachment (success, s1) = do
    item ← get_elem? s1.fds fd
    some (register_at s1 fd handler interest attachment item)
  register_in s fd handler interest attachment (status, s1) = some (status, s)

  -- `selector_register`
  unfoldable pub selector_register :
      Selector H D
      → ℕ
      → Option H
      → Interest
      → Option D
      → Bool
      → Option (SelectorStatus × Selector H D)
  unfolding register_in
  selector_register s fd none interest attachment memory = some (iargs, s)
  selector_register s fd (some handler) interest attachment memory =
      if leb items_max_size fd
      then some (iargs, s)
      else register_in s fd handler interest attachment (grow_for s fd memory)

  -- the end of a descriptor's item, behind the call of `handle_close`
  pub clear_at : Selector H D → ℕ → Item H D → Selector H D
  unfolding items_update_fdset_for_fd items_max_fd
  clear_at s fd item =
      let s1 = items_update_fdset_for_fd s (record item { interest = noop }) in
      let s2 : Selector H D = record s1 { fds = set s1.fds fd unused } in
      record s2 { max_fd = items_max_fd s2 }

  -- What follows the look at an item, which gives its `fd` and its handler; `handle_close` acts on
  -- what is outside of the selector.
  unregister_in :
      {W : Type 0}
      → (H → Option (ℕ → Option D → W → W))
      → Selector H D
      → ℕ
      → W
      → Item H D
      → Option ℕ
      → Option H
      → Option (SelectorStatus × Selector H D × W)
  unfolding clear_at
  unregister_in handle_close s fd w item none handler = some (iargs, s, w)
  unregister_in handle_close s fd w item (some f) none = none
  unregister_in handle_close s fd w item (some f) (some handler) = some (
    success,
    clear_at s fd item,
    (elim (handle_close handler) [ none ↦ w | some close ↦ close f item.attachment w ]),
  )

  -- `selector_unregister_fd`
  unfoldable pub selector_unregister_fd :
      {W : Type 0}
      → (H → Option (ℕ → Option D → W → W))
      → Selector H D
      → ℕ
      → W
      → Option (SelectorStatus × Selector H D × W)
  unfolding unregister_in
  selector_unregister_fd handle_close s fd w =
      if leb items_max_size fd then some (iargs, s, w) else (do
        item ← get_elem? s.fds fd
        unregister_in handle_close s fd w item item.fd item.handler)

  -- what follows the look at an item, which gives its `fd`
  pub set_interest_in :
      Selector H D → ℕ → Interest → Item H D → Option ℕ → SelectorStatus × Selector H D
  unfolding items_update_fdset_for_fd
  set_interest_in s fd i item none = (iargs, s)
  set_interest_in s fd i item (some f) =
      let item' : Item H D = record item { interest = i } in
      (success, items_update_fdset_for_fd (record s { fds = set s.fds fd item' }) item')

  -- `selector_set_interest`
  unfoldable pub selector_set_interest :
      Selector H D → ℕ → Interest → Option (SelectorStatus × Selector H D)
  unfolding set_interest_in
  selector_set_interest s fd i =
      if leb items_max_size fd
      then some (iargs, s)
      else (do item ← get_elem? s.fds fd; some (set_interest_in s fd i item item.fd))
