-- ===== src/Selector/Iteration.antt =====
-- src/lib/selector/selector.c: handle_iteration, which calls the handlers of the descriptors that
-- are ready. `none` is an access behind the table, a call through NULL, or a failed assert. The
-- table stays where it is: it moves when it grows, which one with room for each descriptor of
-- `select`, as the server's, does not.
use protos_tpe.Base.{
  ℕ, zero, suc, ◌+◌, Bool, true, false, ◌&&◌, Option, none, some, ◌>>=◌, get_elem?,
}
use protos_tpe.Selector.{Item, Selector, asks_read, asks_write}

-- A callback acts on the selector and on what is outside of it; `none` for NULL.
abbrev pub Callback : Type 0 → Type 0 → Type 0 → Type 0
Callback H D W = H → Option (ℕ → Option D → Selector H D × W → Selector H D × W)

module _ {H D W : Type 0} (handle_read handle_write : Callback H D W) where
  -- the call of one of the two callbacks, behind its tests
  unfoldable pub call :
      Callback H D W → Item H D → ℕ → Option D → Selector H D × W → Option (Selector H D × W)
  call callback item fd attachment k = do h ← item.handler; f ← callback h; some (f fd attachment k)

  -- the call, if its tests hold
  unfoldable pub attend :
      Callback H D W → Item H D → ℕ → Option D → Selector H D × W → Bool → Option (Selector H D × W)
  unfolding call
  attend callback item fd attachment k true = call callback item fd attachment k
  attend callback item fd attachment k false = some k

  -- One of the two tests, and its call. The item is read again, since a callback may have changed it;
  -- `fd` and `attachment` are the key's, which was set before.
  unfoldable pub visit :
      Callback H D W
      → Bool
      → (Item H D → Bool)
      → ℕ
      → ℕ
      → Option D
      → Selector H D × W
      → Option (Selector H D × W)
  unfolding attend
  visit callback ready asks i fd attachment k = do
    item ← get_elem? k.0.fds i
    attend callback item fd attachment k (ready && asks item)

  -- the body of the loop, for an item in use with the descriptor `fd`
  unfoldable pub serve :
      (ℕ → Bool) → (ℕ → Bool) → ℕ → ℕ → Option D → Selector H D × W → Option (Selector H D × W)
  unfolding visit
  serve slave_r slave_w i fd attachment k = do
    k1 ← visit handle_read (slave_r fd) (λ item. asks_read item.interest) i fd attachment k
    visit handle_write (slave_w i) (λ item. asks_write item.interest) i fd attachment k1

  -- the body of the loop, for an item with the descriptor that it has
  unfoldable pub serve_item :
      (ℕ → Bool)
      → (ℕ → Bool)
      → ℕ
      → Option D
      → Selector H D × W
      → Option ℕ
      → Option (Selector H D × W)
  unfolding serve
  serve_item slave_r slave_w i attachment k none = some k
  serve_item slave_r slave_w i attachment k (some fd) = serve slave_r slave_w i fd attachment k

  -- the loop from index `i` on, over `left` items
  unfoldable pub iterate :
      (ℕ → Bool) → (ℕ → Bool) → ℕ → ℕ → Selector H D × W → Option (Selector H D × W)
  unfolding serve_item
  iterate slave_r slave_w i zero k = some k
  iterate slave_r slave_w i (suc left) k = do
    item ← get_elem? k.0.fds i
    k1 ← serve_item slave_r slave_w i item.attachment k item.fd
    iterate slave_r slave_w (i + 1) left k1

  -- `handle_iteration`
  unfoldable pub handle_iteration :
      (ℕ → Bool) → (ℕ → Bool) → Selector H D × W → Option (Selector H D × W)
  unfolding iterate
  handle_iteration slave_r slave_w k = iterate slave_r slave_w 0 (k.0.max_fd + 1) k
