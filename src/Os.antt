-- ===== src/Os.antt =====
-- What the handlers of src/server ask of the operating system and of the selector. The kernel's
-- answers are arguments of the handlers; what a handler leaves behind is the record `Os`.
use protos_tpe.Base.{
  ℕ, Bool, true, false, Option, none, some, List, ◌++◌, take, ◌==◌, if◌then◌else◌,
}

-- The values of `errno` that the code tells apart.
pub data Errno : Type 0 where
  clear again would_block in_progress already : Errno
  other : ℕ → Errno

-- `errno == EAGAIN || errno == EWOULDBLOCK`
abbrev pub is_again : Errno → Bool
is_again Errno.again = true
is_again Errno.would_block = true
is_again _ = false

-- A return of `recv`: a positive count with what was read, 0, or -1 with `errno`.
pub data RecvReply (A : Type 0) : Type 0 where
  received : A → RecvReply A
  closed : RecvReply A
  failed : Errno → RecvReply A

-- A return of `send`: a count (0 included), or -1 with `errno`.
pub data SendReply : Type 0 where
  took : ℕ → SendReply
  failed : Errno → SendReply

-- `fd_interest`: OP_NOOP, OP_READ, OP_WRITE, OP_READ | OP_WRITE
pub data Interest : Type 0 where
  noop reading writing both : Interest

pub record Os : Type 0 where
  pub errno : Errno
  -- the selector's entry of each descriptor; `none` where it is not registered
  pub interest : ℕ → Option Interest
  -- the bytes that `send` has taken, for each descriptor
  pub sent : ℕ → List ℕ
  -- whether the descriptor's sending side is shut down
  pub shut : ℕ → Bool
  -- what was closed by `close`, the latest first
  pub closed : List ℕ

module _ {ℓ} {A : Type ℓ} where
  abbrev pub update : (ℕ → A) → ℕ → A → ℕ → A
  update f k v j = if j == k then v else f j

-- `selector_set_interest`: an entry in use gets the interest, any other is left alone.
abbrev pub set_interest : Os → ℕ → Interest → Os
set_interest os fd i = record os {
  interest = λ j.
      if j == fd then elim (os.interest fd) [ none ↦ none | some _ ↦ some i ] else os.interest j;
}

abbrev pub note_recv : {A : Type 0} → Os → RecvReply A → Os
note_recv os (RecvReply.failed e) = record os { errno = e }
note_recv os _ = os

-- A `send` on `fd` of the bytes `out`: those that it takes go behind what it has taken before.
abbrev pub note_send : Os → ℕ → List ℕ → SendReply → Os
note_send os fd out (SendReply.failed e) = record os { errno = e }
note_send os fd out (SendReply.took n) = record os {
  sent = update os.sent fd (os.sent fd ++ take n out);
}

-- Whether `send` has returned `size`.
abbrev pub took_all : SendReply → ℕ → Bool
took_all (SendReply.took n) size = n == size
took_all (SendReply.failed e) size = false
