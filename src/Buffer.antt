-- ===== src/Buffer.antt =====
-- src/lib/buffer: the byte buffer between two sockets. Pointers are offsets from `data`, and the
-- memory from `data` on is the list `storage`. `none` is a failed `assert`, which aborts.
pub mod Fifo
use protos_tpe.Base.{
  ℕ, ◌+◌, ◌-◌, Bool, Option, none, some, List, ltb, leb, ◌==◌, if◌then◌else◌, ◌>>=◌, ℤ, pos, negsuc,
  get_elem?, set, take, drop, store,
}

pub record Buffer : Type 0 where
  pub storage : List ℕ
  pub limit : ℕ
  pub read : ℕ
  pub write : ℕ

-- `buffer_reset`
unfoldable pub reset : Buffer → Buffer
reset b = record b { read = 0; write = 0 }

-- `buffer_init`
unfoldable pub init : ℕ → List ℕ → Buffer
unfolding reset
init n storage = reset (record { storage = storage; limit = n; read = 0; write = 0 })

unfoldable pub can_write : Buffer → Bool
can_write b = ltb b.write b.limit

-- `buffer_write_ptr`: the place to write to, and the room there
unfoldable pub write_ptr : Buffer → Option (ℕ × ℕ)
write_ptr b = if leb b.write b.limit then some (b.write, b.limit - b.write) else none

unfoldable pub can_read : Buffer → Bool
can_read b = ltb b.read b.write

-- `buffer_read_ptr`: the place to read from, and the bytes there
unfoldable pub read_ptr : Buffer → Option (ℕ × ℕ)
read_ptr b = if leb b.read b.write then some (b.read, b.write - b.read) else none

unfoldable pub write_adv : Buffer → ℤ → Option Buffer
write_adv b (negsuc n) = some b
write_adv b (pos n) =
    if leb (b.write + n) b.limit then some (record b { write = b.write + n }) else none

-- `memmove(dst, src, n)` inside the buffer
abbrev memmove : List ℕ → ℕ → ℕ → ℕ → List ℕ
memmove m dst src n = store m dst (take n (drop src m))

unfoldable pub compact : Buffer → Buffer
compact b =
    if b.read == 0
    then b
    else if b.read == b.write
    then record b { read = 0; write = 0 }
    else record b {
      storage = memmove b.storage 0 b.read (b.write - b.read);
      read = 0;
      write = b.write - b.read;
    }

unfoldable pub read_adv : Buffer → ℤ → Option Buffer
unfolding compact
read_adv b (negsuc n) = some b
read_adv b (pos n) =
    let b' : Buffer = record b { read = b.read + n } in
    if leb b'.read b'.write then some (if b'.read == b'.write then compact b' else b') else none

-- `buffer_read`: a byte, 0 if there is none
unfoldable pub read_byte : Buffer → Option (ℕ × Buffer)
unfolding can_read
read_byte b =
    if can_read b
    then (do c ← get_elem? b.storage b.read; b' ← read_adv b (pos 1); some (c, b'))
    else some (0, b)

-- `buffer_write`
unfoldable pub write_byte : Buffer → ℕ → Option Buffer
unfolding can_write
write_byte b c =
    if can_write b
    then write_adv (record b { storage = set b.storage b.write c }) (pos 1)
    else some b

-- What `recv` does through the pointer that `buffer_write_ptr` gave.
abbrev pub fill : Buffer → List ℕ → Buffer
fill b bs = record b { storage = store b.storage b.write bs }

-- The bytes that a reader of the buffer has still to see, oldest first.
abbrev pub contents : Buffer → List ℕ
contents b = take (b.write - b.read) (drop b.read b.storage)

-- The memory that the pointer of `buffer_read_ptr` points to.
abbrev pub readable : Buffer → List ℕ
readable b = drop b.read b.storage
