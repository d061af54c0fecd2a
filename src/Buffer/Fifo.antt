-- ===== src/Buffer/Fifo.antt =====
-- A buffer is a bounded queue of bytes: each operation against the list of its contents.
use protos_tpe.Base.{
  ℕ, ◌+◌, ◌-◌, ◌≤◌, ◌<◌, ◌≡◌, refl, ap, ◌∙◌, ◌↔◌, false, some, List, [], ◌∷◌, ◌++◌, arith, ◌==◌,
  if◌then◌else◌, Bool-cases, pos, length, take, drop, store, get_elem?, ltb, zero, suc, inl, inr,
  length-store, length-take, length-drop, window-store, set-store, window-drop, window-move,
}
use protos_tpe.Buffer.{
  Buffer, reset, init, can_write, can_read, write_adv, compact, read_adv, read_byte, write_byte,
  fill, contents,
}

-- The invariant that buffer.h states, R <= W <= limit, and that the storage is there.
pub record IsValid (b : Buffer) : Type 0 where
  pub ordered : b.read ≤ b.write
  pub bounded : b.write ≤ b.limit
  pub backed : b.limit ≤ length b.storage

pub init-IsValid : (n : ℕ) (m : List ℕ) → n ≤ length m → IsValid (init n m)
unfolding init
init-IsValid n m h = omega arith

pub contents-init : (n : ℕ) (m : List ℕ) → contents (init n m) ≡ []
unfolding init reset
contents-init n m = refl

pub length-contents : {b : Buffer} → IsValid b → length (contents b) ≡ b.write - b.read
length-contents {b} v =
    omega
      (arith, length-take (b.write - b.read) (drop b.read b.storage), length-drop b.read b.storage)

take-zero {ℓ} : {A : Type ℓ} (xs : List A) → take 0 xs ≡ []
take-zero xs = refl

-- Compaction of a valid buffer keeps the contents, the limit and the invariant, and frees the space
-- in front.
pub compact_lem :
    (b : Buffer)
    → IsValid b
    → IsValid (compact b)
      × (contents (compact b) ≡ contents b)
      × ((compact b).read ≡ 0)
      × ((compact b).limit ≡ b.limit)
unfolding compact
compact_lem b v = ground (
  arith,
  window-move b.storage b.read (b.write - b.read),
  length-store b.storage 0 (take (b.write - b.read) (drop b.read b.storage)),
  take-zero (drop b.read b.storage),
)

-- What `recv` stores in the room of a buffer, once it is accounted for by `buffer_write_adv`,
-- comes behind the contents; the `assert` does not fail, and the invariant is kept.
pub write_adv-fill :
    (b : Buffer) (bs : List ℕ)
    → IsValid b
    → length bs ≤ b.limit - b.write
    → (b' : Buffer) × (write_adv (fill b bs) (pos (length bs)) ≡ some b')
      × IsValid b'
      × (contents b' ≡ contents b ++ bs)
      × (b'.limit ≡ b.limit)
unfolding write_adv
write_adv-fill b bs v h = (
  record b { storage = store b.storage b.write bs; write = b.write + length bs },
  ground arith,
  ground (arith, length-store b.storage b.write bs),
  window-store b.storage bs b.read (b.write - b.read) b.write (b.write + length bs - b.read)
      (omega arith) (omega arith) (omega arith),
  refl,
)

contents-advance :
    (b : Buffer) (n : ℕ)
    → IsValid b
    → n ≤ b.write - b.read
    → contents (record b { read = b.read + n }) ≡ drop n (contents b)
contents-advance b n v h =
    ap (λ k. take k (drop (b.read + n) b.storage)) (omega arith)
    ∙ window-drop b.storage n b.read (b.write - b.read)

-- What is taken from a valid buffer by `buffer_read_adv`, of no more than is there, is the front of
-- its contents; the `assert` does not fail, and the invariant is kept.
pub read_adv_lem :
    (b : Buffer) (n : ℕ)
    → IsValid b
    → n ≤ b.write - b.read
    → (b' : Buffer) × (read_adv b (pos n) ≡ some b')
      × IsValid b'
      × (contents b' ≡ drop n (contents b))
      × (b'.limit ≡ b.limit)
unfolding read_adv
read_adv_lem b n v h =
    let b' : Buffer = record b { read = b.read + n } in
    let v' : IsValid b' = omega arith in
    (
      if b'.read == b'.write then compact b' else b',
      ground arith,
      ground (arith, compact_lem b' v'),
      ground (arith, compact_lem b' v', contents-advance b n v h),
      ground (arith, compact_lem b' v'),
    )

eq_nil {ℓ} : {A : Type ℓ} (xs : List A) → length xs ≡ 0 → xs ≡ []
eq_nil [] h = refl
eq_nil (x ∷ xs) h = absurd (omega arith)

pub can_read_iff : (b : Buffer) → IsValid b → (can_read b ≡ false) ↔ (contents b ≡ [])
unfolding can_read
can_read_iff b v = (
  (λ h. eq_nil (contents b) (ground (arith, length-contents v))),
  (λ e. ground (arith, length-contents v, ap length e)),
)

-- A byte that `buffer_write` is given comes last in a valid buffer, if there is room, and is
-- ignored if not; the invariant is kept.
pub write_byte_lem :
    (b : Buffer) (c : ℕ)
    → IsValid b
    → (b' : Buffer) × (write_byte b c ≡ some b')
      × IsValid b'
      × (contents b' ≡ (if ltb b.write b.limit then contents b ++ c ∷ [] else contents b))
      × (b'.limit ≡ b.limit)
unfolding write_byte can_write
write_byte_lem b c v = elim (Bool-cases (ltb b.write b.limit)) [
  | inl room ↦
      let (b', e, v', q, l) = write_adv-fill b (c ∷ []) v (ground arith) in
      (b', rw (room, set-store b.storage b.write c) e, v', rw room q, l)
  | inr full ↦ (b, rw full, v, rw full, refl)
]

read_at :
    (xs : List ℕ) (r n : ℕ)
    → r < length xs
    → (c : ℕ) × (get_elem? xs r ≡ some c) × (cs : List ℕ) × (take (suc n) (drop r xs) ≡ c ∷ cs)
read_at [] r n h = absurd (omega arith)
read_at (x ∷ xs) zero n h = (x, refl, take n xs, refl)
read_at (x ∷ xs) (suc r) n h = read_at xs r n (omega arith)

-- the first byte of a list and those behind it, or 0 where there is none
abbrev pub front : List ℕ → ℕ × List ℕ
front [] = (0, [])
front (c ∷ cs) = (c, cs)

-- `buffer_read` takes the first byte of the contents; where there is none it gives 0 and takes
-- nothing. The invariant and the limit are kept.
pub read_byte_lem :
    (b : Buffer)
    → IsValid b
    → (c : ℕ) × (b' : Buffer) × (read_byte b ≡ some (c, b'))
      × IsValid b'
      × ((c, contents b') ≡ front (contents b))
      × (b'.limit ≡ b.limit)
unfolding read_byte can_read
read_byte_lem b v = elim (Bool-cases (ltb b.read b.write)) [
  | inl some_left ↦
      let (c, e, cs, q) = read_at b.storage b.read (b.write - b.read - 1) (ground arith) in
      let all : contents b ≡ c ∷ cs =
        ap (λ k. take k (drop b.read b.storage)) {y = suc (b.write - b.read - 1)} (ground arith)
        ∙ q in
      let (b', e', v', q', l) = read_adv_lem b 1 v (ground arith) in
      (c, b', rw (some_left, e, e'), v', rw (q', all), l)
  | inr empty ↦
      let nothing : contents b ≡ [] = (can_read_iff b v).0 (unfold can_read in empty) in
      (0, b, rw empty, v, rw nothing, refl)
]
