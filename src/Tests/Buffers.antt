-- ===== src/Tests/Buffers.antt =====
-- A buffer of four bytes, read up to the second of the three that were written.
use protos_tpe.Base.{◌≡◌, some, [], ◌∷◌, ◌++◌, arith, pos}
use protos_tpe.Buffer.{Buffer, write_adv, fill, contents}
use protos_tpe.Buffer.Fifo.{IsValid, write_adv-fill}

abbrev half_read : Buffer
half_read = record { storage = 1 ∷ 2 ∷ 3 ∷ 0 ∷ []; limit = 4; read = 1; write = 3 }

half_read-IsValid : IsValid half_read
half_read-IsValid = omega arith

write_adv-fill_example :
    (b' : Buffer) × (write_adv (fill half_read (9 ∷ [])) (pos 1) ≡ some b')
    × IsValid b'
    × (contents b' ≡ contents half_read ++ 9 ∷ [])
    × (b'.limit ≡ half_read.limit)
write_adv-fill_example = write_adv-fill half_read (9 ∷ []) half_read-IsValid (omega arith)
