-- ===== src/Tests/Buffer.antt =====
-- Instances of the theorems on buffers.
use project_secure_chat.Base.{◌≡◌, refl, [], ◌∷◌, true, arith}
use project_secure_chat.Base.Result.{ok}
use project_secure_chat.Buffer.Words.{w16, encode}
use project_secure_chat.Buffer.Defs.{ByteBuffer}
use project_secure_chat.Buffer.Append.{IsValid}
use project_secure_chat.Buffer.Fields.{value, text, block, write_read, fields_roundtrip}

abbrev five : ByteBuffer
five = record { rpos = 1; wpos = 5; storage = 1 ∷ 2 ∷ 3 ∷ 0 ∷ 5 ∷ [] }

five-IsValid : IsValid five
five-IsValid = record { read_inside = omega arith; write_at_end = refl; fits = omega arith }

fields_roundtrip_example :
    write_read true (value w16 513 ∷ text (104 ∷ 105 ∷ []) ∷ block (0 ∷ 7 ∷ []) ∷ [])
    ≡ ok (value w16 513 ∷ text (104 ∷ 105 ∷ []) ∷ block (0 ∷ 7 ∷ []) ∷ [], [])
unfolding encode
fields_roundtrip_example =
    fields_roundtrip true (value w16 513 ∷ text (104 ∷ 105 ∷ []) ∷ block (0 ∷ 7 ∷ []) ∷ [])
      (omega arith) (omega arith)
