-- ===== src/Buffer/Fields.antt =====
-- A message as the program builds and takes apart one: integers, texts and blocks of bytes.
use project_secure_chat.Base.{
  ℕ, ◌+◌, ◌≤◌, ◌<◌, ◌≡◌, refl, sym, ap, ◌∙◌, Bool, List, [], ◌∷◌, ◌++◌, arith, length, take, drop,
  length-append, take-append_length, drop-append_length,
}
use mathlib.Core.List.{append_assoc, append-nil}
use project_secure_chat.Base.Result.{Result, ok, ◌>>=◌}
use project_secure_chat.Buffer.Words.{
  Width, size_of, modulus, encode, decode, length-encode, decode-encode,
}
use project_secure_chat.Buffer.Defs.{
  ByteBuffer, size, empty, append_limit, append_value, append_text, append_bytes, read, read_text,
  read_bytes,
}
use project_secure_chat.Buffer.Append.{
  IsValid, IsValid-empty, extend, extend-IsValid, append_value_lem, append_text_lem,
  append_bytes_lem,
}
use project_secure_chat.Buffer.Read.{
  unread, advance, unread-advance, advance-IsValid, read_lem, read_bytes_lem,
}
use project_secure_chat.Buffer.Text.{
  NonZero, Gives, read_text-Gives, before_zero-append, after_zero-append,
}

pub data Field : Type 0 where
  value : Width → ℕ → Field
  text : List ℕ → Field
  block : List ℕ → Field

-- A value fits its type, a text holds no zero, and a block is not empty.
abbrev pub FitsField : Field → Type 0
FitsField (value w x) = x < modulus w
FitsField (text t) = NonZero t
FitsField (block bs) = 0 < length bs

abbrev pub FitFields : List Field → Type 0
FitFields [] = Unit {0}
FitFields (f ∷ fs) = FitsField f × FitFields fs

abbrev pub image : Bool → Field → List ℕ
image be (value w x) = encode be w x
image be (text t) = t ++ 0 ∷ []
image be (block bs) = bs

abbrev pub images : Bool → List Field → List ℕ
images be [] = []
images be (f ∷ fs) = image be f ++ images be fs

abbrev pub write_field : Bool → Field → ByteBuffer → Result ByteBuffer
write_field be (value w x) = append_value be w x
write_field be (text t) = append_text t
write_field be (block bs) = append_bytes bs

-- Reads a field of the same kind, and a block of the same length.
abbrev pub read_field : Bool → Field → ByteBuffer → Result (Field × ByteBuffer)
read_field be (value w _) b = do (x, b') ← read be w b; ok (value w x, b')
read_field be (text _) b = do (t, b') ← read_text be b; ok (text t, b')
read_field be (block bs) b = do (cs, b') ← read_bytes (length bs) b; ok (block cs, b')

abbrev pub write_fields : Bool → List Field → ByteBuffer → Result ByteBuffer
write_fields be [] b = ok b
write_fields be (f ∷ fs) b = do b' ← write_field be f b; write_fields be fs b'

abbrev pub read_fields : Bool → List Field → ByteBuffer → Result (List Field × ByteBuffer)
read_fields be [] b = ok ([], b)
read_fields be (f ∷ fs) b = do
  (g, b') ← read_field be f b
  (gs, b'') ← read_fields be fs b'
  ok (g ∷ gs, b'')

write_field_lem :
    (be : Bool) (f : Field) (b : ByteBuffer)
    → FitsField f
    → IsValid b
    → size b + length (image be f) < append_limit
    → write_field be f b ≡ ok (extend (image be f) b)
write_field_lem be (value w x) b k v h = append_value_lem be w x b v (omega arith)
write_field_lem be (text t) b k v h =
    append_text_lem t b v (omega (arith, length-append t (0 ∷ [])))
write_field_lem be (block bs) b k v h = append_bytes_lem bs b v (omega arith) k (omega arith)

pub write_fields_lem :
    (be : Bool) (fs : List Field) (b : ByteBuffer)
    → FitFields fs
    → IsValid b
    → size b + length (images be fs) < append_limit
    → (b' : ByteBuffer) × (write_fields be fs b ≡ ok b')
      × IsValid b'
      × (b'.storage ≡ b.storage ++ images be fs)
      × (b'.rpos ≡ b.rpos)
write_fields_lem be [] b k v h = (b, refl, v, sym (append-nil b.storage), refl)
write_fields_lem be (f ∷ fs) b k v h =
    let all = length-append (image be f) (images be fs) in
    let e = write_field_lem be f b k.0 v (omega (arith, all)) in
    let v' = extend-IsValid (image be f) b v (omega (arith, all)) in
    let (b', e', w, s, r) =
      write_fields_lem be fs (extend (image be f) b) k.1 v'
        (omega (arith, all, length-append b.storage (image be f))) in
    (b', rw e e', w, s ∙ append_assoc b.storage (image be f) (images be fs), r)

pub block_Gives :
    (n : ℕ) (bs rest : List ℕ) (b : ByteBuffer)
    → IsValid b
    → unread b ≡ bs ++ rest
    → n ≡ length bs
    → Gives (read_bytes n) b bs rest
block_Gives n bs rest b v e h =
    let enough : n ≤ length (unread b) = omega (arith, ap length e, length-append bs rest) in
    record {
      after = advance n b;
      gives =
          read_bytes_lem n b v enough
          ∙ ap (λ xs. ok (xs, advance n b)) (ap (take n) e ∙ take-append_length n bs rest h);
      valid = advance-IsValid n b v enough;
      left = unread-advance n b ∙ ap (drop n) e ∙ drop-append_length n bs rest h;
      contents = refl;
    }

-- A value read where its bytes stand.
pub value_Gives :
    (be : Bool) (w : Width) (x : ℕ) (rest : List ℕ) (b : ByteBuffer)
    → x < modulus w
    → IsValid b
    → unread b ≡ encode be w x ++ rest
    → Gives (read be w) b x rest
value_Gives be w x rest b h v e =
    let enough : size_of w ≤ length (unread b) =
      omega (arith, ap length e, length-append (encode be w x) rest, length-encode be w x) in
    record {
      after = advance (size_of w) b;
      gives =
          read_lem be w b v enough
          ∙ ap (λ y. ok (y, advance (size_of w) b))
              (ap (λ xs. decode be w (take (size_of w) xs)) e
                ∙ ap (decode be w) (
                    take-append_length (size_of w) (encode be w x) rest
                      (sym (length-encode be w x)))
                ∙ decode-encode be w x h);
      valid = advance-IsValid (size_of w) b v enough;
      left =
          unread-advance (size_of w) b
          ∙ ap (drop (size_of w)) e
          ∙ drop-append_length (size_of w) (encode be w x) rest (sym (length-encode be w x));
      contents = refl;
    }

-- A text read where it stands.
pub text_Gives :
    (be : Bool) (t rest : List ℕ) (b : ByteBuffer)
    → NonZero t
    → IsValid b
    → unread b ≡ t ++ 0 ∷ rest
    → Gives (read_text be) b t rest
text_Gives be t rest b k v e =
    let r = read_text-Gives be b v in
    record {
      after = r.after;
      gives = r.gives ∙ ap (λ u. ok (u, r.after)) (rw e (before_zero-append t rest k));
      valid = r.valid;
      left = r.left ∙ rw e (after_zero-append t rest k);
      contents = r.contents;
    }

field_Gives :
    (be : Bool) (f : Field) (rest : List ℕ) (b : ByteBuffer)
    → FitsField f
    → IsValid b
    → unread b ≡ image be f ++ rest
    → Gives (read_field be f) b f rest
field_Gives be (value w x) rest b k v e =
    let r = value_Gives be w x rest b k v e in
    record {
      after = r.after;
      gives = rw r.gives;
      valid = r.valid;
      left = r.left;
      contents = r.contents;
    }
field_Gives be (text t) rest b k v e =
    let r = text_Gives be t rest b k v (e ∙ append_assoc t (0 ∷ []) rest) in
    record {
      after = r.after;
      gives = rw r.gives;
      valid = r.valid;
      left = r.left;
      contents = r.contents;
    }
field_Gives be (block bs) rest b k v e =
    let r = block_Gives (length bs) bs rest b v e refl in
    record {
      after = r.after;
      gives = rw r.gives;
      valid = r.valid;
      left = r.left;
      contents = r.contents;
    }

pub fields_Gives :
    (be : Bool) (fs : List Field) (rest : List ℕ) (b : ByteBuffer)
    → FitFields fs
    → IsValid b
    → unread b ≡ images be fs ++ rest
    → Gives (read_fields be fs) b fs rest
fields_Gives be [] rest b k v e = record {
  after = b;
  gives = refl;
  valid = v;
  left = e;
  contents = refl;
}
fields_Gives be (f ∷ fs) rest b k v e =
    let r =
      field_Gives be f (images be fs ++ rest) b k.0 v
        (e ∙ append_assoc (image be f) (images be fs) rest) in
    let q = fields_Gives be fs rest r.after k.1 r.valid r.left in
    record {
      after = q.after;
      gives = rw (r.gives, q.gives);
      valid = q.valid;
      left = q.left;
      contents = q.contents ∙ r.contents;
    }

-- Writing to an empty buffer and reading it: the fields read, and the bytes left over.
abbrev pub write_read : Bool → List Field → Result (List Field × List ℕ)
write_read be fs = do
  b ← write_fields be fs empty
  (gs, b') ← read_fields be fs b
  ok (gs, unread b')

-- Whatever integers, texts and blocks are written to an empty buffer, in any order, reading fields
-- of the same kinds gives them back and leaves nothing, where each value fits its type, no text
-- holds a zero, no block is empty and the whole is shorter than the limit of `append`.
pub fields_roundtrip :
    (be : Bool) (fs : List Field)
    → FitFields fs
    → length (images be fs) < append_limit
    → write_read be fs ≡ ok (fs, [])
fields_roundtrip be fs k h =
    let (b, e, v, s, r) = write_fields_lem be fs empty k IsValid-empty (omega arith) in
    let q = fields_Gives be fs [] b k v (rw (r, s) (sym (append-nil (images be fs)))) in
    rw (e, q.gives, q.left)
