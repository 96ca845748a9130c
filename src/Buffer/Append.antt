-- ===== src/Buffer/Append.antt =====
-- What the appending methods do to a well-formed buffer.
use project_secure_chat.Base.{
  ℕ, suc, ◌+◌, ◌-◌, ◌%◌, ◌^◌, ◌≤◌, ◌<◌, ◌≡◌, refl, ap, ◌∙◌, Bool, List, [], ◌∷◌, ◌++◌, arith,
  lt→ltb, le→ltb, length, take, replicate, length-append, length-take, ne→==, length-replicate,
  take_all, take-append_length, drop_all,
}
use mathlib.Core.List.{append-nil, append_assoc}
use project_secure_chat.Base.Result.{Result, ok}
use project_secure_chat.Buffer.Words.{Width, w8, w16, w32, w64, size_of, encode, length-encode}
use project_secure_chat.Buffer.Defs.{
  ByteBuffer, size, max_size, append_limit, resize_to, overwrite, append_from, append_bytes,
  append_value, append_text, empty,
}

-- The cursors lie in the buffer, writing goes on at its end, and its size is that of an object in
-- memory.
pub record IsValid (b : ByteBuffer) : Type 0 where
  pub read_inside : b.rpos ≤ size b
  pub write_at_end : b.wpos ≡ size b
  pub fits : size b < 2 ^ 62

pub IsValid-empty : IsValid empty
IsValid-empty = record { read_inside = omega arith; write_at_end = refl; fits = omega arith }

pub size_of-bounds : (w : Width) → (0 < size_of w) × (size_of w ≤ 8)
size_of-bounds w8 = omega arith
size_of-bounds w16 = omega arith
size_of-bounds w32 = omega arith
size_of-bounds w64 = omega arith

-- What a buffer becomes when bytes are written behind its contents.
abbrev pub extend : List ℕ → ByteBuffer → ByteBuffer
extend bs b = record b { wpos = size b + length bs; storage = b.storage ++ bs }

pub extend-IsValid :
    (bs : List ℕ) (b : ByteBuffer) → IsValid b → size b + length bs < 2 ^ 62 → IsValid (extend bs b)
extend-IsValid bs b v h = record {
  read_inside = omega (arith, length-append b.storage bs, v.read_inside);
  write_at_end = omega (arith, length-append b.storage bs);
  fits = omega (arith, length-append b.storage bs);
}

at_end :
    (b : ByteBuffer)
    → b.wpos ≡ size b
    → b ≡ record { rpos = b.rpos; wpos = length b.storage; storage = b.storage }
at_end b e = λ i. record { rpos = b.rpos; wpos = e i; storage = b.storage }

overwrite-resize_to :
    (n : ℕ) (src bs : List ℕ)
    → n ≡ length bs + length src
    → overwrite (length bs) src (resize_to n bs) ≡ bs ++ src
overwrite-resize_to n src bs h = rw (
  take_all n bs (omega arith),
  take-append_length (length bs) bs (replicate (n - length bs) 0) refl,
  drop_all (length bs + length src) (bs ++ replicate (n - length bs) 0) (
      omega (
        arith,
        length-append bs (replicate (n - length bs) 0),
        length-replicate {A = ℕ} (n - length bs) 0,
      )),
  append-nil src,
)

size-extend-extend :
    (bs cs : List ℕ) (b : ByteBuffer)
    → length (b.storage ++ bs) + length cs ≡ length b.storage + length (bs ++ cs)
size-extend-extend bs cs b = omega (arith, length-append b.storage bs, length-append bs cs)

length-resize_to : (n : ℕ) (bs : List ℕ) → length bs ≤ n → length (resize_to n bs) ≡ n
length-resize_to n bs h = rw (take_all n bs h) (
    omega (
      arith,
      length-append bs (replicate (n - length bs) 0),
      length-replicate {A = ℕ} (n - length bs) 0,
    ))

-- The same over the fields of a buffer whose cursor stands at its end.
append_from_end :
    (src bs : List ℕ) (rp cnt : ℕ)
    → length bs < append_limit
    → 0 < cnt
    → cnt ≤ length src
    → cnt < 2 ^ 61
    → append_from src cnt (record { rpos = rp; wpos = length bs; storage = bs })
      ≡ ok (record {
        rpos = rp;
        wpos = length bs + length (take cnt src);
        storage = bs ++ take cnt src;
      })
unfolding append_from
append_from_end src bs rp cnt h p q r =
    let taken : length (take cnt src) ≡ cnt = omega (arith, length-take cnt src) in
    let sum : (length bs + cnt) % 2 ^ 64 ≡ length bs + cnt = omega arith in
    let grown = length-resize_to (length bs + cnt) bs (omega arith) in
    rw (
      ne→== cnt 0 (omega arith),
      lt→ltb (length bs) append_limit h,
      sum,
      lt→ltb (length bs) (length bs + cnt) (omega arith),
      le→ltb max_size (length bs + cnt) (omega arith),
      le→ltb (length src) cnt q,
      grown,
      le→ltb (length bs + cnt) (length bs + cnt) (omega arith),
      overwrite-resize_to (length bs + cnt) (take cnt src) bs (omega (arith, taken)),
      taken,
    )

-- The first `cnt` bytes of the source go to the end of the buffer.
pub append_from_lem :
    (src : List ℕ) (cnt : ℕ) (b : ByteBuffer)
    → IsValid b
    → size b < append_limit
    → 0 < cnt
    → cnt ≤ length src
    → cnt < 2 ^ 61
    → append_from src cnt b ≡ ok (extend (take cnt src) b)
append_from_lem src cnt b v h p q r =
    ap (append_from src cnt) (at_end b v.write_at_end)
    ∙ append_from_end src b.storage b.rpos cnt h p q r

pub append_bytes_lem :
    (bs : List ℕ) (b : ByteBuffer)
    → IsValid b
    → size b < append_limit
    → 0 < length bs
    → length bs < 2 ^ 61
    → append_bytes bs b ≡ ok (extend bs b)
unfolding append_bytes
append_bytes_lem bs b v h p r =
    append_from_lem bs (length bs) b v h p (omega arith) r
    ∙ ap (λ t. ok (extend t b)) (take_all (length bs) bs (omega arith))

-- Every value is appended, as the bytes of its type.
pub append_value_lem :
    (be : Bool) (w : Width) (x : ℕ) (b : ByteBuffer)
    → IsValid b
    → size b < append_limit
    → append_value be w x b ≡ ok (extend (encode be w x) b)
unfolding append_value
append_value_lem be w x b v h =
    append_bytes_lem (encode be w x) b v h (omega (arith, length-encode be w x, size_of-bounds w))
      (omega (arith, length-encode be w x, size_of-bounds w))

-- A text is appended with a zero behind it, whether it is empty or not.
pub append_text_lem :
    (t : List ℕ) (b : ByteBuffer)
    → IsValid b
    → size b + length t < append_limit
    → append_text t b ≡ ok (extend (t ++ 0 ∷ []) b)
unfolding append_text
append_text_lem [] b v h = append_bytes_lem (0 ∷ []) b v (omega arith) (omega arith) (omega arith)
append_text_lem (c ∷ t) b v h =
    let u = c ∷ t in
    rw
      (
        lt→ltb 0 (suc (length t)) (omega arith),
        append_bytes_lem u b v (omega arith) (omega arith) (omega arith),
      )
      (append_bytes_lem (0 ∷ []) (extend u b) (extend-IsValid u b v (omega arith))
          (omega (arith, length-append b.storage u)) (omega arith) (omega arith)
        ∙ λ i. ok (record {
          rpos = b.rpos;
          wpos = size-extend-extend u (0 ∷ []) b i;
          storage = append_assoc b.storage u (0 ∷ []) i;
        }))

-- A method that writes `xs` behind the contents of a buffer.
pub record Puts (m : ByteBuffer → Result ByteBuffer) (b : ByteBuffer) (xs : List ℕ) : Type 0 where
  pub after : ByteBuffer
  pub puts : m b ≡ ok after
  pub valid : IsValid after
  pub contents : after.storage ≡ b.storage ++ xs
  pub cursor : after.rpos ≡ b.rpos

pub value_Puts :
    (be : Bool) (w : Width) (x : ℕ) (b : ByteBuffer)
    → IsValid b
    → size b < append_limit
    → Puts (append_value be w x) b (encode be w x)
value_Puts be w x b v h = record {
  after = extend (encode be w x) b;
  puts = append_value_lem be w x b v h;
  valid =
      extend-IsValid (encode be w x) b v (omega (arith, length-encode be w x, size_of-bounds w));
  contents = refl;
  cursor = refl;
}

pub text_Puts :
    (t : List ℕ) (b : ByteBuffer)
    → IsValid b
    → size b + length t < append_limit
    → Puts (append_text t) b (t ++ 0 ∷ [])
text_Puts t b v h = record {
  after = extend (t ++ 0 ∷ []) b;
  puts = append_text_lem t b v h;
  valid = extend-IsValid (t ++ 0 ∷ []) b v (omega (arith, length-append t (0 ∷ [])));
  contents = refl;
  cursor = refl;
}
