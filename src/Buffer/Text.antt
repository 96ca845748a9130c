-- ===== src/Buffer/Text.antt =====
-- Reading of zero-terminated texts: `>>` for std::string.
use project_secure_chat.Base.{
  ℕ, zero, suc, ◌-◌, ◌≡◌, refl, ap, ◌∙◌, ◌≢◌, inl, inr, Bool, List, [], ◌∷◌, ◌++◌, arith, lt→ltb,
  ne→==, ◌==◌, length, length-append, take, drop, Bool-cases, if◌then◌else◌,
}
use mathlib.Core.List.{append_assoc, append-nil}
use project_secure_chat.Base.Result.{Result, ok, out_of_bounds, ◌>>◌, throw_if}
use project_secure_chat.Buffer.Words.{w8, decode, from_le, endian_convert}
use project_secure_chat.Buffer.Defs.{ByteBuffer, size, read, read_text, read_text_loop}
use project_secure_chat.Buffer.Append.{IsValid}
use project_secure_chat.Buffer.Read.{
  unread, advance, length-unread, unread-advance, advance-IsValid, read_lem,
}

-- The bytes before the first zero, and those behind it.
unfoldable pub before_zero : List ℕ → List ℕ
before_zero [] = []
before_zero (c ∷ bs) = if c == 0 then [] else c ∷ before_zero bs

unfoldable pub after_zero : List ℕ → List ℕ
after_zero [] = []
after_zero (c ∷ bs) = if c == 0 then bs else after_zero bs

-- A `const char*` into a buffer that holds no zero is read on behind its end.
unfoldable pub c_string : ByteBuffer → Result (List ℕ)
c_string b = do
  throw_if (length (before_zero b.storage) == size b) out_of_bounds
  ok (before_zero b.storage)

abbrev pub NonZero : List ℕ → Type 0
NonZero [] = Unit {0}
NonZero (c ∷ t) = (c ≢ 0) × NonZero t

pub before_zero-append : (t rest : List ℕ) → NonZero t → before_zero (t ++ 0 ∷ rest) ≡ t
unfolding before_zero
before_zero-append [] rest h = refl
before_zero-append (c ∷ t) rest h = rw (ne→== c 0 h.0, before_zero-append t rest h.1)

pub after_zero-append : (t rest : List ℕ) → NonZero t → after_zero (t ++ 0 ∷ rest) ≡ rest
unfolding after_zero
after_zero-append [] rest h = refl
after_zero-append (c ∷ t) rest h = rw (ne→== c 0 h.0) (after_zero-append t rest h.1)

pub read_byte :
    (be : Bool) (c : ℕ) (rest : List ℕ) (b : ByteBuffer)
    → IsValid b
    → unread b ≡ c ∷ rest
    → read be w8 b ≡ ok (c, advance 1 b)
unfolding decode from_le endian_convert
read_byte be c rest b v e =
    read_lem be w8 b v (omega (arith, ap length e))
    ∙ ap (λ xs. ok (decode be w8 (take 1 xs), advance 1 b)) e
    ∙ ap (λ x. ok (x, advance 1 b)) (omega arith)

-- What a reading method does at the bytes `xs`: it gives `a`, keeps the contents, and leaves `rest`.
pub record Gives {ℓ} {A : Type ℓ} (m : ByteBuffer → Result (A × ByteBuffer)) (b : ByteBuffer)
    (a : A) (rest : List ℕ) : Type ℓ where
  pub after : ByteBuffer
  pub gives : m b ≡ ok (a, after)
  pub valid : IsValid after
  pub left : unread after ≡ rest
  pub contents : after.storage ≡ b.storage

loop_Gives :
    (be : Bool) (fuel : ℕ) (xs t : List ℕ) (b : ByteBuffer)
    → IsValid b
    → unread b ≡ xs
    → length xs ≡ fuel
    → Gives (read_text_loop be fuel t) b (t ++ before_zero xs) (after_zero xs)
unfolding read_text_loop before_zero after_zero
loop_Gives be zero [] t b v e h = record {
  after = b;
  gives = rw append-nil refl;
  valid = v;
  left = e;
  contents = refl;
}
loop_Gives be zero (c ∷ xs) t b v e h = absurd (omega arith)
loop_Gives be (suc fuel) [] t b v e h = absurd (omega arith)
loop_Gives be (suc fuel) (c ∷ xs) t b v e h =
    let more = lt→ltb b.rpos (size b) (omega (arith, ap length e, length-unread b)) in
    let one = read_byte be c xs b v e in
    let v' = advance-IsValid 1 b v (omega (arith, ap length e)) in
    let e' : unread (advance 1 b) ≡ xs = unread-advance 1 b ∙ ap (drop 1) e in
    elim (Bool-cases (c == 0)) [
      | inl z ↦ record {
        after = advance 1 b;
        gives = rw (more, one, z, append-nil t);
        valid = v';
        left = rw z e';
        contents = refl;
      }
      | inr z ↦
          let r = loop_Gives be fuel xs (t ++ c ∷ []) (advance 1 b) v' e' (omega arith) in
          record {
            after = r.after;
            gives =
                rw (more, one, z)
                  (r.gives ∙ ap (λ u. ok (u, r.after)) (append_assoc t (c ∷ []) (before_zero xs)));
            valid = r.valid;
            left = rw z r.left;
            contents = r.contents;
          }
    ]

-- Reading a text never throws: it ends at the first zero or at the end of the buffer, and gives
-- the bytes before that.
pub read_text-Gives :
    (be : Bool) (b : ByteBuffer)
    → IsValid b
    → Gives (read_text be) b (before_zero (unread b)) (after_zero (unread b))
unfolding read_text
read_text-Gives be b v =
    let r = loop_Gives be (size b - b.rpos) (unread b) [] b v refl (length-unread b) in
    record {
      after = r.after;
      gives = r.gives;
      valid = r.valid;
      left = r.left;
      contents = r.contents;
    }

-- A text that lies in front of a zero is read by a pointer to it.
pub c_string_lem :
    (t rest : List ℕ) (b : ByteBuffer) → NonZero t → b.storage ≡ t ++ 0 ∷ rest → c_string b ≡ ok t
unfolding c_string
c_string_lem t rest b h e =
    let text : before_zero b.storage ≡ t = ap before_zero e ∙ before_zero-append t rest h in
    let longer =
      ne→== (length t) (size b) (omega (arith, ap length e, length-append t (0 ∷ rest))) in
    rw (text, longer)
