-- ===== src/Buffer/Codecs.antt =====
-- src/shared/utility/bytebuffer.h: what is written to a buffer is read back, for vectors and lists of
-- anything that is.
use mathlib.Core.List.{append_assoc, append-nil}
use project_secure_chat.Base.{
  ℕ, ◌+◌, ◌%◌, ◌^◌, ◌<◌, ◌≡◌, refl, sym, ap, ◌∙◌, Bool, List, [], ◌∷◌, ◌++◌, length, length-append,
  arith,
}
use project_secure_chat.Base.Result.{ok}
use project_secure_chat.Buffer.Words.{Width, w32, modulus, encode, length-encode}
use project_secure_chat.Buffer.Defs.{
  ByteBuffer, size, empty, append_limit, append_value, append_text, read, read_text,
}
use project_secure_chat.Buffer.Append.{IsValid, IsValid-empty, Puts, value_Puts, text_Puts}
use project_secure_chat.Buffer.Read.{unread}
use project_secure_chat.Buffer.Text.{NonZero, Gives}
use project_secure_chat.Buffer.Fields.{value_Gives, text_Gives}
use project_secure_chat.Buffer.Containers.{
  Stream, write_vector, read_vector, write_items, read_items,
}

-- How values of a type lie in a buffer, where `Fits` says which can be written.
pub record Codec {ℓ} {A : Type ℓ} (s : Stream A) (image : A → List ℕ) (Fits : A → Type 0)
    : Type ℓ where
  pub puts :
      (a : A) (b : ByteBuffer)
      → Fits a
      → IsValid b
      → size b + length (image a) < append_limit
      → Puts (s.put a) b (image a)
  pub gives :
      (a : A) (rest : List ℕ) (b : ByteBuffer)
      → Fits a
      → IsValid b
      → unread b ≡ image a ++ rest
      → Gives s.get b a rest

abbrev pub values : Bool → Width → Stream ℕ
values be w = record { put = append_value be w; get = read be w }

abbrev pub texts : Bool → Stream (List ℕ)
texts be = record { put = append_text; get = read_text be }

pub values-Codec : (be : Bool) (w : Width) → Codec (values be w) (encode be w) (λ x. x < modulus w)
values-Codec be w = record {
  puts = λ x b h v few. value_Puts be w x b v (omega arith);
  gives = λ x rest b h v e. value_Gives be w x rest b h v e;
}

pub texts-Codec : (be : Bool) → Codec (texts be) (λ t. t ++ 0 ∷ []) NonZero
texts-Codec be = record {
  puts = λ t b h v few. text_Puts t b v (omega (arith, length-append t (0 ∷ [])));
  gives = λ t rest b h v e. text_Gives be t rest b h v (e ∙ append_assoc t (0 ∷ []) rest);
}

module _ {ℓ} {A : Type ℓ} (image : A → List ℕ) (Fits : A → Type 0) where
  abbrev pub AllFit : List A → Type 0
  AllFit [] = Unit {0}
  AllFit (a ∷ as') = Fits a × AllFit as'

  abbrev pub all_images : List A → List ℕ
  all_images [] = []
  all_images (a ∷ as') = image a ++ all_images as'

  -- A vector in a buffer: its size, then its elements.
  abbrev pub vector_image : Bool → List A → List ℕ
  vector_image be v = encode be w32 (length v) ++ all_images v

  abbrev pub VectorFits : List A → Type 0
  VectorFits v = (length v < 2 ^ 32) × AllFit v

module _ {ℓ} {A : Type ℓ} (be : Bool) (s : Stream A) (image : A → List ℕ) (Fits : A → Type 0)
    (k : Codec s image Fits) where
  pub items_Puts :
      (v : List A) (b : ByteBuffer)
      → AllFit image Fits v
      → IsValid b
      → size b + length (all_images image Fits v) < append_limit
      → Puts (write_items be s v) b (all_images image Fits v)
  unfolding write_items
  items_Puts [] b h valid few = record {
    after = b;
    puts = refl;
    valid = valid;
    contents = sym (append-nil b.storage);
    cursor = refl;
  }
  items_Puts (a ∷ v) b (h, hs) valid few =
      let tail = all_images image Fits v in
      let sum = length-append (image a) tail in
      let r = k.puts a b h valid (omega (arith, sum)) in
      let q =
        items_Puts v r.after hs r.valid
          (omega (arith, sum, ap length r.contents, length-append b.storage (image a))) in
      record {
        after = q.after;
        puts = rw r.puts q.puts;
        valid = q.valid;
        contents =
            q.contents ∙ (ap (λ t. t ++ tail) r.contents ∙ append_assoc b.storage (image a) tail);
        cursor = q.cursor ∙ r.cursor;
      }

  items_Gives :
      (v got : List A) (rest : List ℕ) (b : ByteBuffer)
      → AllFit image Fits v
      → IsValid b
      → unread b ≡ all_images image Fits v ++ rest
      → Gives (read_items be s (length v) got) b (got ++ v) rest
  unfolding read_items
  items_Gives [] got rest b h valid e = record {
    after = b;
    gives = rw (append-nil got) refl;
    valid = valid;
    left = e;
    contents = refl;
  }
  items_Gives (a ∷ v) got rest b (h, hs) valid e =
      let tail = all_images image Fits v in
      let r = k.gives a (tail ++ rest) b h valid (e ∙ append_assoc (image a) tail rest) in
      let q = items_Gives v (got ++ a ∷ []) rest r.after hs r.valid r.left in
      record {
        after = q.after;
        gives = rw r.gives (q.gives ∙ ap (λ t. ok (t, q.after)) (append_assoc got (a ∷ []) v));
        valid = q.valid;
        left = q.left;
        contents = q.contents ∙ r.contents;
      }

  abbrev pub vectors : Stream (List A)
  vectors = record { put = write_vector be s; get = read_vector be s }

  -- Vectors of what can be written and read back can be too, so that vectors of vectors can.
  pub vectors-Codec : Codec vectors (vector_image image Fits be) (VectorFits image Fits)
  unfolding write_vector read_vector
  vectors-Codec = record {
    puts = λ v b h valid few.
        let head = encode be w32 (length v) in
        let tail = all_images image Fits v in
        let sum = length-append head tail in
        let size_eq : length v % 2 ^ 32 ≡ length v = omega (arith, h.0) in
        let r =
          value_Puts be w32 (length v) b valid
            (omega (arith, sum, length-encode be w32 (length v))) in
        let q =
          items_Puts v r.after h.1 r.valid
            (omega (arith, sum, ap length r.contents, length-append b.storage head)) in
        record {
          after = q.after;
          puts = rw (size_eq, r.puts) q.puts;
          valid = q.valid;
          contents =
              q.contents ∙ (ap (λ t. t ++ tail) r.contents ∙ append_assoc b.storage head tail);
          cursor = q.cursor ∙ r.cursor;
        };
    gives = λ v rest b h valid e.
        let head = encode be w32 (length v) in
        let tail = all_images image Fits v in
        let r =
          value_Gives be w32 (length v) (tail ++ rest) b h.0 valid
            (e ∙ append_assoc head tail rest) in
        let q = items_Gives v [] rest r.after h.1 r.valid r.left in
        record {
          after = q.after;
          gives = rw r.gives q.gives;
          valid = q.valid;
          left = q.left;
          contents = q.contents ∙ r.contents;
        };
  }

  -- A vector, or a list, of elements that can be read back is read back as it was written to an empty
  -- buffer, and nothing is left, where each element fits, there are fewer than 2^32 of them and the
  -- whole is shorter than the limit of `append`.
  pub vector_roundtrip :
      (v : List A)
      → VectorFits image Fits v
      → length (vector_image image Fits be v) < append_limit
      → (b : ByteBuffer) × (b' : ByteBuffer) × (write_vector be s v empty ≡ ok b)
        × (b.storage ≡ vector_image image Fits be v)
        × (read_vector be s b ≡ ok (v, b'))
        × (unread b' ≡ [])
  vector_roundtrip v h few =
      let r = vectors-Codec.puts v empty h IsValid-empty (omega arith) in
      let at : unread r.after ≡ vector_image image Fits be v ++ [] =
        rw r.cursor (r.contents ∙ sym (append-nil (vector_image image Fits be v))) in
      let q = vectors-Codec.gives v [] r.after h r.valid at in
      (r.after, q.after, r.puts, r.contents, q.gives, q.left)
