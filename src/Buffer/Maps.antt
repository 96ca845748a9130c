-- ===== src/Buffer/Maps.antt =====
-- src/shared/utility/bytebuffer.h: a std::map that is written to a buffer is read back.
use mathlib.Core.List.{append_assoc, append-nil}
use project_secure_chat.Base.{
  ℕ, ◌%◌, ◌^◌, ◌<◌, ◌≡◌, refl, sym, ap, ◌∙◌, Bool, true, false, List, [], ◌∷◌, ◌++◌, length,
  length-append, arith,
}
use project_secure_chat.Base.Result.{Result, ok, err, ◌>>=◌}
use project_secure_chat.Buffer.Words.{w32, encode}
use project_secure_chat.Buffer.Defs.{ByteBuffer, empty, append_limit, append_value}
use project_secure_chat.Buffer.Append.{IsValid, IsValid-empty, value_Puts}
use project_secure_chat.Buffer.Read.{unread}
use project_secure_chat.Buffer.Text.{Gives}
use project_secure_chat.Buffer.Fields.{value_Gives}
use project_secure_chat.Buffer.Containers.{
  Stream, insert_pair, write_items, write_pairs, read_pairs, write_map, read_map,
}
use project_secure_chat.Buffer.Codecs.{
  Codec, AllFit, all_images, vector_image, VectorFits, items_Puts,
}

-- The keys of a map, in an order that says of two keys at most one is less.
pub record IsOrder {ℓ} {K : Type ℓ} (less : K → K → Bool) : Type ℓ where
  pub asym : (a b : K) → less a b ≡ true → less b a ≡ false

module _ {ℓ κ} {K : Type ℓ} {V : Type κ} (less : K → K → Bool) (order : IsOrder less) where
  -- Every key is less than `k`.
  abbrev pub Below : K → List (K × V) → Type 0
  Below k [] = Unit {0}
  Below k ((j, x) ∷ m) = (less j k ≡ true) × Below k m

  -- Every key is greater than `k`.
  abbrev pub Above : K → List (K × V) → Type 0
  Above k [] = Unit {0}
  Above k ((j, x) ∷ m) = (less k j ≡ true) × Above k m

  -- A map: its keys ascend.
  abbrev pub Ascends : List (K × V) → Type 0
  Ascends [] = Unit {0}
  Ascends ((k, v) ∷ m) = Above k m × Ascends m

  insert_last :
      (k : K) (v : V) (m : List (K × V)) → Below k m → insert_pair less k v m ≡ m ++ (k, v) ∷ []
  unfolding insert_pair
  insert_last k v [] h = refl
  insert_last k v ((j, x) ∷ m) (h, hs) =
      rw (order.asym j k h, h) (ap (λ t. (j, x) ∷ t) (insert_last k v m hs))

  -- Every key of the one list is less than every key of the other.
  abbrev Apart : List (K × V) → List (K × V) → Type 0
  Apart got [] = Unit {0}
  Apart got ((k, v) ∷ m) = Below k got × Apart got m

  Below-append :
      (i k : K) (v : V) (got : List (K × V))
      → Below i got
      → less k i ≡ true
      → Below i (got ++ (k, v) ∷ [])
  Below-append i k v [] h e = (e, tt)
  Below-append i k v ((j, x) ∷ got) (h, hs) e = (h, Below-append i k v got hs e)

  Apart-append :
      (k : K) (v : V) (got m : List (K × V))
      → Apart got m
      → Above k m
      → Apart (got ++ (k, v) ∷ []) m
  Apart-append k v got [] h e = tt
  Apart-append k v got ((j, x) ∷ m) (h, hs) (e, es) =
      (Below-append j k v got h e, Apart-append k v got m hs es)

  Apart-none : (m : List (K × V)) → Apart [] m
  Apart-none [] = tt
  Apart-none ((k, v) ∷ m) = (tt, Apart-none m)

  abbrev pub pairs : Stream K → Stream V → Stream (K × V)
  pairs ks vs = record {
    put = λ (k, v) b. ks.put k b >>= λ b1. vs.put v b1;
    get = λ b. ks.get b >>= λ (k, b1). vs.get b1 >>= λ (v, b2). ok ((k, v), b2);
  }

>>=-assoc {ℓ κ μ} :
    {A : Type ℓ} {B : Type κ} {C : Type μ} (r : Result A) (f : A → Result B) (g : B → Result C)
    → ((r >>= f) >>= g) ≡ (r >>= λ a. f a >>= g)
>>=-assoc (ok a) f g = refl
>>=-assoc (err e) f g = refl

module _ {ℓ κ} {K : Type ℓ} {V : Type κ} (ki : K → List ℕ) (vi : V → List ℕ) (Fk : K → Type 0)
    (Fv : V → Type 0) where
  abbrev pub pair_image : K × V → List ℕ
  pair_image (k, v) = ki k ++ vi v

  abbrev pub PairFits : K × V → Type 0
  PairFits (k, v) = Fk k × Fv v

  module _ (be : Bool) (less : K → K → Bool) (order : IsOrder less) (ks : Stream K) (vs : Stream V)
      (ck : Codec ks ki Fk) (cv : Codec vs vi Fv) where
    pairs-Codec : Codec (pairs less order ks vs) pair_image PairFits
    pairs-Codec = record {
      puts = λ (k, v) b (hk, hv) valid few.
          let sum = length-append (ki k) (vi v) in
          let r = ck.puts k b hk valid (omega (arith, sum)) in
          let q =
            cv.puts v r.after hv r.valid
              (omega (arith, sum, ap length r.contents, length-append b.storage (ki k))) in
          record {
            after = q.after;
            puts = rw r.puts q.puts;
            valid = q.valid;
            contents =
                q.contents
                ∙ (ap (λ t. t ++ vi v) r.contents ∙ append_assoc b.storage (ki k) (vi v));
            cursor = q.cursor ∙ r.cursor;
          };
      gives = λ (k, v) rest b (hk, hv) valid e.
          let r = ck.gives k (vi v ++ rest) b hk valid (e ∙ append_assoc (ki k) (vi v) rest) in
          let q = cv.gives v rest r.after hv r.valid r.left in
          record {
            after = q.after;
            gives = rw (r.gives, q.gives);
            valid = q.valid;
            left = q.left;
            contents = q.contents ∙ r.contents;
          };
    }

    write_pairs_lem :
        (m : List (K × V)) (b : ByteBuffer)
        → write_pairs be ks vs less m b ≡ write_items be (pairs less order ks vs) m b
    unfolding write_pairs write_items
    write_pairs_lem [] b = refl
    write_pairs_lem ((k, v) ∷ m) b =
        (λ i. ks.put k b >>= λ b1. vs.put v b1 >>= λ b2. write_pairs_lem m b2 i)
        ∙ sym (
            >>=-assoc (ks.put k b) (λ b1. vs.put v b1)
              (λ b2. write_items be (pairs less order ks vs) m b2))

    pairs_Gives :
        (m got : List (K × V)) (rest : List ℕ) (b : ByteBuffer)
        → AllFit pair_image PairFits m
        → Apart less order got m
        → Ascends less order m
        → IsValid b
        → unread b ≡ all_images pair_image PairFits m ++ rest
        → Gives (read_pairs be ks vs less (length m) got) b (got ++ m) rest
    unfolding read_pairs
    pairs_Gives [] got rest b h apart up valid e = record {
      after = b;
      gives = rw (append-nil got) refl;
      valid = valid;
      left = e;
      contents = refl;
    }
    pairs_Gives ((k, v) ∷ m) got rest b ((hk, hv), hs) (below, apart) (above, up) valid e =
        let tail = all_images pair_image PairFits m in
        let whole : unread b ≡ ki k ++ (vi v ++ (tail ++ rest)) =
          e ∙ append_assoc (ki k ++ vi v) tail rest ∙ append_assoc (ki k) (vi v) (tail ++ rest) in
        let r = ck.gives k (vi v ++ (tail ++ rest)) b hk valid whole in
        let p = cv.gives v (tail ++ rest) r.after hv r.valid r.left in
        let q =
          pairs_Gives m (got ++ (k, v) ∷ []) rest p.after hs
            (Apart-append less order k v got m apart above) up p.valid p.left in
        record {
          after = q.after;
          gives =
              rw (r.gives, p.gives, insert_last less order k v got below)
                (q.gives ∙ ap (λ t. ok (t, q.after)) (append_assoc got ((k, v) ∷ []) m));
          valid = q.valid;
          left = q.left;
          contents = q.contents ∙ (p.contents ∙ r.contents);
        }

    -- A map of keys and values that can be read back is read back as it was written to an empty buffer,
    -- and nothing is left, where each pair fits, there are fewer than 2^32 of them and the whole is
    -- shorter than the limit of `append`.
    pub map_roundtrip :
        (m : List (K × V))
        → Ascends less order m
        → VectorFits pair_image PairFits m
        → length (vector_image pair_image PairFits be m) < append_limit
        → (b : ByteBuffer) × (b' : ByteBuffer) × (write_map be ks vs less m empty ≡ ok b)
          × (b.storage ≡ vector_image pair_image PairFits be m)
          × (read_map be ks vs less b ≡ ok (m, b'))
          × (unread b' ≡ [])
    unfolding write_map read_map
    map_roundtrip m up h few =
        let head = encode be w32 (length m) in
        let tail = all_images pair_image PairFits m in
        let sum = length-append head tail in
        let size_eq : length m % 2 ^ 32 ≡ length m = omega (arith, h.0) in
        let r = value_Puts be w32 (length m) empty IsValid-empty (omega arith) in
        let first : append_value be w32 (length m % 2 ^ 32) empty ≡ ok r.after =
          ap (λ n. append_value be w32 n empty) size_eq ∙ r.puts in
        let q =
          items_Puts be (pairs less order ks vs) pair_image PairFits pairs-Codec m r.after h.1
            r.valid (omega (arith, sum, ap length r.contents)) in
        let all : q.after.storage ≡ head ++ tail = q.contents ∙ ap (λ t. t ++ tail) r.contents in
        let at : unread q.after ≡ head ++ (tail ++ []) =
          rw (q.cursor ∙ r.cursor) (all ∙ ap (λ t. head ++ t) (sym (append-nil tail))) in
        let g = value_Gives be w32 (length m) (tail ++ []) q.after h.0 q.valid at in
        let p = pairs_Gives m [] [] g.after h.1 (Apart-none less order m) up g.valid g.left in
        (
          q.after,
          p.after,
          ap (λ t. t >>= λ b1. write_pairs be ks vs less m b1) first
              ∙ (write_pairs_lem m r.after ∙ q.puts),
          all,
          rw g.gives p.gives,
          p.left,
        )
