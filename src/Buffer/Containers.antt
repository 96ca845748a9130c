-- ===== src/Buffer/Containers.antt =====
-- src/shared/utility/bytebuffer.h: `<<` and `>>` for std::vector, std::list and std::map, over those of
-- their elements.
use project_secure_chat.Base.{
  ℕ, zero, suc, ◌%◌, ◌^◌, Bool, List, [], ◌∷◌, ◌++◌, length, if◌then◌else◌,
}
use project_secure_chat.Base.Result.{Result, ok, ◌>>=◌}
use project_secure_chat.Buffer.Words.{w32}
use project_secure_chat.Buffer.Defs.{ByteBuffer, append_value, read}

-- `<<` and `>>` of a type.
pub record Stream {ℓ} (A : Type ℓ) : Type ℓ where
  pub put : A → ByteBuffer → Result ByteBuffer
  pub get : ByteBuffer → Result (A × ByteBuffer)

module _ {ℓ} {A : Type ℓ} (be : Bool) (s : Stream A) where
  unfoldable pub write_items : List A → ByteBuffer → Result ByteBuffer
  write_items [] b = ok b
  write_items (a ∷ as') b = do b1 ← s.put a b; write_items as' b1

  -- A vector and a list are written alike.
  unfoldable pub write_vector : List A → ByteBuffer → Result ByteBuffer
  write_vector v b = do b1 ← append_value be w32 (length v % 2 ^ 32) b; write_items v b1

  -- `while (vsize--)`, with what is pushed back already.
  unfoldable pub read_items : ℕ → List A → ByteBuffer → Result (List A × ByteBuffer)
  read_items zero v b = ok (v, b)
  read_items (suc vsize) v b = do (t, b1) ← s.get b; read_items vsize (v ++ t ∷ []) b1

  unfoldable pub read_vector : ByteBuffer → Result (List A × ByteBuffer)
  read_vector b = do (vsize, b1) ← read be w32 b; read_items vsize [] b1

-- A map is the list of its pairs in the order of their keys; insert keeps what it has under a key.
module _ {ℓ κ} {K : Type ℓ} {V : Type κ} (less : K → K → Bool) where
  unfoldable pub insert_pair : K → V → List (K × V) → List (K × V)
  insert_pair k v [] = (k, v) ∷ []
  insert_pair k v ((j, x) ∷ m) =
      let rest = insert_pair k v m in
      if less k j then (k, v) ∷ (j, x) ∷ m else if less j k then (j, x) ∷ rest else (j, x) ∷ m

module _ {ℓ κ} {K : Type ℓ} {V : Type κ} (be : Bool) (ks : Stream K) (vs : Stream V)
    (less : K → K → Bool) where
  unfoldable pub write_pairs : List (K × V) → ByteBuffer → Result ByteBuffer
  write_pairs [] b = ok b
  write_pairs ((k, v) ∷ m) b = do b1 ← ks.put k b; b2 ← vs.put v b1; write_pairs m b2

  unfoldable pub write_map : List (K × V) → ByteBuffer → Result ByteBuffer
  write_map m b = do b1 ← append_value be w32 (length m % 2 ^ 32) b; write_pairs m b1

  unfoldable pub read_pairs : ℕ → List (K × V) → ByteBuffer → Result (List (K × V) × ByteBuffer)
  read_pairs zero m b = ok (m, b)
  read_pairs (suc msize) m b = do
    (k, b1) ← ks.get b
    (v, b2) ← vs.get b1
    read_pairs msize (insert_pair less k v m) b2

  unfoldable pub read_map : ByteBuffer → Result (List (K × V) × ByteBuffer)
  read_map b = do (msize, b1) ← read be w32 b; read_pairs msize [] b1
