-- ===== src/Login/Parts.antt =====
-- What the handlers of the login call, on the blocks of 32 bytes that they exchange.
use project_secure_chat.Base.{
  ℕ, suc, ◌+◌, ◌^◌, ◌<◌, ◌≡◌, refl, ap, true, List, [], ◌∷◌, ==_iff, lt→ltb, le→ltb, length,
  take_all, arith,
}
use project_secure_chat.Base.Result.{ok}
use project_secure_chat.Buffer.Defs.{
  ByteBuffer, size, empty, clear, append_limit, append_buffer, append_bytes, bytes_eq, compare,
}
use project_secure_chat.Buffer.Append.{
  IsValid, IsValid-empty, extend, extend-IsValid, append_bytes_lem, append_from_lem,
}
use project_secure_chat.Crypto.OpenSsl.{OpenSsl}
use project_secure_chat.Crypto.Random.{generate_random_key, generate_random_data}
use project_secure_chat.Crypto.Keys.{Bytes}
use project_secure_chat.Peer.State.{Peer, set_other_nonce, check_nonce, generate_nonce}

-- The documented behaviour of the random generator.
pub record IsRandom (o : OpenSsl) : Type 0 where
  pub count : (draw n : ℕ) → length (o.random_bytes draw n) ≡ n
  pub bytes_fit : (draw n : ℕ) → Bytes (o.random_bytes draw n)

-- A buffer that holds these bytes and nothing else.
abbrev pub filled : List ℕ → ByteBuffer
filled bs = extend bs empty

pub bytes_eq_self : (bs : List ℕ) → bytes_eq bs bs ≡ true
unfolding bytes_eq
bytes_eq_self [] = refl
bytes_eq_self (x ∷ xs) = rw ((==_iff x x).1 refl, bytes_eq_self xs)

pub filled-IsValid : (bs : List ℕ) → length bs < 2 ^ 61 → IsValid (filled bs)
filled-IsValid bs h = extend-IsValid bs empty IsValid-empty (omega arith)

pub append_filled :
    (bs : List ℕ) (b : ByteBuffer)
    → IsValid b
    → size b < append_limit
    → 0 < length bs
    → length bs < 2 ^ 61
    → append_buffer (filled bs) b ≡ ok (extend bs b)
unfolding append_buffer
append_filled bs b v h k l =
    let n = 0 + length bs in
    rw
      (
        lt→ltb 0 n (omega arith),
        append_from_lem bs n b v h (omega arith) (omega arith) (omega arith),
      )
      (ap (λ cs. ok (extend cs b)) (take_all n bs (omega arith)))

pub fill_bytes :
    (bs : List ℕ) → 0 < length bs → length bs < 2 ^ 61 → append_bytes bs empty ≡ ok (filled bs)
fill_bytes bs k l = append_bytes_lem bs empty IsValid-empty (omega arith) k l

module _ (o : OpenSsl) (law : IsRandom o) where
  pub random_key_lem :
      (draw : ℕ) (b : ByteBuffer)
      → generate_random_key o draw 32 b ≡ ok (true, filled (o.random_bytes draw 32))
  unfolding generate_random_key
  random_key_lem draw b = rw (
      fill_bytes (o.random_bytes draw 32) (omega (arith, law.count draw 32))
        (omega (arith, law.count draw 32)))

  pub nonce_lem :
      (s : Peer)
      → generate_nonce o s
        ≡ ok (record s { my_nonce = filled (o.random_bytes s.draws 32); draws = suc s.draws })
  unfolding generate_nonce generate_random_data
  nonce_lem s = rw (
      fill_bytes (o.random_bytes s.draws 32) (omega (arith, law.count s.draws 32))
        (omega (arith, law.count s.draws 32)))

pub other_nonce_lem :
    (bs : List ℕ) (s : Peer)
    → length bs ≡ 32
    → set_other_nonce bs s ≡ ok (record s { other_nonce = filled bs })
unfolding set_other_nonce clear
other_nonce_lem bs s h =
    rw
      (append_from_lem bs 32 empty IsValid-empty (omega arith) (omega arith) (omega arith)
        (omega arith))
      (ap (λ cs. ok (record s { other_nonce = filled cs })) (take_all 32 bs (omega arith)))

-- A nonce that comes back is recognised.
pub check_nonce_lem :
    (bs : List ℕ) (s : Peer) → s.my_nonce.storage ≡ bs → check_nonce bs s ≡ ok true
unfolding check_nonce compare
check_nonce_lem bs s h = rw (
  h,
  le→ltb (length bs) (length bs) (omega arith),
  take_all (length bs) bs (omega arith),
  bytes_eq_self bs,
)
