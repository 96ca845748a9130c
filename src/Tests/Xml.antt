-- ===== src/Tests/Xml.antt =====
-- Instances of the theorems on XML texts, with a parser that knows two documents.
use project_secure_chat.Base.{◌≡◌, refl, ap, ap₂, some, List, [], ◌∷◌, ℕ, arith}
use project_secure_chat.Base.Result.{ok, err}
use project_secure_chat.Base64.Defs.{
  encode_base64, decode_base64, encode_loop, decode_loop, b64_digit, reverse_digit,
}
use project_secure_chat.Xml.Defs.{
  TinyXml, Nodes, message_doc, read_message, set_username_to_message,
}
use project_secure_chat.Xml.Messages.{Encodable, set_username_lem, claims}

ok-inj {ℓ} : {A : Type ℓ} {a b : A} → ok a ≡ ok b → a ≡ b
ok-inj {A} {a} h = ap (λ r. elim r [ ok x ↦ x | err e ↦ a ]) h

-- "b", "hi" and what EncodeBase64 makes of them; "eA==" decodes to "x".
abbrev pub bob : List ℕ
bob = b'b' ∷ []

abbrev pub hi : List ℕ
hi = b'h' ∷ b'i' ∷ []

abbrev pub bob64 : List ℕ
bob64 = b'Y' ∷ b'g' ∷ b'=' ∷ b'=' ∷ []

abbrev pub hi64 : List ℕ
hi64 = b'a' ∷ b'G' ∷ b'k' ∷ b'=' ∷ []

abbrev pub other64 : List ℕ
other64 = b'e' ∷ b'A' ∷ b'=' ∷ b'=' ∷ []

abbrev parse_of : Nodes → Nodes → List ℕ → Nodes
parse_of printed other [] = printed
parse_of printed other (c ∷ cs) = other

-- It prints nothing, and reads that as the one document, any other text as the other.
abbrev two_docs : Nodes → Nodes → TinyXml
two_docs printed other = record { parse = parse_of printed other; print = λ d. [] }

abbrev pub messages : TinyXml
messages = two_docs (message_doc (some bob64) hi64) (message_doc (some other64) hi64)

pub bob-Encodable : Encodable bob
bob-Encodable = record { bytes = omega arith; short = omega arith }

pub hi-Encodable : Encodable hi
hi-Encodable = record { bytes = omega arith; short = omega arith }

pub bob_is : (n : List ℕ) → encode_base64 bob ≡ ok n → bob64 ≡ n
unfolding encode_base64 encode_loop b64_digit
bob_is n h = ok-inj h

pub hi_is : (c : List ℕ) → encode_base64 hi ≡ ok c → hi64 ≡ c
unfolding encode_base64 encode_loop b64_digit
hi_is c h = ok-inj h

pub x_decoded : decode_base64 other64 ≡ ok (b'x' ∷ [])
unfolding decode_base64 decode_loop reverse_digit
x_decoded = refl

pub hi_decoded : decode_base64 hi64 ≡ ok hi
unfolding decode_base64 decode_loop reverse_digit
hi_decoded = refl

-- The message claims to be of "x".
set_username_lem_example :
    (str : List ℕ) × (set_username_to_message messages (7 ∷ []) bob ≡ ok str)
    × (read_message messages str ([], []) ≡ ok (bob, hi))
set_username_lem_example =
    set_username_lem messages (7 ∷ []) bob hi ([], [])
      (claims other64 hi64 (b'x' ∷ []) x_decoded hi_decoded refl) bob-Encodable hi-Encodable
      (omega arith) (omega arith) (omega arith)
      (λ n c en ec. ap₂ (λ n c. message_doc (some n) c) (bob_is n en) (hi_is c ec))
