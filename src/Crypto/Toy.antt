-- ===== src/Crypto/Toy.antt =====
-- A cipher and a signature that show that the assumptions on OpenSSL can be met. It hides nothing:
-- the text goes behind a block that tells where it begins.
use project_secure_chat.Base.{
  ℕ, ◌+◌, ◌-◌, ◌%◌, ◌≡◌, refl, ap, ◌∙◌, true, some, List, [], ◌∷◌, ◌++◌, length, length-append,
  length-replicate, replicate, drop, drop-append_length, arith,
}
use mathlib.Core.List.{append-nil}
use project_secure_chat.Crypto.OpenSsl.{OpenSsl, IsCipher, IsRsa, one}
use mathlib.Core.Option.{some-injective}

-- From 1 to 16 bytes that fill the last block.
abbrev filler : List ℕ → ℕ
filler text = 16 - length text % 16

abbrev hide : List ℕ → List ℕ
hide text = (filler text ∷ replicate (filler text - 1) 0) ++ text

abbrev show : List ℕ → List ℕ
show [] = []
show (n ∷ rest) = drop (n - 1) rest

abbrev pub toy : OpenSsl
toy = record {
  random_bytes = λ draw n. replicate n (draw % 256);
  encrypt_update = λ key iv text. (one, hide text);
  encrypt_final = λ key iv text. (one, []);
  decrypt_update = λ key iv c. (one, show c);
  decrypt_final = λ key iv c. (one, []);
  sha256 = λ text. text;
  open_file = λ name. some name;
  read_public_key = λ pem. some 1;
  read_private_key = λ pem password. some 1;
  public_encrypt = λ key text. some text;
  private_decrypt = λ key text. some text;
  sign = λ key digest. some (1 ∷ []);
  verify = λ key digest sign. true;
}

length-hide : (text : List ℕ) → length (hide text ++ []) ≡ 16 - length text % 16 + length text
length-hide text = rw append-nil (
    omega (
      arith,
      length-append (filler text ∷ replicate (filler text - 1) 0) text,
      length-replicate {A = ℕ} (filler text - 1) 0,
    ))

show-hide : (text : List ℕ) → show (hide text ++ []) ++ [] ≡ text
show-hide text =
    append-nil (show (hide text ++ []))
    ∙ ap show (append-nil (hide text))
    ∙ drop-append_length (filler text - 1) (replicate (filler text - 1) 0) text
        (omega (arith, length-replicate {A = ℕ} (filler text - 1) 0))

pub toy-IsCipher : IsCipher toy
toy-IsCipher = record {
  random_length = λ draw n. length-replicate n (draw % 256);
  update_ok = λ key iv text. refl;
  final_ok = λ key iv text. refl;
  whole_blocks = λ key iv text. omega (arith, length-hide text);
  grows = λ key iv text. omega (arith, length-hide text);
  decrypt_ok = λ key iv text. (refl, refl, show-hide text);
}

pub toy-IsRsa : IsRsa toy
toy-IsRsa = record {
  signs = λ key digest. (1 ∷ [], refl, omega arith, omega arith);
  wraps = λ key text c len e.
      let same = ap length (some-injective text c e) in (omega arith, omega arith);
}
