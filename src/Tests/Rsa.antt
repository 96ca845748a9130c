-- ===== src/Tests/Rsa.antt =====
-- The toy library has a pair of keys, as the theorems on RSA assume of theirs.
use project_secure_chat.Base.{refl, sym}
use project_secure_chat.Crypto.Toy.{toy}
use project_secure_chat.Crypto.Rsa.{IsPair}

toy-IsPair : IsPair toy 1 1
toy-IsPair = record { decrypts = λ text c h. sym h; verifies = λ digest s h. refl }
