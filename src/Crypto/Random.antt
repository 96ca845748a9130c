-- ===== src/Crypto/Random.antt =====
-- src/shared/crypto/crypto.cpp: GenerateRandomKey and GenerateRandomData. The argument `draw` counts
-- the calls of the generator.
use project_secure_chat.Base.{ℕ, Bool, true, false, not, ◌||◌, ◌==◌, if◌then◌else◌}
use project_secure_chat.Base.Result.{Result, ok, ◌>>=◌}
use project_secure_chat.Buffer.Defs.{ByteBuffer, clear, append_bytes}
use project_secure_chat.Crypto.OpenSsl.{OpenSsl}

-- GenerateRandomKey(key, size): false stands for -1, and leaves the key as it is.
unfoldable pub generate_random_key : OpenSsl → ℕ → ℕ → ByteBuffer → Result (Bool × ByteBuffer)
unfolding clear
generate_random_key o draw n key =
    if not (n == 16 || n == 32)
    then ok (false, key)
    else (do key' ← append_bytes (o.random_bytes draw n) (clear key); ok (true, key'))

-- GenerateRandomData(key, size)
unfoldable pub generate_random_data : OpenSsl → ℕ → ℕ → ByteBuffer → Result ByteBuffer
unfolding clear
generate_random_data o draw n key = append_bytes (o.random_bytes draw n) (clear key)
