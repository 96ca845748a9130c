-- ===== src/Client/Formats.antt =====
-- src/client/session/session.cpp: HandleServerMessage, which hands the text of the server on as a format,
-- and what is assumed of vasprintf.
use project_secure_chat.Base.{
  ℕ, ◌≡◌, ◌≢◌, refl, Bool, true, false, ◌||◌, ◌==◌, List, [], ◌∷◌, ◌++◌, codes,
}
use project_secure_chat.Base.Result.{ok, err, out_of_bounds}
use project_secure_chat.Buffer.Defs.{ByteBuffer}
use project_secure_chat.Buffer.Text.{NonZero, c_string_lem}
use project_secure_chat.Xml.Defs.{TinyXml}
use project_secure_chat.Client.Screen.{Client, Printf, send_to_gui, send_format_to_gui}
use project_secure_chat.Client.Session.{handle_server_message}

abbrev pub NoPercent : List ℕ → Type 0
NoPercent [] = Unit {0}
NoPercent (c ∷ cs) = (c ≢ b'%') × NoPercent cs

abbrev pub is_in : ℕ → List ℕ → Bool
is_in d [] = false
is_in d (c ∷ cs) = d == c || is_in d cs

-- The conversion specifiers of the C standard that take an argument.
abbrev pub takes_argument : ℕ → Bool
takes_argument d = is_in d (codes "diouxXeEfFgGaAcspn")

-- A format without `%` is the result; where a conversion takes an argument and none is given, the behaviour
-- is undefined.
pub record IsPrintf (vasprintf : Printf) : Type 0 where
  pub plain : (t : List ℕ) → NoPercent t → vasprintf t ≡ ok t
  pub lacking :
      (pre post : List ℕ) (d : ℕ)
      → NoPercent pre
      → takes_argument d ≡ true
      → vasprintf (pre ++ b'%' ∷ d ∷ post) ≡ err out_of_bounds

-- HandleServerMessage, on a packet with a text of the server: a text without `%` is shown as it is, but
-- for one whose first `%` stands before a conversion that takes an argument the behaviour is undefined.
pub server_message_lem :
    (vasprintf : Printf)
    → IsPrintf vasprintf
    → (x : TinyXml) (be : Bool) (now t rest : List ℕ) (packet : ByteBuffer) (c : Client) → NonZero t
    → packet.storage ≡ t ++ 0 ∷ rest
    → (NoPercent t
        → handle_server_message x be now vasprintf packet c ≡ ok (send_to_gui now [] b'e' t c))
      × ((pre post : List ℕ) (d : ℕ)
          → t ≡ pre ++ b'%' ∷ d ∷ post
          → NoPercent pre
          → takes_argument d ≡ true
          → handle_server_message x be now vasprintf packet c ≡ err out_of_bounds)
unfolding handle_server_message send_format_to_gui
server_message_lem v law x be now t rest packet c h e = (
  λ plain. rw (c_string_lem t rest packet h e, law.plain t plain) refl,
  λ pre post d same plain k.
      rw (c_string_lem t rest packet h e, same, law.lacking pre post d plain k) refl,
)
