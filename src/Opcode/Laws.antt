-- ===== src/Opcode/Laws.antt =====
-- What the tables of handlers guarantee.
use text.Mathlib.Text.{◌==◌ as str_eq}
use text.Mathlib.TextEquality.{eq_iff}
use mathlib.Core.Bool.{xor}
use project_secure_chat.Base.{
  ◌≢◌, ◌∙◌, ℕ, zero, suc, ◌<◌, ◌≤◌, ◌≡◌, refl, ◌⊎◌, ◌↔◌, Bool, true, false, ◌&&◌, ◌||◌, none, some,
  get_elem?, arith, List, [], ◌∷◌, length,
}
use project_secure_chat.Base.Result.{ok, err, out_of_bounds}
use project_secure_chat.Opcode.Defs.{
  OpcodeHandler, ServerHandler, ClientHandler, SessionReqStatus, PacketProcessing, num_msg_types,
  opcode_table, client_opcode_table,
}
use project_secure_chat.Opcode.Filter.{map_filter, single_filter}

unfoldable pub all_rows {ℓ} : {A : Type ℓ} → (A → Bool) → List A → Bool
all_rows p [] = true
all_rows p (a ∷ rest) = p a && all_rows p rest

pub all_rows_sound {ℓ} :
    {A : Type ℓ} (p : A → Bool) (rows : List A) (n : ℕ) (a : A)
    → all_rows p rows ≡ true
    → get_elem? rows n ≡ some a
    → p a ≡ true
unfolding all_rows
all_rows_sound p [] n a h e = cc
all_rows_sound p (r ∷ rest) zero a h e = ground arith
all_rows_sound p (r ∷ rest) (suc n) a h e = all_rows_sound p rest n a (ground arith) e

-- Handlers for which a session need not have logged in.
abbrev open_handler : ServerHandler → Bool
open_handler ServerHandler.handle_null = true
open_handler ServerHandler.handle_server_side = true
open_handler ServerHandler.handle_login = true
open_handler ServerHandler.handle_refresh_key = true
open_handler _ = false

abbrev is_logged : SessionReqStatus → Bool
is_logged SessionReqStatus.logged = true
is_logged SessionReqStatus.never = true
is_logged _ = false

guarded : OpcodeHandler ServerHandler → Bool
guarded r = is_logged r.status || open_handler r.handler

all_guarded : all_rows guarded opcode_table ≡ true
unfolding all_rows guarded opcode_table
all_guarded = refl

-- In the server's table a handler that acts on channels or messages is never reached without a
-- login: its row asks for the status `logged` or `never`. The others are the login, the refreshing
-- of the key, and the two handlers that do nothing.
pub handler_guarded :
    (opcode : ℕ) (r : OpcodeHandler ServerHandler)
    → get_elem? opcode_table opcode ≡ some r
    → ((r.status ≡ SessionReqStatus.logged) ⊎ (r.status ≡ SessionReqStatus.never))
      ⊎ ((r.handler ≡ ServerHandler.handle_login)
          ⊎ ((r.handler ≡ ServerHandler.handle_refresh_key)
              ⊎ ((r.handler ≡ ServerHandler.handle_server_side)
                  ⊎ (r.handler ≡ ServerHandler.handle_null))))
unfolding guarded
handler_guarded opcode r e =
    ground (arith, all_rows_sound guarded opcode_table opcode r all_guarded e)

pub row_at {ℓ} :
    {A : Type ℓ} (rows : List A) (n : ℕ) → n < length rows → (a : A) × (get_elem? rows n ≡ some a)
row_at [] n h = absurd (omega arith)
row_at (a ∷ rest) zero h = (a, refl)
row_at (a ∷ rest) (suc n) h = row_at rest n (omega arith)

no_row {ℓ} : {A : Type ℓ} (rows : List A) (n : ℕ) → length rows ≤ n → get_elem? rows n ≡ none
no_row [] n h = refl
no_row (a ∷ rest) zero h = absurd (omega arith)
no_row (a ∷ rest) (suc n) h = no_row rest n (omega arith)

pub table_length : length opcode_table ≡ num_msg_types
unfolding opcode_table
table_length = refl

-- The packet stands at the front of the queue until a filter lets it pass; for every opcode of the
-- protocol one of the two does, whether the session is in a channel or not, and a packet that is not
-- safe for threads passes the sessions' filter alone.
pub filters_cover :
    (opcode : ℕ) (in_channel : Bool)
    → opcode < num_msg_types
    → ((single_filter in_channel opcode ≡ ok true) ⊎ (map_filter in_channel opcode ≡ ok true))
      × ((r : OpcodeHandler ServerHandler)
          → get_elem? opcode_table opcode ≡ some r
          → r.processing ≡ PacketProcessing.threadunsafe
          → (single_filter in_channel opcode ≡ ok true) × (map_filter in_channel opcode ≡ ok false))
unfolding single_filter map_filter
filters_cover opcode in_channel h =
    let (r, e) = row_at opcode_table opcode (omega (arith, table_length)) in
    (ground (arith, e), λ r' e' p. (ground (arith, e'), ground (arith, e')))

-- For any other opcode both filters read outside the table.
pub filters_out_of_table :
    (opcode : ℕ) (in_channel : Bool)
    → num_msg_types ≤ opcode
    → (single_filter in_channel opcode ≡ err out_of_bounds)
      × (map_filter in_channel opcode ≡ err out_of_bounds)
unfolding single_filter map_filter
filters_out_of_table opcode in_channel h =
    let e = no_row opcode_table opcode (omega (arith, table_length)) in (rw e, rw e)

abbrev server_ignores : ServerHandler → Bool
server_ignores ServerHandler.handle_server_side = true
server_ignores _ = false

abbrev client_ignores : ClientHandler → Bool
client_ignores ClientHandler.handle_client_side = true
client_ignores _ = false

-- Row by row: the same name and status, and one side only that acts.
one_sided : List (OpcodeHandler ServerHandler) → List (OpcodeHandler ClientHandler) → Bool
one_sided [] [] = true
one_sided (s ∷ ss) (c ∷ cs) =
    (str_eq s.name c.name && xor (server_ignores s.handler) (client_ignores c.handler))
    && one_sided ss cs
one_sided _ _ = false

abbrev tail_of {ℓ} : {A : Type ℓ} → List A → List A
tail_of [] = []
tail_of (a ∷ rest) = rest

tables_one_sided : one_sided (tail_of opcode_table) (tail_of client_opcode_table) ≡ true
unfolding one_sided opcode_table client_opcode_table xor
tables_one_sided = refl

one_sided_sound :
    (ss : List (OpcodeHandler ServerHandler)) (cs : List (OpcodeHandler ClientHandler)) (n : ℕ)
    (s : OpcodeHandler ServerHandler) (c : OpcodeHandler ClientHandler)
    → one_sided ss cs ≡ true
    → get_elem? ss n ≡ some s
    → get_elem? cs n ≡ some c
    → (str_eq s.name c.name ≡ true)
      × (xor (server_ignores s.handler) (client_ignores c.handler) ≡ true)
unfolding one_sided
one_sided_sound [] cs n s c h e f = cc
one_sided_sound (x ∷ ss) [] n s c h e f = cc
one_sided_sound (x ∷ ss) (y ∷ cs) zero s c h e f = ground arith
one_sided_sound (x ∷ ss) (y ∷ cs) (suc n) s c h e f = one_sided_sound ss cs n s c (ground arith) e f

get_elem?-tail :
    {A : Type 0} (rows : List A) (n : ℕ) → get_elem? (tail_of rows) n ≡ get_elem? rows (suc n)
get_elem?-tail [] n = refl
get_elem?-tail (a ∷ rest) n = refl

-- The two tables agree: beyond the null message, the rows of one opcode have the same name, and
-- exactly one of the two sides ignores the message.
pub tables_agree :
    (n : ℕ) (s : OpcodeHandler ServerHandler) (c : OpcodeHandler ClientHandler)
    → get_elem? opcode_table (suc n) ≡ some s
    → get_elem? client_opcode_table (suc n) ≡ some c
    → (s.name ≡ c.name)
      × ((s.handler ≡ ServerHandler.handle_server_side)
          ↔ (c.handler ≢ ClientHandler.handle_client_side))
unfolding xor
tables_agree n s c e f =
    let (same, one) =
      one_sided_sound (tail_of opcode_table) (tail_of client_opcode_table) n s c tables_one_sided
        (get_elem?-tail opcode_table n ∙ e) (get_elem?-tail client_opcode_table n ∙ f) in
    ((eq_iff s.name c.name).0 same, (λ p. ground (arith, one), λ p. ground (arith, one)))
