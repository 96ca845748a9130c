-- ===== src/Login/Run.antt =====
-- How the handlers of a session run: on a session's state, which an exception leaves as it is at
-- that moment, since Session::Update catches it and goes on. Also what happens when a packet is sent:
-- SendPacketToSocket is an argument of the handlers.
use project_secure_chat.Base.{
  ℕ, ◌≤◌, ◌≡◌, sym, ap, ◌∙◌, inl, inr, Bool-cases, true, false, Option, none, some, ◌&&◌, List, [],
  ◌∷◌, ◌++◌, ◌==◌, if◌then◌else◌,
}
use project_secure_chat.Base.Result.{Result, ok, err}
use project_secure_chat.Buffer.Defs.{ByteBuffer, size}
use project_secure_chat.Crypto.Aes.{good_key}
use project_secure_chat.Opcode.Defs.{smsg_refresh_key}
use project_secure_chat.Packet.Defs.{Packet, new_packet}
use mathlib.Core.Path.{subst}
use project_secure_chat.Crypto.OpenSsl.{OpenSsl}
use project_secure_chat.Wire.Hybrid.{HasKeys}
use project_secure_chat.Peer.State.{
  Peer, Encryption, unspec, plain, aes128, aes256, rsa, hyb, asymmetric, set_encryption_key,
  set_encryption, set_next_encryption, reset_packet_num, get_packet_to_send,
}

abbrev pub M : Type 0 → Type 0
M A = Peer → Result A × Peer

abbrev pub after : {A B : Type 0} → Result A × Peer → (A → M B) → Result B × Peer
after (ok a, s) f = f a s
after (err e, s) f = (err e, s)

infixl 5 ◌>>=◌ ◌>>◌
abbrev pub ◌>>=◌ : {A B : Type 0} → M A → (A → M B) → M B
◌>>=◌ m f s = after (m s) f

abbrev pub ◌>>◌ : {B : Type 0} → M (Unit {0}) → M B → M B
m >> k = m >>= λ _. k

-- A call that may throw and does not change the session.
abbrev pub lift : {A : Type 0} → Result A → M A
lift r s = (r, s)

abbrev pub get : M Peer
get s = (ok s, s)

abbrev pub become : Peer → M (Unit {0})
become s _ = (ok tt, s)

abbrev pub modify : (Peer → Peer) → M (Unit {0})
modify f s = (ok tt, f s)

abbrev pub finished : {A : Type 0} → Result A × Peer → Result (A × Peer)
finished (ok a, s) = ok (a, s)
finished (err e, s) = err e

-- A run that no exception ends.
abbrev pub run : {A : Type 0} → M A → Peer → Result (A × Peer)
run m s = finished (m s)

-- The packets in the order in which they arrive.
abbrev pub handle_all : {A : Type 0} → (Packet → M A) → List Packet → M (List A)
handle_all handle [] = lift (ok [])
handle_all handle (p ∷ ps) = do a ← handle p; as' ← handle_all handle ps; lift (ok (a ∷ as'))

abbrev pub Send : Type 0
Send = Packet → M (Unit {0})

abbrev pub packet_of : ℕ → ByteBuffer → Packet
packet_of opcode b = record (new_packet opcode) { buffer = b }

-- The end of _SendPacketToSocket, once the bytes are given to the socket: the server changes its
-- encryption where that was prepared.
unfoldable pub after_send : ℕ → Peer → Peer
unfolding set_encryption_key set_encryption set_next_encryption reset_packet_num
after_send opcode s =
    if s.server && (opcode == smsg_refresh_key && s.change_keys == 1)
    then reset_packet_num (record (set_encryption_key s.key_tmp aes256 s) { change_keys = 2 })
    else if s.server && asymmetric s.next_enc
    then set_next_encryption unspec (set_encryption s.next_enc s)
    else s

send_found : Send → Option (Packet × Peer) → M (Unit {0})
send_found send none s = (ok tt, s)
send_found send (some (p, s')) s = send p s'

-- What the network's thread does for a session: GetPacketToSend and SendPacketToSocket.
unfoldable pub flush : Send → M (Unit {0})
unfolding send_found
flush send s = send_found send (get_packet_to_send s) s

-- A session that can encrypt: not at all, under AES-256 with a key of a length that AES takes, or in the
-- hybrid mode without a password and with keys that can be read. The login uses no other.
abbrev pub ReadyUnder : OpenSsl → Encryption → Peer → Type 0
ReadyUnder o plain s = Unit {0}
ReadyUnder o aes256 s = good_key s.key ≡ true
ReadyUnder o hyb s = HasKeys o s.my_priv_key s.other_pub_key × (s.password ≡ [])
ReadyUnder o unspec s = ⊥
ReadyUnder o aes128 s = ⊥
ReadyUnder o rsa s = ⊥

abbrev pub Ready : OpenSsl → Peer → Type 0
Ready o s = ReadyUnder o s.enc s

pub ready_under :
    (o : OpenSsl) (e : Encryption) (s : Peer) → s.enc ≡ e → ReadyUnder o e s → Ready o s
ready_under o e s h r = subst (λ x. ReadyUnder o x s) (sym h) r

-- What the handlers of the login need of SendPacketToSocket: on an open socket and of a session that can
-- encrypt it sends each packet of up to 64000 bytes, and it changes no
-- more than the packets' number, the count of random draws and the encryption.
pub record IsTransport (o : OpenSsl) (send : Send) : Type 0 where
  pub delivers :
      (p : Packet) (s : Peer)
      → s.opened ≡ true
      → Ready o s
      → size p.buffer ≤ 64000
      → (n : ℕ × ℕ) × (raw : List ℕ) × (send p s ≡ (
        ok tt,
        after_send p.opcode (record s {
          id_send = n.0;
          draws = n.1;
          sent = s.sent ++ p ∷ [];
          wire = s.wire ++ raw ∷ [];
        }),
      ))

-- A packet that changes no encryption.
pub after_send_other :
    (opcode : ℕ) (s : Peer)
    → (opcode == smsg_refresh_key && s.change_keys == 1) ≡ false
    → s.next_enc ≡ unspec
    → after_send opcode s ≡ s
unfolding after_send
after_send_other opcode s h k = elim (Bool-cases s.server) [ inl e ↦ rw (e, h, k) | inr e ↦ rw e ]

pub delivers_other :
    (o : OpenSsl) (send : Send) (ship : IsTransport o send) (p : Packet) (s : Peer)
    → s.opened ≡ true
    → Ready o s
    → size p.buffer ≤ 64000
    → s.next_enc ≡ unspec
    → (p.opcode == smsg_refresh_key && s.change_keys == 1) ≡ false
    → (n : ℕ × ℕ) × (raw : List ℕ) × (send p s ≡ (
      ok tt,
      record s { id_send = n.0; draws = n.1; sent = s.sent ++ p ∷ []; wire = s.wire ++ raw ∷ [] },
    ))
delivers_other o send ship p s h ready small k q =
    let (n, raw, e) = ship.delivers p s h ready small in
    let s1 : Peer = record s {
      id_send = n.0;
      draws = n.1;
      sent = s.sent ++ p ∷ [];
      wire = s.wire ++ raw ∷ [];
    } in
    (n, raw, e ∙ ap (λ (t : Peer). (ok tt, t)) (after_send_other p.opcode s1 q k))

-- A packet of another kind than the exchange of keys.
pub delivers_quiet :
    (o : OpenSsl) (send : Send) (ship : IsTransport o send) (p : Packet) (s : Peer)
    → s.opened ≡ true
    → Ready o s
    → size p.buffer ≤ 64000
    → s.next_enc ≡ unspec
    → (p.opcode == smsg_refresh_key) ≡ false
    → (n : ℕ × ℕ) × (raw : List ℕ) × (send p s ≡ (
      ok tt,
      record s { id_send = n.0; draws = n.1; sent = s.sent ++ p ∷ []; wire = s.wire ++ raw ∷ [] },
    ))
delivers_quiet o send ship p s h ready small k q =
    delivers_other o send ship p s h ready small k (rw q)

-- What the exchange of keys needs of SendPacketToSocket: a session on an open socket under AES-256, with
-- a key of a length that AES takes, sends each packet of up to 64000 bytes.
pub record SealsAll (send : Send) : Type 0 where
  pub delivers :
      (p : Packet) (s : Peer)
      → s.opened ≡ true
      → s.enc ≡ aes256
      → good_key s.key ≡ true
      → size p.buffer ≤ 64000
      → (n : ℕ × ℕ) × (raw : List ℕ) × (send p s ≡ (
        ok tt,
        after_send p.opcode (record s {
          id_send = n.0;
          draws = n.1;
          sent = s.sent ++ p ∷ [];
          wire = s.wire ++ raw ∷ [];
        }),
      ))

pub seals_other :
    (send : Send) (ship : SealsAll send) (p : Packet) (s : Peer)
    → s.opened ≡ true
    → s.enc ≡ aes256
    → good_key s.key ≡ true
    → size p.buffer ≤ 64000
    → s.next_enc ≡ unspec
    → (p.opcode == smsg_refresh_key && s.change_keys == 1) ≡ false
    → (n : ℕ × ℕ) × (raw : List ℕ) × (send p s ≡ (
      ok tt,
      record s { id_send = n.0; draws = n.1; sent = s.sent ++ p ∷ []; wire = s.wire ++ raw ∷ [] },
    ))
seals_other send ship p s h en g small k q =
    let (n, raw, e) = ship.delivers p s h en g small in
    let s1 : Peer = record s {
      id_send = n.0;
      draws = n.1;
      sent = s.sent ++ p ∷ [];
      wire = s.wire ++ raw ∷ [];
    } in
    (n, raw, e ∙ ap (λ (t : Peer). (ok tt, t)) (after_send_other p.opcode s1 q k))
