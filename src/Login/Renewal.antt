-- ===== src/Login/Renewal.antt =====
-- The whole exchange of a new key: what one side gives to its SendPacketToSocket, the other side's handler
-- gets, in order. That a packet arrives as it was sent under AES is shown in Wire/Delivery.
use project_secure_chat.Base.{ℕ, ◌≡◌, refl, sym, ap, ◌∙◌, Bool, true, false, List, [], ◌==◌}
use project_secure_chat.Base.Result.{Result, ok, ◌>>=◌}
use project_secure_chat.Buffer.Defs.{ByteBuffer}
use project_secure_chat.Crypto.OpenSsl.{OpenSsl, IsCipher}
use project_secure_chat.Wire.Socket.{send_packet_to_socket}
use project_secure_chat.Wire.Sealed.{send-SealsAll}
use project_secure_chat.Crypto.Keys.{zip_xor_comm}
use project_secure_chat.Timer.{update, passed}
use project_secure_chat.Peer.State.{Peer, Config, aes256}
use project_secure_chat.Login.Run.{run, handle_all, Send}
use project_secure_chat.Login.Server
use project_secure_chat.Login.Client
use project_secure_chat.Login.Parts.{IsRandom}
use project_secure_chat.Login.Turns.{one_lem}
use project_secure_chat.Login.Refresh.{
  IsOnline, offer, reply, go_ahead, offer_lem, reply_lem, grant_lem, take_lem,
}

module _ (o : OpenSsl) (cfg : Config) (be : Bool) (known : List ℕ → Bool) (send : Send) where
  -- Each side starts every turn with nothing sent.
  unfoldable pub renewal : ℕ → Peer → Peer → Result (Peer × Peer)
  renewal diff s c = do
    (no1, s1) ← run (Server.generate_new_key o cfg be known send diff) s
    (no2, c1) ← run (handle_all (Client.handle_refresh_key o be send) s1.sent) c
    (no3, s2) ←
        run (handle_all (Server.handle_refresh_key o cfg be known send) c1.sent)
          (record s1 { sent = [] })
    (no4, c2) ←
        run (handle_all (Client.handle_refresh_key o be send) s2.sent) (record c1 { sent = [] })
    ok (s2, c2)

module _ (o : OpenSsl) (law : IsRandom o) (cipher : IsCipher o) (cfg : Config) (be : Bool)
    (known : List ℕ → Bool) (now : ℕ) where
  -- When the time of the key is over for a session that has logged in, that waits for no answer of an
  -- earlier exchange and whose client is logged in too, both on open sockets and under AES-256 with a
  -- key of 16 or 32 bytes each, with no other change of the encryption prepared and with nothing sent yet in this
  -- turn, where each side handles what the other's SendPacketToSocket was given, and
  -- with AES and a random generator that do what their documentation says: nothing throws, both sides end
  -- with the same key under AES-256, both count their packets from 0 again, and the server notes the end of the exchange.
  pub renewal_lem :
      (diff : ℕ) (s c : Peer)
      → IsOnline s
      → IsOnline c
      → s.server ≡ true
      → (diff == 0) ≡ false
      → passed (update diff s.key_timer) ≡ true
      → (s.change_keys == 1) ≡ false
      → s.sent ≡ []
      → c.sent ≡ []
      → (s' : Peer) × (c' : Peer) × (renewal o cfg be known
            (send_packet_to_socket o be now)
            diff
            s
            c
          ≡ ok (s', c'))
        × (s'.key.storage ≡ c'.key.storage)
        × (s'.enc ≡ aes256)
        × (c'.enc ≡ aes256)
        × (s'.id_send ≡ 0)
        × (s'.id_receive ≡ 0)
        × (c'.id_send ≡ 0)
        × (c'.id_receive ≡ 0)
        × (s'.change_keys ≡ 2)
  unfolding renewal
  renewal_lem diff s c on_s on_c here ticks due idle no_s no_c =
      let send = send_packet_to_socket o be now in
      let ship = send-SealsAll o cipher be now in
      let part = o.random_bytes s.draws 32 in
      let theirs = o.random_bytes c.draws 32 in
      let len = law.count s.draws 32 in
      let len_theirs = law.count c.draws 32 in
      let fit = law.bytes_fit s.draws 32 in
      let fit_theirs = law.bytes_fit c.draws 32 in
      let (s1, e1, sent1, tmp1, change1, here1, on1) =
        offer_lem o law cfg be known send ship diff s on_s ticks due idle no_s in
      let (c1, e2, sent2, tmp2, on2) =
        reply_lem o law cfg be known send ship part c on_c no_c len fit in
      let (s2, e3, sent3, key3, enc3, num3, num3', change3) =
        grant_lem o law cfg be known send ship part theirs s1 on1 (here1 ∙ here) tmp1 change1 len
          len_theirs fit fit_theirs in
      let (c2, e4, key4, enc4, num4, num4') =
        take_lem o law cfg be known send ship c1.key_tmp c1 refl in
      let f2 = one_lem (Client.handle_refresh_key o be send) (offer part) c c1 tt e2 in
      let f3 =
        one_lem (Server.handle_refresh_key o cfg be known send) (reply theirs)
          (record s1 { sent = [] }) s2 tt e3 in
      let f4 =
        one_lem (Client.handle_refresh_key o be send) go_ahead (record c1 { sent = [] }) c2 tt e4 in
      (
        s2,
        c2,
        rw (e1, sent1, f2, sent2, f3, sent3, f4),
        ap (λ (b : ByteBuffer). b.storage) key3
            ∙ zip_xor_comm part theirs fit fit_theirs (len ∙ sym len_theirs)
            ∙ sym (ap (λ (b : ByteBuffer). b.storage) (key4 ∙ tmp2)),
        enc3,
        enc4,
        num3,
        num3',
        num4,
        num4',
        change3,
      )
