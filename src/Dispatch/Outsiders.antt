-- ===== src/Dispatch/Outsiders.antt =====
-- src/server/session/session.cpp: what a session that has not logged in can do to the others.
use project_secure_chat.Base.{
  ℕ, ◌≡◌, ◌≢◌, refl, ◌∙◌, ◌⊎◌, inl, inr, Bool, true, false, ◌&&◌, ==_iff, Bool-cases, List, arith,
}
use project_secure_chat.Base.Result.{Result, Error, ok, err, ok_injective, err_not}
use mathlib.Core.Path.{subst}
use project_secure_chat.Opcode.Defs.{ServerHandler}
use project_secure_chat.Packet.Defs.{Packet}
use project_secure_chat.Peer.State.{
  Peer, Status, none_status, rejected, disconnected, connected, login_step_1, login_step_2,
  login_step_3, authenticated, status_code, is_authenticated,
}
use project_secure_chat.Login.Kept.{In, joins_only, login_again, refresh_kept}
use project_secure_chat.Login.Server.{
  handle_login, handle_refresh_key, generate_new_key, login_timer,
}
use project_secure_chat.World.Heap.{World, Message, Session, put_at, send_packet}
use project_secure_chat.World.Keeps.{put_at-there}
use project_secure_chat.World.Notices.{handle_server_side}
use project_secure_chat.Dispatch.Guards.{Allowed, open_to_all, InTable, pump_Ran}
use project_secure_chat.Dispatch.Host.{
  Host, Setup, publish, tried, act, actions, log_in, entered, taken, tick,
}
use project_secure_chat.Dispatch.Server.{update}

-- The channels, the maps and every other session than `p` are the same.
pub record Elsewhere (p : ℕ) (w w' : World) : Type 0 where
  pub channels_eq : w'.channels ≡ w.channels
  pub count_eq : w'.channel_count ≡ w.channel_count
  pub names_eq : w'.names ≡ w.names
  pub map_eq : w'.session_map ≡ w.session_map
  pub others : (q : ℕ) → q ≢ p → w'.sessions q ≡ w.sessions q

Elsewhere-refl : (p : ℕ) (w : World) → Elsewhere p w w
Elsewhere-refl p w = record {
  channels_eq = refl;
  count_eq = refl;
  names_eq = refl;
  map_eq = refl;
  others = λ q ne. refl;
}

Elsewhere-trans :
    (p : ℕ) (w1 w2 w3 : World) → Elsewhere p w1 w2 → Elsewhere p w2 w3 → Elsewhere p w1 w3
Elsewhere-trans p w1 w2 w3 k l = record {
  channels_eq = l.channels_eq ∙ k.channels_eq;
  count_eq = l.count_eq ∙ k.count_eq;
  names_eq = l.names_eq ∙ k.names_eq;
  map_eq = l.map_eq ∙ k.map_eq;
  others = λ q ne. l.others q ne ∙ k.others q ne;
}

-- A write to the session itself, and to the queue of the network.
put-Elsewhere :
    (p : ℕ) (s : Session) (queue : List ℕ) (w : World)
    → Elsewhere p w (record w { sessions = put_at p s w.sessions; network_queue = queue })
put-Elsewhere p s queue w = record {
  channels_eq = refl;
  count_eq = refl;
  names_eq = refl;
  map_eq = refl;
  others = λ q ne. put_at-there p s w.sessions q ne;
}

send-Elsewhere : (m : Message) (p : ℕ) (w : World) → Elsewhere p w (send_packet m p w)
unfolding send_packet
send-Elsewhere m p w = elim (Bool-cases (w.sessions p).connected) [
  | inr e ↦ rw e (Elsewhere-refl p w)
  | inl e ↦ elim (Bool-cases (w.sessions p).has_this) [
    | inr f ↦ rw (e, f) (put-Elsewhere p _ _ w)
    | inl f ↦ rw (e, f) (put-Elsewhere p _ _ w)
  ]
]

server_side-Elsewhere : (p : ℕ) (w : World) → Elsewhere p w (handle_server_side p w)
unfolding handle_server_side
server_side-Elsewhere p w = Elsewhere-refl p w

by_code : (st : Status) → status_code st ≡ 7 → st ≡ authenticated
by_code authenticated h = refl
by_code none_status h = absurd (omega arith)
by_code rejected h = absurd (omega arith)
by_code disconnected h = absurd (omega arith)
by_code connected h = absurd (omega arith)
by_code login_step_1 h = absurd (omega arith)
by_code login_step_2 h = absurd (omega arith)
by_code login_step_3 h = absurd (omega arith)

is_authenticated-In : (s : Peer) → is_authenticated s ≡ true → In s
unfolding is_authenticated
is_authenticated-In s h = by_code s.status ((==_iff (status_code s.status) 7).0 h)

after_cases :
    {A : Type 0}
    → (r : Result A × Peer)
    → ((e : Error) × (s : Peer) × (r ≡ (err e, s))) ⊎ ((a : A) × (s : Peer) × (r ≡ (ok a, s)))
after_cases (err e, s) = inl (e, s, refl)
after_cases (ok a, s) = inr (a, s, refl)

module _ (u : Setup) (p : ℕ) where
  -- The session has logged in, or the rest of the world is as it was.
  abbrev pub Harmless : World → Host → Type 0
  Harmless w d = In d.peer ⊎ Elsewhere p w d.world

  tried-In : (r : Result World) (d : Host) → In d.peer → In (tried u p r d).peer
  tried-In (ok w) d h = h
  tried-In (err e) d h = h

  entered-Harmless :
      (w : World) (r : Result Bool) (d : Host)
      → (r ≡ ok true → In d.peer)
      → Harmless w d
      → Harmless w (entered u p r d)
  unfolding entered
  entered-Harmless w (ok true) d h k = inl (tried-In _ d (h refl))
  entered-Harmless w (ok false) d h k = k
  entered-Harmless w (err e) d h k = k

  publish-Harmless :
      (w : World) (s : Peer) (d : Host) → Elsewhere p w d.world → Harmless w (publish u p s d)
  publish-Harmless w s d k = inr (Elsewhere-trans p w d.world _ k (put-Elsewhere p _ _ d.world))

  module _ (keeps : (q : Packet) (s : Peer) → In s → In (u.send q s).1) where
    open_Harmless :
        (w : World) (h : ServerHandler) (packet : Packet) (d : Host)
        → open_to_all h ≡ true
        → Elsewhere p w d.world
        → Harmless w (act u p h packet d)
    unfolding act log_in
    open_Harmless w ServerHandler.handle_null packet d g k = inr k
    open_Harmless w ServerHandler.handle_server_side packet d g k =
        inr (Elsewhere-trans p w d.world _ k (server_side-Elsewhere p d.world))
    open_Harmless w ServerHandler.handle_login packet d g k =
        let (r, s) =
          handle_login u.ssl u.cfg u.be u.known u.send (taken u p d.world) packet d.peer in
        entered-Harmless w r (publish u p s d)
          (joins_only u.ssl u.cfg u.be u.known u.send keeps (taken u p d.world) packet d.peer)
          (publish-Harmless w s d k)
    open_Harmless w ServerHandler.handle_refresh_key packet d g k =
        publish-Harmless w (handle_refresh_key u.ssl u.cfg u.be u.known u.send packet d.peer).1 d k
    open_Harmless w ServerHandler.handle_ping packet d g k = cc
    open_Harmless w ServerHandler.handle_message packet d g k = cc
    open_Harmless w ServerHandler.handle_whisp packet d g k = cc
    open_Harmless w ServerHandler.handle_create_channel packet d g k = cc
    open_Harmless w ServerHandler.handle_join_channel packet d g k = cc
    open_Harmless w ServerHandler.handle_leave_channel packet d g k = cc
    open_Harmless w ServerHandler.handle_list_channel packet d g k = cc

    act_In :
        (h : ServerHandler) (packet : Packet) (d : Host) → In d.peer → In (act u p h packet d).peer
    unfolding act log_in entered
    act_In ServerHandler.handle_null packet d k = k
    act_In ServerHandler.handle_ping packet d k = k
    act_In ServerHandler.handle_server_side packet d k = k
    act_In ServerHandler.handle_message packet d k = tried-In _ d k
    act_In ServerHandler.handle_whisp packet d k = tried-In _ d k
    act_In ServerHandler.handle_create_channel packet d k = tried-In _ d k
    act_In ServerHandler.handle_join_channel packet d k = tried-In _ d k
    act_In ServerHandler.handle_leave_channel packet d k = tried-In _ d k
    act_In ServerHandler.handle_list_channel packet d k = k
    act_In ServerHandler.handle_login packet d k =
        rw (login_again u.ssl u.cfg u.be u.known u.send keeps (taken u p d.world) packet d.peer k) k
    act_In ServerHandler.handle_refresh_key packet d k =
        refresh_kept u.ssl u.cfg u.be u.known u.send keeps packet d.peer k

    act-Harmless :
        (w : World) (h : ServerHandler) (packet : Packet) (d : Host)
        → Harmless w d
        → Allowed (actions u p) h d
        → Harmless w (act u p h packet d)
    unfolding actions
    act-Harmless w h packet d (inl k) a = inl (act_In h packet d k)
    act-Harmless w h packet d (inr k) (inl a) =
        inl (act_In h packet d (is_authenticated-In d.peer a))
    act-Harmless w h packet d (inr k) (inr (q, g)) = open_Harmless w h packet d g k

    timed-Harmless :
        (w : World) (diff : ℕ) (d d1 : Host)
        → Elsewhere p w d.world
        → tick u p diff d ≡ ok d1
        → Harmless w d1
    unfolding tick
    timed-Harmless w diff d d1 k e =
        elim (after_cases
          (generate_new_key u.ssl u.cfg u.be u.known u.send diff (login_timer diff d.peer))) [
            | inl (er, s, f) ↦ absurd (err_not er d1 (rw (f, tick) at e))
            | inr (t, s, f) ↦
                let same = ok_injective (publish u p s d) d1 (rw (f, tick) at e) in
                subst (Harmless w) same (publish-Harmless w s d k)
          ]

    -- Session::Update, for packets with opcodes of the protocol, timers that return and a
    -- SendPacketToSocket that keeps a session logged in: it returns whether the socket is open, and
    -- afterwards the session has logged in, or no channel, no map of channels or sessions and no other
    -- session is changed.
    pub outsiders_lem :
        (single : Bool) (diff : ℕ) (ps : List Packet) (d d1 : Host)
        → InTable ps
        → tick u p diff d ≡ ok d1
        → (d' : Host) × (rest : List Packet) × (update (actions u p) single diff ps d
            ≡ ok (d'.peer.opened, (d', rest)))
          × Harmless d.world d'
    unfolding update actions
    outsiders_lem single diff ps d d1 h e =
        let runs = λ (k : Host) (g : Harmless d.world k).
          pump_Ran (actions u p) (Harmless d.world) single
            (λ hd q d' g' o a. act-Harmless d.world hd q d' g' a) ps k h g in
        elim (Bool-cases (d.peer.opened && single)) [
          | inl c ↦
              let r = runs d1 (timed-Harmless d.world diff d d1 (Elsewhere-refl p d.world) e) in
              (r.after, r.rest, rw (c, e, r.returns), r.keeps)
          | inr c ↦
              let r = runs d (inr (Elsewhere-refl p d.world)) in
              (r.after, r.rest, rw (c, r.returns), r.keeps)
        ]
