-- ===== src/Client/Stuck.antt =====
-- src/client/session/session.cpp and src/client/client-core.cpp: a client whose connection has failed.
use project_secure_chat.Base.{ℕ, ◌≡◌, refl, Bool, inl, inr, Bool-cases, false, List, [], ◌∷◌}
use project_secure_chat.Peer.State.{set_connected}
use project_secure_chat.Client.Screen.{Client, send_to_gui, add_message}
use project_secure_chat.Client.Core.{
  Outcome, failed, Address, connect, disconnect, core_connect, core_disconnect,
}

-- What the user tries, with what the system says to it.
pub data Attempt : Type 0 where
  connects : Outcome → Attempt
  disconnects : Bool → Attempt

module _ (now : List ℕ) (a : Address) where
  abbrev pub attempt : Attempt → Client → Bool × Client
  attempt (connects outcome) c = core_connect now a outcome c
  attempt (disconnects closes) c = core_disconnect now a closes c

  -- The results of one attempt after the other, and the client.
  unfoldable pub attempts : List Attempt → Client → List Bool × Client
  attempts [] c = ([], c)
  attempts (t ∷ ts) c = let r = attempt t c in let rest = attempts ts r.1 in (r.0 ∷ rest.0, rest.1)

  abbrev pub AllFail : List Bool → Type 0
  AllFail [] = Unit {0}
  AllFail (b ∷ bs) = (b ≡ false) × AllFail bs

  attempt_closed :
      (t : Attempt) (c : Client)
      → c.peer.opened ≡ false
      → ((attempt t c).0 ≡ false) × ((attempt t c).1.peer.opened ≡ false)
  unfolding core_connect core_disconnect connect disconnect send_to_gui add_message set_connected
  attempt_closed (connects outcome) c h = rw h (refl, refl)
  attempt_closed (disconnects closes) c h = rw h (refl, refl)

  attempts_closed :
      (ts : List Attempt) (c : Client)
      → c.peer.opened ≡ false
      → AllFail (attempts ts c).0 × ((attempts ts c).1.peer.opened ≡ false)
  unfolding attempts
  attempts_closed [] c h = (tt, h)
  attempts_closed (t ∷ ts) c h =
      let (f, g) = attempt_closed t c h in
      let (fs, gs) = attempts_closed ts (attempt t c).1 g in ((f, fs), gs)

  failed_closed : (c : Client) → (core_connect now a failed c).1.peer.opened ≡ false
  unfolding core_connect connect send_to_gui add_message set_connected
  failed_closed c = elim (Bool-cases c.peer.opened) [ inl e ↦ rw e refl | inr e ↦ rw e refl ]

  -- After a connection that fails with a SocketException, every further attempt to connect or to
  -- disconnect fails, whatever the system says to it: the failure closes the socket, and only what
  -- succeeds makes a new one.
  pub stuck_lem :
      (c : Client) (ts : List Attempt)
      → AllFail (attempts ts (core_connect now a failed c).1).0
        × ((attempts ts (core_connect now a failed c).1).1.peer.opened ≡ false)
  stuck_lem c ts = attempts_closed ts (core_connect now a failed c).1 (failed_closed c)
