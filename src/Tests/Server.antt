-- ===== src/Tests/Server.antt =====
-- A server with two users in one of two rooms.
use project_secure_chat.Base.{
  ℕ, zero, suc, ◌<◌, ◌≡◌, refl, inl, inr, true, false, none, some, List, [], ◌∷◌, codes, arith,
}
use mathlib.Core.Path.{subst}
use project_secure_chat.LockQueue.{empty_queue}
use project_secure_chat.World.Heap.{World, Session, Channel, find, find_name}
use project_secure_chat.World.Members.{In, Distinct}
use project_secure_chat.World.Consistent.{Consistent, members_of, some-inj}
use project_secure_chat.Tests.Xml.{bob}

abbrev pub user : ℕ → List ℕ → Session
user id name = record {
  id = id;
  username = name;
  connected = true;
  has_this = true;
  channel = some 0;
  send_queue = empty_queue;
}

abbrev pub users : ℕ → Session
users zero = user 10 bob
users (suc zero) = user 11 (codes "al")
users (suc (suc p)) = record (user 0 []) { has_this = false; channel = none }

abbrev pub rooms : ℕ → Channel
rooms zero = record { name = codes "Room"; pass = codes "pw"; members = (10, 0) ∷ (11, 1) ∷ [] }
rooms (suc c) = record { name = codes "Den"; pass = codes "pw"; members = [] }

abbrev pub server : World
server = record {
  sessions = users;
  channels = rooms;
  channel_count = 2;
  names = (codes "Room", 0) ∷ (codes "Den", 1) ∷ [];
  session_map = (10, 0) ∷ (11, 1) ∷ [];
  network_queue = [];
}

server_entry_agrees :
    (c k p : ℕ) → In k p (members_of server c) → ((users p).id ≡ k) × ((users p).channel ≡ some c)
server_entry_agrees zero k p (inl (a, b)) =
    subst (λ p. ((users p).id ≡ k) × ((users p).channel ≡ some 0)) b (a, refl)
server_entry_agrees zero k p (inr (inl (a, b))) =
    subst (λ p. ((users p).id ≡ k) × ((users p).channel ≡ some 0)) b (a, refl)
server_entry_agrees zero k p (inr (inr i)) = elim i [ ]
server_entry_agrees (suc c) k p i = elim i [ ]

server_has_entry : (c p : ℕ) → (users p).channel ≡ some c → In (users p).id p (members_of server c)
server_has_entry c zero h =
    subst (λ c. In 10 0 (members_of server c)) (some-inj h) (inl (refl, refl))
server_has_entry c (suc zero) h =
    subst (λ c. In 11 1 (members_of server c)) (some-inj h) (inr (inl (refl, refl)))
server_has_entry c (suc (suc p)) h = cc

server_keys : (c : ℕ) → Distinct (members_of server c)
unfolding find
server_keys zero = (refl, (refl, tt))
server_keys (suc c) = tt

server_alive : (c p : ℕ) → (users p).channel ≡ some c → (users p).has_this ≡ true
server_alive c zero h = refl
server_alive c (suc zero) h = refl
server_alive c (suc (suc p)) h = cc

server_one_each :
    (p q : ℕ)
    → (users p).has_this ≡ true
    → (users q).has_this ≡ true
    → (users p).id ≡ (users q).id
    → p ≡ q
server_one_each zero zero a b e = refl
server_one_each zero (suc zero) a b e = absurd (omega arith)
server_one_each zero (suc (suc q)) a b e = cc
server_one_each (suc zero) zero a b e = absurd (omega arith)
server_one_each (suc zero) (suc zero) a b e = refl
server_one_each (suc zero) (suc (suc q)) a b e = cc
server_one_each (suc (suc p)) q a b e = cc

server_allocated : (c p : ℕ) → (users p).channel ≡ some c → c < 2
server_allocated c zero h = omega (arith, some-inj h)
server_allocated c (suc zero) h = omega (arith, some-inj h)
server_allocated c (suc (suc p)) h = cc

server_named : (n : List ℕ) (c : ℕ) → find_name n server.names ≡ some c → c < 2
unfolding find_name
server_named n c h = grind arith

pub server-Consistent : Consistent server
server-Consistent = record {
  entry_agrees = server_entry_agrees;
  has_entry = server_has_entry;
  keys = server_keys;
  alive = server_alive;
  one_each = server_one_each;
  allocated = server_allocated;
  named = server_named;
}
