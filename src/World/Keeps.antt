-- ===== src/World/Keeps.antt =====
-- What sending a packet leaves alone: the channels, and of a session all but its socket and its
-- queue.
use project_secure_chat.Base.{
  ℕ, ◌≡◌, ◌≢◌, refl, sym, ap, ◌∙◌, inl, inr, Option, List, [], ◌∷◌, ◌==◌, ==_iff, ne→==, Bool-cases,
}
use project_secure_chat.World.Heap.{World, Session, Message, put_at, send_packet, set_channel}
use project_secure_chat.World.Channel.{send_to_all_but_one, send_sys_message}

pub record Keeps (w w' : World) : Type 0 where
  pub channels_eq : w'.channels ≡ w.channels
  pub count_eq : w'.channel_count ≡ w.channel_count
  pub names_eq : w'.names ≡ w.names
  pub ids : (q : ℕ) → (w'.sessions q).id ≡ (w.sessions q).id
  pub channel_of : (q : ℕ) → (w'.sessions q).channel ≡ (w.sessions q).channel
  pub username_of : (q : ℕ) → (w'.sessions q).username ≡ (w.sessions q).username
  pub this_of : (q : ℕ) → (w'.sessions q).has_this ≡ (w.sessions q).has_this

pub Keeps-refl : (w : World) → Keeps w w
Keeps-refl w = record {
  channels_eq = refl;
  count_eq = refl;
  names_eq = refl;
  ids = λ q. refl;
  channel_of = λ q. refl;
  username_of = λ q. refl;
  this_of = λ q. refl;
}

pub Keeps-trans : (w1 w2 w3 : World) → Keeps w1 w2 → Keeps w2 w3 → Keeps w1 w3
Keeps-trans w1 w2 w3 k l = record {
  channels_eq = l.channels_eq ∙ k.channels_eq;
  count_eq = l.count_eq ∙ k.count_eq;
  names_eq = l.names_eq ∙ k.names_eq;
  ids = λ q. l.ids q ∙ k.ids q;
  channel_of = λ q. l.channel_of q ∙ k.channel_of q;
  username_of = λ q. l.username_of q ∙ k.username_of q;
  this_of = λ q. l.this_of q ∙ k.this_of q;
}

-- A part of an object that a write at `p` does not change is the same everywhere.
pub put_at-same {ℓ κ} :
    {A : Type ℓ} {B : Type κ} (g : A → B) (p : ℕ) (a : A) (f : ℕ → A)
    → g a ≡ g (f p)
    → (q : ℕ) → g (put_at p a f q) ≡ g (f q)
put_at-same g p a f h q = elim (Bool-cases (q == p)) [
  | inl e ↦ rw e (h ∙ ap (λ r. g (f r)) (sym ((==_iff q p).0 e)))
  | inr e ↦ rw e
]

pub put-Keeps :
    (w : World) (p : ℕ) (s : Session) (queue : List ℕ)
    → s.id ≡ (w.sessions p).id
    → s.channel ≡ (w.sessions p).channel
    → s.username ≡ (w.sessions p).username
    → s.has_this ≡ (w.sessions p).has_this
    → Keeps w (record w { sessions = put_at p s w.sessions; network_queue = queue })
put-Keeps w p s queue i c u t = record {
  channels_eq = refl;
  count_eq = refl;
  names_eq = refl;
  ids = put_at-same (λ s. s.id) p s w.sessions i;
  channel_of = put_at-same (λ s. s.channel) p s w.sessions c;
  username_of = put_at-same (λ s. s.username) p s w.sessions u;
  this_of = put_at-same (λ s. s.has_this) p s w.sessions t;
}

pub send_packet-Keeps : (m : Message) (p : ℕ) (w : World) → Keeps w (send_packet m p w)
unfolding send_packet
send_packet-Keeps m p w = elim (Bool-cases (w.sessions p).connected) [
  | inr e ↦ rw e (Keeps-refl w)
  | inl e ↦ elim (Bool-cases (w.sessions p).has_this) [
    | inr f ↦ rw (e, f) (put-Keeps w p _ w.network_queue refl refl refl (sym f))
    | inl f ↦ rw (e, f) (put-Keeps w p _ _ refl refl refl (sym f))
  ]
]

pub send_to_all_but_one-Keeps :
    (m : Message) (id : ℕ) (ms : List (ℕ × ℕ)) (w : World) → Keeps w (send_to_all_but_one m id ms w)
unfolding send_to_all_but_one
send_to_all_but_one-Keeps m id [] w = Keeps-refl w
send_to_all_but_one-Keeps m id ((k, p) ∷ rest) w = elim (Bool-cases ((w.sessions p).id == id)) [
  | inl e ↦ rw e (send_to_all_but_one-Keeps m id rest w)
  | inr e ↦ rw e (
      Keeps-trans w _ _ (send_packet-Keeps m p w)
        (send_to_all_but_one-Keeps m id rest (send_packet m p w)))
]

pub send_sys_message-Keeps : (str : List ℕ) (p : ℕ) (w : World) → Keeps w (send_sys_message str p w)
unfolding send_sys_message
send_sys_message-Keeps str p w = send_packet-Keeps _ p w

pub put_at-here {ℓ} : {A : Type ℓ} (p : ℕ) (a : A) (f : ℕ → A) → put_at p a f p ≡ a
put_at-here p a f = rw ((==_iff p p).1 refl)

pub put_at-there {ℓ} :
    {A : Type ℓ} (p : ℕ) (a : A) (f : ℕ → A) (q : ℕ) → q ≢ p → put_at p a f q ≡ f q
put_at-there p a f q ne = rw (ne→== q p ne)

put_at-both {ℓ κ} :
    {A : Type ℓ} {B : Type κ} (g : A → B) (p : ℕ) (a b : A) (f h : ℕ → A)
    → g a ≡ g b
    → ((q : ℕ) → g (f q) ≡ g (h q))
    → (q : ℕ) → g (put_at p a f q) ≡ g (put_at p b h q)
put_at-both g p a b f h e es q = elim (Bool-cases (q == p)) [ inl t ↦ rw t e | inr t ↦ rw t (es q) ]

-- Sending goes before or after a change of a session's channel.
pub set_channel-Keeps :
    (w w' : World) (p : ℕ) (c : Option ℕ)
    → Keeps w w'
    → Keeps (set_channel p c w) (set_channel p c w')
unfolding set_channel
set_channel-Keeps w w' p c k = record {
  channels_eq = k.channels_eq;
  count_eq = k.count_eq;
  names_eq = k.names_eq;
  ids = put_at-both (λ s. s.id) p _ _ w'.sessions w.sessions (k.ids p) k.ids;
  channel_of = put_at-both (λ s. s.channel) p _ _ w'.sessions w.sessions refl k.channel_of;
  username_of =
      put_at-both (λ s. s.username) p _ _ w'.sessions w.sessions (k.username_of p) k.username_of;
  this_of = put_at-both (λ s. s.has_this) p _ _ w'.sessions w.sessions (k.this_of p) k.this_of;
}
