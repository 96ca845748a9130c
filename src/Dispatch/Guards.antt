-- ===== src/Dispatch/Guards.antt =====
-- src/server/session/session.cpp: which handlers Session::Update reaches, and where it stops.
use project_secure_chat.Base.{
  ◌<◌, ◌≡◌, refl, ◌∙◌, ap, sym, ◌⊎◌, inl, inr, Bool, true, false, Bool-cases, List, [], ◌∷◌, ◌++◌,
  lt→leb, arith,
}
use mathlib.Core.Path.{subst}
use project_secure_chat.Base.Result.{ok, ok_injective, err_not}
use project_secure_chat.Opcode.Defs.{
  SessionReqStatus, logging, logged, transfer, logout, never, unhandled, ServerHandler,
  OpcodeHandler, num_msg_types, opcode_table,
}
use project_secure_chat.Opcode.Filter.{
  lookup_handler, map_filter, single_filter, map_processes, single_processes,
}
use project_secure_chat.Opcode.Laws.{row_at, table_length, all_rows, all_rows_sound}
use project_secure_chat.Packet.Defs.{Packet}
use project_secure_chat.Dispatch.Server.{Actions, serve, passes, process, pump}
use project_secure_chat.Dispatch.Batches.{Front, front_cases}

-- The handlers that a session reaches before it has logged in.
abbrev pub open_to_all : ServerHandler → Bool
open_to_all ServerHandler.handle_null = true
open_to_all ServerHandler.handle_server_side = true
open_to_all ServerHandler.handle_login = true
open_to_all ServerHandler.handle_refresh_key = true
open_to_all _ = false

abbrev guard_fits : SessionReqStatus → ServerHandler → Bool
guard_fits logging h = open_to_all h
guard_fits transfer h = false
guard_fits logged h = true
guard_fits logout h = true
guard_fits never h = true
guard_fits unhandled h = true

fits : OpcodeHandler ServerHandler → Bool
fits r = guard_fits r.status r.handler

all_fit : all_rows fits opcode_table ≡ true
unfolding all_rows fits opcode_table
all_fit = refl

-- Every opcode is one of the protocol.
abbrev pub InTable : List Packet → Type 0
InTable [] = Unit {0}
InTable (p ∷ ps) = (p.opcode < num_msg_types) × InTable ps

module _ {ℓ} {S : Type ℓ} (ops : Actions S) where
  -- When a handler may be called: the session has logged in, or does not wait in the queue of the
  -- session manager and the handler is one of the login's, of the key's, or does nothing.
  abbrev pub Allowed : ServerHandler → S → Type 0
  Allowed h s = (ops.authenticated s ≡ true) ⊎ ((ops.in_queue s ≡ false) × (open_to_all h ≡ true))

  serve_kept {κ} :
      (P : S → Type κ) (status : SessionReqStatus) (h : ServerHandler) (p : Packet) (s : S)
      → guard_fits status h ≡ true
      → P s
      → (Allowed h s → P (ops.act h p s))
      → P (serve ops status h p s)
  unfolding serve
  serve_kept P logging h p s g k f = elim (Bool-cases (ops.in_queue s)) [
    | inl e ↦ rw e k
    | inr e ↦ rw e (f (inr (e, g)))
  ]
  serve_kept P transfer h p s g k f = cc
  serve_kept P logged h p s g k f = elim (Bool-cases (ops.authenticated s)) [
    | inl e ↦ rw e (f (inl e))
    | inr e ↦ rw e k
  ]
  serve_kept P logout h p s g k f = k
  serve_kept P never h p s g k f = k
  serve_kept P unhandled h p s g k f = k

  process_kept {κ} :
      (P : S → Type κ) (p : Packet) (s : S)
      → p.opcode < num_msg_types
      → P s
      → ((h : ServerHandler) → Allowed h s → P (ops.act h p s))
      → (s' : S) × (process ops p s ≡ ok s') × P s'
  unfolding process lookup_handler fits
  process_kept P p s h k f =
      let (r, e) = row_at opcode_table p.opcode (omega (arith, table_length)) in
      let g = all_rows_sound fits opcode_table p.opcode r all_fit e in
      (
        serve ops r.status r.handler p s,
        rw (lt→leb num_msg_types p.opcode h, e),
        serve_kept P r.status r.handler p s g k (f r.handler),
      )

  passes_returns :
      (single : Bool) (p : Packet) (s : S)
      → p.opcode < num_msg_types
      → (b : Bool) × (passes ops single p s ≡ ok b)
  unfolding single_filter map_filter
  passes_returns true p s h =
      let (r, e) = row_at opcode_table p.opcode (omega (arith, table_length)) in
      (single_processes r.processing (ops.in_channel s), rw e refl)
  passes_returns false p s h =
      let (r, e) = row_at opcode_table p.opcode (omega (arith, table_length)) in
      (map_processes r.processing (ops.in_channel s), rw e refl)

  -- Why the loop ends: the queue is empty, the socket is closed, or the filter refuses the packet at
  -- the front.
  abbrev pub Stops : Bool → S → List Packet → Type 0
  Stops single s [] = Unit {0}
  Stops single s (p ∷ ps) = (ops.opened s ≡ false) ⊎ (passes ops single p s ≡ ok false)

  -- How the loop ends: `done` are the packets that it took, `s` the session, `rest` the queue.
  pub record Ran {κ} (P : S → Type κ) (single : Bool) (ps : List Packet) (s : S)
      : Type (ℓ ⊔ κ) where
    pub after : S
    pub done : List Packet
    pub rest : List Packet
    pub returns : pump ops single ps s ≡ ok (after, rest)
    pub in_order : ps ≡ done ++ rest
    pub keeps : P after
    pub stops : Stops single after rest

  -- A property that no handler destroys where it may be called holds after the loop, for packets whose
  -- opcodes are those of the protocol: the loop returns, takes packets from the front of the queue in
  -- their order, and ends only with an empty queue, a closed socket or a packet that its filter
  -- refuses.
  pub pump_Ran {κ} :
      (P : S → Type κ) (single : Bool)
      → ((h : ServerHandler) (p : Packet) (s : S)
          → P s
          → ops.opened s ≡ true
          → Allowed h s
          → P (ops.act h p s))
      → (ps : List Packet) (s : S) → InTable ps
      → P s
      → Ran P single ps s
  pump_Ran P single f [] s h k = record {
    after = s;
    done = [];
    rest = [];
    returns = unfold pump in refl;
    in_order = refl;
    keeps = k;
    stops = tt;
  }
  pump_Ran P single f (p ∷ ps) s (h, hs) k = elim (front_cases ops single p s) [
    | Front.stays why e ↦ record {
      after = s;
      done = [];
      rest = p ∷ ps;
      returns = e ps;
      in_order = refl;
      keeps = k;
      stops = why;
    }
    | Front.taken s' o g d e ↦
        let (s1, d1, k1) = process_kept P p s h k (λ hd a. f hd p s k o a) in
        let r = pump_Ran P single f ps s' hs (subst P (ok_injective s1 s' (sym d1 ∙ d)) k1) in
        record {
          after = r.after;
          done = p ∷ r.done;
          rest = r.rest;
          returns = e ps ∙ r.returns;
          in_order = ap (◌∷◌ p) r.in_order;
          keeps = r.keeps;
          stops = r.stops;
        }
    | Front.fails er why e ↦ absurd (elim why [
      | inl g ↦ let (b, g1) = passes_returns single p s h in err_not er b (sym g ∙ g1)
      | inr g ↦
          let (s1, g1, t) = process_kept (λ _. Unit {0}) p s h tt (λ hd a. tt) in
          err_not er s1 (sym g ∙ g1)
    ])
  ]
