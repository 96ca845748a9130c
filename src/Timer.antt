-- ===== src/Timer.antt =====
-- src/shared/utility/timer.h: IntervalTimer, and the intervals that the server gives its timers
-- (server/session/session.cpp, server/channel/channel-manager.h). The values are never negative,
-- since every update adds a uint32, and 64 bits are not used up.
use project_secure_chat.Base.{
  ℕ, ◌+◌, ◌-◌, ◌*◌, ◌≤◌, ◌≡◌, ◌↔◌, Bool, true, false, List, [], ◌∷◌, leb, ltb, if◌then◌else◌, arith,
  sym, inl, inr, Bool-cases, ◌∙◌, ltb→lt, ltb→le,
}
use native.Mathlib.Nat.{add-zero, add_assoc}

pub record IntervalTimer : Type 0 where
  pub interval : ℕ
  pub current : ℕ

abbrev pub new_timer : IntervalTimer
new_timer = record { interval = 0; current = 0 }

unfoldable pub update : ℕ → IntervalTimer → IntervalTimer
update diff t = record t { current = t.current + diff }

unfoldable pub passed : IntervalTimer → Bool
passed t = leb t.interval t.current

unfoldable pub reset : IntervalTimer → IntervalTimer
reset t = if leb t.interval t.current then record t { current = t.current - t.interval } else t

unfoldable pub set_current : ℕ → IntervalTimer → IntervalTimer
set_current c t = record t { current = c }

unfoldable pub set_interval : ℕ → IntervalTimer → IntervalTimer
set_interval i t = record t { interval = i }

abbrev pub min_refresh_key_interval : ℕ
min_refresh_key_interval = 60

abbrev pub min_login_interval : ℕ
min_login_interval = 5

-- Session::InitKeyUpdateInterval, on the configured number of seconds.
unfoldable pub init_key_update_interval : ℕ → IntervalTimer → IntervalTimer
unfolding reset set_interval
init_key_update_interval configured t =
    let r =
      if ltb configured min_refresh_key_interval then min_refresh_key_interval else configured in
    reset (set_interval (r * 1000) t)

-- Session::InitLoginInterval.
unfoldable pub init_login_interval : ℕ → IntervalTimer → IntervalTimer
unfolding reset set_interval
init_login_interval configured t =
    let r = if ltb configured min_login_interval then min_login_interval else configured in
    reset (set_interval (r * 1000) t)

abbrev pub min_channel_update_delay : ℕ
min_channel_update_delay = 100

-- ChannelManager::SetChannelUpdateInterval.
unfoldable pub set_channel_update_interval : ℕ → IntervalTimer → IntervalTimer
unfolding reset set_interval
set_channel_update_interval t timer =
    reset
      (set_interval (if ltb min_channel_update_delay t then min_channel_update_delay else t) timer)

unfoldable pub updates : List ℕ → IntervalTimer → IntervalTimer
updates [] t = t
updates (d ∷ ds) t = updates ds (update d t)

unfoldable pub sum : List ℕ → ℕ
sum [] = 0
sum (d ∷ ds) = d + sum ds

updates_lem :
    (ds : List ℕ) (i c : ℕ)
    → updates ds (record { interval = i; current = c })
      ≡ record { interval = i; current = c + sum ds }
unfolding updates update sum
updates_lem [] i c = λ j. record { interval = i; current = sym (add-zero c) j }
updates_lem (d ∷ ds) i c =
    updates_lem ds i (c + d) ∙ λ j. record { interval = i; current = add_assoc c d (sum ds) j }

le→leb_false : (n : ℕ) → 60 ≤ n → leb (n * 1000) 0 ≡ false
le→leb_false n h = ground arith

-- A fresh key timer has passed exactly when the time since then reaches the configured number of
-- seconds, and one minute at least.
pub key_timer_passed :
    (configured : ℕ) (ds : List ℕ)
    → (passed (updates ds (init_key_update_interval configured new_timer)) ≡ true)
      ↔ ((60000 ≤ sum ds) × (configured * 1000 ≤ sum ds))
unfolding passed init_key_update_interval
key_timer_passed configured ds = elim (Bool-cases (ltb configured 60)) [
  | inl e ↦ rw (e, updates_lem ds 60000 0) (ground (arith, ltb→lt configured 60 e))
  | inr e ↦
      let h = ltb→le configured 60 e in
      rw (e, le→leb_false configured h, updates_lem ds (configured * 1000) 0) (ground arith)
]

-- The interval of the channel update is never more than the delay that is meant as its least.
pub channel_interval_le :
    (t : ℕ) (timer : IntervalTimer)
    → (set_channel_update_interval t timer).interval ≤ min_channel_update_delay
unfolding set_channel_update_interval
channel_interval_le t timer = ground arith
