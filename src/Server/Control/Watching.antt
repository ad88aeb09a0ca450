-- ===== src/Server/Control/Watching.antt =====
-- internal/server/control.go, loop: the ticker that sends heartbeats and closes the session of a
-- client that is silent, beside the loop that receives. Times are nanoseconds since lastSeen was first
-- set, and a tick has the time at which time.Since is read, which is after the ticker fired; the ticker
-- itself starts after time 0. Reads and writes of lastSeen are taken to be atomic.
use nnel.Base.{
  ℕ, zero, suc, ◌+◌, ◌-◌, ◌*◌, ◌≤◌, ltb, ◌≡◌, refl, false, Option, none, some, List, [], ◌∷◌,
  if◌then◌else◌, arith,
}

abbrev pub deadline : ℕ
deadline = 90000000000

abbrev pub interval : ℕ
interval = 30000000000

pub data Event : Type 0 where
  tick : (now : ℕ) → Event
  received : (now : ℕ) → Event

-- When the session was closed, if it was, and how many heartbeats were sent.
pub record Watch : Type 0 where
  pub last_seen : ℕ
  pub closed_at : Option ℕ
  pub beats : ℕ

abbrev pub started_watch : Watch
started_watch = record { last_seen = 0; closed_at = none; beats = 0 }

-- A closed session ends the ticker and the loop.
abbrev pub on_event : Event → Watch → Watch
on_event (tick now) w =
    if ltb deadline (now - w.last_seen)
    then record w { closed_at = some now }
    else record w { beats = w.beats + 1 }
on_event (received now) w = record w { last_seen = now }

abbrev pub while_open : Option ℕ → (Watch → Watch) → Watch → Watch
while_open none step w = step w
while_open (some t) step w = w

unfoldable pub watch : Watch → List Event → Watch
watch w [] = w
watch w (e ∷ es) = watch (while_open w.closed_at (on_event e) w) es

-- The ticks are read at most `late` after the multiples of the interval, `n` of which have passed;
-- `now` is the last event.
abbrev pub Timely : ℕ → ℕ → ℕ → List Event → Type 0
Timely late n now [] = Unit
Timely late n now (tick t ∷ es) =
    (interval * (n + 1) ≤ t)
    × (t ≤ interval * (n + 1) + late)
    × (now ≤ t)
    × Timely late (suc n) t es
Timely late n now (received t ∷ es) = (now ≤ t) × Timely late n t es

-- The client sends something at most `wait` after each heartbeat that follows its last message; `owed`
-- is the oldest heartbeat since then.
abbrev pub Prompt : ℕ → Option ℕ → List Event → Type 0
Prompt wait owed [] = Unit
Prompt wait none (tick t ∷ es) = Prompt wait (some t) es
Prompt wait (some h) (tick t ∷ es) = (t ≤ h + wait) × Prompt wait (some h) es
Prompt wait owed (received t ∷ es) = Prompt wait none es

abbrev pub ticks : List Event → ℕ
ticks [] = 0
ticks (tick t ∷ es) = suc (ticks es)
ticks (received t ∷ es) = ticks es

-- What is owed was sent by the first tick after the last message.
abbrev Owing : ℕ → ℕ → ℕ → Option ℕ → Type 0
Owing late n seen none = interval * n ≤ seen
Owing late n seen (some h) = h ≤ seen + interval + late

-- An open session.
abbrev pub at_work : ℕ → ℕ → Watch
at_work seen beats = record { last_seen = seen; closed_at = none; beats = beats }

module _ (seen beats t : ℕ) (es : List Event) where
  watch_beat :
      ltb deadline (t - seen) ≡ false
      → watch (at_work seen beats) (tick t ∷ es) ≡ watch (at_work seen (beats + 1)) es
  unfolding watch
  watch_beat early = rw early

  watch-received : watch (at_work seen beats) (received t ∷ es) ≡ watch (at_work t beats) es
  unfolding watch
  watch-received = refl

module _ (late wait : ℕ) (fits : wait + late + interval ≤ deadline) where
  watch-Prompt_from :
      (es : List Event) (n now seen beats : ℕ) (owed : Option ℕ)
      → seen ≤ now
      → interval * n ≤ now
      → Owing late n seen owed
      → Timely late n now es
      → Prompt wait owed es
      → ((watch (at_work seen beats) es).closed_at ≡ none)
        × ((watch (at_work seen beats) es).beats ≡ beats + ticks es)
  watch-Prompt_from [] n now seen beats owed before passed owing timely prompt =
      unfold watch in (refl, omega arith)
  watch-Prompt_from (tick t ∷ es) n now seen beats none before passed owing
        (at, soon, after, timely) prompt =
      let (up, count) =
        watch-Prompt_from es (suc n) t seen (beats + 1) (some t) (omega arith) (omega arith)
          (omega arith) timely prompt in
      rw (watch_beat seen beats t es (ground arith)) (up, omega (arith, count))
  watch-Prompt_from (tick t ∷ es) n now seen beats (some h) before passed owing
        (at, soon, after, timely) (early, prompt) =
      let (up, count) =
        watch-Prompt_from es (suc n) t seen (beats + 1) (some h) (omega arith) (omega arith) owing
          timely prompt in
      rw (watch_beat seen beats t es (ground arith)) (up, omega (arith, count))
  watch-Prompt_from (received t ∷ es) n now seen beats none before passed owing (after, timely)
        prompt =
      rw (watch-received seen beats t es) (
        watch-Prompt_from es n t t beats none (omega arith) (omega arith) (omega arith) timely
          prompt)
  watch-Prompt_from (received t ∷ es) n now seen beats (some h) before passed owing (after, timely)
        prompt =
      rw (watch-received seen beats t es) (
        watch-Prompt_from es n t t beats none (omega arith) (omega arith) (omega arith) timely
          prompt)

  -- A client that sends something at most `wait` after each heartbeat that follows its last message is
  -- never closed by the timer, and gets a heartbeat at every tick, if `wait` and the time by which
  -- ticks come late are at most a minute together.
  pub watch-Prompt :
      (es : List Event)
      → Timely late 0 0 es
      → Prompt wait none es
      → ((watch started_watch es).closed_at ≡ none) × ((watch started_watch es).beats ≡ ticks es)
  watch-Prompt es timely prompt =
      let (up, count) =
        watch-Prompt_from es 0 0 0 0 none (omega arith) (omega arith) (omega arith) timely prompt in
      (up, omega (arith, count))

-- Ticks with nothing received between them.
abbrev pub ticks_from : ℕ → ℕ → List Event
ticks_from n zero = []
ticks_from n (suc k) = tick (interval * (n + 1)) ∷ ticks_from (suc n) k
