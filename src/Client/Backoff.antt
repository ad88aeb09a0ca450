-- ===== src/Client/Backoff.antt =====
-- internal/client/client.go, Run: the delay before each new attempt, in nanoseconds.
use native.Mathlib.Nat.{pow-suc, mul_comm}
use nnel.Base.{
  ℕ, zero, suc, ◌*◌, ◌^◌, ◌≤◌, ◌≡◌, refl, Bool, true, false, List, [], ◌∷◌, leb, ap, ◌∙◌, All,
  length, if◌then◌else◌, arith,
}

abbrev pub base_delay : ℕ
base_delay = 1000000000

abbrev pub max_delay : ℕ
max_delay = 60000000000

-- math.Min of base · 2^attempt and the limit. Powers of two are exact in a float64, and an
-- infinity is cut to the limit too.
unfoldable pub delay : ℕ → ℕ
delay attempt =
    if leb (base_delay * 2 ^ attempt) max_delay then base_delay * 2 ^ attempt else max_delay

-- The delays of a run, from the number of failures so far and what each attempt to connect gives.
unfoldable pub delays : ℕ → List Bool → List ℕ
unfolding delay
delays attempt [] = []
delays attempt (true ∷ connects) = delays 0 connects
delays attempt (false ∷ connects) = delay attempt ∷ delays (suc attempt) connects

pow_step : (a : ℕ) → 2 ^ suc a ≡ 2 * 2 ^ a
pow_step a = pow-suc 2 a ∙ mul_comm (2 ^ a) 2

pow_pos : (a : ℕ) → 1 ≤ 2 ^ a
pow_pos zero = omega arith
pow_pos (suc a) = omega (arith, pow_step a, pow_pos a)

delay_bounds : (a : ℕ) → (base_delay ≤ delay a) × (delay a ≤ max_delay)
unfolding delay
delay_bounds a = ground (arith, pow_pos a)

-- What the waiting should be, given the next wait: it doubles with each failure up to the limit, and a
-- success sets it back.
abbrev pub next_wait : ℕ → ℕ
next_wait d = if leb (2 * d) max_delay then 2 * d else max_delay

abbrev pub waits : ℕ → List Bool → List ℕ
waits d [] = []
waits d (true ∷ connects) = waits base_delay connects
waits d (false ∷ connects) = d ∷ waits (next_wait d) connects

delay_step : (a : ℕ) → delay (suc a) ≡ next_wait (delay a)
unfolding delay
delay_step a = ground (arith, pow_step a)

pub delays-waits :
    (attempt : ℕ) (connects : List Bool) → delays attempt connects ≡ waits (delay attempt) connects
unfolding delays
delays-waits attempt [] = refl
delays-waits attempt (true ∷ connects) = delays-waits 0 connects
delays-waits attempt (false ∷ connects) =
    ap (◌∷◌ (delay attempt)) (rw (← delay_step attempt) (delays-waits (suc attempt) connects))

-- The attempts that fail.
abbrev pub failures : List Bool → ℕ
failures [] = 0
failures (true ∷ connects) = failures connects
failures (false ∷ connects) = suc (failures connects)

abbrev InBounds : ℕ → Type 0
InBounds d = (base_delay ≤ d) × (d ≤ max_delay)

delays-All : (attempt : ℕ) (connects : List Bool) → All InBounds (delays attempt connects)
unfolding delays
delays-All attempt [] = tt
delays-All attempt (true ∷ connects) = delays-All 0 connects
delays-All attempt (false ∷ connects) = (delay_bounds attempt, delays-All (suc attempt) connects)

length-delays :
    (attempt : ℕ) (connects : List Bool) → length (delays attempt connects) ≡ failures connects
unfolding delays
length-delays attempt [] = refl
length-delays attempt (true ∷ connects) = length-delays 0 connects
length-delays attempt (false ∷ connects) = ap suc (length-delays (suc attempt) connects)

-- Every delay of a run lies between one and 60 seconds, there is one for each failure, and the first
-- failure after a success is followed by the shortest.
pub delays_bounds :
    (attempt : ℕ) (connects : List Bool)
    → All (λ d. (base_delay ≤ d) × (d ≤ max_delay)) (delays attempt connects)
      × (length (delays attempt connects) ≡ failures connects)
      × (delays attempt (true ∷ false ∷ connects) ≡ base_delay ∷ delays 1 connects)
delays_bounds attempt connects =
    (delays-All attempt connects, length-delays attempt connects, unfold delays in refl)
