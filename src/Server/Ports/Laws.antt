-- ===== src/Server/Ports/Laws.antt =====
-- What pickTCPPort finds: the least free port of the range, or none if every port is taken.
use nnel.Base.{
  ℕ, zero, suc, ◌+◌, ◌<◌, ◌≡◌, ◌⊎◌, inl, inr, refl, true, false, Option, none, some, Bool-cases, ℤ,
  pos, negsuc, pos_part, neg_part, suc_ℤ, span, ◌≤ℤ◌, ◌<ℤ◌, int_eqb, int_eqb_iff, Result, ok, err,
  arith,
}
use nnel.Config.{ServerConfig}
use nnel.Server.Registry.{Registry, is_port_taken}
use nnel.Server.Ports.{pick_from, pick_tcp_port, PickError, no_range, no_free_port}

-- Every port from `a` up to, but not including, `b` is taken.
abbrev pub AllTaken : ℤ → ℤ → Registry → Type 0
AllTaken a b reg = (q : ℤ) → a ≤ℤ q → q <ℤ b → is_port_taken q reg ≡ true

suc_ℤ_parts : (a : ℤ) → pos_part (suc_ℤ a) + neg_part a ≡ suc (pos_part a + neg_part (suc_ℤ a))
suc_ℤ_parts (pos n) = omega arith
suc_ℤ_parts (negsuc zero) = refl
suc_ℤ_parts (negsuc (suc n)) = omega arith

int_eq_of_parts : (a b : ℤ) → pos_part a + neg_part b ≡ pos_part b + neg_part a → a ≡ b
int_eq_of_parts (pos m) (pos n) h = ground arith
int_eq_of_parts (negsuc m) (negsuc n) h = ground arith
int_eq_of_parts (pos m) (negsuc n) h = absurd (omega arith)
int_eq_of_parts (negsuc m) (pos n) h = absurd (omega arith)

-- A port at or above `a` is `a` or lies above it.
step_cases : (a q : ℤ) → a ≤ℤ q → (a ≡ q) ⊎ (suc_ℤ a ≤ℤ q)
step_cases a q h = elim (Bool-cases (int_eqb a q)) [
  | inl same ↦ inl ((int_eqb_iff a q).0 same)
  | inr other ↦ inr (
      omega (
        arith,
        suc_ℤ_parts a,
        λ (e : pos_part a + neg_part q ≡ pos_part q + neg_part a). differ other e,
      ))
]
  where
    differ : int_eqb a q ≡ false → pos_part a + neg_part q ≡ pos_part q + neg_part a → ⊥
    differ other e = ground (arith, int_eqb_iff a q, int_eq_of_parts a q e)

pick_from-some :
    (n : ℕ) (a p : ℤ) (reg : Registry)
    → pick_from n a reg ≡ some p
    → (a ≤ℤ p)
      × (pos_part p + neg_part a < pos_part a + neg_part p + n)
      × (is_port_taken p reg ≡ false)
      × AllTaken a p reg
unfolding pick_from
pick_from-some zero a p reg h = absurd (cc)
pick_from-some (suc n) a p reg h = elim (Bool-cases (is_port_taken a reg)) [
  | inl taken ↦
      let (above, below, free, all) = pick_from-some n (suc_ℤ a) p reg (ground arith) in
      (
        omega (arith, suc_ℤ_parts a),
        omega (arith, suc_ℤ_parts a),
        free,
        λ q lo hi. elim (step_cases a q lo) [
          | inl same ↦ rw (← same) taken
          | inr more ↦ all q more hi
        ],
      )
  | inr free ↦
      let here : a ≡ p = ground arith in
      (
        rw here (omega arith),
        rw here (omega arith),
        rw (← here) free,
        λ q lo hi. absurd (let same : a ≤ℤ a = omega arith in ground (arith, here)),
      )
]

pick_from-none :
    (n : ℕ) (a : ℤ) (reg : Registry)
    → pick_from n a reg ≡ none
    → (q : ℤ) → a ≤ℤ q
    → pos_part q + neg_part a < pos_part a + neg_part q + n
    → is_port_taken q reg ≡ true
unfolding pick_from
pick_from-none zero a reg h q lo hi = absurd (omega arith)
pick_from-none (suc n) a reg h q lo hi = elim (Bool-cases (is_port_taken a reg)) [
  | inl taken ↦ elim (step_cases a q lo) [
    | inl same ↦ rw (← same) taken
    | inr more ↦ pick_from-none n (suc_ℤ a) reg (ground arith) q more (omega (arith, suc_ℤ_parts a))
  ]
  | inr free ↦ absurd (ground arith)
]

-- What each outcome of pickTCPPort means.
abbrev pub Picked : ServerConfig → Registry → Result PickError ℤ → Type 0
Picked cfg reg (ok p) =
    (cfg.tcp_port_min ≤ℤ p)
    × (p ≤ℤ cfg.tcp_port_max)
    × (is_port_taken p reg ≡ false)
    × AllTaken cfg.tcp_port_min p reg
Picked cfg reg (err no_range) = cfg.tcp_port_min ≡ pos 0
Picked cfg reg (err (no_free_port a b)) =
    (a ≡ cfg.tcp_port_min)
    × (b ≡ cfg.tcp_port_max)
    × ((q : ℤ) → a ≤ℤ q → q ≤ℤ b → is_port_taken q reg ≡ true)

Picked-in_range :
    (cfg : ServerConfig) (reg : Registry) (r : Option ℤ)
    → pick_from (span cfg.tcp_port_min cfg.tcp_port_max) cfg.tcp_port_min reg ≡ r
    → Picked cfg reg (elim r [
      | none ↦ err (no_free_port cfg.tcp_port_min cfg.tcp_port_max)
      | some port ↦ ok port
    ])
Picked-in_range cfg reg none h =
    (refl, refl, λ q lo hi. pick_from-none _ cfg.tcp_port_min reg h q lo (omega arith))
Picked-in_range cfg reg (some p) h =
    let (lo, hi, free, all) = pick_from-some _ cfg.tcp_port_min p reg h in
    (lo, omega arith, free, all)

-- A picked port lies in the configured range, is free, and every port of the range below it is
-- taken. The range is reported full only if every port of it is taken, and missing only if its
-- lower end is 0.
pub pick_tcp_port-Picked :
    (cfg : ServerConfig) (reg : Registry) → Picked cfg reg (pick_tcp_port cfg reg)
unfolding pick_tcp_port
pick_tcp_port-Picked cfg reg = elim (Bool-cases (int_eqb cfg.tcp_port_min (pos 0))) [
  | inl zero_min ↦ rw zero_min ((int_eqb_iff cfg.tcp_port_min (pos 0)).0 zero_min)
  | inr set_min ↦ rw set_min (Picked-in_range cfg reg _ refl)
]
