-- ===== src/Server/Deploy/Detecting/Scanning.antt =====
-- The scans of one poll and of all of them: an address is found exactly if a candidate answers.
use nnel.Base.{
  ℕ, zero, suc, ◌≡◌, refl, sym, subst, ◌⊎◌, inl, inr, Bool, true, Bool-cases, Option, none, some,
  List, [], ◌∷◌, Text, text_eq, int_eq, if◌then◌else◌, Any, get_elem?, split, ℤ, if_some, arith,
}
use nnel.Server.Deploy.Detecting.{
  parse_ss_port, Poll, is_candidate, ipv4_addr, ipv6_addr, probe, scan_line, or_else, scan,
  detect_container_port,
}

-- One of the two addresses of the port, and it accepts.
abbrev pub Answers : (Text → Bool) → ℤ → Text → Type 0
Answers accepts p addr = ((addr ≡ ipv4_addr p) ⊎ (addr ≡ ipv6_addr p)) × (accepts addr ≡ true)

-- A line of the output that has a candidate which answers.
pub record Heard (known : List ℤ) (poll : Poll) (addr : Text) : Type 0 where
  pub i : ℕ
  pub line : Text
  pub is_line : get_elem? (split b'\n' poll.out) i ≡ some line
  pub candidate : is_candidate known (parse_ss_port line) ≡ true
  pub answers : Answers (poll.accepts i) (parse_ss_port line) addr

-- One of two texts, the first one that is accepted.
first_accepted :
    (accepts : Text → Bool) (x y addr : Text)
    → (if accepts x then some x else if accepts y then some y else none) ≡ some addr
    → ((addr ≡ x) ⊎ (addr ≡ y)) × (accepts addr ≡ true)
first_accepted accepts x y addr h = elim (Bool-cases (accepts x)) [
  | inl first ↦
      let same : x ≡ addr = ground arith in
      (inl (sym same), subst (λ a. accepts a ≡ true) same first)
  | inr silent ↦ elim (Bool-cases (accepts y)) [
    | inl second ↦
        let same : y ≡ addr = ground arith in
        (inr (sym same), subst (λ a. accepts a ≡ true) same second)
    | inr nothing ↦ absurd (ground arith)
  ]
]

probe_fails :
    (accepts : Text → Bool) (x y addr : Text)
    → ((addr ≡ x) ⊎ (addr ≡ y))
    → accepts addr ≡ true
    → (found : Text) × ((if accepts x then some x else if accepts y then some y else none)
        ≡ some found)
probe_fails accepts x y addr h k = elim (Bool-cases (accepts x)) [
  | inl first ↦ (x, rw first refl)
  | inr silent ↦ (
    y,
    rw silent (elim h [
      | inl same ↦ absurd (ground (arith, silent, subst (λ a. accepts a ≡ true) same k))
      | inr same ↦ rw (subst (λ a. accepts a ≡ true) same k) refl
    ]),
  )
]

scan_line-Answers :
    (known : List ℤ) (accepts : Text → Bool) (p : ℤ) (addr : Text)
    → scan_line known accepts p ≡ some addr
    → (is_candidate known p ≡ true) × Answers accepts p addr
scan_line-Answers known accepts p addr h =
    let (candidate, answer) = if_some (is_candidate known p) (probe accepts p) addr h in
    (candidate, first_accepted accepts (ipv4_addr p) (ipv6_addr p) addr answer)

or_else-some {ℓ} :
    {A : Type ℓ} (o later : Option A) (a : A)
    → or_else o later ≡ some a
    → (o ≡ some a) ⊎ (later ≡ some a)
or_else-some none later a h = inr h
or_else-some (some b) later a h = inl h

or_else_later {ℓ} :
    {A : Type ℓ} (o : Option A) {later : Option A}
    → (a : A) × (later ≡ some a)
    → (a : A) × (or_else o later ≡ some a)
or_else_later none h = h
or_else_later (some b) h = (b, refl)

-- A line of a run of lines that starts at a number.
abbrev LineHeard : List ℤ → (ℕ → Text → Bool) → List Text → Text → Type 0
LineHeard known accepts lines addr =
    (i : ℕ) × (line : Text) × (get_elem? lines i ≡ some line)
    × (is_candidate known (parse_ss_port line) ≡ true)
    × Answers (accepts i) (parse_ss_port line) addr

scan-LineHeard :
    (known : List ℤ) (accepts : ℕ → Text → Bool) (lines : List Text) (addr : Text)
    → scan known accepts lines ≡ some addr
    → LineHeard known accepts lines addr
unfolding scan
scan-LineHeard known accepts [] addr h = absurd (cc)
scan-LineHeard known accepts (line ∷ lines) addr h =
    elim (or_else-some _ (scan known (λ i. accepts (suc i)) lines) addr h) [
      | inl now ↦
          let (candidate, answers) =
            scan_line-Answers known (accepts 0) (parse_ss_port line) addr now in
          (0, line, refl, candidate, answers)
      | inr later ↦
          let (i, found, at, candidate, answers) =
            scan-LineHeard known (λ i. accepts (suc i)) lines addr later in
          (suc i, found, at, candidate, answers)
    ]

pub detect_container_port-Heard :
    (known : List ℤ) (polls : List Poll) (addr : Text)
    → detect_container_port known polls ≡ some addr
    → Any (λ poll. Heard known poll addr) polls
unfolding detect_container_port
detect_container_port-Heard known [] addr h = absurd (cc)
detect_container_port-Heard known (poll ∷ polls) addr h =
    elim (or_else-some _ (detect_container_port known polls) addr h) [
      | inl now ↦
          let (i, line, at, candidate, answers) =
            scan-LineHeard known poll.accepts (split b'\n' poll.out) addr now in
          inl
            (record { i = i; line = line; is_line = at; candidate = candidate; answers = answers })
      | inr later ↦ inr (detect_container_port-Heard known polls addr later)
    ]

-- A candidate that answers is not passed over.
scan-LineHeard_some :
    (known : List ℤ) (accepts : ℕ → Text → Bool) (lines : List Text) (i : ℕ) (line addr : Text)
    → get_elem? lines i ≡ some line
    → is_candidate known (parse_ss_port line) ≡ true
    → Answers (accepts i) (parse_ss_port line) addr
    → (found : Text) × (scan known accepts lines ≡ some found)
unfolding scan
scan-LineHeard_some known accepts [] i line addr at candidate answers = absurd (cc)
scan-LineHeard_some known accepts (first ∷ lines) zero line addr at candidate (here, yes') =
    let same : first ≡ line = ground arith in
    let (found, e) =
      probe_fails (accepts 0) (ipv4_addr (parse_ss_port line)) (ipv6_addr (parse_ss_port line)) addr
        here yes' in
    (found, rw (same, candidate, e) refl)
scan-LineHeard_some known accepts (first ∷ lines) (suc i) line addr at candidate answers =
    or_else_later (scan_line known (accepts 0) (parse_ss_port first))
      (scan-LineHeard_some known (λ i. accepts (suc i)) lines i line addr at candidate answers)

-- A candidate that answers in one of the polls is not passed over either.
pub detect_container_port-Heard-some :
    (known : List ℤ) (polls : List Poll) (addr : Text)
    → Any (λ poll. Heard known poll addr) polls
    → (found : Text) × (detect_container_port known polls ≡ some found)
unfolding detect_container_port
detect_container_port-Heard-some known [] addr h = absurd h
detect_container_port-Heard-some known (poll ∷ polls) addr (inl heard) =
    let (found, e) =
      scan-LineHeard_some known poll.accepts (split b'\n' poll.out) heard.i heard.line addr
        heard.is_line heard.candidate heard.answers in
    (found, rw e refl)
detect_container_port-Heard-some known (poll ∷ polls) addr (inr later) =
    or_else_later (scan known poll.accepts (split b'\n' poll.out))
      (detect_container_port-Heard-some known polls addr later)
