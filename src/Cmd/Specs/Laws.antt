-- ===== src/Cmd/Specs/Laws.antt =====
-- A tunnel that is read says what its flag says.
use nnel.Base.{
  ◌≡◌, refl, sym, ap, ◌∙◌, ◌⊎◌, inl, inr, true, false, none, some, Bool-cases, Option-cases, List,
  [], ◌∷◌, ◌++◌, append_assoc, pos, Text, text, text_eqb, text_eqb_iff, contains, split,
  no_part_contains, get_elem?, append-nil, length, ok-injective, ◌<◌, join, join-split, atoi,
  Result, ok, err, arith,
}
use nnel.Config.{TunnelConfig}
use nnel.Cmd.Specs.{
  SpecError, with_remote_port, config_of_parts, parts_to_config, invalid_spec, invalid_remote_port,
  parse_tunnel_spec, add_config, parse_tunnel_specs,
}

-- How a flag spells a tunnel: name:local:tcp or name:local:tcp:port, where the local address is a host
-- and a port, so that `tcp` is the fourth of four or five parts; and name:local else.
abbrev pub Spells : Text → TunnelConfig → Type 0
Spells spec t =
    (contains b':' t.name ≡ false)
    × (((t.type ≡ text "http")
          × (t.subdomain ≡ t.name)
          × (t.remote_port ≡ pos 0)
          × (spec ≡ t.name ++ b':' ∷ t.local)
          × (get_elem? (split b':' spec) 3 ≡ some (text "tcp") → 5 < length (split b':' spec)))
        ⊎ ((t.type ≡ text "tcp")
            × (t.subdomain ≡ [])
            × (t.remote_port ≡ pos 0)
            × (spec ≡ t.name ++ b':' ∷ (t.local ++ b':' ∷ text "tcp")))
        ⊎ ((t.type ≡ text "tcp")
            × (t.subdomain ≡ [])
            × (port : Text) × (atoi port ≡ some t.remote_port)
            × (spec ≡ t.name ++ b':' ∷ (t.local ++ b':' ∷ (text "tcp" ++ b':' ∷ port)))))

abbrev pub Read : Text → Result SpecError TunnelConfig → Type 0
Read spec (err (invalid_spec s)) = (s ≡ spec) × (length (split b':' spec) < 3)
Read spec (err (invalid_remote_port s)) =
    (s ≡ spec)
    × (front : Text) × (port : Text) × (spec ≡ front ++ b':' ∷ (text "tcp" ++ b':' ∷ port))
    × (atoi port ≡ none)
Read spec (ok t) = Spells spec t

-- `name:host:port:tcp`, and more, with host and port as one local address.
retold :
    (spec name host port kind more : Text)
    → spec ≡ name ++ b':' ∷ (host ++ b':' ∷ (port ++ b':' ∷ (kind ++ more)))
    → text_eqb kind (text "tcp") ≡ true
    → spec ≡ name ++ b':' ∷ ((host ++ b':' ∷ port) ++ b':' ∷ (text "tcp" ++ more))
retold spec name host port kind more e tcp =
    let is_tcp : kind ≡ text "tcp" = (text_eqb_iff kind (text "tcp")).0 tcp in
    e
    ∙ ap (λ s. name ++ b':' ∷ s)
        (rw is_tcp (sym (append_assoc host (b':' ∷ port) (b':' ∷ (text "tcp" ++ more)))))

config_of_parts-Read :
    (spec name host port : Text) (rest : List Text)
    → contains b':' name ≡ false
    → spec ≡ join b':' (name ∷ host ∷ port ∷ rest)
    → split b':' spec ≡ name ∷ host ∷ port ∷ rest
    → Read spec (config_of_parts spec name host port rest)
config_of_parts-Read spec name host port [] plain e cut =
    (plain, inl (refl, refl, refl, e, rw cut λ t. absurd (cc)))
config_of_parts-Read spec name host port (kind ∷ []) plain e cut =
    elim (Bool-cases (text_eqb kind (text "tcp"))) [
      | inl tcp ↦ rw tcp (
        plain,
        inr (
            inl
              (refl, refl, refl, retold spec name host port kind [] (rw (append-nil kind) e) tcp)),
      )
      | inr http ↦ rw http (
        plain,
        inl (
          refl,
          refl,
          refl,
          e,
          rw cut λ t. absurd (ground (arith, http, t, text_eqb_iff kind (text "tcp"))),
        ),
      )
    ]
config_of_parts-Read spec name host port (kind ∷ remote ∷ []) plain e cut =
    elim (Bool-cases (text_eqb kind (text "tcp"))) [
      | inl tcp ↦ rw tcp (elim (Option-cases (atoi remote)) [
        | inl bad ↦
            rw (bad, with_remote_port)
              (
                refl,
                name ++ b':' ∷ (host ++ b':' ∷ port),
                remote,
                retold spec name host port kind (b':' ∷ remote) e tcp
                    ∙ sym (
                        append_assoc name (b':' ∷ (host ++ b':' ∷ port))
                          (b':' ∷ (text "tcp" ++ b':' ∷ remote))),
                bad,
              )
        | inr (n, read) ↦
            rw (read, with_remote_port)
              (
                plain,
                inr (
                    inr (
                      refl,
                      refl,
                      remote,
                      read,
                      retold spec name host port kind (b':' ∷ remote) e tcp,
                    )),
              )
      ])
      | inr http ↦ rw http (
        plain,
        inl (
          refl,
          refl,
          refl,
          e,
          rw cut λ t. absurd (ground (arith, http, t, text_eqb_iff kind (text "tcp"))),
        ),
      )
    ]
config_of_parts-Read spec name host port (kind ∷ remote ∷ more ∷ rest) plain e cut =
    (plain, inl (refl, refl, refl, e, rw cut λ t. omega arith))

parts-Read :
    (spec : Text) (parts : List Text)
    → split b':' spec ≡ parts
    → Read spec (parts_to_config spec parts)
parts-Read spec [] e = (refl, ground (arith, e))
parts-Read spec (name ∷ []) e = (refl, ground (arith, e))
parts-Read spec (name ∷ host ∷ []) e = (refl, ground (arith, e))
parts-Read spec (name ∷ host ∷ port ∷ rest) e =
    config_of_parts-Read spec name host port rest (rw e at (no_part_contains b':' spec)).0
      (sym (join-split b':' spec) ∙ ap (join b':') e) e

-- A flag that is accepted spells the tunnel that is made of it: its name, which has no colon, its
-- local address, and for TCP a remote port or 0. It is refused if it has fewer than three parts, or
-- if a port behind `tcp` is no number.
pub parse_tunnel_spec-Read : (spec : Text) → Read spec (parse_tunnel_spec spec)
unfolding parse_tunnel_spec
parse_tunnel_spec-Read spec = parts-Read spec (split b':' spec) refl

-- The tunnels of the flags, one for one and in their order.
abbrev pub SpellAll : List Text → List TunnelConfig → Type 0
SpellAll [] [] = Unit
SpellAll (spec ∷ specs) (t ∷ ts) = Spells spec t × SpellAll specs ts
SpellAll [] (t ∷ ts) = ⊥
SpellAll (spec ∷ specs) [] = ⊥

-- When all flags are accepted, the tunnels are what they spell, one for one and in their order.
pub parse_tunnel_specs-SpellAll :
    (specs : List Text) (ts : List TunnelConfig)
    → parse_tunnel_specs specs ≡ ok ts
    → SpellAll specs ts
unfolding parse_tunnel_specs
parse_tunnel_specs-SpellAll [] ts e = rw (← (ok-injective e)) tt
parse_tunnel_specs-SpellAll (spec ∷ specs) ts e =
    step (parse_tunnel_spec spec) (parse_tunnel_specs specs) (parse_tunnel_spec-Read spec)
      (parse_tunnel_specs-SpellAll specs) e
  where
    step :
        (r : Result SpecError TunnelConfig) (rest : Result SpecError (List TunnelConfig))
        → Read spec r
        → ((us : List TunnelConfig) → rest ≡ ok us → SpellAll specs us)
        → add_config r rest ≡ ok ts
        → SpellAll (spec ∷ specs) ts
    step (err x) rest here later h = absurd (cc)
    step (ok t) (err x) here later h = absurd (cc)
    step (ok t) (ok us) here later h = rw (← (ok-injective h)) (here, later us refl)
