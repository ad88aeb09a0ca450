-- ===== src/Server/Control/Authenticating.antt =====
-- Who is let in.
use nnel.Base.{
  ◌≡◌, ◌≢◌, refl, ◌⊎◌, inl, inr, Bool, true, false, Option, none, some, Bool-cases, Option-cases,
  List, [], ◌∷◌, Text, text, text_eqb, text_eqb_iff, text_eq, if◌then◌else◌, arith,
}
use nnel.Config.{ServerConfig}
use nnel.Proto.{Envelope, Auth, payload, unmarshal_auth, type_auth}
use nnel.Server.Control.{Reply, auth_ack, auth_error, authenticate}

-- What the outcome means for the first message.
abbrev pub Checked :
    ServerConfig → Text → Option Envelope → List Reply × Option (Text × Text) → Type 0
Checked cfg new_id first (replies, some (id, name)) =
    (env : Envelope) × (auth : Auth) × (first ≡ some env)
    × (env.type ≡ type_auth)
    × (payload unmarshal_auth env ≡ some auth)
    × ((cfg.auth_token ≡ []) ⊎ (auth.token ≡ cfg.auth_token))
    × (id ≡ new_id)
    × (name ≡ auth.name)
    × (replies ≡ auth_ack new_id ∷ [])
Checked cfg new_id first (replies, none) =
    (replies ≡ []) ⊎ ((replies ≡ auth_error (text "invalid token") ∷ []) × (cfg.auth_token ≢ []))

-- A client is let in only if its first message is an auth message that carries the server's token, or
-- any if the server has none; it then gets the new id, in an acknowledgement that was sent, and keeps
-- the name that it gave. A client that is not let in hears nothing, or that its token is invalid, which
-- only a server with a token says.
pub authenticate-Checked :
    (cfg : ServerConfig) (new_id : Text) (ack_sent : Bool) (first : Option Envelope)
    → Checked cfg new_id first (authenticate cfg new_id ack_sent first)
unfolding authenticate
authenticate-Checked cfg new_id ack_sent none = inl refl
authenticate-Checked cfg new_id ack_sent (some env) =
    elim (Bool-cases (text_eqb env.type type_auth)) [
      | inr other ↦ rw other (inl refl)
      | inl is_auth ↦ rw is_auth (elim (Option-cases (payload unmarshal_auth env)) [
        | inl bad ↦ rw bad (inl refl)
        | inr (auth, read) ↦ rw read (elim (Bool-cases (text_eqb cfg.auth_token [])) [
          | inl no_token ↦ rw no_token (
              sent auth read ((text_eqb_iff env.type type_auth).0 is_auth)
                (inl ((text_eqb_iff cfg.auth_token []).0 no_token)) ack_sent)
          | inr set ↦ rw set (elim (Bool-cases (text_eqb auth.token cfg.auth_token)) [
            | inl same ↦ rw same (
                sent auth read ((text_eqb_iff env.type type_auth).0 is_auth)
                  (inr ((text_eqb_iff auth.token cfg.auth_token).0 same)) ack_sent)
            | inr differs ↦
                rw differs (inr (refl, λ empty. ground (arith, text_eqb_iff cfg.auth_token [])))
          ])
        ])
      ])
    ]
  where
    sent :
        (auth : Auth)
        → payload unmarshal_auth env ≡ some auth
        → env.type ≡ type_auth
        → ((cfg.auth_token ≡ []) ⊎ (auth.token ≡ cfg.auth_token))
        → (ack : Bool)
        → Checked cfg new_id
            (some env)
            (if ack then (auth_ack new_id ∷ [], some (new_id, auth.name)) else ([], none))
    sent auth read typed allowed true = (env, auth, refl, typed, read, allowed, refl, refl, refl)
    sent auth read typed allowed false = inl refl
