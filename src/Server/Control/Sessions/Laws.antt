-- ===== src/Server/Control/Sessions/Laws.antt =====
-- A whole session of a client, and what it leaves behind.
use nnel.Base.{
  ℕ, ◌≡◌, refl, sym, ap, ◌∙◌, inl, inr, Bool-cases, Option, none, some, List, [], ◌∷◌, ◌++◌, ℤ,
  Text, text_eq, lookup, Result,
}
use nnel.Proto.{Envelope}
use nnel.Server.Registry.{add_client}
use nnel.Server.Registry.Routes.{Key}
use nnel.Server.Registry.Connect.{add_client-IsConsistent, IsLive-new}
use nnel.Server.Registry.Remove.{remove_client-IsConsistent}
use nnel.Server.Registry.Owner.{
  owner, without_owner, owner-remove_client, owner-add_client, unknown_owner,
}
use nnel.Server.State.{Server}
use nnel.Server.Sound.{IsSound}
use nnel.Server.Url.{Url}
use nnel.Server.Control.{Handled, Reply, handle_message, authenticate}
use nnel.Server.Control.Authenticating.{Checked, authenticate-Checked}
use nnel.Server.Control.Sessions.{
  Connection, Ended, entry_of, followed_by, loop, leave, admitted, run,
}
use nnel.Server.Control.Sessions.Handling.{IsConnected, Kept, Kept-same, Kept-message}

Kept-trans :
    (id : Text) (s t : Server) (r : Handled)
    → ((k : Key) → without_owner id (owner t.registry k) ≡ without_owner id (owner s.registry k))
    → t.deployed_apps ≡ s.deployed_apps
    → Kept id t r
    → Kept id s r
Kept-trans id s t none owners apps kept = kept
Kept-trans id s t (some (u, replies)) owners apps (sound, connected, later, apps') =
    (sound, connected, (λ k. later k ∙ owners k), apps' ∙ apps)

Kept-followed_by :
    (id : Text) (s : Server) (r : Handled) (rest : Server → Handled)
    → Kept id s r
    → ((t : Server) → IsSound t → IsConnected t.registry id → Kept id t (rest t))
    → Kept id s (followed_by r rest)
Kept-followed_by id s none rest kept go_on = kept
Kept-followed_by id s (some (t, replies)) rest (sound, connected, owners, apps) go_on =
    more (rest t) (Kept-trans id s t (rest t) owners apps (go_on t sound connected))
  where
    more :
        (r : Handled)
        → Kept id s r
        → Kept id s (elim r [ none ↦ none | some (u, later) ↦ some (u, replies ++ later) ])
    more none kept = kept
    more (some (u, later)) kept = kept

-- A session that ended: it did not fail, the state is sound, every key belongs to whom it did before,
-- and the deployed apps are the same.
abbrev pub LeavesNoTrace : Server → Option (Server × List Reply × List Ended) → Type 0
LeavesNoTrace s none = ⊥
LeavesNoTrace s (some (s', _, _)) =
    IsSound s'
    × ((k : Key) → owner s'.registry k ≡ owner s.registry k)
    × (s'.deployed_apps ≡ s.deployed_apps)

leave_lem :
    (c : Connection) (id : Text) (s : Server) (r : Handled)
    → ((k : Key) → without_owner id (owner s.registry k) ≡ owner s.registry k)
    → Kept id s r
    → LeavesNoTrace s (leave c id r)
leave_lem c id s none free kept = kept
leave_lem c id s (some (t, replies)) free (sound, connected, owners, apps) = (
  record {
    consistent = remove_client-IsConsistent id t.registry sound.consistent;
    keyed = sound.keyed;
  },
  (λ k. owner-remove_client id t.registry k sound.consistent ∙ owners k ∙ free k),
  apps,
)

module _ (parse_url : Text → Option Url) (listen : ℤ → Result Text ℕ) where
  -- The loop keeps what each message keeps, and ends.
  Kept-loop :
      (id : Text) (envs : List Envelope) (s : Server)
      → IsSound s
      → IsConnected s.registry id
      → Kept id s (loop parse_url listen id envs s)
  unfolding loop
  Kept-loop id [] s sound connected = Kept-same id s [] sound connected
  Kept-loop id (env ∷ envs) s sound (p, e, live, named) =
      Kept-followed_by id s (handle_message parse_url listen s id env)
        (loop parse_url listen id envs)
        (rw named at (Kept-message parse_url listen s p e env sound live)) (Kept-loop id envs)

  entered_lem :
      (s : Server) (c : Connection) (r : List Reply × Option (Text × Text))
      → IsSound s
      → lookup c.new_id s.registry.by_id ≡ none
      → Checked s.cfg c.new_id c.first r
      → LeavesNoTrace s (admitted parse_url listen s c r)
  entered_lem s c (replies, none) sound fresh checked = (sound, (λ k. refl), refl)
  entered_lem s c (replies, some (id, name)) sound fresh (_, _, _, _, _, _, drawn, _, _) =
      let unknown : lookup id s.registry.by_id ≡ none = rw drawn fresh in
      let entry = entry_of c (id, name) in
      let reg = add_client entry s.registry in
      leave_lem c id s _ (λ k. sym (unknown_owner id s.registry k sound.consistent unknown))
        (Kept-followed_by id s (some (record s { registry = reg }, replies))
          (loop parse_url listen id c.messages)
          (
            record {
              consistent = add_client-IsConsistent entry s.registry sound.consistent unknown refl;
              keyed = sound.keyed;
            },
            (_, entry, IsLive-new entry s.registry sound.consistent unknown, refl),
            (λ k. ap (without_owner id) (owner-add_client entry s.registry k sound.consistent)),
            refl,
          )
          (Kept-loop id c.messages))

  -- A session during which the server handles nothing else never fails, whatever is received in it, and
  -- when it has ended the state is sound, every key belongs to the client to which it belonged before,
  -- and the deployed apps are the same. The state before is sound, and the id that is drawn is not in
  -- use.
  pub run-LeavesNoTrace :
      (s : Server) (c : Connection)
      → IsSound s
      → lookup c.new_id s.registry.by_id ≡ none
      → LeavesNoTrace s (run parse_url listen s c)
  unfolding run
  run-LeavesNoTrace s c sound fresh = elim (Bool-cases c.opened) [
    | inl up ↦ rw up (
        entered_lem s c (authenticate s.cfg c.new_id c.ack_sent c.first) sound fresh
          (authenticate-Checked s.cfg c.new_id c.ack_sent c.first))
    | inr down ↦ rw down (sound, (λ k. refl), refl)
  ]
