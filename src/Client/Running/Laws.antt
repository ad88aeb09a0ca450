-- ===== src/Client/Running/Laws.antt =====
-- The client over all its connections.
use nnel.Base.{
  ℕ, suc, ◌≡◌, ◌≢◌, ◌⊎◌, refl, sym, ap, ◌∙◌, Bool, true, false, Option, none, some, List, [], ◌∷◌,
  ◌++◌, append_assoc, append-nil, All, length, ◌≤◌, Text, text_eqb, text_eqb-ne, text_eq, arith,
}
use nnel.Config.{ClientConfig}
use nnel.Proto.{Envelope}
use nnel.Client.{Reaction, handle_control, dynamic_add, dynamic_remove, set_tunnel_dir}
use nnel.Client.Backoff.{
  base_delay, max_delay, delay, delays, failures, delays_bounds, waits, delays-waits,
}
use nnel.Client.Running.{
  Attempt, Connected, State, react, connect_session, control_loop, round, run,
}

-- Only the tunnels may differ.
abbrev pub SameBut : ClientConfig → ClientConfig → Type 0
SameBut cfg cfg' =
    (cfg'.name ≡ cfg.name)
    × (cfg'.server ≡ cfg.server)
    × (cfg'.auth_token ≡ cfg.auth_token)
    × (cfg'.config_file ≡ cfg.config_file)

-- A reaction saves whatever it changes.
abbrev Saves : ClientConfig → Reaction → Type 0
Saves cfg r = SameBut cfg r.cfg × ((r.saved ≡ true) ⊎ (r.cfg ≡ cfg))

module _ (home_dir : Option Text) (join_path : Text → Text → Text) where
  Saves-handle_control :
      (can_send : Bool) (env : Envelope) (cfg : ClientConfig)
      → Saves cfg (handle_control home_dir join_path can_send env cfg)
  unfolding handle_control dynamic_add dynamic_remove set_tunnel_dir
  Saves-handle_control can_send env cfg = ground arith

  -- The file holds the configuration, of which only the tunnels have changed.
  abbrev Synced : ClientConfig → State → Type 0
  Synced cfg st = SameBut cfg st.cfg × (st.file ≡ st.cfg)

  Synced-react :
      (cfg : ClientConfig) (st : State) (r : Reaction)
      → cfg.config_file ≢ []
      → Saves st.cfg r
      → Synced cfg st
      → Synced cfg (react r st)
  Synced-react cfg st r set ((name, server, token, file), saved) ((n, s, t, f), held) =
      let written : text_eqb r.cfg.config_file [] ≡ false =
        rw (file, f) (text_eqb-ne cfg.config_file [] set) in
      ((name ∙ n, server ∙ s, token ∙ t, file ∙ f), ground (arith, written, saved, held))

  Synced-control_loop :
      (cfg : ClientConfig) (messages : List (Envelope × Bool)) (st : State)
      → cfg.config_file ≢ []
      → Synced cfg st
      → Synced cfg (control_loop home_dir join_path messages st)
  unfolding control_loop
  Synced-control_loop cfg [] st set synced = synced
  Synced-control_loop cfg ((env, can_send) ∷ messages) st set synced =
      Synced-control_loop cfg messages _ set (
        Synced-react cfg st (handle_control home_dir join_path can_send env st.cfg) set
          (Saves-handle_control can_send env st.cfg) synced)

  Synced-round :
      (cfg : ClientConfig) (a : Attempt) (attempt : ℕ) (st : State) (c : Connected)
      → cfg.config_file ≢ []
      → Synced cfg st
      → Synced cfg (round home_dir join_path a attempt st c).1
  Synced-round cfg a attempt st (sent, none, closed) set synced =
      Synced-control_loop cfg a.messages (record st { sent = st.sent ++ sent }) set synced
  Synced-round cfg a attempt st (sent, some e, closed) set synced = synced

  Synced-run :
      (cfg : ClientConfig) (attempts : List Attempt) (attempt : ℕ) (st : State)
      → cfg.config_file ≢ []
      → Synced cfg st
      → Synced cfg (run home_dir join_path attempts (attempt, st)).1
  unfolding run
  Synced-run cfg [] attempt st set synced = synced
  Synced-run cfg (a ∷ attempts) attempt st set synced =
      let (next, st') = round home_dir join_path a attempt st (connect_session st.cfg a) in
      Synced-run cfg attempts next st' set
        (Synced-round cfg a attempt st (connect_session st.cfg a) set synced)

  -- A client with a configuration file, in which its configuration is when Run starts, has it there
  -- whenever an attempt has ended, if the writes of the file succeed, whatever connections fail and
  -- whatever the server sends; and nothing but its tunnels ever changes.
  pub run-SameBut :
      (attempts : List Attempt) (attempt : ℕ) (st : State)
      → st.cfg.config_file ≢ []
      → st.file ≡ st.cfg
      → ((run home_dir join_path attempts (attempt, st)).1.file
          ≡ (run home_dir join_path attempts (attempt, st)).1.cfg)
        × SameBut st.cfg (run home_dir join_path attempts (attempt, st)).1.cfg
  run-SameBut attempts attempt st set held =
      let (same, synced) =
        Synced-run st.cfg attempts attempt st set ((refl, refl, refl, refl), held) in
      (synced, same)

  -- Which attempts connect.
  abbrev pub has_connected : Connected → Bool
  has_connected (sent, none, closed) = true
  has_connected (sent, some e, closed) = false

  unfoldable pub connects : List Attempt → ℕ × State → List Bool
  connects [] at = []
  connects (a ∷ attempts) (attempt, st) =
      let c = connect_session st.cfg a in
      has_connected c ∷ connects attempts (round home_dir join_path a attempt st c)

  slept-control_loop :
      (messages : List (Envelope × Bool)) (st : State)
      → (control_loop home_dir join_path messages st).slept ≡ st.slept
  unfolding control_loop
  slept-control_loop [] st = refl
  slept-control_loop ((env, can_send) ∷ messages) st = slept-control_loop messages _

  -- One round, and what follows it.
  slept-round :
      (a : Attempt) (attempts : List Attempt) (attempt : ℕ) (st : State) (c : Connected)
      → ((next : ℕ) (st' : State)
          → (run home_dir join_path attempts (next, st')).1.slept
            ≡ st'.slept ++ delays next (connects attempts (next, st')))
      → (run home_dir join_path attempts (round home_dir join_path a attempt st c)).1.slept
        ≡ st.slept
          ++ delays attempt
              (has_connected c ∷ connects attempts (round home_dir join_path a attempt st c))
  unfolding delays
  slept-round a attempts attempt st (sent, none, closed) rest =
      let begun : State = record st { sent = st.sent ++ sent } in
      let ended : State = control_loop home_dir join_path a.messages begun in
      rest 0 ended
      ∙ ap (λ l. l ++ delays 0 (connects attempts (0, ended))) (slept-control_loop a.messages begun)
  slept-round a attempts attempt st (sent, some e, closed) rest =
      let waited : State = record st {
        sent = st.sent ++ sent;
        slept = st.slept ++ delay attempt ∷ [];
      } in
      rest (suc attempt) waited ∙ append_assoc st.slept (delay attempt ∷ []) _

  slept-run :
      (attempts : List Attempt) (attempt : ℕ) (st : State)
      → (run home_dir join_path attempts (attempt, st)).1.slept
        ≡ st.slept ++ delays attempt (connects attempts (attempt, st))
  unfolding run delays connects
  slept-run [] attempt st = sym (append-nil st.slept)
  slept-run (a ∷ attempts) attempt st =
      slept-round a attempts attempt st (connect_session st.cfg a) (slept-run attempts)

  -- From its start the client waits once after each attempt that fails: one second after the first
  -- failure and after the first one that follows a connection, twice the wait before after each
  -- further one, and never more than 60 seconds.
  pub run-delays :
      (attempts : List Attempt) (st : State)
      → st.slept ≡ []
      → ((run home_dir join_path attempts (0, st)).1.slept
          ≡ waits base_delay (connects attempts (0, st)))
        × All
            (λ d. (base_delay ≤ d) × (d ≤ max_delay))
            (run home_dir join_path attempts (0, st)).1.slept
        × (length (run home_dir join_path attempts (0, st)).1.slept
            ≡ failures (connects attempts (0, st)))
  unfolding delay
  run-delays attempts st fresh =
      let same : (run home_dir join_path attempts (0, st)).1.slept
          ≡ delays 0 (connects attempts (0, st)) =
        slept-run attempts 0 st ∙ rw fresh refl in
      let (bounded, counted, _) = delays_bounds 0 (connects attempts (0, st)) in
      (same ∙ delays-waits 0 (connects attempts (0, st)), rw same bounded, rw same counted)
