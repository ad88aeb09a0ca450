-- ===== src/Server/Lifetime/Docker.antt =====
-- What the calls of docker in internal/server/deploy.go do to the containers, over an interface of what
-- docker promises.
use nnel.Base.{
  ◌≡◌, refl, ◌∙◌, inl, inr, Bool, true, false, List, [], ◌∷◌, Text, text_eqb, text_eq, All, In,
}
use nnel.Server.Lifetime.{DockerCall, stop, rm, rm_force, rmi, run, container_name}

abbrev pub starts : DockerCall → Bool
starts (run env_file container image) = true
starts _ = false

-- The container that a call is about.
abbrev pub concerns : DockerCall → Text → Bool
concerns (stop c) d = text_eqb c d
concerns (rm c) d = text_eqb c d
concerns (rm_force c) d = text_eqb c d
concerns (run env_file c image) d = text_eqb c d
concerns (rmi image) d = false

-- The containers of a machine, and the calls. `docker inspect` says whether one is running.
pub record Docker (W : Type 0) : Type 0 where
  pub exec : DockerCall → W → W
  pub is_running : Text → W → Bool
  pub stops : (c : Text) (w : W) → is_running c (exec (stop c) w) ≡ false
  -- a container that does not run stays so, but for `run`;
  pub rests :
      (call : DockerCall) (c : Text) (w : W)
      → starts call ≡ false
      → is_running c w ≡ false
      → is_running c (exec call w) ≡ false
  -- and a call is about one container only.
  pub others :
      (call : DockerCall) (c : Text) (w : W)
      → concerns call c ≡ false
      → is_running c (exec call w) ≡ is_running c w

module _ {W : Type 0} (d : Docker W) where
  unfoldable pub exec_all : List DockerCall → W → W
  exec_all [] w = w
  exec_all (c ∷ cs) w = exec_all cs (d.exec c w)

  -- `docker inspect` of the container of an app.
  abbrev pub app_runs : W → Text → Bool
  app_runs w name = d.is_running (container_name name) w

  exec_all_rests :
      (cs : List DockerCall) (c : Text) (w : W)
      → All (λ call. starts call ≡ false) cs
      → d.is_running c w ≡ false
      → d.is_running c (exec_all cs w) ≡ false
  unfolding exec_all
  exec_all_rests [] c w none_starts down = down
  exec_all_rests (call ∷ cs) c w (idle, none_starts) down =
      exec_all_rests cs c (d.exec call w) none_starts (d.rests call c w idle down)

  pub exec_all_stops :
      (cs : List DockerCall) (c : Text) (w : W)
      → All (λ call. starts call ≡ false) cs
      → In (stop c) cs
      → d.is_running c (exec_all cs w) ≡ false
  unfolding exec_all
  exec_all_stops [] c w none_starts at = absurd at
  exec_all_stops (call ∷ cs) c w (idle, none_starts) (inl here) =
      exec_all_rests cs c (d.exec call w) none_starts (rw here (d.stops c w))
  exec_all_stops (call ∷ cs) c w (idle, none_starts) (inr later) =
      exec_all_stops cs c (d.exec call w) none_starts later

  pub exec_all_others :
      (cs : List DockerCall) (c : Text) (w : W)
      → All (λ call. concerns call c ≡ false) cs
      → d.is_running c (exec_all cs w) ≡ d.is_running c w
  unfolding exec_all
  exec_all_others [] c w far = refl
  exec_all_others (call ∷ cs) c w (off, far) =
      exec_all_others cs c (d.exec call w) far ∙ d.others call c w off
