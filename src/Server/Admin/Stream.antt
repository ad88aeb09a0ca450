-- ===== src/Server/Admin/Stream.antt =====
-- internal/server/dashboard.go, handleSSE: the frames of the stream of events. The first one is sent
-- at once, and one more at each tick until the client goes; json.Marshal is a parameter, which gives
-- `none` where it fails.
use nnel.Base.{ℕ, Bool, Option, none, some, List, [], ◌∷◌, ◌++◌, Text, text, if◌then◌else◌}
use nnel.Server.State.{Server}
use nnel.Server.Url.{Url}
use nnel.Server.Admin.Payload.{SsePayload}
use nnel.Server.Admin.Payload.Filling.{build_sse_payload}

abbrev pub frame_of : Option Text → List Text
frame_of none = []
frame_of (some json) = (text "data: " ++ (json ++ 10 ∷ 10 ∷ [])) ∷ []

module _ (parse_url : Text → Option Url) (format_time : ℕ → Text) (docker_logs : Text → Text)
    (marshal : SsePayload → Option Text) (started_at : ℕ) where
  -- The state and the time of a frame.
  abbrev pub send_frame : ℕ × Server → List Text
  send_frame (now, s) =
      frame_of (marshal (build_sse_payload parse_url format_time docker_logs started_at now s))

  unfoldable pub frames : List (ℕ × Server) → List Text
  frames [] = []
  frames (at ∷ later) = send_frame at ++ frames later

  -- `none` is the error 500 of a connection that cannot be flushed.
  unfoldable pub handle_sse : Bool → ℕ × Server → List (ℕ × Server) → Option (List Text)
  unfolding frames
  handle_sse can_flush first ticks = if can_flush then some (frames (first ∷ ticks)) else none
