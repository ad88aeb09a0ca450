-- ===== src/Proto/RoundTrip.antt =====
-- Every payload comes back from its JSON form, and every message from its envelope. Texts are taken to
-- be valid UTF-8.
use nnel.Base.{
  ◌≡◌, refl, true, Option, some, is_int64, Text, arith, text_eqb_iff, int_eqb_iff, [], pos,
}
use nnel.Proto.Encoding.{Json}
use nnel.Proto.{
  Auth, AuthAck, AuthError, RegisterTunnel, TunnelRegistered, TunnelError, Heartbeat, AddTunnel,
  RemoveTunnel, Promote, PromoteError, SetTunnelDir, StreamHeader, marshal_auth, marshal_auth_ack,
  marshal_auth_error, marshal_register_tunnel, marshal_tunnel_registered, marshal_tunnel_error,
  marshal_heartbeat, marshal_add_tunnel, marshal_remove_tunnel, marshal_promote,
  marshal_promote_error, marshal_set_tunnel_dir, marshal_stream_header, unmarshal_auth,
  unmarshal_auth_ack, unmarshal_auth_error, unmarshal_register_tunnel, unmarshal_tunnel_registered,
  unmarshal_tunnel_error, unmarshal_heartbeat, unmarshal_add_tunnel, unmarshal_remove_tunnel,
  unmarshal_promote, unmarshal_promote_error, unmarshal_set_tunnel_dir, unmarshal_stream_header,
  Envelope, send, recv, payload, type_auth, type_auth_ack, type_auth_error, type_register_tunnel,
  type_tunnel_registered, type_tunnel_error, type_heartbeat, type_add_tunnel, type_remove_tunnel,
  type_promote, type_promote_error, type_set_tunnel_dir,
}

unmarshal-marshal_auth : (m : Auth) → unmarshal_auth (marshal_auth m) ≡ some m
unfolding unmarshal_auth
unmarshal-marshal_auth m = refl

unmarshal-marshal_auth_ack : (m : AuthAck) → unmarshal_auth_ack (marshal_auth_ack m) ≡ some m
unfolding unmarshal_auth_ack
unmarshal-marshal_auth_ack m = refl

unmarshal-marshal_auth_error :
    (m : AuthError) → unmarshal_auth_error (marshal_auth_error m) ≡ some m
unfolding unmarshal_auth_error
unmarshal-marshal_auth_error m = refl

unmarshal-marshal_register_tunnel :
    (m : RegisterTunnel)
    → is_int64 m.remote_port ≡ true
    → unmarshal_register_tunnel (marshal_register_tunnel m) ≡ some m
unfolding unmarshal_register_tunnel
unmarshal-marshal_register_tunnel m h = rw h

unmarshal-marshal_tunnel_registered :
    (m : TunnelRegistered) → unmarshal_tunnel_registered (marshal_tunnel_registered m) ≡ some m
unfolding unmarshal_tunnel_registered
unmarshal-marshal_tunnel_registered m = refl

unmarshal-marshal_tunnel_error :
    (m : TunnelError) → unmarshal_tunnel_error (marshal_tunnel_error m) ≡ some m
unfolding unmarshal_tunnel_error
unmarshal-marshal_tunnel_error m = refl

unmarshal-marshal_heartbeat :
    (m : Heartbeat)
    → is_int64 m.timestamp ≡ true
    → unmarshal_heartbeat (marshal_heartbeat m) ≡ some m
unfolding unmarshal_heartbeat
unmarshal-marshal_heartbeat m h = rw h

unmarshal-marshal_add_tunnel :
    (m : AddTunnel)
    → is_int64 m.remote_port ≡ true
    → unmarshal_add_tunnel (marshal_add_tunnel m) ≡ some m
unfolding unmarshal_add_tunnel
unmarshal-marshal_add_tunnel m h =
    ground (arith, text_eqb_iff m.subdomain [], int_eqb_iff m.remote_port (pos 0))

unmarshal-marshal_remove_tunnel :
    (m : RemoveTunnel) → unmarshal_remove_tunnel (marshal_remove_tunnel m) ≡ some m
unfolding unmarshal_remove_tunnel
unmarshal-marshal_remove_tunnel m = refl

unmarshal-marshal_promote : (m : Promote) → unmarshal_promote (marshal_promote m) ≡ some m
unfolding unmarshal_promote
unmarshal-marshal_promote m = refl

unmarshal-marshal_promote_error :
    (m : PromoteError) → unmarshal_promote_error (marshal_promote_error m) ≡ some m
unfolding unmarshal_promote_error
unmarshal-marshal_promote_error m = refl

unmarshal-marshal_set_tunnel_dir :
    (m : SetTunnelDir) → unmarshal_set_tunnel_dir (marshal_set_tunnel_dir m) ≡ some m
unfolding unmarshal_set_tunnel_dir
unmarshal-marshal_set_tunnel_dir m = refl

pub unmarshal-marshal_stream_header :
    (m : StreamHeader) → unmarshal_stream_header (marshal_stream_header m) ≡ some m
unfolding unmarshal_stream_header
unmarshal-marshal_stream_header m = refl

-- The messages of the control channel.
pub data Message : Type 0 where
  auth : Auth → Message
  auth_ack : AuthAck → Message
  auth_error : AuthError → Message
  register_tunnel : RegisterTunnel → Message
  tunnel_registered : TunnelRegistered → Message
  tunnel_error : TunnelError → Message
  heartbeat : Heartbeat → Message
  add_tunnel : AddTunnel → Message
  remove_tunnel : RemoveTunnel → Message
  promote : Promote → Message
  promote_error : PromoteError → Message
  set_tunnel_dir : SetTunnelDir → Message

-- The integers of a Go program are in the range of their type.
abbrev pub IsInRange : Message → Type 0
IsInRange (register_tunnel m) = is_int64 m.remote_port ≡ true
IsInRange (heartbeat m) = is_int64 m.timestamp ≡ true
IsInRange (add_tunnel m) = is_int64 m.remote_port ≡ true
IsInRange _ = Unit

-- The receiver of `m`, sent under its type, reads an envelope of that type and `m` from its payload.
abbrev pub ArrivesAs : {A : Type 0} → Text → Json → (Json → Option A) → A → Type 0
ArrivesAs msg_type raw unmarshal m =
    (env : Envelope) × (recv (send msg_type raw) ≡ some env)
    × (env.type ≡ msg_type)
    × (payload unmarshal env ≡ some m)

abbrev pub Arrives : Message → Type 0
Arrives (auth m) = ArrivesAs type_auth (marshal_auth m) unmarshal_auth m
Arrives (auth_ack m) = ArrivesAs type_auth_ack (marshal_auth_ack m) unmarshal_auth_ack m
Arrives (auth_error m) = ArrivesAs type_auth_error (marshal_auth_error m) unmarshal_auth_error m
Arrives (register_tunnel m) =
    ArrivesAs type_register_tunnel (marshal_register_tunnel m) unmarshal_register_tunnel m
Arrives (tunnel_registered m) =
    ArrivesAs type_tunnel_registered (marshal_tunnel_registered m) unmarshal_tunnel_registered m
Arrives (tunnel_error m) =
    ArrivesAs type_tunnel_error (marshal_tunnel_error m) unmarshal_tunnel_error m
Arrives (heartbeat m) = ArrivesAs type_heartbeat (marshal_heartbeat m) unmarshal_heartbeat m
Arrives (add_tunnel m) = ArrivesAs type_add_tunnel (marshal_add_tunnel m) unmarshal_add_tunnel m
Arrives (remove_tunnel m) =
    ArrivesAs type_remove_tunnel (marshal_remove_tunnel m) unmarshal_remove_tunnel m
Arrives (promote m) = ArrivesAs type_promote (marshal_promote m) unmarshal_promote m
Arrives (promote_error m) =
    ArrivesAs type_promote_error (marshal_promote_error m) unmarshal_promote_error m
Arrives (set_tunnel_dir m) =
    ArrivesAs type_set_tunnel_dir (marshal_set_tunnel_dir m) unmarshal_set_tunnel_dir m

arrives :
    {A : Type 0} (msg_type : Text) (raw : Json) (unmarshal : Json → Option A) (m : A)
    → unmarshal raw ≡ some m
    → ArrivesAs msg_type raw unmarshal m
unfolding recv send payload
arrives msg_type raw unmarshal m h = (record { type = msg_type; raw = some raw }, refl, refl, h)

-- Every message of the control channel, with integers in the range of their type, arrives as it was
-- sent: the receiver reads an envelope with the message's type, and from its payload the message.
pub message-Arrives : (m : Message) → IsInRange m → Arrives m
message-Arrives (auth m) h =
    arrives type_auth (marshal_auth m) unmarshal_auth m (unmarshal-marshal_auth m)
message-Arrives (auth_ack m) h =
    arrives type_auth_ack (marshal_auth_ack m) unmarshal_auth_ack m (unmarshal-marshal_auth_ack m)
message-Arrives (auth_error m) h =
    arrives type_auth_error (marshal_auth_error m) unmarshal_auth_error m
      (unmarshal-marshal_auth_error m)
message-Arrives (register_tunnel m) h =
    arrives type_register_tunnel (marshal_register_tunnel m) unmarshal_register_tunnel m
      (unmarshal-marshal_register_tunnel m h)
message-Arrives (tunnel_registered m) h =
    arrives type_tunnel_registered (marshal_tunnel_registered m) unmarshal_tunnel_registered m
      (unmarshal-marshal_tunnel_registered m)
message-Arrives (tunnel_error m) h =
    arrives type_tunnel_error (marshal_tunnel_error m) unmarshal_tunnel_error m
      (unmarshal-marshal_tunnel_error m)
message-Arrives (heartbeat m) h =
    arrives type_heartbeat (marshal_heartbeat m) unmarshal_heartbeat m
      (unmarshal-marshal_heartbeat m h)
message-Arrives (add_tunnel m) h =
    arrives type_add_tunnel (marshal_add_tunnel m) unmarshal_add_tunnel m
      (unmarshal-marshal_add_tunnel m h)
message-Arrives (remove_tunnel m) h =
    arrives type_remove_tunnel (marshal_remove_tunnel m) unmarshal_remove_tunnel m
      (unmarshal-marshal_remove_tunnel m)
message-Arrives (promote m) h =
    arrives type_promote (marshal_promote m) unmarshal_promote m (unmarshal-marshal_promote m)
message-Arrives (promote_error m) h =
    arrives type_promote_error (marshal_promote_error m) unmarshal_promote_error m
      (unmarshal-marshal_promote_error m)
message-Arrives (set_tunnel_dir m) h =
    arrives type_set_tunnel_dir (marshal_set_tunnel_dir m) unmarshal_set_tunnel_dir m
      (unmarshal-marshal_set_tunnel_dir m)
