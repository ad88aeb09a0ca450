-- ===== src/Relay/Streams.antt =====
-- internal/server/http_proxy.go, internal/server/control.go and internal/client/proxy.go: a stream,
-- from the public connection to the local service.
use nnel.Base.{text_eq}
use nnel.Proto.{StreamHeader}
use nnel.Server.Registry.{TunnelEntry}

abbrev pub header_of : TunnelEntry → StreamHeader
header_of te = record { tunnel_name = te.name; local_addr = te.local_addr }
