-- ===== src/Server/Streams/Interleaving.antt =====
-- internal/server/control.go, serveTCP: the connections of one TCP tunnel, each in a goroutine of its
-- own that runs forwardTCP. Their updates of the tunnel's counters are atomic and come in any order.
use nnel.Base.{ℕ, suc, ◌+◌, ◌≡◌, Text, length}
use nnel.Server.Registry.{TunnelEntry}
use nnel.Server.Streams.{enter, leave, count_write, count_read}

-- The tunnel, how many connections have been counted and have not left, how many of their copies have
-- not ended, and what the copies that have ended copied to the client and back.
pub record Traffic : Type 0 where
  pub te : TunnelEntry
  pub connected : ℕ
  pub copies : ℕ
  pub to_client : ℕ
  pub back : ℕ

-- A step of one of the connections: it is counted and starts its two copies; a copy to the client or
-- back ends, and what it copied is counted; or the connection leaves, which it does when one of its
-- copies has ended, so that the other is counted later. A connection whose stream cannot be opened, or
-- whose header cannot be written, takes none.
pub data Step (t : Traffic) : Traffic → Type 0 where
  enters : Step t (record t { te = enter t.te; connected = suc t.connected; copies = t.copies + 2 })
  sends :
      (bytes : Text) (rest : ℕ)
      → t.copies ≡ suc rest
      → Step t (record t {
        te = count_write bytes t.te;
        copies = rest;
        to_client = t.to_client + length bytes;
      })
  gets :
      (n rest : ℕ)
      → t.copies ≡ suc rest
      → Step t (record t { te = count_read n t.te; copies = rest; back = t.back + n })
  leaves : (n : ℕ) → t.connected ≡ suc n → Step t (record t { te = leave t.te; connected = n })

pub data Steps (t : Traffic) : Traffic → Type 0 where
  here : Steps t t
  next : {u v : Traffic} → Steps t u → Step u v → Steps t v

-- The counters are those of the start and what the connections have done since.
abbrev Counts : TunnelEntry → Traffic → Type 0
Counts te t =
    (t.te.active_conns ≡ te.active_conns + t.connected)
    × (t.te.bytes_in ≡ te.bytes_in + t.to_client)
    × (t.te.bytes_out ≡ te.bytes_out + t.back)
    × (t.te.requests ≡ te.requests)
