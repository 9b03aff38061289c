-- ===== src/Dial/Dialling.antt =====
-- What a connection of the pinned transport reaches.
use joyvend_secretvault.Shared.{◌≡◌, refl, false, some, any}
use joyvend_secretvault.Text.{Bytes}
use joyvend_secretvault.Net.{Ip, Parsers}
use joyvend_secretvault.Net.HostPort.{
  is_bracket, has_colon, split_host_port, join_host_port, split_host_port-join_host_port,
}
use joyvend_secretvault.Dial.{pinned_dial}

-- Whatever host the transport asks for, with brackets or without, the connection goes to the text of
-- the pinned address and to the port that was asked for: no name is resolved again. Neither text may
-- hold a bracket, and the port no colon.
pub split_host_port-pinned_dial :
    (p : Parsers) (pinned : Ip) (host port : Bytes)
    → any is_bracket host ≡ false
    → any is_bracket port ≡ false
    → has_colon port ≡ false
    → any is_bracket (p.ip_string pinned) ≡ false
    → (dialled : Bytes) × (pinned_dial p pinned (join_host_port host port) ≡ some dialled)
      × (split_host_port dialled ≡ some (p.ip_string pinned, port))
unfolding pinned_dial
split_host_port-pinned_dial p pinned host port h b c i = (
  join_host_port (p.ip_string pinned) port,
  rw (split_host_port-join_host_port host port h b c, pinned_dial) refl,
  split_host_port-join_host_port (p.ip_string pinned) port i b c,
)
