-- ===== src/Tests/Clients.antt =====
-- routersim/dhcp.py: a client on a host that has a port and nothing else, and a new server.
use router_sim.Base.{◌+◌, ◌≡◌, refl, true, [], ◌∷◌, ◌++◌, some, get, has, nat_eq}
use router_sim.Base.Outcome.{ok}
use router_sim.Net.{net_eq, default_network}
use router_sim.Arp.{lookup}
use router_sim.Host.{logical}
use router_sim.Dhcp.{Server, offered, acked, new_server, subnet_of, find_address, process_msg}
use router_sim.Dhcp.Client.{
  Client, discover_message, start_discover, request_message, run_check, ip_interface, process_reply,
}
use router_sim.Dhcp.Client.Answers.{answer_reply, blank, both, gateway_route}
use router_sim.Dhcp.Client.Configured.{client_configured}
use router_sim.Tests.Hosts.{cabled}
use router_sim.Tests.Leases.{lan, port}

abbrev unconfigured : Client
unconfigured = record { host = cabled; sent = []; queue = [] }

client_configured_example :
    (offering serving : Server) × (checking done : Client) × (process_msg port
        (discover_message 9 (blank (λ p. p + 10) 1 51))
        (new_server 1 lan)
      ≡ ok (offering, true))
    × (offering.sent ≡ [] ++ offered 51 9 3232235876 3232235777 both ∷ [])
    × (process_reply
          (λ p. p + 10)
          (blank (λ p. p + 10) 1 51)
          (answer_reply lan (offered 51 9 3232235876 3232235777 both))
          (start_discover 5 9 (blank (λ p. p + 10) 1 51) unconfigured)
        ≡ ok checking)
    × ((run_check 8 checking).sent
        ≡ (start_discover 5 9 (blank (λ p. p + 10) 1 51) unconfigured).sent
          ++ (11, request_message 8 3232235876 (blank (λ p. p + 10) 1 51)) ∷ [])
    × (process_msg port (request_message 8 3232235876 (blank (λ p. p + 10) 1 51)) offering
        ≡ ok (serving, true))
    × (serving.sent ≡ offering.sent ++ acked 51 9 3232235876 3232235777 both ∷ [])
    × (get serving.leases 51 ≡ some 3232235876)
    × (process_reply
          (λ p. p + 10)
          (blank (λ p. p + 10) 1 51)
          (answer_reply lan (acked 51 9 3232235876 3232235777 both))
          (run_check 8 checking)
        ≡ ok done)
    × (get done.host.interfaces 11
        ≡ some (
            logical
              (record (blank (λ p. p + 10) 1 51) { address = some (ip_interface 3232235876 24) })))
    × (get done.host.routing.static default_network ≡ some (gateway_route 11 3232235777 ∷ []))
unfolding get subnet_of find_address lookup has
client_configured_example =
    client_configured (λ p. p + 10) 1 51 3232235876 lan 5 9 8 port (new_server 1 lan) unconfigured
      refl refl refl refl refl refl refl refl
