-- ===== src/Packaging.antt =====
-- packageudp.go and map.go: `PackageUdp` and `mapIp`. A datagram goes into a JSON message with the
-- sender's address and base64 of its bytes. IP.String, net.JoinHostPort, base64 and json.Marshal are
-- parameters.
use xrootd_monitoring_shovel.Base.{
  ℕ, [], ◌∷◌, none, some, Bytes, Assoc, lookup, is_empty, decimal, if◌then◌else◌,
}

-- net.UDPAddr with its address as IP.String gives it
pub record UdpAddr : Type 0 where
  pub ip : Bytes
  pub port : ℕ

-- Message
pub record Message : Type 0 where
  pub remote : Bytes
  pub shoveler_version : Bytes
  pub encoded : Bytes

pub record Encoders : Type 0 where
  pub join_host_port : Bytes → Bytes → Bytes
  pub encode : Bytes → Bytes
  pub marshal : Message → Bytes

-- The fields IpMapAll and IpMap of the Config.
pub record IpMapping : Type 0 where
  pub ip_map_all : Bytes
  pub ip_map : Assoc Bytes

unfoldable pub map_ip : UdpAddr → IpMapping → Bytes
unfolding lookup
map_ip remote config =
    if is_empty config.ip_map_all
    then (elim config.ip_map [
      | [] ↦ remote.ip
      | entry ∷ more ↦ elim (lookup remote.ip config.ip_map) [ none ↦ remote.ip | some ip ↦ ip ]
    ])
    else config.ip_map_all

-- The argument before the last is ShovelerVersion.
unfoldable pub package_udp : Encoders → Bytes → UdpAddr → Bytes → IpMapping → Bytes
unfolding map_ip
package_udp enc packet remote version config = enc.marshal (record {
  remote = enc.join_host_port (map_ip remote config) (decimal remote.port);
  shoveler_version = version;
  encoded = enc.encode packet;
})
