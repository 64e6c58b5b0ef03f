-- ===== src/Security/Network.antt =====
-- src/security/network.py: the allowlist of source addresses. Python's `ipaddress` is a parameter: the
-- parser of an address, the parser of a network and the membership test.
use ai_dlc_test.Common.{
  ◌≡◌, refl, ◌↔◌, Bool, true, false, not, String, List, [], Option, some, none, Result, ok, err,
  map, any, In, In-map, In-map_inv, any-true, any-intro, arith, raise_if,
}
use ai_dlc_test.Security.Entities.{SecurityError, ip_not_allowed}

module _ {Address Network : Type 0} (ip_address : String → Option Address)
    (ip_network : String → Network) (holds : Network → Address → Bool) where
  abbrev in_some : List Network → Option Address → Bool
  in_some networks none = false
  in_some networks (some address) = any (λ network. holds network address) networks

  -- `IpAllowlist(config).is_allowed`
  unfoldable pub is_allowed : List String → String → Bool
  unfolding any
  is_allowed ip_allowlist source_ip = in_some (map ip_network ip_allowlist) (ip_address source_ip)

  -- `IpAllowlist(config).check`
  unfoldable pub check : List String → String → Result SecurityError (Unit {0})
  unfolding is_allowed
  check ip_allowlist source_ip =
      raise_if (not (is_allowed ip_allowlist source_ip)) (ip_not_allowed source_ip)

  -- The source parses, and an entry of the allowlist holds it.
  abbrev pub IsListed : List String → String → Type 0
  IsListed ip_allowlist source_ip =
      (address : Address) × (entry : String) × (ip_address source_ip ≡ some address)
      × In entry ip_allowlist
      × (holds (ip_network entry) address ≡ true)

  listed :
      (entries : List String) (source_ip : String) (o : Option Address)
      → ip_address source_ip ≡ o
      → in_some (map ip_network entries) o ≡ true
      → IsListed entries source_ip
  listed entries source_ip none p h = cc
  listed entries source_ip (some address) p h =
      let (network, m, e) = any-true (λ n. holds n address) (map ip_network entries) h in
      let (entry, k, q) = In-map_inv ip_network entries network m in
      (address, entry, p, k, rw (← q) e)

  allowed :
      (entries : List String) (source_ip : String)
      → in_some (map ip_network entries) (ip_address source_ip) ≡ true
      → check entries source_ip ≡ ok tt
  unfolding check
  allowed entries source_ip h = rw h

  nothing_allowed :
      (source_ip : String) (o : Option Address)
      → raise_if (not (in_some [] o)) (ip_not_allowed source_ip) ≡ err (ip_not_allowed source_ip)
  unfolding any
  nothing_allowed source_ip none = refl
  nothing_allowed source_ip (some address) = refl

  -- A source passes the allowlist exactly where it parses and an entry holds its address, and an
  -- empty allowlist refuses every source.
  pub check_iff :
      (ip_allowlist : List String) (source_ip : String)
      → ((check ip_allowlist source_ip ≡ ok tt) ↔ IsListed ip_allowlist source_ip)
        × (check [] source_ip ≡ err (ip_not_allowed source_ip))
  unfolding check
  check_iff ip_allowlist source_ip = (
    (
      λ h. listed ip_allowlist source_ip (ip_address source_ip) refl (ground arith),
      λ (address, entry, p, k, e). allowed ip_allowlist source_ip (
          rw p (
            any-intro (λ n. holds n address) (map ip_network ip_allowlist) (ip_network entry)
              (In-map ip_network ip_allowlist entry k) e)),
    ),
    nothing_allowed source_ip (ip_address source_ip),
  )
