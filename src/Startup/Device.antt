-- ===== src/Startup/Device.antt =====
-- Which network device has an address: `get_dev_by_ip` of server/backend/net_utils.hpp. The list of
-- getifaddrs and the result of inet_aton are arguments. getifaddrs(3) gives a null address for an
-- interface that has none.
use clean_slate_inc.Prelude.{
  ℕ, ◌≡◌, false, ◌&&◌, Option, none, some, List, [], ◌∷◌, ◌++◌, ◌==◌, if◌then◌else◌, arith, All,
}

-- `struct ifaddrs`: the family and the IPv4 address of `ifa_addr`, and the name.
pub record Interface (Dev : Type 0) : Type 0 where
  pub ifa_addr : Option (ℕ × ℕ)
  pub ifa_name : Dev

abbrev pub af_inet : ℕ
af_inet = 2

module _ {Dev : Type 0} where
  -- The loop over the interfaces: `none` follows a null pointer, and `some none` is the empty name.
  unfoldable pub find_dev : ℕ → List (Interface Dev) → Option (Option Dev)
  find_dev addr [] = some none
  find_dev addr (i ∷ rest) =
      let next = find_dev addr rest in
      elim i.ifa_addr [
        | none ↦ none
        | some (family, ip) ↦
            if family == af_inet && ip == addr then some (some i.ifa_name) else next
      ]

  -- `none` for the address is a text that is not an address, and for the list a failure.
  unfoldable pub get_dev_by_ip : Option ℕ → Option (List (Interface Dev)) → Option (Option Dev)
  get_dev_by_ip none if_list = some none
  get_dev_by_ip (some addr) none = some none
  get_dev_by_ip (some addr) (some if_list) = find_dev addr if_list

  abbrev Misses : ℕ → Interface Dev → Type 0
  Misses addr i =
      (family : ℕ) × (ip : ℕ) × (i.ifa_addr ≡ some (family, ip))
      × ((family == af_inet && ip == addr) ≡ false)

  -- When every interface in front of some interface has an address of another family or another
  -- IPv4 address: the name found is that interface's, if it has the IPv4 address, and a null pointer is
  -- followed, if it has no address at all, whatever comes behind it.
  pub get_dev_by_ip_lem :
      (addr : ℕ) (before : List (Interface Dev)) (i : Interface Dev) (after : List (Interface Dev))
      → All (Misses addr) before
      → (i.ifa_addr ≡ some (af_inet, addr)
          → get_dev_by_ip (some addr) (some (before ++ i ∷ after)) ≡ some (some i.ifa_name))
        × (i.ifa_addr ≡ none → get_dev_by_ip (some addr) (some (before ++ i ∷ after)) ≡ none)
  unfolding get_dev_by_ip find_dev
  get_dev_by_ip_lem addr [] i after misses = (λ e. ground arith, λ e. ground arith)
  get_dev_by_ip_lem addr (j ∷ before) i after ((family, ip, e, other), misses) =
      let (found, crash) = get_dev_by_ip_lem addr before i after misses in
      (λ h. rw (e, other) (found h), λ h. rw (e, other) (crash h))
