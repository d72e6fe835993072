-- ===== src/Orchestration/Config.antt =====
-- orchestration/config/config.go. What it calls of the packages net and strconv is a parameter.
use gofordevopsclass.Prelude.{
  ℕ, ◌≤◌, ◌<◌, String, Bool, true, false, ◌||◌, if◌then◌else◌, length, nat_beq, List, [], ◌∷◌,
  Option, none, some, ◌≡◌, ◌≢◌, ◌↔◌, refl, arith, Option-cases, inl, inr,
}
use gofordevopsclass.Prelude.Int.{ℤ, pos, ltb_ℤ}
use gofordevopsclass.Prelude.Text.{is_empty, trim_space, trim_space_empty, all_space}

-- net.SplitHostPort (none for its error), strconv.Atoi with its error dropped, and net.ParseIP
-- (none for nil).
pub record Net : Type 0 where
  pub split_host_port : String → Option (String × String)
  pub atoi : String → ℤ
  pub parse_ip : String → Option String

pub record Config : Type 0 where
  pub concurrency : ℤ
  pub canary_num : ℤ
  pub max_failures : ℤ
  pub src : String
  pub lb : String
  pub pattern : String
  pub backends : List String

pub data ConfigError : Type 0 where
  split_failed bad_port lb_wrong no_backends backend_wrong bad_pattern bad_concurrency : ConfigError

-- (net.IP, int32, error): the ip may be nil beside a nil error.
pub data Checked : Type 0 where
  address : Option String → ℤ → Checked
  refused : ConfigError → Checked

module _ (net : Net) where
  open net use {split_host_port, atoi, parse_ip}

  check_host : String → String → Option String → Checked
  check_host h ps none = address none (pos 0)
  check_host h ps (some ip) =
      let p = atoi ps in
      if ltb_ℤ p (pos 1) || ltb_ℤ (pos 65534) p then refused bad_port else address (some ip) p

  -- CheckIPPort. For an ip that does not parse the code returns `err`, which is nil there.
  unfoldable pub check_ip_port : String → Checked
  unfolding check_host
  check_ip_port b = elim (split_host_port b) [
    | none ↦ refused split_failed
    | some (h, ps) ↦ check_host h ps (parse_ip h)
  ]

  abbrev pub is_address : Checked → Bool
  is_address (address ip p) = true
  is_address (refused e) = false

  all_addresses : List String → Bool
  all_addresses [] = true
  all_addresses (b ∷ bs) =
      let rest = all_addresses bs in if is_address (check_ip_port b) then rest else false

  -- Validate: its error, or none.
  unfoldable pub validate : Config → Option ConfigError
  unfolding all_addresses
  validate c =
      if is_address (check_ip_port c.lb)
      then (if nat_beq (length c.backends) 0
          then some no_backends
          else if all_addresses c.backends
          then (if is_empty (trim_space c.pattern)
              then some bad_pattern
              else if ltb_ℤ c.concurrency (pos 1)
              then some bad_concurrency
              else none)
          else some backend_wrong)
      else some lb_wrong

  -- For an address that splits into a host and a port: the answer has an ip and a port n exactly
  -- if the host parses to that ip, and the port is n and from 1 to 65534; it has a nil ip, port 0
  -- and no error exactly if the host does not parse.
  pub check_ip_port_exact :
      (b h ps : String)
      → split_host_port b ≡ some (h, ps)
      → ((ip : String) (n : ℕ)
          → (check_ip_port b ≡ address (some ip) (pos n))
            ↔ ((parse_ip h ≡ some ip) × (atoi ps ≡ pos n) × (1 ≤ n) × (n ≤ 65534)))
        × ((check_ip_port b ≡ address none (pos 0)) ↔ (parse_ip h ≡ none))
  unfolding check_ip_port
  check_ip_port_exact b h ps e = ((λ ip n. ground arith), ground arith)

  -- A text that is a host and a port, where the port counts only if the host is an ip.
  abbrev pub IsHostPort : String → Type 0
  IsHostPort b =
      (h : String) × (ps : String) × (split_host_port b ≡ some (h, ps))
      × (parse_ip h ≢ none
          → (ltb_ℤ (atoi ps) (pos 1) ≡ false) × (ltb_ℤ (pos 65534) (atoi ps) ≡ false))

  abbrev pub AllHostPorts : List String → Type 0
  AllHostPorts [] = Unit {0}
  AllHostPorts (b ∷ bs) = IsHostPort b × AllHostPorts bs

  is_address-IsHostPort : (b : String) → is_address (check_ip_port b) ≡ true → IsHostPort b
  unfolding check_ip_port
  is_address-IsHostPort b x = go (split_host_port b) refl
    where
      go : (o : Option (String × String)) → split_host_port b ≡ o → IsHostPort b
      go none e = absurd (ground arith)
      go (some (h, ps)) e = (h, ps, e, (λ n. ground (arith, Option-cases (parse_ip h))))

  IsHostPort-is_address : (b : String) → IsHostPort b → is_address (check_ip_port b) ≡ true
  unfolding check_ip_port
  IsHostPort-is_address b (h, ps, e, f) = elim (Option-cases (parse_ip h)) [
    | inl x ↦ ground arith
    | inr (ip, x) ↦ ground (arith, f (λ y. cc))
  ]

  all_there : (bs : List String) → all_addresses bs ≡ true → AllHostPorts bs
  unfolding all_addresses
  all_there [] h = tt
  all_there (b ∷ bs) h = (is_address-IsHostPort b (ground arith), all_there bs (ground arith))

  all_back : (bs : List String) → AllHostPorts bs → all_addresses bs ≡ true
  unfolding all_addresses
  all_back [] h = refl
  all_back (b ∷ bs) h = ground (arith, IsHostPort-is_address b h.0, all_back bs h.1)

  -- What Validate accepts.
  pub record IsAccepted (c : Config) : Type 0 where
    pub balancer : IsHostPort c.lb
    pub some_backend : 0 < length c.backends
    pub machines : AllHostPorts c.backends
    pub named : all_space c.pattern ≡ false
    pub parallel : ltb_ℤ c.concurrency (pos 1) ≡ false

  -- Validate accepts exactly the configurations that name a balancer, at least one backend, a
  -- pattern that is not blank and a positive concurrency, every address a host and a port. A host
  -- that is no ip passes, with any port.
  pub validate_exact : (c : Config) → (validate c ≡ none) ↔ IsAccepted c
  unfolding validate
  validate_exact c = (
    (λ h. record {
      balancer = is_address-IsHostPort c.lb (ground arith);
      some_backend = ground arith;
      machines = all_there c.backends (ground arith);
      named = ground (arith, trim_space_empty c.pattern);
      parallel = ground (arith, trim_space_empty c.pattern);
    }),
    (λ v. ground (
      arith,
      IsHostPort-is_address c.lb v.balancer,
      all_back c.backends v.machines,
      trim_space_empty c.pattern,
      v.some_backend,
      v.named,
      v.parallel,
    )),
  )
