-- ===== src/Access/Tests.antt =====
-- Access control at concrete inputs; the theorem at an input that meets its hypothesis.
use linux_highperf_proxy.Base.{
  ℕ, ◌^◌, ◌<◌, ◌≡◌, List, [], ◌∷◌, Option, none, some, true, false, ◌&&◌, if◌then◌else◌, Bool-cases,
  inl, inr, arith,
}
use linux_highperf_proxy.Base.Bytes.{codes, bytes_eq}
use linux_highperf_proxy.Base.Int.{ℤ, pos}
use linux_highperf_proxy.Access.{
  Config, k_allow_list, allow, access_control, token_allowed, api_key_allowed,
}
use linux_highperf_proxy.Access.Ranges.{address_rule, allow-address_rule}

-- A stand-in that reads one address, and one that reads one number.
abbrev one_address : List ℕ → Option ℕ
one_address s = if bytes_eq s (codes "10.0.0.7") then some 167772167 else none

abbrev one_number : List ℕ → Option ℤ
one_number s = if bytes_eq s (codes "8") then some (pos 8) else none

one_address_word : (s : List ℕ) (ip : ℕ) → one_address s ≡ some ip → ip < 2 ^ 32
one_address_word s ip h = elim (Bool-cases (bytes_eq s (codes "10.0.0.7"))) [
  | inl e ↦ ground (arith, e, h)
  | inr e ↦ ground (arith, e, h)
]

abbrev inner_net : Config
inner_net = record {
  ip_mode = k_allow_list;
  cidrs = codes "10.0.0.7/8" ∷ [];
  require_token = true;
  valid_tokens = codes "t" ∷ [];
  require_api_key = false;
  valid_api_keys = [];
}

allow-address_rule_example :
    allow one_address one_number
      (access_control one_address one_number inner_net)
      (codes "10.0.0.7")
      (codes "t")
      []
    ≡ (address_rule one_address one_number one_address_word inner_net.ip_mode inner_net.cidrs
          (one_address (codes "10.0.0.7"))
        && (token_allowed inner_net (codes "t") && api_key_allowed inner_net []))
allow-address_rule_example =
    allow-address_rule one_address one_number one_address_word inner_net (codes "10.0.0.7")
      (codes "t") []
