-- ===== src/Access.antt =====
-- include/proxy/monitor/AccessControl.h and src/monitor/AccessControl.cpp: access by address, token and
-- API key. `inet_pton s` is the IPv4 address that `s` spells, in host order; `stoi s` the number at
-- the front of `s`, or `none` where std::stoi throws.
pub mod Ranges
mod Tests
use linux_highperf_proxy.Base.{
  ℕ, ◌-◌, ◌*◌, ◌%◌, ◌^◌, List, [], ◌∷◌, Option, none, some, Bool, true, false, not, ◌&&◌, leb, ◌==◌,
  if◌then◌else◌,
}
use linux_highperf_proxy.Base.Bytes.{codes, bytes_eq}
use linux_highperf_proxy.Base.Int.{ℤ, pos, negsuc}
use linux_highperf_proxy.Http1.Request.{trim_front, trim_back}
use linux_highperf_proxy.Http1.Context.{split_at}
use Prim.Native.Nat.{bit_and}

pub data IpMode : Type 0 where
  k_off : IpMode
  k_allow_list : IpMode
  k_deny_list : IpMode

pub record Config : Type 0 where
  pub ip_mode : IpMode
  pub cidrs : List (List ℕ)
  pub require_token : Bool
  pub valid_tokens : List (List ℕ)
  pub require_api_key : Bool
  pub valid_api_keys : List (List ℕ)

pub record CidrNet : Type 0 where
  pub network : ℕ
  pub mask : ℕ

pub record AccessControl : Type 0 where
  pub cfg : Config
  pub nets : List CidrNet

unfoldable pub trim_copy : List ℕ → List ℕ
trim_copy s = trim_back (trim_front s)

-- std::find
unfoldable pub is_member : List ℕ → List (List ℕ) → Bool
is_member t [] = false
is_member t (s ∷ ss) = let rest = is_member t ss in if bytes_eq s t then true else rest

unfoldable pub prefix_mask : ℕ → ℕ
prefix_mask prefix = if prefix == 0 then 0 else (4294967295 * 2 ^ (32 - prefix)) % 2 ^ 32

-- The two parts around the slash; 32 if there is none.
unfoldable pub cidr_parts : List ℕ → List ℕ × List ℕ
cidr_parts s = elim (split_at 47 s) [ none ↦ (s, codes "32") | some parts ↦ parts ]

-- A prefix of 0 to 32.
unfoldable pub prefix_of : Option ℤ → Option ℕ
prefix_of none = none
prefix_of (some (negsuc n)) = none
prefix_of (some (pos n)) = if leb n 32 then some n else none

unfoldable pub token_allowed : Config → List ℕ → Bool
token_allowed cfg token =
    if not cfg.require_token
    then true
    else if bytes_eq token []
    then false
    else is_member token cfg.valid_tokens

unfoldable pub api_key_allowed : Config → List ℕ → Bool
api_key_allowed cfg key =
    if not cfg.require_api_key
    then true
    else if bytes_eq key []
    then false
    else is_member key cfg.valid_api_keys

-- The loop over the ranges.
unfoldable pub matched : List CidrNet → ℕ → Bool
matched [] ip = false
matched (n ∷ ns) ip =
    let rest = matched ns ip in if bit_and ip n.mask == n.network then true else rest

unfoldable pub by_mode : IpMode → List CidrNet → ℕ → Bool
by_mode k_off nets ip = true
by_mode k_allow_list [] ip = false
by_mode k_deny_list [] ip = true
by_mode k_allow_list (n ∷ ns) ip = matched (n ∷ ns) ip
by_mode k_deny_list (n ∷ ns) ip = not (matched (n ∷ ns) ip)

unfoldable pub ip_allowed : AccessControl → ℕ → Bool
ip_allowed a ip = by_mode a.cfg.ip_mode a.nets ip

-- An address that cannot be read is refused where a rule for addresses is on.
unfoldable pub unknown_allowed : IpMode → Bool
unknown_allowed k_off = true
unknown_allowed _ = false

module _ (inet_pton : List ℕ → Option ℕ) (stoi : List ℕ → Option ℤ) where
  -- ParseCidr up to the address and the prefix.
  unfoldable pub parse_range : List ℕ → Option (ℕ × ℕ)
  parse_range cidr =
      let s = trim_copy cidr in
      let (ip_part, prefix_part) = cidr_parts s in
      if bytes_eq s [] then none else (elim (prefix_of (stoi (trim_copy prefix_part))) [
        | none ↦ none
        | some prefix ↦ elim (inet_pton (trim_copy ip_part)) [
          | none ↦ none
          | some ip ↦ some (ip, prefix)
        ]
      ])

  unfoldable pub parse_cidr : List ℕ → Option CidrNet
  parse_cidr cidr = elim (parse_range cidr) [
    | none ↦ none
    | some (ip, prefix) ↦
        some (record { network = bit_and ip (prefix_mask prefix); mask = prefix_mask prefix })
  ]

  -- The loop of the constructor: ranges that cannot be read are left out.
  unfoldable pub parse_cidrs : List (List ℕ) → List CidrNet
  parse_cidrs [] = []
  parse_cidrs (c ∷ cs) = elim (parse_cidr c) [ none ↦ parse_cidrs cs | some n ↦ n ∷ parse_cidrs cs ]

  unfoldable pub access_control : Config → AccessControl
  access_control cfg = record { cfg = cfg; nets = parse_cidrs cfg.cidrs }

  unfoldable pub allow : AccessControl → List ℕ → List ℕ → List ℕ → Bool
  allow a peer_ip token api_key =
      (elim (inet_pton peer_ip) [
        | none ↦ unknown_allowed a.cfg.ip_mode
        | some ip ↦ ip_allowed a ip
      ])
      && (token_allowed a.cfg token && api_key_allowed a.cfg api_key)
