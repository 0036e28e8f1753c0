-- ===== src/Access/Ranges.antt =====
-- AccessControl: a range holds the addresses that share its first bits, and who is allowed.
use linux_highperf_proxy.Base.{
  ℕ, zero, suc, ◌-◌, ◌*◌, ◌/◌, ◌^◌, ◌≤◌, ◌<◌, ◌≡◌, refl, ap, ◌∙◌, List, [], ◌∷◌, Option, none, some,
  Option-cases, Bool, true, false, inl, inr, not, ◌&&◌, ◌||◌, ◌==◌, arith,
}
use linux_highperf_proxy.Base.Bits.{bit_and_high}
use linux_highperf_proxy.Base.Int.{ℤ, pos, negsuc}
use linux_highperf_proxy.Access.{
  IpMode, k_off, k_allow_list, k_deny_list, Config, CidrNet, trim_copy, prefix_mask, cidr_parts,
  prefix_of, token_allowed, api_key_allowed, matched, by_mode, ip_allowed, unknown_allowed,
  parse_range, parse_cidr, parse_cidrs, access_control, allow,
}
use Prim.Native.Nat.{bit_and}
use native.Mathlib.Nat.{pow-le-pow_right, one-le-pow, eq_of_mul-eq-mul_right}

prefix_mask_lem : (p : ℕ) → p ≤ 32 → prefix_mask p ≡ 2 ^ 32 - 2 ^ (32 - p)
unfolding prefix_mask
prefix_mask_lem zero h = refl
prefix_mask_lem (suc p) h =
    let t = 2 ^ (32 - suc p) in
    let small : t ≤ 2 ^ 32 =
      pow-le-pow_right {n = 2} (omega arith) {i = 32 - suc p} {j = 32} (omega arith) in
    ground (arith, small, one-le-pow (32 - suc p) 2)

-- Two addresses share their first `p` bits.
unfoldable pub same_prefix : ℕ → ℕ → ℕ → Bool
same_prefix p a b = a / 2 ^ (32 - p) == b / 2 ^ (32 - p)

multiple_eq : (t a b : ℕ) → 1 ≤ t → (a * t == b * t) ≡ (a == b)
multiple_eq t a b h =
    ground (arith, h, eq_of_mul-eq-mul_right t h a b, λ (e : a ≡ b). ap (λ n. n * t) e)

mask-same_prefix :
    (p a b : ℕ)
    → p ≤ 32
    → a < 2 ^ 32
    → b < 2 ^ 32
    → (bit_and a (prefix_mask p) == bit_and b (prefix_mask p)) ≡ same_prefix p a b
unfolding same_prefix
mask-same_prefix p a b h ha hb =
    let k = 32 - p in
    rw (prefix_mask_lem p h) (
      rw (bit_and_high 32 k a (omega arith) ha) (
        rw (bit_and_high 32 k b (omega arith) hb)
          (multiple_eq (2 ^ k) (a / 2 ^ k) (b / 2 ^ k) (one-le-pow k 2 (omega arith)))))

-- The addresses that a text for a range stands for.
abbrev Range : Type 0
Range = ℕ × ℕ

in_some_range : List Range → ℕ → Bool
in_some_range [] ip = false
in_some_range ((base, p) ∷ rs) ip = same_prefix p ip base || in_some_range rs ip

module _ (inet_pton : List ℕ → Option ℕ) (stoi : List ℕ → Option ℤ)
    (word : (s : List ℕ) (ip : ℕ) → inet_pton s ≡ some ip → ip < 2 ^ 32) where
  -- The ranges that can be read.
  ranges : List (List ℕ) → List Range
  ranges [] = []
  ranges (c ∷ cs) = elim (parse_range inet_pton stoi c) [
    | none ↦ ranges cs
    | some r ↦ r ∷ ranges cs
  ]

  prefix_of_bound : (n : Option ℤ) {p : ℕ} → prefix_of n ≡ some p → p ≤ 32
  unfolding prefix_of
  prefix_of_bound none h = cc
  prefix_of_bound (some (pos n)) h = ground arith
  prefix_of_bound (some (negsuc n)) h = cc

  parse_range_bound :
      (c : List ℕ) (ip p : ℕ)
      → parse_range inet_pton stoi c ≡ some (ip, p)
      → (ip < 2 ^ 32) × (p ≤ 32)
  unfolding parse_range
  parse_range_bound c ip p e =
      let parts = cidr_parts (trim_copy c) in
      let asked = prefix_of (stoi (trim_copy parts.1)) in
      elim (Option-cases asked) [
        | inl n ↦ ground (arith, n, e)
        | inr (p', e') ↦ elim (Option-cases (inet_pton (trim_copy parts.0))) [
          | inl n ↦ ground (arith, e, e', n)
          | inr (ip', e'') ↦ ground (
            arith,
            e,
            e',
            e'',
            word (trim_copy parts.0) ip',
            prefix_of_bound (stoi (trim_copy parts.1)) {p = p'},
          )
        ]
      ]

  matched-ranges :
      (cs : List (List ℕ)) (ip : ℕ)
      → ip < 2 ^ 32
      → matched (parse_cidrs inet_pton stoi cs) ip ≡ in_some_range (ranges cs) ip
  unfolding matched parse_cidrs parse_cidr ranges in_some_range
  matched-ranges [] ip h = refl
  matched-ranges (c ∷ cs) ip h = elim (Option-cases (parse_range inet_pton stoi c)) [
    | inl n ↦ ground (arith, n, matched-ranges cs ip h)
    | inr ((base, p), e) ↦
        let b = parse_range_bound c base p e in
        ground (arith, e, matched-ranges cs ip h, mask-same_prefix p ip base b.1 h b.0)
  ]

  -- Who may come in by the address: everyone, the addresses of some range, or those of none.
  unfoldable pub address_rule : IpMode → List (List ℕ) → Option ℕ → Bool
  unfolding ranges in_some_range
  address_rule k_off cidrs ip = true
  address_rule k_allow_list cidrs none = false
  address_rule k_allow_list cidrs (some ip) = in_some_range (ranges cidrs) ip
  address_rule k_deny_list cidrs none = false
  address_rule k_deny_list cidrs (some ip) = not (in_some_range (ranges cidrs) ip)

  by_mode-matched :
      (m : IpMode) (ns : List CidrNet) (ip : ℕ)
      → by_mode m ns ip ≡ (elim m [
        | k_off ↦ true
        | k_allow_list ↦ matched ns ip
        | k_deny_list ↦ not (matched ns ip)
      ])
  unfolding by_mode matched
  by_mode-matched k_off ns ip = refl
  by_mode-matched k_allow_list [] ip = refl
  by_mode-matched k_allow_list (n ∷ ns) ip = refl
  by_mode-matched k_deny_list [] ip = refl
  by_mode-matched k_deny_list (n ∷ ns) ip = refl

  by_mode-address_rule :
      (m : IpMode) (cidrs : List (List ℕ)) (ip : ℕ)
      → ip < 2 ^ 32
      → by_mode m (parse_cidrs inet_pton stoi cidrs) ip ≡ address_rule m cidrs (some ip)
  unfolding address_rule
  by_mode-address_rule k_off cidrs ip h = by_mode-matched k_off _ ip
  by_mode-address_rule k_allow_list cidrs ip h =
      by_mode-matched k_allow_list _ ip ∙ matched-ranges cidrs ip h
  by_mode-address_rule k_deny_list cidrs ip h =
      by_mode-matched k_deny_list _ ip ∙ ap not (matched-ranges cidrs ip h)

  unknown_allowed-address_rule :
      (m : IpMode) (cidrs : List (List ℕ)) → unknown_allowed m ≡ address_rule m cidrs none
  unfolding unknown_allowed address_rule
  unknown_allowed-address_rule k_off cidrs = refl
  unknown_allowed-address_rule k_allow_list cidrs = refl
  unknown_allowed-address_rule k_deny_list cidrs = refl

  -- A request is allowed exactly if its address is, and its token, and its API key. The address is
  -- allowed where the rules for addresses are off; else it must be readable and share the first bits
  -- of a range that can be read, as many as the range says, or of no such range.
  pub allow-address_rule :
      (cfg : Config) (peer_ip token api_key : List ℕ)
      → allow inet_pton stoi (access_control inet_pton stoi cfg) peer_ip token api_key ≡ (
          address_rule cfg.ip_mode cfg.cidrs (inet_pton peer_ip)
          && (token_allowed cfg token && api_key_allowed cfg api_key))
  unfolding allow access_control ip_allowed
  allow-address_rule cfg peer_ip token api_key = elim (Option-cases (inet_pton peer_ip)) [
    | inl n ↦ ground (arith, n, unknown_allowed-address_rule cfg.ip_mode cfg.cidrs)
    | inr (ip, e) ↦
        ground (arith, e, word peer_ip ip e, by_mode-address_rule cfg.ip_mode cfg.cidrs ip)
  ]
