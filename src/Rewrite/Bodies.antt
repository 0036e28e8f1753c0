-- ===== src/Rewrite/Bodies.antt =====
-- Which rule matches, and what ReplaceAll makes of a body.
use linux_highperf_proxy.Base.{
  ℕ, zero, suc, ◌-◌, ◌<◌, ◌≡◌, refl, sym, ap, subst, List, [], ◌∷◌, ◌++◌, none, some, Option-cases,
  Bool-cases, true, false, inl, inr, length, length-drop, drop, get_elem?, arith,
}
use linux_highperf_proxy.Http1.Request.{Method}
use linux_highperf_proxy.Rewrite.{
  RewriteRule, starts_with, replace_from, replace_all, rule_matches, match_rules,
}

-- `Replaced from to s t`: t is s with the occurrences of `from` that a reading from the left meets
-- replaced by `to`; what replaces one is not read again, and occurrences do not overlap.
pub data Replaced (from : List ℕ) (to : List ℕ) : List ℕ → List ℕ → Type 0 where
  stop : Replaced from to [] []
  keep :
      (c : ℕ) (s t : List ℕ)
      → starts_with from (c ∷ s) ≡ false
      → Replaced from to s t
      → Replaced from to (c ∷ s) (c ∷ t)
  swap : (s t : List ℕ) → Replaced from to s t → Replaced from to (from ++ s) (to ++ t)

starts_with-append : (p s : List ℕ) → starts_with p s ≡ true → s ≡ p ++ drop (length p) s
unfolding starts_with
starts_with-append [] s h = refl
starts_with-append (p ∷ ps) [] h = cc
starts_with-append (p ∷ ps) (c ∷ cs) h = ground (arith, h, starts_with-append ps cs)

replace_from-drop :
    (from to : List ℕ) (k : ℕ) (s : List ℕ)
    → replace_from from to k s ≡ replace_from from to 0 (drop k s)
unfolding replace_from
replace_from-drop from to zero s = refl
replace_from-drop from to (suc k) [] = refl
replace_from-drop from to (suc k) (c ∷ cs) = replace_from-drop from to k cs

replace_from_found :
    (f : ℕ) (fs to : List ℕ) (c : ℕ) (cs : List ℕ)
    → starts_with (f ∷ fs) (c ∷ cs) ≡ true
    → replace_from (f ∷ fs) to 0 (c ∷ cs) ≡ to ++ replace_from (f ∷ fs) to 0 (drop (length fs) cs)
unfolding replace_from
replace_from_found f fs to c cs h =
    let e : suc (length fs) - 1 ≡ length fs = omega arith in
    rw (h, replace_from) (rw e (ap (λ t. to ++ t) (replace_from-drop (f ∷ fs) to (length fs) cs)))

replace_from_kept :
    (f : ℕ) (fs to : List ℕ) (c : ℕ) (cs : List ℕ)
    → starts_with (f ∷ fs) (c ∷ cs) ≡ false
    → replace_from (f ∷ fs) to 0 (c ∷ cs) ≡ c ∷ replace_from (f ∷ fs) to 0 cs
unfolding replace_from
replace_from_kept f fs to c cs h = rw (h, replace_from) refl

replace_from-Replaced :
    (n : ℕ) (f : ℕ) (fs to s : List ℕ)
    → length s < n
    → Replaced (f ∷ fs) to s (replace_from (f ∷ fs) to 0 s)
replace_from-Replaced zero f fs to s less = absurd (omega arith)
replace_from-Replaced (suc n) f fs to [] less = unfold replace_from in stop
replace_from-Replaced (suc n) f fs to (c ∷ cs) less =
    elim (Bool-cases (starts_with (f ∷ fs) (c ∷ cs))) [
      | inl e ↦
          let rest = drop (length fs) cs in
          let r =
            replace_from-Replaced n f fs to rest
              (omega (arith, length-drop (length fs) cs, less)) in
          subst (λ t. Replaced (f ∷ fs) to (c ∷ cs) t) (sym (replace_from_found f fs to c cs e))
            (subst (λ s. Replaced (f ∷ fs) to s (to ++ replace_from (f ∷ fs) to 0 rest))
              (sym (starts_with-append (f ∷ fs) (c ∷ cs) e))
              (swap rest (replace_from (f ∷ fs) to 0 rest) r))
      | inr e ↦
          subst (λ t. Replaced (f ∷ fs) to (c ∷ cs) t) (sym (replace_from_kept f fs to c cs e))
            (keep c cs (replace_from (f ∷ fs) to 0 cs) e
              (replace_from-Replaced n f fs to cs (omega (arith, less))))
    ]

-- ReplaceAll of a text that is not empty replaces the occurrences that a reading from the left meets,
-- and keeps every other byte.
pub replace_all-Replaced :
    (f : ℕ) (fs to s : List ℕ) → Replaced (f ∷ fs) to s (replace_all (f ∷ fs) to s)
replace_all-Replaced f fs to s =
    unfold replace_all in replace_from-Replaced (suc (length s)) f fs to s (omega arith)

-- The rule that is found matches, and no rule before it does; if none is found, no rule matches.
pub match_rules_first :
    (rules : List RewriteRule) (m : Method) (path : List ℕ) (j : ℕ) (r : RewriteRule)
    → get_elem? rules j ≡ some r
    → (match_rules rules m path ≡ none → rule_matches m path r ≡ false)
      × ((i : ℕ)
          → match_rules rules m path ≡ some i
          → (j < i → rule_matches m path r ≡ false) × (j ≡ i → rule_matches m path r ≡ true))
unfolding match_rules
match_rules_first [] m path j r e = cc
match_rules_first (q ∷ qs) m path zero r e = elim (Option-cases (match_rules qs m path)) [
  | inl n ↦ (ground (arith, n, e), λ i. ground (arith, n, e))
  | inr (k, e') ↦ (ground (arith, e', e), λ i. ground (arith, e', e))
]
match_rules_first (q ∷ qs) m path (suc j) r e =
    let ih = match_rules_first qs m path j r e in
    elim (Option-cases (match_rules qs m path)) [
      | inl n ↦ (ground (arith, n, ih.0), λ i. ground (arith, n, ih.0))
      | inr (k, e') ↦ (ground (arith, e', ih.1 k), λ i. ground (arith, e', ih.1 k))
    ]
