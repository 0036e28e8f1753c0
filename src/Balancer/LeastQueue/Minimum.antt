-- ===== src/Balancer/LeastQueue/Minimum.antt =====
-- LeastQueueBalancer picks a node whose queue is the shortest that is known.
use linux_highperf_proxy.Base.{
  ℕ, ◌≤◌, ◌<◌, ◌≡◌, refl, sym, ap, ◌∙◌, subst, List, [], ◌∷◌, ◌++◌, none, some, Option-cases,
  Bool-cases, inl, inr, ltb, ◌==◌, if◌then◌else◌, All, arith, append_assoc, append-nil,
}
use linux_highperf_proxy.Base.Maps.{find}
use linux_highperf_proxy.Balancer.LeastQueue.{LeastQueue, int_max, scan}

-- The length of a node's queue, if it is known, is `q` at least.
abbrev pub AtLeast : List (List ℕ × ℕ) → ℕ → List ℕ → Type 0
AtLeast lens q n = elim (find n lens) [ none ↦ Unit {0} | some k ↦ q ≤ k ]

-- The nodes whose queue has length `q`.
pub at_length : List (List ℕ × ℕ) → ℕ → List (List ℕ) → List (List ℕ)
at_length lens q [] = []
at_length lens q (n ∷ ns) = elim (find n lens) [
  | none ↦ at_length lens q ns
  | some k ↦ if k == q then n ∷ at_length lens q ns else at_length lens q ns
]

at_length-append :
    (lens : List (List ℕ × ℕ)) (q : ℕ) (xs ys : List (List ℕ))
    → at_length lens q (xs ++ ys) ≡ at_length lens q xs ++ at_length lens q ys
unfolding at_length
at_length-append lens q [] ys = refl
at_length-append lens q (x ∷ xs) ys = elim (Option-cases (find x lens)) [
  | inl e ↦ ground (arith, e, at_length-append lens q xs ys)
  | inr (k, e) ↦ ground (arith, e, at_length-append lens q xs ys)
]

at_length_below :
    (lens : List (List ℕ × ℕ)) (q p : ℕ) (xs : List (List ℕ))
    → All (AtLeast lens p) xs
    → q < p
    → at_length lens q xs ≡ []
unfolding at_length
at_length_below lens q p [] h less = refl
at_length_below lens q p (x ∷ xs) (hx, h) less = elim (Option-cases (find x lens)) [
  | inl e ↦ ground (arith, e, at_length_below lens q p xs h less)
  | inr (k, e) ↦ ground (arith, e, at_length_below lens q p xs h less, hx)
]

All-append : {A : Type 0} (P : A → Type 0) (xs ys : List A) → All P xs → All P ys → All P (xs ++ ys)
All-append P [] ys hx hy = hy
All-append P (x ∷ xs) ys (h, hx) hy = (h, All-append P xs ys hx hy)

All-imp :
    {A : Type 0} (P Q : A → Type 0) (xs : List A) → ((x : A) → P x → Q x) → All P xs → All Q xs
All-imp P Q [] f h = tt
All-imp P Q (x ∷ xs) f (hx, h) = (f x hx, All-imp P Q xs f h)

AtLeast-le :
    (lens : List (List ℕ × ℕ)) (q p : ℕ) (n : List ℕ) → q ≤ p → AtLeast lens p n → AtLeast lens q n
AtLeast-le lens q p n le h = elim (Option-cases (find n lens)) [
  | inl e ↦ rw (e, AtLeast) tt
  | inr (k, e) ↦
      rw (e, AtLeast)
        (omega (arith, le, subst (λ o. elim o [ none ↦ Unit {0} | some j ↦ p ≤ j ]) e h))
]

AtLeast-known :
    (lens : List (List ℕ × ℕ)) (q k : ℕ) (n : List ℕ)
    → find n lens ≡ some k
    → q ≤ k
    → AtLeast lens q n
AtLeast-known lens q k n e le = rw (e, AtLeast) le

at_length_one :
    (lens : List (List ℕ × ℕ)) (q k : ℕ) (n : List ℕ)
    → find n lens ≡ some k
    → at_length lens q (n ∷ []) ≡ (if k == q then n ∷ [] else [])
unfolding at_length
at_length_one lens q k n e = rw (e, at_length) refl

at_length_unknown :
    (lens : List (List ℕ × ℕ)) (q : ℕ) (n : List ℕ)
    → find n lens ≡ none
    → at_length lens q (n ∷ []) ≡ []
unfolding at_length
at_length_unknown lens q n e = rw (e, at_length) refl

-- What the scan comes to.
abbrev pub IsScanned : List (List ℕ × ℕ) → List (List ℕ) → ℕ × List (List ℕ) → Type 0
IsScanned lens ns r = All (AtLeast lens r.0) ns × (r.1 ≡ at_length lens r.0 ns)

AtLeast-unknown :
    (lens : List (List ℕ × ℕ)) (q : ℕ) (n : List ℕ) → find n lens ≡ none → AtLeast lens q n
AtLeast-unknown lens q n e = rw (e, AtLeast) tt

at_length_end :
    (lens : List (List ℕ × ℕ)) (q : ℕ) (seen : List (List ℕ)) (n : List ℕ) (last : List (List ℕ))
    → at_length lens q (n ∷ []) ≡ last
    → at_length lens q (seen ++ (n ∷ [])) ≡ at_length lens q seen ++ last
at_length_end lens q seen n last e =
    at_length-append lens q seen (n ∷ []) ∙ ap (◌++◌ (at_length lens q seen)) e

scan_regroup :
    (lens : List (List ℕ × ℕ)) (seen ns : List (List ℕ)) (n : List ℕ) (r : ℕ × List (List ℕ))
    → IsScanned lens ((seen ++ (n ∷ [])) ++ ns) r
    → IsScanned lens (seen ++ (n ∷ ns)) r
scan_regroup lens seen ns n r h =
    subst (λ xs. IsScanned lens xs r) (append_assoc seen (n ∷ []) ns) h

scan_lem :
    (lens : List (List ℕ × ℕ)) (ns seen : List (List ℕ)) (q : ℕ) (best : List (List ℕ))
    → All (AtLeast lens q) seen
    → best ≡ at_length lens q seen
    → IsScanned lens (seen ++ ns) (scan lens ns q best)
unfolding scan
scan_lem lens [] seen q best h eb =
    subst (λ xs. IsScanned lens xs (q, best)) (sym (append-nil seen)) (h, eb)
scan_lem lens (n ∷ ns) seen q best h eb = elim (Option-cases (find n lens)) [
  | inl e ↦
      rw (e, scan)
        (scan_regroup lens seen ns n _ (
          scan_lem lens ns (seen ++ (n ∷ [])) q best
            (All-append (AtLeast lens q) seen (n ∷ []) h (AtLeast-unknown lens q n e, tt))
            (eb
              ∙ sym
                  (at_length_end lens q seen n [] (at_length_unknown lens q n e) ∙ append-nil _))))
  | inr (k, e) ↦ elim (Bool-cases (ltb k q)) [
    | inl less ↦
        rw (e, scan, less)
          (scan_regroup lens seen ns n _ (
            scan_lem lens ns (seen ++ (n ∷ [])) k (n ∷ [])
              (All-append (AtLeast lens k) seen (n ∷ [])
                (All-imp (AtLeast lens q) (AtLeast lens k) seen
                  (λ x. AtLeast-le lens k q x (ground (arith, less))) h)
                (AtLeast-known lens k k n e (omega arith), tt))
              (sym (
                at_length_end lens k seen n (n ∷ []) (at_length_one lens k k n e ∙ ground arith)
                ∙ ap (λ xs. xs ++ (n ∷ []))
                    (at_length_below lens k q seen h (ground (arith, less)))))))
    | inr more ↦ elim (Bool-cases (k == q)) [
      | inl same ↦
          rw (e, scan, more, same)
            (scan_regroup lens seen ns n _ (
              scan_lem lens ns (seen ++ (n ∷ [])) q (best ++ (n ∷ []))
                (All-append (AtLeast lens q) seen (n ∷ []) h
                  (AtLeast-known lens q k n e (ground (arith, same)), tt))
                (ap (λ xs. xs ++ (n ∷ [])) eb
                  ∙ sym (
                      at_length_end lens q seen n (n ∷ [])
                        (at_length_one lens q k n e ∙ ground (arith, same))))))
      | inr other ↦
          rw (e, scan, more, other)
            (scan_regroup lens seen ns n _ (
              scan_lem lens ns (seen ++ (n ∷ [])) q best
                (All-append (AtLeast lens q) seen (n ∷ []) h
                  (AtLeast-known lens q k n e (ground (arith, more)), tt))
                (eb
                  ∙ sym (
                      at_length_end lens q seen n []
                        (at_length_one lens q k n e ∙ ground (arith, other))
                      ∙ append-nil _))))
    ]
  ]
]

-- The scan returns the shortest length and the nodes that have it, in their order.
pub scan-at_length :
    (lens : List (List ℕ × ℕ)) (ns : List (List ℕ))
    → let r = scan lens ns int_max [] in IsScanned lens ns r
unfolding at_length
scan-at_length lens ns = scan_lem lens ns [] int_max [] tt refl

HasLength : List (List ℕ × ℕ) → ℕ → List ℕ → Type 0
HasLength lens q n = find n lens ≡ some q
