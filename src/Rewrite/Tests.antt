-- ===== src/Rewrite/Tests.antt =====
-- The rewrite rules at concrete inputs; the theorems at inputs that meet their hypotheses.
use linux_highperf_proxy.Base.{◌≡◌, refl, List, [], ◌∷◌, none, some}
use linux_highperf_proxy.Base.Bytes.{codes}
use linux_highperf_proxy.Hpack.StaticTable.{Header, header}
use linux_highperf_proxy.Http1.Request.{k_invalid, new_request}
use linux_highperf_proxy.Rewrite.{
  RewriteRule, starts_with, replace_from, replace_all, rewrite_http1, rewrite_parts,
}
use linux_highperf_proxy.Rewrite.Headers.{
  values_of, header_values, values_behind, rewritten_map, rewritten_list, rewrite-values,
}
use linux_highperf_proxy.Rewrite.Bodies.{Replaced, replace_all-Replaced}

abbrev api_rule : RewriteRule
api_rule = record {
  path_prefix = codes "/api";
  method = k_invalid;
  req_set_headers = (codes "X-Via", codes "proxy") ∷ [];
  req_del_headers = codes "cookie" ∷ [];
  req_body_replaces = (codes "aa", codes "b") ∷ [];
  resp_set_headers = [];
  resp_del_headers = codes "server" ∷ [];
  resp_body_replaces = [];
}

abbrev sent : List Header
sent = header (codes "Cookie") (codes "k") ∷ header (codes "accept") (codes "v") ∷ []

rewrite-values_example :
    (values_of (codes "COOKIE") (rewrite_http1 api_rule new_request).1.headers
      ≡ rewritten_map api_rule.req_set_headers api_rule.req_del_headers
          (codes "COOKIE")
          (values_of (codes "COOKIE") new_request.headers))
    × (values_behind
          (codes "COOKIE")
          (rewrite_parts api_rule.req_set_headers api_rule.req_del_headers
            api_rule.req_body_replaces
            (some sent)
            none).1
        ≡ some (
            rewritten_list api_rule.req_set_headers api_rule.req_del_headers
              (codes "COOKIE")
              (header_values (codes "COOKIE") sent)))
    × (values_behind
          (codes "COOKIE")
          (rewrite_parts api_rule.resp_set_headers api_rule.resp_del_headers
            api_rule.resp_body_replaces
            (some sent)
            none).1
        ≡ some (
            rewritten_list api_rule.resp_set_headers api_rule.resp_del_headers
              (codes "COOKIE")
              (header_values (codes "COOKIE") sent)))
rewrite-values_example = rewrite-values api_rule new_request sent none (codes "COOKIE")

replaced_left : replace_all (97 ∷ 97 ∷ []) (98 ∷ []) (codes "aaac") ≡ codes "bac"
unfolding replace_all replace_from starts_with
replaced_left = refl

replace_all-Replaced_example :
    Replaced
      (97 ∷ 97 ∷ [])
      (98 ∷ [])
      (codes "aaac")
      (replace_all (97 ∷ 97 ∷ []) (98 ∷ []) (codes "aaac"))
replace_all-Replaced_example = replace_all-Replaced 97 (97 ∷ []) (98 ∷ []) (codes "aaac")
