-- ===== src/Hpack/StaticTable.antt =====
-- src/protocol/Hpack.cpp: header entries and the static table of RFC 7541, Appendix A.
use linux_highperf_proxy.Base.{ℕ, ◌+◌, List, [], ◌∷◌, length}
use linux_highperf_proxy.Base.Bytes.{codes}

-- Hpack::Entry and Hpack::Header hold the same two strings.
pub record Header : Type 0 where
  pub name : List ℕ
  pub value : List ℕ

abbrev pub entry_size : Header → ℕ
entry_size e = length e.name + length e.value + 32

abbrev pub header : List ℕ → List ℕ → Header
header n v = record { name = n; value = v }

-- kStaticTable: index 1 comes first.
unfoldable pub static_table : List Header
static_table =
    header (codes ":authority") []
    ∷ header (codes ":method") (codes "GET")
    ∷ header (codes ":method") (codes "POST")
    ∷ header (codes ":path") (codes "/")
    ∷ header (codes ":path") (codes "/index.html")
    ∷ header (codes ":scheme") (codes "http")
    ∷ header (codes ":scheme") (codes "https")
    ∷ header (codes ":status") (codes "200")
    ∷ header (codes ":status") (codes "204")
    ∷ header (codes ":status") (codes "206")
    ∷ header (codes ":status") (codes "304")
    ∷ header (codes ":status") (codes "400")
    ∷ header (codes ":status") (codes "404")
    ∷ header (codes ":status") (codes "500")
    ∷ header (codes "accept-charset") []
    ∷ header (codes "accept-encoding") (codes "gzip, deflate")
    ∷ header (codes "accept-language") []
    ∷ header (codes "accept-ranges") []
    ∷ header (codes "accept") []
    ∷ header (codes "access-control-allow-origin") []
    ∷ header (codes "age") []
    ∷ header (codes "allow") []
    ∷ header (codes "authorization") []
    ∷ header (codes "cache-control") []
    ∷ header (codes "content-disposition") []
    ∷ header (codes "content-encoding") []
    ∷ header (codes "content-language") []
    ∷ header (codes "content-length") []
    ∷ header (codes "content-location") []
    ∷ header (codes "content-range") []
    ∷ header (codes "content-type") []
    ∷ header (codes "cookie") []
    ∷ header (codes "date") []
    ∷ header (codes "etag") []
    ∷ header (codes "expect") []
    ∷ header (codes "expires") []
    ∷ header (codes "from") []
    ∷ header (codes "host") []
    ∷ header (codes "if-match") []
    ∷ header (codes "if-modified-since") []
    ∷ header (codes "if-none-match") []
    ∷ header (codes "if-range") []
    ∷ header (codes "if-unmodified-since") []
    ∷ header (codes "last-modified") []
    ∷ header (codes "link") []
    ∷ header (codes "location") []
    ∷ header (codes "max-forwards") []
    ∷ header (codes "proxy-authenticate") []
    ∷ header (codes "proxy-authorization") []
    ∷ header (codes "range") []
    ∷ header (codes "referer") []
    ∷ header (codes "refresh") []
    ∷ header (codes "retry-after") []
    ∷ header (codes "server") []
    ∷ header (codes "set-cookie") []
    ∷ header (codes "strict-transport-security") []
    ∷ header (codes "transfer-encoding") []
    ∷ header (codes "user-agent") []
    ∷ header (codes "vary") []
    ∷ header (codes "via") []
    ∷ header (codes "www-authenticate") []
    ∷ []
