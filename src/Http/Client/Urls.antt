-- ===== src/Http/Client/Urls.antt =====
-- A URL that was put together is taken apart again.
use distributed_layer_infere.Common.{
  ℕ, ◌≤◌, ◌≡◌, ◌≢◌, sym, ap, ◌∙◌, arith, some, [], ◌∷◌, ◌++◌, ok, Bytes, All, IsDigit, decimal,
  decimal-IsDigit, pos, stoi_prefix, stoi_prefix-decimal, starts_with-append, ◌>>=◌,
}
use mathlib.Core.List.{append-nil}
use distributed_layer_infere.Http.Text.Cuts.{
  HasNo, All-append, All-map, cut_at-append, cut_at_last-append,
}
use distributed_layer_infere.Http.Client.{
  parse_http_url, url_prefix, url_of, host_and_path, host_and_port, port_of, checked_url,
}

-- The URL of a host, a port and a path behind a slash.
abbrev pub url_text : Bytes → ℕ → Bytes → Bytes
url_text host port path = url_prefix ++ ((host ++ (b':' ∷ decimal port)) ++ (b'/' ∷ path))

digits-HasNo : (d : ℕ) (xs : Bytes) → 58 ≤ d → All IsDigit xs → HasNo d xs
digits-HasNo d xs h = All-map IsDigit _ xs (λ c k. ground arith)

slash_free : (xs : Bytes) → All IsDigit xs → HasNo b'/' xs
slash_free xs = All-map IsDigit _ xs (λ c k. ground arith)

-- parse_http_url gives back the host, the port and the path that a URL was put together from. The
-- host is not empty and has no slash, and the port is from 1 to 65535; the host may have colons.
pub parse_http_url-url_text :
    (c : ℕ) (host : Bytes) (port : ℕ) (path : Bytes)
    → HasNo b'/' (c ∷ host)
    → 1 ≤ port
    → port ≤ 65535
    → parse_http_url (url_text (c ∷ host) port path)
      ≡ ok (record { host = c ∷ host; port = pos port; path = b'/' ∷ path })
unfolding parse_http_url
parse_http_url-url_text c host port path free low high =
    let url = url_text (c ∷ host) port path in
    let host_port = (c ∷ host) ++ (b':' ∷ decimal port) in
    let digits = decimal-IsDigit port in
    let no_slash : HasNo b'/' host_port =
      All-append (λ x. x ≢ b'/') (c ∷ host) (b':' ∷ decimal port) free
        (omega arith, slash_free (decimal port) digits) in
    let text : stoi_prefix (decimal port) ≡ some (pos port) =
      ap stoi_prefix (sym (append-nil (decimal port)))
      ∙ stoi_prefix-decimal port [] tt (omega arith) in
    rw (starts_with-append url_prefix (host_port ++ (b'/' ∷ path))) (
      ap (λ t. url_of url (host_and_path (host_port ++ (b'/' ∷ path)) t))
        (cut_at-append b'/' host_port path no_slash)
      ∙ ap (λ t. host_and_port host_port t >>= checked_url url (b'/' ∷ path))
          (cut_at_last-append b':' (c ∷ host) (decimal port)
            (digits-HasNo b':' (decimal port) (omega arith) digits))
      ∙ ap
          (λ t.
            (port_of (decimal port) t >>= λ q. ok (c ∷ host, q)) >>= checked_url url (b'/' ∷ path))
          text
      ∙ ground arith)
