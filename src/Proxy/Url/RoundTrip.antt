-- ===== src/Proxy/Url/RoundTrip.antt =====
-- `parse_url` and `parse_request` read what is written in the standard form.
use intern_status_update.Base.{
  ne→==, ◌-◌, ◌≡◌, refl, [], ◌∷◌, ◌++◌, Bytes, false, Option, none, some, if◌then◌else◌, All, codes,
  str_eq, ◌==◌, length, length-append, take, take-append, append-nil, arith, ◌≢◌,
}
use intern_status_update.Proxy.Text.{
  find_text, scan, scan-append, scan-All, split_at_byte-append, find_text-append, Lacks,
}
use intern_status_update.Proxy.Url.{
  Url, normalize_url, ends_host, is_slash, read_port, read_path, split_url, parse_url, before_text,
  default_scheme, request_of, parse_request,
}

-- The bytes of a scheme: no colon.
abbrev pub IsScheme : Bytes → Type 0
IsScheme = Lacks b':'

abbrev pub IsHost : Bytes → Type 0
IsHost = All (λ c. (c ≢ b':') × (c ≢ b'/'))

abbrev pub IsPort : Bytes → Type 0
IsPort = Lacks b'/'

passed : (s : Bytes) → IsHost s → All (λ c. ends_host c ≡ false) s
passed [] h = tt
passed (c ∷ s) h = (rw (ne→== c b':' h.0.0, ne→== c b'/' h.0.1) refl, passed s h.1)

passed_port : (s : Bytes) → IsPort s → All (λ c. is_slash c ≡ false) s
passed_port [] h = tt
passed_port (c ∷ s) h = (ne→== c b'/' h.0, passed_port s h.1)

-- `:port`, if a port is given.
abbrev pub port_text : Option Bytes → Bytes
port_text none = []
port_text (some port) = b':' ∷ port

abbrev pub port_of : Bytes → Option Bytes → Bytes
port_of scheme none = if str_eq scheme (codes "https") then codes "443" else codes "80"
port_of scheme (some port) = port

-- The path of a URL without one is `/`.
abbrev pub path_of : Bytes → Bytes
path_of path = if length path == 0 then codes "/" else path

read_path-path_of : (path : Bytes) → read_path path ≡ path_of path
unfolding read_path
read_path-path_of [] = refl
read_path-path_of (c ∷ p) =
    let some_bytes : (length (c ∷ p) == 0) ≡ false = ground arith in rw some_bytes refl

abbrev pub IsPortText : Option Bytes → Type 0
IsPortText none = Unit
IsPortText (some port) = IsPort port

-- A path is empty or starts with a slash.
abbrev pub IsPath : Bytes → Type 0
IsPath [] = Unit
IsPath (c ∷ p) = c ≡ b'/'

-- The text of a URL.
unfoldable pub print_url : Bytes → Bytes → Option Bytes → Bytes → Bytes
print_url scheme host port path = scheme ++ (codes "://" ++ (host ++ (port_text port ++ path)))

-- What stands before a known end.
take_front : (a b : Bytes) → take (length (a ++ b) - length b) (a ++ b) ≡ a
take_front a b =
    let here : length (a ++ b) - length b ≡ length a = omega (arith, length-append a b) in
    rw here (take-append a b)

host_scan :
    (host path : Bytes) (port : Option Bytes)
    → IsHost host
    → IsPath path
    → scan ends_host (host ++ (port_text port ++ path)) ≡ (host, port_text port ++ path)
host_scan host [] none h hp = rw append-nil (scan-All ends_host host (passed host h))
host_scan host (c ∷ path) none h hp =
    rw hp (scan-append ends_host host b'/' path (passed host h) refl)
host_scan host path (some p) h hp = scan-append ends_host host b':' (p ++ path) (passed host h) refl

port_read :
    (scheme path : Bytes) (port : Option Bytes)
    → IsPortText port
    → IsPath path
    → read_port scheme (port_text port ++ path) ≡ (port_of scheme port, path)
unfolding read_port
port_read scheme [] none h hp = refl
port_read scheme (c ∷ path) none h hp = rw hp refl
port_read scheme [] (some p) h hp = rw append-nil (scan-All is_slash p (passed_port p h))
port_read scheme (c ∷ path) (some p) h hp =
    rw hp (scan-append is_slash p b'/' path (passed_port p h) refl)

module _ (scheme host path : Bytes) (port : Option Bytes) (hscheme : IsScheme scheme)
    (hhost : IsHost host) (hport : IsPortText port) (hpath : IsPath path) where
  found-print_url :
      find_text (codes "://") (print_url scheme host port path)
      ≡ some (codes "://" ++ (host ++ (port_text port ++ path)))
  unfolding print_url
  found-print_url =
      find_text-append b':' (codes "//") scheme (host ++ (port_text port ++ path)) hscheme

  scheme-print_url :
      take
        (length (print_url scheme host port path)
          - length (codes "://" ++ (host ++ (port_text port ++ path))))
        (print_url scheme host port path)
      ≡ scheme
  unfolding print_url
  scheme-print_url = take_front scheme (codes "://" ++ (host ++ (port_text port ++ path)))

  -- The parts of the text.
  split-print_url :
      split_url
        (print_url scheme host port path)
        (codes "://" ++ (host ++ (port_text port ++ path)))
      ≡ record {
        url = print_url scheme host port path;
        scheme = scheme;
        host = host;
        port = port_of scheme port;
        path = path_of path;
      }
  unfolding split_url
  split-print_url =
      rw
        (
          scheme-print_url,
          host_scan host path port hhost hpath,
          port_read scheme path port hport hpath,
          read_path-path_of path,
        )
        refl

  normalize-print_url :
      (d : Bytes)
      → normalize_url d (print_url scheme host port path) ≡ print_url scheme host port path
  unfolding normalize_url
  normalize-print_url d = rw (found-print_url, normalize_url) refl

abbrev pub parts : Bytes → Bytes → Option Bytes → Bytes → Url
parts scheme host port path = record {
  url = print_url scheme host port path;
  scheme = scheme;
  host = host;
  port = port_of scheme port;
  path = path_of path;
}

parse-print_url :
    (d scheme host path : Bytes) (port : Option Bytes)
    → IsScheme scheme
    → IsHost host
    → IsPortText port
    → IsPath path
    → parse_url d (print_url scheme host port path) ≡ some (parts scheme host port path)
unfolding parse_url
parse-print_url d scheme host path port hs hh hp hq =
    rw
      (
        normalize-print_url scheme host path port hs hh hp hq d,
        found-print_url scheme host path port hs hh hp hq,
        normalize-print_url scheme host path port hs hh hp hq d,
        split-print_url scheme host path port hs hh hp hq,
        parse_url,
      )
      refl

bare_url :
    (d host path : Bytes) (port : Option Bytes)
    → find_text (codes "://") (host ++ (port_text port ++ path)) ≡ none
    → normalize_url d (host ++ (port_text port ++ path)) ≡ print_url d host port path
unfolding print_url normalize_url
bare_url d host path port absent = rw (absent, normalize_url) refl

-- The scheme has no colon, the host no colon and no slash, the port, if one is written, no slash, and
-- the path is empty or starts with a slash. Then `parse_url` recovers them from the text of the URL,
-- whatever the default scheme is; and from the text without the scheme, if this holds no `://`, it
-- reads them with the default scheme. A port that is not written is 443 for `https` and 80 otherwise,
-- and an empty path is `/`.
pub parse_url-print_url :
    (d scheme host path : Bytes) (port : Option Bytes)
    → IsScheme d
    → IsScheme scheme
    → IsHost host
    → IsPortText port
    → IsPath path
    → (parse_url d (print_url scheme host port path) ≡ some (parts scheme host port path))
      × (find_text (codes "://") (host ++ (port_text port ++ path)) ≡ none
          → parse_url d (host ++ (port_text port ++ path)) ≡ some (parts d host port path))
unfolding parse_url
parse_url-print_url d scheme host path port hd hs hh hp hq = (
  parse-print_url d scheme host path port hs hh hp hq,
  λ absent.
      rw
        (
          bare_url d host path port absent,
          found-print_url d host path port hd hh hp hq,
          bare_url d host path port absent,
          split-print_url d host path port hd hh hp hq,
          parse_url,
        )
        refl,
)

abbrev pub NoSpace : Bytes → Type 0
NoSpace = Lacks b' '

-- The start of a request, and what follows it.
abbrev pub print_request : Bytes → Bytes → Bytes → Bytes → Bytes
print_request method url version rest =
    method ++ b' ' ∷ (url ++ b' ' ∷ (version ++ (codes "\r\n" ++ rest)))

before_text-crlf :
    (s rest : Bytes)
    → Lacks 0x0D s
    → before_text (codes "\r\n") (s ++ (codes "\r\n" ++ rest)) ≡ some s
unfolding before_text
before_text-crlf s rest h =
    rw
      (
        find_text-append 0x0D (codes "\n") s rest h,
        take_front s (codes "\r\n" ++ rest),
        before_text,
      )
      refl

-- From a request line with the text of a URL as above, its method and its URL without a space and its
-- version without a carriage return, `parse_request` recovers the method, the version and the parts of
-- the URL, whatever follows the line.
pub parse_request-print_request :
    (method version rest scheme host path : Bytes) (port : Option Bytes)
    → NoSpace method
    → NoSpace (print_url scheme host port path)
    → Lacks 0x0D version
    → IsScheme scheme
    → IsHost host
    → IsPortText port
    → IsPath path
    → parse_request (print_request method (print_url scheme host port path) version rest)
      ≡ some (record { method = method; version = version; url = parts scheme host port path })
unfolding parse_request request_of
parse_request-print_request method version rest scheme host path port hm hu hv hs hh hp hq =
    rw
      (
        split_at_byte-append b' ' method
            (print_url scheme host port path ++ b' ' ∷ (version ++ (codes "\r\n" ++ rest))) hm,
        split_at_byte-append b' ' (print_url scheme host port path)
            (version ++ (codes "\r\n" ++ rest)) hu,
        before_text-crlf version rest hv,
        parse-print_url (default_scheme method) scheme host path port hs hh hp hq,
        parse_request,
        request_of,
      )
      refl
