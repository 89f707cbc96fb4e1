-- ===== src/Proxy/Url.antt =====
-- HTTP Proxy Effecient/request.c: the URL and the request line. The copy in HTTP Proxy Server has no
-- `getKeyfromRequest`.
pub mod RoundTrip
use intern_status_update.Base.{
  ℕ, ◌+◌, ◌-◌, [], ◌∷◌, ◌++◌, Bytes, Bool, true, false, ◌||◌, Option, none, some, Run, ok, fault,
  if◌then◌else◌, ltb, ◌==◌, codes, str_eq, length, take, drop,
}
use intern_status_update.Proxy.Text.{find_text, scan, split_at_byte}

pub record Url : Type 0 where
  pub url : Bytes
  pub scheme : Bytes
  pub host : Bytes
  pub port : Bytes
  pub path : Bytes

pub record Request : Type 0 where
  pub method : Bytes
  pub version : Bytes
  pub url : Url

-- The key in its 100 bytes, the terminator included.
unfoldable pub get_key_from_request : Request → Run Bytes
get_key_from_request req =
    let key = req.method ++ (req.url.host ++ req.url.path) in
    if ltb (length key) 100 then ok key else fault

unfoldable pub normalize_url : Bytes → Bytes → Bytes
normalize_url scheme url = elim (find_text (codes "://") url) [
  | some p ↦ url
  | none ↦ scheme ++ (codes "://" ++ url)
]

-- Where the host ends.
abbrev pub ends_host : ℕ → Bool
ends_host c = c == b':' || c == b'/'

abbrev pub is_slash : ℕ → Bool
is_slash c = c == b'/'

-- The port and what follows it, from the end of the host on.
unfoldable pub read_port : Bytes → Bytes → Bytes × Bytes
read_port scheme [] = (if str_eq scheme (codes "https") then codes "443" else codes "80", [])
read_port scheme (c ∷ p) =
    if c == b':'
    then scan is_slash p
    else (if str_eq scheme (codes "https") then codes "443" else codes "80", c ∷ p)

unfoldable pub read_path : Bytes → Bytes
read_path [] = codes "/"
read_path (c ∷ p) = c ∷ p

-- The parts of a text behind `://`, which stands at `at`.
unfoldable pub split_url : Bytes → Bytes → Url
split_url full at =
    let scheme = take (length full - length at) full in
    let (host, p) = scan ends_host (drop 3 at) in
    let (port, q) = read_port scheme p in
    record { url = full; scheme = scheme; host = host; port = port; path = read_path q }

-- `none` is the result -1.
unfoldable pub parse_url : Bytes → Bytes → Option Url
parse_url scheme url =
    let full = normalize_url scheme url in
    elim (find_text (codes "://") full) [ none ↦ none | some at ↦ some (split_url full at) ]

-- What the search finds in front of the text: the version.
unfoldable pub before_text : Bytes → Bytes → Option Bytes
before_text needle s = elim (find_text needle s) [
  | none ↦ none
  | some at ↦ some (take (length s - length at) s)
]

unfoldable pub default_scheme : Bytes → Bytes
default_scheme method = if str_eq method (codes "CONNECT") then codes "https" else codes "http"

-- The URL of a request whose three parts are found.
unfoldable pub request_of : Bytes → Bytes → Bytes → Option Request
request_of method url version = elim (parse_url (default_scheme method) url) [
  | none ↦ none
  | some u ↦ some (record { method = method; version = version; url = u })
]

-- The buffer is a C string.
unfoldable pub parse_request : Bytes → Option Request
parse_request buf = elim (split_at_byte b' ' buf) [
  | none ↦ none
  | some (method, p) ↦ elim (split_at_byte b' ' p) [
    | none ↦ none
    | some (url, q) ↦ elim (before_text (codes "\r\n") q) [
      | none ↦ none
      | some version ↦ request_of method url version
    ]
  ]
]
