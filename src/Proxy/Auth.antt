-- ===== src/Proxy/Auth.antt =====
-- HTTP Proxy Effecient/proxy-auth.c (and its copy in HTTP Proxy Server): the users, and the check of
-- a request's credentials. The base 64 decoder of OpenSSL is a parameter.
pub mod Users
pub mod Basic
use intern_status_update.Base.{
  ℕ, zero, suc, ◌+◌, [], ◌∷◌, ◌++◌, List, Bytes, Bool, true, false, ◌&&◌, Option, none, some, Run,
  ok, fault, ◌>>=◌, deref, if◌then◌else◌, ltb, codes, str_eq, length, take, drop,
}
use intern_status_update.Libc.{cstr}
use intern_status_update.Proxy.Text.{find_text, split_at_byte}

pub record User : Type 0 where
  pub username : Bytes
  pub password : Bytes

abbrev pub max_users : ℕ
max_users = 100

-- `user_count` is the length of the list; `strncpy` copies 63 bytes at most.
unfoldable pub add_user : Bytes → Bytes → List User → List User
add_user username password users =
    if ltb (length users) max_users
    then users ++ record { username = take 63 username; password = take 63 password } ∷ []
    else users

unfoldable pub authenticate : Bytes → Bytes → List User → Bool
authenticate username password [] = false
authenticate username password (u ∷ users) =
    let rest = authenticate username password users in
    if str_eq u.username username && str_eq u.password password then true else rest

-- The memory from `data` to the end of its object: the name stands before the first colon, the
-- password behind it up to a terminator.
unfoldable pub validate : Bytes → List User → Run Bool
validate mem users = do
  (name, rest) ← deref (split_at_byte b':' mem)
  (password, behind) ← deref (split_at_byte 0 rest)
  ok (authenticate (cstr name) password users)

abbrev pub refusal : Bytes
refusal =
    codes
      "HTTP/1.1 407 Proxy Authentication Required\r\nProxy-Authenticate: Basic realm = \"MyProxy\"\r\n"
    ++ codes "Connection : close\r\n"

abbrev pub header : Bytes
header = codes "Proxy-Authorization: Basic "

-- `EVP_DecodeBlock`, where none is its result -1: the terminator is then written in front of the array,
-- as it is behind it for 256 bytes or more. `stale` is the rest of the array.
unfoldable pub decoded_memory : (Bytes → Option Bytes) → Bytes → Bytes → Run Bytes
decoded_memory decode_block encoded stale = do
  text ← deref (decode_block encoded)
  if ltb (length text) 256 then ok (text ++ 0 ∷ stale) else fault

-- From the header on.
unfoldable pub check_header :
    (Bytes → Option Bytes) → Bytes → Bytes → List User → Run (Bool × List Bytes)
check_header decode_block at stale users = do
  (encoded, line_end) ← deref (split_at_byte 0x0D (drop 27 at))
  mem ← decoded_memory decode_block encoded stale
  valid ← validate mem users
  ok (valid, if valid then [] else refusal ∷ [])

unfoldable pub authorize_text :
    (Bytes → Option Bytes) → Bytes → Bytes → List User → Run (Bool × List Bytes)
authorize_text decode_block text stale users = elim (find_text header text) [
  | none ↦ ok (false, refusal ∷ [])
  | some at ↦ check_header decode_block at stale users
]

-- The answer, and what is sent to the client. `buf` is the memory of the packet: what was received,
-- and what the stack held behind it; `strdup` copies up to a terminator.
unfoldable pub authorize :
    (Bytes → Option Bytes) → Bytes → Bytes → List User → Run (Bool × List Bytes)
authorize decode_block buf stale users = do
  (text, behind) ← deref (split_at_byte 0 buf)
  authorize_text decode_block text stale users
