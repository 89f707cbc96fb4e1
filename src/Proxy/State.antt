-- ===== src/Proxy/State.antt =====
-- HTTP Proxy Effecient/data.c: the connections and their two ends, with the count of references, and
-- the memory of the proxy. A pointer is a place in the list of all that were allocated.
pub mod Holders
pub mod Cleanup
use intern_status_update.Base.{
  ℕ, zero, suc, ◌+◌, [], ◌∷◌, ◌++◌, List, Bytes, Bool, true, false, Option, none, some, Run, ok,
  fault, ◌>>=◌, deref, if◌then◌else◌, length, set, live,
}
use intern_status_update.Base.Int.{int_pred, ℤ, pos, negsuc, int_eq}
use intern_status_update.HashMap.{Table}
use intern_status_update.Proxy.Auth.{User}

-- `scheme` is not set at first.
pub record Connection : Type 0 where
  pub scheme : Option ℕ
  pub fd1 : ℤ
  pub fd2 : ℤ
  pub refs : ℤ
  pub authorized : Bool
  pub key : Option Bytes

pub record End : Type 0 where
  pub fd : ℤ
  pub tunnel_mode : Bool
  pub connection : Option ℕ

-- The cache, the users, the objects allocated, and what was sent, the last first.
pub record Proxy : Type 0 where
  pub table : Table Bytes
  pub users : List User
  pub connections : List (Option Connection)
  pub ends : List (Option End)
  pub sent : List (ℤ × Bytes)

-- `refs++` and `refs--`
abbrev pub int_suc : ℤ → ℤ
int_suc (pos n) = pos (suc n)
int_suc (negsuc zero) = pos 0
int_suc (negsuc (suc n)) = negsuc n

abbrev pub load_end : ℕ → Proxy → Run End
load_end d s = deref (live s.ends d)

abbrev pub load_connection : ℕ → Proxy → Run Connection
load_connection p s = deref (live s.connections p)

unfoldable pub store_connection : ℕ → Connection → Proxy → Run Proxy
store_connection p c s = do
  old ← load_connection p s
  ok (record s { connections = set s.connections p (some c) })

unfoldable pub free_connection : ℕ → Proxy → Run Proxy
free_connection p s = do
  old ← load_connection p s
  ok (record s { connections = set s.connections p none })

unfoldable pub store_end : ℕ → End → Proxy → Run Proxy
store_end d x s = do old ← load_end d s; ok (record s { ends = set s.ends d (some x) })

unfoldable pub free_end : ℕ → Proxy → Run Proxy
free_end d s = do old ← load_end d s; ok (record s { ends = set s.ends d none })

unfoldable pub create_connection : ℤ → ℤ → Connection
create_connection client server = record {
  scheme = none;
  fd1 = client;
  fd2 = server;
  refs = pos 0;
  authorized = false;
  key = none;
}

-- `createData` of a connection that is not NULL: the new end, with one reference more.
unfoldable pub create_end : ℤ → ℕ → Proxy → Run (ℕ × Proxy)
create_end fd p s = do
  c ← load_connection p s
  s1 ← store_connection p (record c { refs = int_suc c.refs }) s
  ok (
    length s1.ends,
    record s1 {
      ends = s1.ends ++ some (record { fd = fd; tunnel_mode = false; connection = some p }) ∷ [];
    },
  )

-- The part of `cleanup_connection` behind the decrement.
unfoldable pub release : ℕ → ℤ → Proxy → Run Proxy
release p refs s = if int_eq refs (pos 0) then free_connection p s else ok s

-- An end without a connection, as that of the listening socket, is a NULL pointer used.
unfoldable pub cleanup_connection : ℕ → Proxy → Run Proxy
cleanup_connection d s = do
  x ← load_end d s
  p ← deref x.connection
  c ← load_connection p s
  s1 ← store_connection p (record c { refs = int_pred c.refs }) s
  s2 ← release p (int_pred c.refs) s1
  free_end d s2
