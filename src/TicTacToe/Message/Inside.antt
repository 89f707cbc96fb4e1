-- ===== src/TicTacToe/Message/Inside.antt =====
-- What `parse_json_string` takes from a payload lies inside it.
use intern_status_update.Base.{
  ℕ, ◌+◌, ◌≤◌, ◌≡◌, ap, [], ◌∷◌, Bytes, Option, none, some, Run-cases, ok, >>=-eq-ok, ok-injective,
  deref, ◌==◌, Bool-cases, inl, inr, codes, length, read_at, drop, length-drop, arith,
}
use intern_status_update.Libc.{strstr, cstr}
use intern_status_update.Libc.Search.{length-strstr, length-cstr}
use intern_status_update.TicTacToe.Message.{
  Message, until_quote, seek, field_value, parse_json_string,
}

pub length-until_quote :
    (mem v rest : Bytes) → until_quote mem ≡ ok (v, rest) → length v + length rest + 1 ≡ length mem
unfolding until_quote
length-until_quote [] v rest h = cc
length-until_quote (x ∷ xs) v rest h = elim (Bool-cases (x == b'"')) [
  | inl e ↦
      let shown : ◌≡◌ {A = Bytes × Bytes} ([], xs) (v, rest) = ok-injective (rw e at h) in
      omega (arith, ap (λ t. length t.0) shown, ap (λ t. length t.1) shown)
  | inr e ↦ elim (Run-cases (until_quote xs)) [
    | inl f ↦ cc (rw (e, f) at h)
    | inr ((w, r), f) ↦
        let shown : ◌≡◌ {A = Bytes × Bytes} (x ∷ w, r) (v, rest) = ok-injective (rw (e, f) at h) in
        omega (
          arith,
          length-until_quote xs w r f,
          ap (λ t. length t.0) shown,
          ap (λ t. length t.1) shown,
        )
  ]
]

length-deref :
    (mem needle p : Bytes) (o : Option Bytes)
    → strstr mem needle ≡ ok o
    → deref o ≡ ok p
    → length p ≤ length mem
length-deref mem needle p none e f = cc
length-deref mem needle p (some q) e f = length-strstr mem needle p (rw (ok-injective f) at e)

pub length-seek : (mem needle p : Bytes) → seek mem needle ≡ ok p → length p ≤ length mem
unfolding seek
length-seek mem needle p h =
    let (o, e, f) = >>=-eq-ok (strstr mem needle) deref h in length-deref mem needle p o e f

length-field_value :
    (mem name : Bytes) (skip : ℕ) (v rest : Bytes)
    → field_value mem name skip ≡ ok (v, rest)
    → skip + length v + length rest + 1 ≤ length mem
unfolding field_value
length-field_value mem name skip v rest h =
    let (p, found, h1) = >>=-eq-ok (seek mem name) _ h in
    let ((w, r), quoted, h2) = >>=-eq-ok (until_quote (drop skip p)) _ h1 in
    let total = length-until_quote (drop skip p) w r quoted in
    let shown : (cstr w, r) ≡ (v, rest) = ok-injective h2 in
    omega (
      arith,
      length-seek mem name p found,
      length-drop skip p,
      total,
      length-cstr w,
      ap (λ t. length t.0) shown,
      ap (λ t. length t.1) shown,
    )

-- A payload that `parse_json_string` accepts is at least 30 bytes longer than its three strings
-- together; so what it returns lies inside the payload, and it runs past the end of any shorter one.
pub parse_json_string_inside :
    (string : Bytes) (m : Message)
    → parse_json_string string ≡ ok m
    → length m.matchid + length m.code + length m.message + 30 ≤ length string
unfolding parse_json_string
parse_json_string_inside string m h =
    let ((id, r1), e1, h1) = >>=-eq-ok (field_value string (codes "matchid") 10) _ h in
    let (p, e2, h2) = >>=-eq-ok (seek r1 (codes "player")) _ h1 in
    let (player, e3, h3) = >>=-eq-ok (read_at p 9) _ h2 in
    let ((code, r2), e4, h4) = >>=-eq-ok (field_value p (codes "code") 7) _ h3 in
    let ((message, r3), e5, h5) = >>=-eq-ok (field_value r2 (codes "message") 10) _ h4 in
    let done = ok-injective h5 in
    omega (
      arith,
      length-field_value string (codes "matchid") 10 id r1 e1,
      length-seek r1 (codes "player") p e2,
      length-field_value p (codes "code") 7 code r2 e4,
      length-field_value r2 (codes "message") 10 message r3 e5,
      ap (λ t. length t.matchid) done,
      ap (λ t. length t.code) done,
      ap (λ t. length t.message) done,
    )
