-- ===== src/Proxy/Auth/Basic.antt =====
-- `authorize` answers by the credentials in the header.
use intern_status_update.Base.{
  ℕ, zero, suc, ap, ◌∙◌, replicate, length-replicate, ne→==, ◌+◌, ◌≤◌, ◌<◌, ◌≡◌, refl, [], ◌∷◌,
  ◌++◌, List, Bytes, Bool, true, false, ◌⊎◌, inl, inr, Bool-cases, str_eq_iff, Run, Option, none,
  some, ok, if◌then◌else◌, lt→ltb, length, length-append, append_assoc, arith,
}
use intern_status_update.Libc.{cstr}
use intern_status_update.Proxy.Text.{find_text, split_at_byte-append, Lacks}
use intern_status_update.Proxy.Auth.{
  User, authenticate, validate, refusal, header, decoded_memory, check_header, authorize_text,
  authorize,
}

cstr-Lacks : (s : Bytes) → Lacks 0 s → cstr s ≡ s
unfolding cstr
cstr-Lacks [] h = refl
cstr-Lacks (x ∷ s) h = rw (ne→== x 0 h.0, cstr-Lacks s h.1) refl

validate-text :
    (name password stale : Bytes) (users : List User)
    → Lacks b':' name
    → Lacks 0 name
    → Lacks 0 password
    → validate (name ++ b':' ∷ (password ++ 0 ∷ stale)) users
      ≡ ok (authenticate name password users)
unfolding validate
validate-text name password stale users h1 h2 h3 =
    rw
      (
        split_at_byte-append b':' name (password ++ 0 ∷ stale) h1,
        split_at_byte-append 0 password stale h3,
        cstr-Lacks name h2,
      )
      refl

-- Behind a password stand the zero bytes of the padding, and the terminator.
zeros : (n : ℕ) (stale : Bytes) → (rest : Bytes) × (replicate n 0 ++ 0 ∷ stale ≡ 0 ∷ rest)
unfolding replicate
zeros zero stale = (stale, refl)
zeros (suc n) stale = (replicate n 0 ++ 0 ∷ stale, refl)

validate-padded :
    (name password stale : Bytes) (n : ℕ) (users : List User)
    → Lacks b':' name
    → Lacks 0 name
    → Lacks 0 password
    → validate ((name ++ b':' ∷ (password ++ replicate n 0)) ++ 0 ∷ stale) users
      ≡ ok (authenticate name password users)
validate-padded name password stale n users h1 h2 h3 =
    let (rest, e) = zeros n stale in
    let together : (name ++ b':' ∷ (password ++ replicate n 0)) ++ 0 ∷ stale
        ≡ name ++ b':' ∷ (password ++ 0 ∷ rest) =
      append_assoc name (b':' ∷ (password ++ replicate n 0)) (0 ∷ stale)
      ∙ ap (λ t. name ++ b':' ∷ t)
          (append_assoc password (replicate n 0) (0 ∷ stale) ∙ ap (λ t. password ++ t) e) in
    ap (λ mem. validate mem users) together ∙ validate-text name password rest users h1 h2 h3

checked :
    (decode_block : Bytes → Option Bytes) (stale : Bytes) (users : List User)
    (encoded name password rest : Bytes) (n : ℕ)
    → Lacks 0x0D encoded
    → decode_block encoded ≡ some (name ++ b':' ∷ (password ++ replicate n 0))
    → length name + length password + n ≤ 254
    → Lacks b':' name
    → Lacks 0 name
    → Lacks 0 password
    → check_header decode_block (header ++ (encoded ++ 0x0D ∷ rest)) stale users
      ≡ ok (
        authenticate name password users,
        if authenticate name password users then [] else refusal ∷ [],
      )
unfolding check_header decoded_memory
checked decode_block stale users encoded name password rest n h1 decoded short h2 h3 h4 =
    let text = name ++ b':' ∷ (password ++ replicate n 0) in
    let fits : length text < 256 = omega (
      arith,
      length-append name (b':' ∷ (password ++ replicate n 0)),
      length-append password (replicate n 0),
      length-replicate {A = ℕ} n 0,
    ) in
    rw
      (
        split_at_byte-append 0x0D encoded rest h1,
        decoded,
        lt→ltb (length text) 256 fits,
        validate-padded name password stale n users h2 h3 h4,
      )
      refl

-- A user of this name and password is among the users.
abbrev pub Knows : List User → Bytes → Bytes → Type 0
Knows [] name password = ⊥
Knows (u ∷ users) name password =
    ((u.username ≡ name) × (u.password ≡ password)) ⊎ Knows users name password

-- Accepted without an answer exactly if there is such a user, and refused otherwise.
abbrev pub Answers : List User → Bytes → Bytes → Run (Bool × List Bytes) → Type 0
Answers users name password r =
    (Knows users name password × (r ≡ ok (true, [])))
    ⊎ ((Knows users name password → ⊥) × (r ≡ ok (false, refusal ∷ [])))

authenticate-Knows :
    (name password : Bytes) (users : List User)
    → ((authenticate name password users ≡ true) → Knows users name password)
      × ((authenticate name password users ≡ false) → Knows users name password → ⊥)
unfolding authenticate
authenticate-Knows name password [] = (λ h. cc, λ h k. k)
authenticate-Knows name password (u ∷ users) =
    let rest = authenticate-Knows name password users in
    let same = str_eq_iff u.username name in
    let fits = str_eq_iff u.password password in ground (arith, rest, same, fits)

authenticate-Answers :
    (name password : Bytes) (users : List User) (r : Run (Bool × List Bytes))
    → r
      ≡ ok (
        authenticate name password users,
        if authenticate name password users then [] else refusal ∷ [],
      )
    → Answers users name password r
authenticate-Answers name password users r h =
    elim (Bool-cases (authenticate name password users)) [
      | inl e ↦ inl ((authenticate-Knows name password users).0 e, h ∙ (rw e refl))
      | inr e ↦ inr ((authenticate-Knows name password users).1 e, h ∙ (rw e refl))
    ]

-- The packet is a text with a terminator behind it. Without the header of the credentials it is refused,
-- with the refusal as the answer. If what follows the first such header, up to a carriage return,
-- decodes to a name, a colon, a password and any number of zero bytes for the padding, of at most 255
-- bytes together, the name without a colon and name and password without a zero byte, then, whatever
-- the stack holds, it is accepted without an answer if a user has this name and this password, and
-- refused with the refusal as the answer otherwise.
pub authorize-Answers :
    (decode_block : Bytes → Option Bytes) (text behind stale : Bytes) (users : List User)
    → Lacks 0 text
    → (find_text header text ≡ none
        → authorize decode_block (text ++ 0 ∷ behind) stale users ≡ ok (false, refusal ∷ []))
      × ((encoded name password rest : Bytes) (n : ℕ)
          → find_text header text ≡ some (header ++ (encoded ++ 0x0D ∷ rest))
          → Lacks 0x0D encoded
          → decode_block encoded ≡ some (name ++ b':' ∷ (password ++ replicate n 0))
          → length name + length password + n ≤ 254
          → Lacks b':' name
          → Lacks 0 name
          → Lacks 0 password
          → Answers users name password (authorize decode_block (text ++ 0 ∷ behind) stale users))
unfolding authorize authorize_text
authorize-Answers decode_block text behind stale users h = (
  λ absent. rw (split_at_byte-append 0 text behind h) (rw (absent, authorize_text) refl),
  λ encoded name password rest n at h1 decoded short h2 h3 h4.
      authenticate-Answers name password users
        (authorize decode_block (text ++ 0 ∷ behind) stale users)
        (rw (split_at_byte-append 0 text behind h) (
          rw (at, authorize_text)
            (checked decode_block stale users encoded name password rest n h1 decoded short h2 h3
              h4))),
)
