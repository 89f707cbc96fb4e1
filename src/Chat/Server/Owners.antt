-- ===== src/Chat/Server/Owners.antt =====
-- The table of names holds live clients under their own names, whatever a client sends.
use intern_status_update.Base.{
  ℕ, ◌≡◌, sym, ap, ◌∙◌, inl, inr, Bytes, true, false, none, some, ◌==◌, ==_iff, Bool-cases, set,
  str_eq, str_eq_iff, live, live-lt, live-set,
}
use intern_status_update.HashMap.{put, get, remove_key}
use intern_status_update.HashMap.Correct.{IsTable, put_refines, remove_key_refines}
use intern_status_update.Chat.Server.{Client, Server}

-- Whoever stands under a name is a live client with that name, and registered.
abbrev pub Owner : Server → Bytes → ℕ → Type 0
Owner s key p =
    (r : Client) × (live s.clients p ≡ some r) × (r.username ≡ some key) × (r.added ≡ true)

pub record Inv (s : Server) : Type 0 where
  pub table : IsTable s.table
  pub owner : (key : Bytes) (p : ℕ) → get key s.table ≡ some p → Owner s key p

module _ (s : Server) (v : Inv s) where
  -- A write to a live client that leaves a listed one its name.
  pub write-Inv :
      (c : ℕ) (old r : Client)
      → live s.clients c ≡ some old
      → ((key : Bytes) → get key s.table ≡ some c → (r.username ≡ some key) × (r.added ≡ true))
      → Inv (record s { clients = set s.clients c (some r) })
  write-Inv c old r at keeps = record {
    table = v.table;
    owner = λ key p listed. elim (Bool-cases (c == p)) [
      | inl e ↦
          let here : c ≡ p = (==_iff c p).0 e in
          let (named, added) = keeps key (listed ∙ ap some (sym here)) in
          (r, (rw (live-set s.clients c p (some r) (live-lt s.clients c old at), e)), named, added)
      | inr e ↦
          let (x, found, named, added) = v.owner key p listed in
          (
            x,
            (rw (live-set s.clients c p (some r) (live-lt s.clients c old at), e) found),
            named,
            added,
          )
    ];
  }

  apart :
      (name key : Bytes) (p q : ℕ) (x y : Client)
      → str_eq name key ≡ false
      → live s.clients p ≡ some x
      → live s.clients q ≡ some y
      → x.username ≡ some name
      → y.username ≡ some key
      → (p == q) ≡ false
  apart name key p q x y e found at named own = elim (Bool-cases (p == q)) [
    | inr f ↦ f
    | inl f ↦
        let here : p ≡ q = (==_iff p q).0 f in
        let same : some x ≡ some y = sym found ∙ ap (live s.clients) here ∙ at in
        let one : x ≡ y = cc in
        let names : some name ≡ some key = sym named ∙ ap (λ r. r.username) one ∙ own in
        let equal : name ≡ key = cc in
        let yes_ : str_eq name key ≡ true = (str_eq_iff name key).1 equal in cc
  ]

  same-Owner :
      (name key : Bytes) (c q : ℕ) → name ≡ key → some c ≡ some q → Owner s name c → Owner s key q
  same-Owner name key c q e f own = let g : c ≡ q = cc in rw (← e, ← g) own

  -- A client leaves the table and is freed.
  pub drop-Inv :
      (name : Bytes) (p : ℕ)
      → get name s.table ≡ some p
      → Inv (record s { table = (remove_key name s.table).0; clients = set s.clients p none })
  drop-Inv name p listed =
      let (valid, _, after) = remove_key_refines s.table v.table name in
      let (x, found, named, _) = v.owner name p listed in
      record {
        table = valid;
        owner = λ key q there. elim (Bool-cases (str_eq name key)) [
          | inl e ↦ cc (rw (after key, e) at there)
          | inr e ↦
              let (y, at, own, added) = v.owner key q (rw (after key, e) at there) in
              let other : (p == q) ≡ false = apart name key p q x y e found at named own in
              (
                y,
                (rw (live-set s.clients p q none (live-lt s.clients p x found), other) at),
                own,
                added,
              )
        ];
      }

  -- A name that nobody has is taken out.
  pub unlist-Inv : (name : Bytes) → Inv (record s { table = (remove_key name s.table).0 })
  unlist-Inv name =
      let (valid, _, after) = remove_key_refines s.table v.table name in
      record {
        table = valid;
        owner = λ key q there. elim (Bool-cases (str_eq name key)) [
          | inl e ↦ cc (rw (after key, e) at there)
          | inr e ↦ v.owner key q (rw (after key, e) at there)
        ];
      }

  -- A live client is entered under its name.
  pub enter-Inv :
      (name : Bytes) (c : ℕ) → Owner s name c → Inv (record s { table = (put name c s.table).0 })
  enter-Inv name c own =
      let (valid, _, after) = put_refines s.table v.table name c in
      record {
        table = valid;
        owner = λ key q there. elim (Bool-cases (str_eq name key)) [
          | inl e ↦
              let here : some c ≡ some q = rw (after key, e) at there in
              same-Owner name key c q ((str_eq_iff name key).0 e) here own
          | inr e ↦ v.owner key q (rw (after key, e) at there)
        ];
      }
