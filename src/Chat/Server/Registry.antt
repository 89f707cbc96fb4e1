-- ===== src/Chat/Server/Registry.antt =====
-- Registration and the end of a connection keep the table of names in order.
use intern_status_update.Base.{
  after, deref-eq-ok, ℕ, ◌≡◌, refl, sym, subst, ap, ◌∙◌, inl, inr, Bytes, true, false, none, some,
  Run, ok, ok-injective, >>=-eq-ok, ◌>>=◌, deref, ==_iff, Bool-cases, Option-cases, set, live,
  live-set, live-lt,
}
use intern_status_update.HashMap.{get, remove_key, is_available}
use intern_status_update.HashMap.Correct.{put_refines, remove_key_refines, is_available-get}
use intern_status_update.Chat.Message.{Message}
use intern_status_update.Chat.Server.{
  Client, Server, load, store_client, free_client, close_connection, enter, register,
}
use intern_status_update.Chat.Server.Owners.{Inv, Owner, write-Inv, drop-Inv, unlist-Inv, enter-Inv}

-- From a state in order, whatever it returns is in order.
abbrev pub Keeps : (Server → Run Server) → Type 0
Keeps f = (s : Server) → Inv s → (t : Server) → f s ≡ ok t → Inv t

-- A write that returned was one to a live client.
stored :
    (c : ℕ) (r : Client) (f : Server → Run Server) (s t : Server)
    → (store_client c r s >>= f) ≡ ok t
    → f (record s { clients = set s.clients c (some r) }) ≡ ok t
unfolding store_client
stored c r f s t h =
    after (store_client c r s) f t h
      λ s1 e g. after (load c s) _ s1 e λ old _ same. rw (← ok-injective same) at g

-- The name of the client is no longer in the table, and whoever had it is freed.
remove-Inv :
    (name : Bytes) (s t : Server)
    → Inv s
    → free_client (remove_key name s.table).1 (record s { table = (remove_key name s.table).0 })
      ≡ ok t
    → Inv t
unfolding remove_key free_client
remove-Inv name s t v h =
    let (valid, freed, after) = remove_key_refines s.table v.table name in
    elim (Option-cases (get name s.table)) [
      | inl e ↦ subst Inv (ok-injective (rw (freed, e, free_client) at h)) (unlist-Inv s v name)
      | inr (p, e) ↦
          let (old, _, f) =
            >>=-eq-ok (load p (record s { table = (remove_key name s.table).0 })) _
              (rw (freed, e, free_client) at h) in
          subst Inv (ok-injective f) (drop-Inv s v name p e)
    ]

-- A live client that stands under a name has it.
owned :
    (s : Server)
    → Inv s
    → (c : ℕ) (r : Client) → live s.clients c ≡ some r
    → (key : Bytes) → get key s.table ≡ some c
    → (r.username ≡ some key) × (r.added ≡ true)
owned s v c r at key listed =
    let (x, found, named, added) = v.owner key c listed in
    let both : some x ≡ some r = sym found ∙ at in
    let same : x ≡ r = cc in
    (sym (ap (λ q. q.username) same) ∙ named, sym (ap (λ q. q.added) same) ∙ added)

pub close_connection-Keeps : (c : ℕ) → Keeps (close_connection c)
unfolding close_connection
close_connection-Keeps c s v t h = after (load c s) _ t h λ r e1 h1.
    after (deref r.username) _ t (stored c (record r { active = false }) _ s t h1) λ name e2 h2.
      let at = deref-eq-ok (live s.clients c) r e1 in
      let s1 = record s { clients = set s.clients c (some (record r { active = false })) } in
      remove-Inv name s1 t (write-Inv s v c r (record r { active = false }) at (owned s v c r at))
        h2

enter-Keeps :
    (c : ℕ) (name : Bytes) (s t : Server)
    → Inv s
    → Owner s name c
    → get name s.table ≡ none
    → enter c name s ≡ ok t
    → Inv t
unfolding enter free_client
enter-Keeps c name s t v own vacant h =
    let (_, freed, _) = put_refines s.table v.table name c in
    subst Inv (ok-injective (rw (freed, vacant, free_client) at h)) (enter-Inv s v name c own)

vacant_name :
    (s : Server) (name : Bytes) → is_available name s.table ≡ false → get name s.table ≡ none
vacant_name s name e = elim (Option-cases (get name s.table)) [
  | inl f ↦ f
  | inr (p, f) ↦ cc (rw (is_available-get s.table name, f) at e)
]

-- A client that is not registered yet.
pub register-Keeps :
    (c : ℕ) (r : Client) (m : Message) (s t : Server)
    → Inv s
    → live s.clients c ≡ some r
    → r.added ≡ false
    → register c r m s ≡ ok t
    → Inv t
unfolding register
register-Keeps c r m s t v at fresh h =
    let r1 : Client = record r { added = true; username = some m.message } in
    let s1 = record s { clients = set s.clients c (some r1) } in
    let v1 : Inv s1 =
      write-Inv s v c r r1 at
        λ key listed. let (_, added) = owned s v c r at key listed in absurd (cc) in
    let next = stored c r1 _ s t h in
    elim (Bool-cases (is_available m.message s.table)) [
      | inl e ↦ close_connection-Keeps c s1 v1 t (rw e at next)
      | inr e ↦
          enter-Keeps c m.message s1 t v1
            (
              r1,
              (rw (live-set s.clients c c (some r1) (live-lt s.clients c r at), (==_iff c c).1 refl)
                  refl),
              refl,
              refl,
            )
            (vacant_name s m.message e) (rw e at next)
    ]
