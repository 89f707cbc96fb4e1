-- ===== src/Echo/Invariant/Table.antt =====
-- Mini Project 27-1-26/EchoServer.c: a client enters the table, or is found in it.
use intern_status_update.Base.{
  ℕ, suc, ◌+◌, ◌≡◌, refl, ap, subst, sym, ◌∙◌, inl, inr, [], ◌∷◌, ◌++◌, List, Bytes, false, none,
  some, ok, deref, deref-eq-ok, after, ok-injective, if_ok, ltb, length, get_elem?, str_eq,
  str_eq_iff, arith, All, All-append, Bool-cases, Option-cases, get_elem?-lt, get_elem?-append,
  get_elem?-append_last, some-injective,
}
use intern_status_update.Echo.{Client, Server, find_user, update_user, add_user, add_or_update_user}
use intern_status_update.Echo.Invariant.{echoes, addresses, IsDistinct, Inv, Moved, set-Moved}

pub find_user-some :
    (ip : Bytes) (cfds : List Client) (i : ℕ)
    → find_user ip cfds ≡ some i
    → get_elem? (addresses cfds) i ≡ some ip
unfolding find_user addresses
find_user-some ip [] i h = cc
find_user-some ip (c ∷ cfds) i h = elim (Bool-cases (str_eq ip c.ip_address)) [
  | inl e ↦
      let here : i ≡ 0 = sym (some-injective (rw e at h)) in
      let same : ip ≡ c.ip_address = (str_eq_iff ip c.ip_address).0 e in
      subst (λ i. get_elem? (c.ip_address ∷ addresses cfds) i ≡ some ip) (sym here)
        (ap some (sym same))
  | inr e ↦ elim (Option-cases (find_user ip cfds)) [
    | inl e2 ↦ cc (rw (e, e2) at h)
    | inr (j, e2) ↦
        let later : i ≡ suc j = sym (some-injective (rw (e, e2) at h)) in
        subst (λ i. get_elem? (c.ip_address ∷ addresses cfds) i ≡ some ip) (sym later)
          (find_user-some ip cfds j e2)
  ]
]

find_user-none :
    (ip : Bytes) (cfds : List Client)
    → find_user ip cfds ≡ none
    → All (λ b. str_eq ip b ≡ false) (addresses cfds)
unfolding find_user addresses
find_user-none ip [] h = tt
find_user-none ip (c ∷ cfds) h = elim (Bool-cases (str_eq ip c.ip_address)) [
  | inl e ↦ cc (rw e at h)
  | inr e ↦ elim (Option-cases (find_user ip cfds)) [
    | inl e2 ↦ (e, find_user-none ip cfds e2)
    | inr (j, e2) ↦ cc (rw (e, e2) at h)
  ]
]

str_eq_sym : (a b : Bytes) → str_eq a b ≡ false → str_eq b a ≡ false
str_eq_sym a b h = elim (Bool-cases (str_eq b a)) [
  | inl e ↦ let same : b ≡ a = (str_eq_iff b a).0 e in cc (h, (str_eq_iff a b).1 (sym same))
  | inr e ↦ e
]

IsDistinct-append :
    (all : List Bytes) (a : Bytes)
    → IsDistinct all
    → All (λ b. str_eq a b ≡ false) all
    → IsDistinct (all ++ a ∷ [])
IsDistinct-append [] a h new = (tt, tt)
IsDistinct-append (b ∷ all) a (apart, h) (first, new) = (
  All-append (λ x. str_eq b x ≡ false) all (a ∷ []) apart (str_eq_sym a b first, tt),
  IsDistinct-append all a h new,
)

addresses-append :
    (cfds : List Client) (c : Client)
    → addresses (cfds ++ c ∷ []) ≡ addresses cfds ++ c.ip_address ∷ []
unfolding addresses
addresses-append [] c = refl
addresses-append (x ∷ cfds) c = ap (λ t. x.ip_address ∷ t) (addresses-append cfds c)

echoes-append :
    (cfds : List Client) (c : Client) → echoes (cfds ++ c ∷ []) ≡ echoes cfds + c.echo_count
unfolding echoes
echoes-append [] c = omega arith
echoes-append (x ∷ cfds) c = omega (arith, echoes-append cfds c)

length-addresses : (cfds : List Client) → length (addresses cfds) ≡ length cfds
unfolding addresses
length-addresses [] = refl
length-addresses (c ∷ cfds) = ap suc (length-addresses cfds)

update_user-Moved :
    (cfd : Client) (i : ℕ) (s s1 : Server) (pos : ℕ)
    → Inv s
    → update_user cfd i s ≡ ok (pos, s1)
    → Moved s s1 × (pos ≡ i)
unfolding update_user
update_user-Moved cfd i s s1 pos v h = after (deref (get_elem? s.cfds i)) _ _ h λ old e h1.
    let found = deref-eq-ok (get_elem? s.cfds i) old e in
    let moved : s1 ≡ _ = ap (λ x. x.1) (sym (ok-injective h1)) in
    let place : pos ≡ i = ap (λ x. x.0) (sym (ok-injective h1)) in
    (
      set-Moved s s1 i old (record old { fd = cfd.fd }) found refl (ap (λ x. x.cfds) moved)
          (ap (λ x. x.threads) moved) (ap (λ x. x.total_echo + old.echo_count) moved) v,
      place,
    )

add_user-Moved :
    (cfd : Client) (s s1 : Server) (pos : ℕ)
    → Inv s
    → cfd.echo_count ≡ 0
    → find_user cfd.ip_address s.cfds ≡ none
    → add_user cfd s ≡ ok (pos, s1)
    → Moved s s1 × (get_elem? (addresses s1.cfds) pos ≡ some cfd.ip_address)
unfolding add_user
add_user-Moved cfd s s1 pos v zero_ new h =
    let same = if_ok (ltb (length s.cfds) 100) _ (pos, s1) h in
    let all : addresses s1.cfds ≡ addresses s.cfds ++ cfd.ip_address ∷ [] =
      ap (λ x. addresses x.1.cfds) (sym same) ∙ addresses-append s.cfds cfd in
    let place : pos ≡ length (addresses s.cfds) =
      ap (λ x. x.0) (sym same) ∙ sym (length-addresses s.cfds) in
    let table : echoes s1.cfds ≡ echoes s.cfds + cfd.echo_count =
      ap (λ x. echoes x.1.cfds) (sym same) ∙ echoes-append s.cfds cfd in
    let unchanged : s.total_echo ≡ s1.total_echo = ap (λ x. x.1.total_echo) same in
    (
      record {
        total = omega (arith, v.total);
        users = subst IsDistinct (sym all) (
            IsDistinct-append (addresses s.cfds) cfd.ip_address v.users
              (find_user-none cfd.ip_address s.cfds new));
        same = ap (λ x. x.1.threads) (sym same);
        old = λ j a found.
            ap (λ t. get_elem? t j) all
            ∙ get_elem?-append (addresses s.cfds) (cfd.ip_address ∷ []) j
                (get_elem?-lt (addresses s.cfds) j found)
            ∙ found;
      },
      subst (λ p. get_elem? (addresses s1.cfds) p ≡ some cfd.ip_address) (sym place)
          (ap (λ t. get_elem? t (length (addresses s.cfds))) all
            ∙ get_elem?-append_last (addresses s.cfds) cfd.ip_address),
    )

pub add_or_update_user-Moved :
    (cfd : Client) (s s1 : Server) (pos : ℕ)
    → Inv s
    → cfd.echo_count ≡ 0
    → add_or_update_user cfd s ≡ ok (pos, s1)
    → Moved s s1 × (get_elem? (addresses s1.cfds) pos ≡ some cfd.ip_address)
unfolding add_or_update_user
add_or_update_user-Moved cfd s s1 pos v zero_ h =
    elim (Option-cases (find_user cfd.ip_address s.cfds)) [
      | inl e ↦ add_user-Moved cfd s s1 pos v zero_ e (rw (e, add_or_update_user) at h)
      | inr (i, e) ↦
          let (moved, place) =
            update_user-Moved cfd i s s1 pos v (rw (e, add_or_update_user) at h) in
          let known = find_user-some cfd.ip_address s.cfds i e in
          (
            moved,
            subst (λ p. get_elem? (addresses s1.cfds) p ≡ some cfd.ip_address) (sym place)
                (moved.old i cfd.ip_address known),
          )
    ]
