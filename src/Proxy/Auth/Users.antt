-- ===== src/Proxy/Auth/Users.antt =====
-- Which credentials are accepted.
use intern_status_update.Base.{
  ◌≡◌, inl, inr, [], ◌∷◌, ◌++◌, List, Bytes, ◌&&◌, ◌||◌, Bool-cases, ltb, str_eq, length, take,
  arith,
}
use intern_status_update.Proxy.Auth.{User, max_users, add_user, authenticate}

authenticate-append :
    (u p : Bytes) (users : List User) (x : User)
    → authenticate u p (users ++ x ∷ [])
      ≡ (authenticate u p users || (str_eq x.username u && str_eq x.password p))
unfolding authenticate
authenticate-append u p [] x = ground arith
authenticate-append u p (y ∷ users) x = ground (arith, authenticate-append u p users x)

-- After `add_user` the credentials that were accepted are accepted, and so is the new name with the new
-- password, both cut to 63 bytes, if there were fewer than 100 users; no others are.
pub authenticate-add_user :
    (u p name password : Bytes) (users : List User)
    → authenticate u p (add_user name password users) ≡ (
        authenticate u p users
        || (ltb (length users) max_users
            && (str_eq (take 63 name) u && str_eq (take 63 password) p)))
unfolding add_user
authenticate-add_user u p name password users = elim (Bool-cases (ltb (length users) max_users)) [
  | inl e ↦
      rw (e, add_user)
        (authenticate-append u p users
          (record { username = take 63 name; password = take 63 password }))
  | inr e ↦ rw (e, add_user) (ground arith)
]
