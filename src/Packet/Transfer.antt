-- ===== src/Packet/Transfer.antt =====
-- Mini Project 27-1-26/datapack.h: recvall and sendall. The calls of the kernel are a parameter.
use intern_status_update.Base.{
  ℕ, zero, suc, ◌-◌, ◌≤◌, ◌<◌, ◌≡◌, refl, ap, sym, ◌∙◌, ◌⊎◌, inl, inr, [], ◌∷◌, ◌++◌, Bytes, Bool,
  true, false, Option, none, some, if◌then◌else◌, ◌==◌, length, take, drop, arith, append_assoc,
  append-nil, length-append, length-drop, Bool-cases, Option-cases,
}

-- What `recv` returns.
pub data Arrival : Type 0 where
  some_bytes : Bytes → Arrival
  hung_up : Arrival
  failed : Arrival

-- `recv` is given the number of bytes that fit, `send` the bytes; none is -1.
pub record Socket : Type 1 where
  pub State : Type 0
  pub recv : ℕ → State → Arrival × State
  pub send : Bytes → State → Option ℕ × State

-- What `recvall` returns: the whole buffer, or 0, or -1.
pub data Received : Type 0 where
  whole : Bytes → Received
  none_left : Received
  broken : Received

module _ (k : Socket) where
  -- The loop for so many rounds, with n bytes wanted behind what was received; none when the rounds
  -- are not enough.
  unfoldable pub recv_loop : ℕ → ℕ → Bytes → k.State → Option Received × k.State
  recv_loop zero n buffer s = (none, s)
  recv_loop (suc rounds) n buffer s =
      let (arrival, s1) = k.recv n s in
      if n == 0 then (some (whole buffer), s) else elim arrival [
        | some_bytes bytes ↦ recv_loop rounds (n - length bytes) (buffer ++ bytes) s1
        | hung_up ↦ (some none_left, s1)
        | failed ↦ (some broken, s1)
      ]

  unfoldable pub recvall : ℕ → k.State → Option Received × k.State
  recvall n s = recv_loop (suc n) n [] s

  -- The loop for so many rounds, with these bytes to send: whether all were sent.
  unfoldable pub send_loop : ℕ → Bytes → k.State → Option Bool × k.State
  send_loop zero bytes s = (none, s)
  send_loop (suc rounds) [] s = (some true, s)
  send_loop (suc rounds) (b ∷ bytes) s =
      let (r, s1) = k.send (b ∷ bytes) s in
      elim r [
        | none ↦ (some false, s1)
        | some n ↦
            let rest = send_loop rounds (drop n (b ∷ bytes)) s1 in
            if n == 0 then (some false, s1) else rest
      ]

  unfoldable pub sendall : Bytes → k.State → Option Bool × k.State
  sendall bytes s = send_loop (suc (length bytes)) bytes s

-- What `recv` does: what it gives is taken off the bytes that are left, and fits, and is something.
pub record Receives (k : Socket) : Type 0 where
  pub left : k.State → Bytes
  pub recv :
      (n : ℕ) (s : k.State) (bytes : Bytes)
      → (k.recv n s).0 ≡ some_bytes bytes
      → (left s ≡ bytes ++ left (k.recv n s).1) × (length bytes ≤ n) × (1 ≤ length bytes)

-- What `send` does: it sends as many of the first bytes as it reports, and none if it fails.
pub record Sends (k : Socket) : Type 0 where
  pub sent : k.State → Bytes
  pub send :
      (bytes : Bytes) (s : k.State) (n : ℕ)
      → (k.send bytes s).0 ≡ some n
      → sent (k.send bytes s).1 ≡ sent s ++ take n bytes
  pub fails :
      (bytes : Bytes) (s : k.State) → (k.send bytes s).0 ≡ none → sent (k.send bytes s).1 ≡ sent s

take_zero : (xs : Bytes) → take 0 xs ≡ []
unfolding take
take_zero xs = refl

take-drop : (n : ℕ) (xs : Bytes) → take n xs ++ drop n xs ≡ xs
unfolding take
take-drop zero xs = refl
take-drop (suc n) [] = refl
take-drop (suc n) (x ∷ xs) = ap (λ t. x ∷ t) (take-drop n xs)

Arrival-cases :
    (a : Arrival) → (a ≡ failed) ⊎ ((a ≡ hung_up) ⊎ ((bytes : Bytes) × (a ≡ some_bytes bytes)))
Arrival-cases failed = inl refl
Arrival-cases hung_up = inr (inl refl)
Arrival-cases (some_bytes bytes) = inr (inr (bytes, refl))

module _ (k : Socket) (v : Receives k) where
  -- A whole buffer has, behind what it had before, the next n bytes that were left.
  abbrev pub Taken : ℕ → Bytes → k.State → k.State → Received → Type 0
  Taken n buffer s s1 (whole bytes) =
      (new : Bytes) × (bytes ≡ buffer ++ new) × (v.left s ≡ new ++ v.left s1) × (length new ≡ n)
  Taken n buffer s s1 none_left = Unit {0}
  Taken n buffer s s1 broken = Unit {0}

  recv_loop-Taken :
      (rounds n : ℕ) (buffer : Bytes) (s : k.State)
      → n < rounds
      → (r : Received) × (s1 : k.State) × (recv_loop k rounds n buffer s ≡ (some r, s1))
        × Taken n buffer s s1 r
  unfolding recv_loop
  recv_loop-Taken zero n buffer s h = absurd (omega arith)
  recv_loop-Taken (suc rounds) n buffer s h = elim (Bool-cases (n == 0)) [
    | inl e ↦
        let nothing : 0 ≡ n = ground arith in
        (whole buffer, s, (rw e refl), ([], sym (append-nil buffer), refl, nothing))
    | inr e ↦ elim (Arrival-cases (k.recv n s).0) [
      | inl e1 ↦ (broken, (k.recv n s).1, (rw (e, e1) refl), tt)
      | inr (inl e1) ↦ (none_left, (k.recv n s).1, (rw (e, e1) refl), tt)
      | inr (inr (bytes, e1)) ↦
          let (from, fits, any) = v.recv n s bytes e1 in
          let (r, s1, run, taken) =
            recv_loop-Taken rounds (n - length bytes) (buffer ++ bytes) (k.recv n s).1
              (omega arith) in
          (r, s1, (rw (e, e1) run), further n buffer bytes s (k.recv n s).1 s1 r from fits taken)
    ]
  ]
    where
      further :
          (n : ℕ) (buffer bytes : Bytes) (s s2 s1 : k.State) (r : Received)
          → v.left s ≡ bytes ++ v.left s2
          → length bytes ≤ n
          → Taken (n - length bytes) (buffer ++ bytes) s2 s1 r
          → Taken n buffer s s1 r
      further n buffer bytes s s2 s1 (whole all) from fits (new, e, e1, size) = (
        bytes ++ new,
        e ∙ append_assoc buffer bytes new,
        from ∙ ap (λ t. bytes ++ t) e1 ∙ sym (append_assoc bytes new (v.left s1)),
        omega (arith, length-append bytes new),
      )
      further n buffer bytes s s2 s1 none_left from fits t = tt
      further n buffer bytes s s2 s1 broken from fits t = tt

  -- However the kernel cuts the bytes, if what recv gives fits, is not nothing, and is taken off the
  -- bytes that are left: recvall ends, with 0, with -1, or with exactly the next n of these bytes.
  pub recvall-Taken :
      (n : ℕ) (s : k.State)
      → (r : Received) × (s1 : k.State) × (recvall k n s ≡ (some r, s1)) × Taken n [] s s1 r
  unfolding recvall
  recvall-Taken n s = recv_loop-Taken (suc n) n [] s (omega arith)

module _ (k : Socket) (v : Sends k) where
  -- What was sent are the first ones of the bytes, and all of them where the answer is so.
  abbrev pub Given : Bytes → k.State → k.State → Bool → Type 0
  Given bytes s s1 done =
      (front : Bytes) × (back : Bytes) × (bytes ≡ front ++ back)
      × (v.sent s1 ≡ v.sent s ++ front)
      × (done ≡ true → back ≡ [])

  send_loop-Given :
      (rounds : ℕ) (bytes : Bytes) (s : k.State)
      → length bytes < rounds
      → (done : Bool) × (s1 : k.State) × (send_loop k rounds bytes s ≡ (some done, s1))
        × Given bytes s s1 done
  unfolding send_loop
  send_loop-Given zero bytes s h = absurd (omega arith)
  send_loop-Given (suc rounds) [] s h =
      (true, s, refl, ([], [], refl, sym (append-nil (v.sent s)), λ e. refl))
  send_loop-Given (suc rounds) (b ∷ bytes) s h =
      let all = b ∷ bytes in
      let s2 = (k.send all s).1 in
      elim (Option-cases (k.send all s).0) [
        | inl e ↦ (
          false,
          s2,
          (rw (e, send_loop) refl),
          ([], all, refl, v.fails all s e ∙ sym (append-nil (v.sent s)), λ e. cc),
        )
        | inr (zero, e) ↦ (
          false,
          s2,
          (rw (e, send_loop) refl),
          ([], all, refl, v.send all s 0 e ∙ ap (λ t. v.sent s ++ t) (take_zero all), λ e. cc),
        )
        | inr (suc n, e) ↦
            let later : (suc n == 0) ≡ false = ground arith in
            let (done, s1, run, (front, back, parts, sent, end)) =
              send_loop-Given rounds (drop n bytes) s2 (omega (arith, length-drop n bytes)) in
            (
              done,
              s1,
              (rw (e, send_loop, later) run),
              (
                take (suc n) all ++ front,
                back,
                sym (take-drop (suc n) all)
                    ∙ ap (λ t. take (suc n) all ++ t) parts
                    ∙ sym (append_assoc (take (suc n) all) front back),
                sent
                    ∙ ap (λ t. t ++ front) (v.send all s (suc n) e)
                    ∙ append_assoc (v.sent s) (take (suc n) all) front,
                end,
              ),
            )
      ]

  -- If send sends as many of the first bytes as it reports, and none when it fails: sendall ends,
  -- and what was sent is the first part of the bytes, all of them unless it answers -1.
  pub sendall-Given :
      (bytes : Bytes) (s : k.State)
      → (done : Bool) × (s1 : k.State) × (sendall k bytes s ≡ (some done, s1))
        × Given bytes s s1 done
  unfolding sendall
  sendall-Given bytes s = send_loop-Given (suc (length bytes)) bytes s (omega arith)
