-- ===== src/TicTacToe/Server/Requests.antt =====
-- The responses of the request handlers: they return, and change nothing but the log.
use intern_status_update.Base.{
  ℕ, ◌+◌, ◌≤◌, ◌≡◌, refl, ◌∙◌, inl, inr, ◌∷◌, List, Bytes, ok, codes, length, if◌then◌else◌,
  Bool-cases, arith,
}
use intern_status_update.Base.Int.{ℤ, pos}
use intern_status_update.Libc.Decimal.{IsInt}
use intern_status_update.Frame.Wire.{wire}
use intern_status_update.TicTacToe.Board.{Match}
use intern_status_update.TicTacToe.State.{Server, M, ◌>>=◌, skip, transmit}
use intern_status_update.TicTacToe.State.Laws.{bind_step}
use intern_status_update.TicTacToe.Server.{Kernel, send_response, init_boards, join_failed}
use intern_status_update.TicTacToe.Server.Response.{response_bytes-wire, response_frame}

-- A response that fits goes to `send`, and nothing but the log may change.
pub send_response-ok :
    (k : Kernel) (to m_id : ℤ) (player : ℕ) (code message : Bytes)
    → IsInt m_id
    → length code + length message ≤ 900
    → (s : Server)
    → let bytes = wire (response_frame m_id player code message) in
      send_response k to m_id player code message s
      ≡ ok (
        k.can_send to bytes,
        record s { sent = if k.can_send to bytes then (to, bytes) ∷ s.sent else s.sent },
      )
unfolding send_response transmit
send_response-ok k to m_id player code message int short s =
    rw (response_bytes-wire m_id player code message int short)
      (elim (Bool-cases (k.can_send to (wire (response_frame m_id player code message)))) [
        | inl e ↦ rw e refl
        | inr e ↦ rw e refl
      ])

-- Code that returns and changes nothing but the log.
abbrev pub Logs : M (Unit {0}) → Server → Type 0
Logs m s = (log : List (ℤ × Bytes)) × (m s ≡ ok (tt, record s { sent = log }))

pub send_skip-Logs :
    (k : Kernel) (to m_id : ℤ) (player : ℕ) (code message : Bytes)
    → IsInt m_id
    → length code + length message ≤ 900
    → (s : Server) → Logs (send_response k to m_id player code message >>= λ _. skip) s
send_skip-Logs k to m_id player code message int short s =
    let bytes = wire (response_frame m_id player code message) in
    (
      if k.can_send to bytes then (to, bytes) ∷ s.sent else s.sent,
      bind_step (send_response k to m_id player code message) (λ _. skip) s (k.can_send to bytes) _
          (send_response-ok k to m_id player code message int short s),
    )

pub join_failed-Logs : (k : Kernel) (fd : ℤ) (s : Server) → Logs (join_failed k fd) s
unfolding join_failed
join_failed-Logs k fd s = send_skip-Logs k fd (pos 0) b'O' _ _ (omega arith) (omega arith) s

-- A send, and a continuation that depends on whether it went out.
pub branch-Logs :
    (k : Kernel) (to m_id : ℤ) (player : ℕ) (code message : Bytes) (next : M (Unit {0}))
    → IsInt m_id
    → length code + length message ≤ 900
    → (s : Server) → ((log : List (ℤ × Bytes)) → Logs next (record s { sent = log }))
    → Logs (send_response k to m_id player code message >>= λ sent. if sent then next else skip) s
branch-Logs k to m_id player code message next int short s after =
    let bytes = wire (response_frame m_id player code message) in
    let first =
      bind_step (send_response k to m_id player code message) (λ sent. if sent then next else skip)
        s (k.can_send to bytes) _ (send_response-ok k to m_id player code message int short s) in
    elim (Bool-cases (k.can_send to bytes)) [
      | inl e ↦ let (log, done) = after ((to, bytes) ∷ s.sent) in (log, first ∙ (rw e done))
      | inr e ↦ (s.sent, first ∙ (rw e refl))
    ]

pub init_boards-Logs : (k : Kernel) (m : Match) (s : Server) → Logs (init_boards k m) s
unfolding init_boards
init_boards-Logs k m s =
    branch-Logs k m.player_x (pos 0) b'X' (codes "INIT_BOARD") (codes " ") _ (omega arith)
      (omega arith) s
      (λ log.
        send_skip-Logs k m.player_o (pos 0) b'O' _ _ (omega arith) (omega arith)
          (record s { sent = log }))
