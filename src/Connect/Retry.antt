-- ===== src/Connect/Retry.antt =====
-- What becomes of the other addresses of a destination, when the connection to one fails late.
use protos_tpe.Base.{
  ℕ, ◌<◌, ◌≡◌, inl, inr, refl, sym, ap, ◌∙◌, none, some, ◌∷◌, arith, length, ◌==◌, if◌then◌else◌,
  Bool-cases,
}
use mathlib.Core.Path.{subst}
use protos_tpe.Os.{Os, Errno, Interest, writing, set_interest}
use protos_tpe.States.{ClientState}
use protos_tpe.Client.{Client}
use protos_tpe.Request.{RequestParser}
use protos_tpe.Connect.{Attempt, SockOpt, try_connect, on_pending, close, next_addr, registers}
use protos_tpe.Connect.Order.{tried, Skipped, connect_each-none}

-- The socket of an attempt has the number `s`, which was closed just before: the kernel gives the
-- lowest number that is free.
abbrev pub Reuses : ℕ → Attempt → Type 0
Reuses s (Attempt.no_socket e) = 0 < 1
Reuses s (Attempt.opened s' reply memory) = s' ≡ s

Reuses-Skipped :
    (os : Os) (s : ℕ) (w : Interest) (t : Attempt)
    → os.interest s ≡ some w
    → Reuses s t
    → Skipped os t
Reuses-Skipped os s w (Attempt.no_socket e) i h = omega arith
Reuses-Skipped os s w (Attempt.opened s' reply memory) i h = inr (rw (registers, h, i) refl)

-- an entry, after OP_WRITE is asked for `fd`
stays :
    (os : Os) (fd s : ℕ) (w : Interest)
    → os.interest s ≡ some w
    → (set_interest os fd writing).interest s ≡ some (if s == fd then writing else w)
stays os fd s w i = elim (Bool-cases (s == fd)) [
  | inl y ↦ let at : s ≡ fd = ground (arith, y) in rw (y, sym at, i) refl
  | inr n ↦ rw (n, i) refl
]

-- A connection under way whose socket then has a pending error is followed by no other address: the
-- socket is closed, but its entry in the selector stays, so the selector takes no socket that has the
-- same number. Where each further socket gets that number, the state is ERROR with the code 3,
-- whatever `connect` would answer for the other addresses. What is closed is that socket and each one
-- that was opened after it; the interests are as before, but that `fd` waits to write.
pub try_connect-retry_fails :
    (fd : ℕ) (rp : RequestParser) (client : Client) (os : Os) (attempts : ℕ → Attempt) (s n : ℕ)
    (w : Interest)
    → client.destination_fd ≡ some s
    → os.interest s ≡ some w
    → ((j : ℕ) → j < length (next_addr client.dest_addr) → Reuses s (attempts j))
    → let r = try_connect fd rp client os (SockOpt.pending (Errno.other n)) attempts in
      (r.0 ≡ ClientState.error)
      × (r.2.err ≡ 3)
      × (r.2.destination_fd ≡ none)
      × (r.3.closed ≡ tried attempts 0 (next_addr client.dest_addr) (s ∷ os.closed))
      × (r.3.interest s ≡ some (if s == fd then writing else w))
      × (r.3.interest ≡ (set_interest os fd writing).interest)
unfolding try_connect on_pending
try_connect-retry_fails fd rp client os attempts s n w d i h =
    let later : Client = record client {
      destination_fd = none;
      dest_addr = next_addr client.dest_addr;
    } in
    let r =
      connect_each-none fd rp attempts (next_addr client.dest_addr) later (close os s) 0 refl
        (λ j lt.
          subst (λ k. Skipped (close os s) (attempts k)) {x = j} (omega arith)
            (Reuses-Skipped (close os s) s w (attempts j) i (h j lt))) in
    rw d (r.0, r.1, r.2, r.3, ap (λ g. g s) r.4 ∙ stays os fd s w i, r.4)
