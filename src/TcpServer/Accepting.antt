-- ===== src/TcpServer/Accepting.antt =====
-- `TcpJsonOrBinaryServer::run` of src/infra/transport_tcp/tcp_json_or_binary_server.rs: the connections that it
-- accepts, their numbers and the mode of each.
use Prim.Native.String
use can_bridge_daemon.Prelude.{
  ℕ, zero, suc, ◌+◌, ◌≤◌, ◌%◌, ◌^◌, ◌≡◌, refl, ap, ap₂, ◌∙◌, String, Option, none, some, List, [],
  ◌∷◌, map, length, Result, ok, err, arith,
}
use can_bridge_daemon.TcpServer.{Mode, connection_mode}

-- `socket.peek(…).await.unwrap_or(0)`: no byte where it fails.
abbrev pub bytes_peeked : Result String (List ℕ) → List ℕ
bytes_peeked (ok peeked) = peeked
bytes_peeked (err e) = []

-- A connection that is handled.
pub record Accepted : Type 0 where
  pub conn_id : ℕ
  pub mode : Mode

-- `NEXT_CONN_ID.fetch_add(1, …)` wraps.
abbrev pub fetch_add : ℕ → ℕ
fetch_add n = suc n % 2 ^ 64

-- The loop over the results of `accept()`, each with that of the `peek` of its connection, from the number `next`: the
-- connections, and the error with which it has returned.
unfoldable pub accept_loop :
    ℕ → List (Result String (Result String (List ℕ))) → List Accepted × Option String
unfolding connection_mode
accept_loop next [] = ([], none)
accept_loop next (err e ∷ accepts) = ([], some e)
accept_loop next (ok peek ∷ accepts) =
    let (sessions, end) = accept_loop (fetch_add next) accepts in
    (record { conn_id = next; mode = connection_mode (bytes_peeked peek) } ∷ sessions, end)

-- `run` on an address of the text `addr`.
unfoldable pub run :
    String
    → Result String (Unit {0})
    → ℕ
    → List (Result String (Result String (List ℕ)))
    → List Accepted × Option String
unfolding accept_loop
run addr (err e) next accepts = ([], some (String.◌++◌ "tcp bind failed on " addr))
run addr (ok _) next accepts = accept_loop next accepts

-- The connections before the first error, and that error.
abbrev pub before_error :
    List (Result String (Result String (List ℕ))) → List (Result String (List ℕ))
before_error [] = []
before_error (err e ∷ accepts) = []
before_error (ok peek ∷ accepts) = peek ∷ before_error accepts

abbrev pub first_error : List (Result String (Result String (List ℕ))) → Option String
first_error [] = none
first_error (err e ∷ accepts) = some e
first_error (ok peek ∷ accepts) = first_error accepts

-- A connection whose peek fails is a JSON session.
abbrev pub mode_of : Result String (List ℕ) → Mode
mode_of (ok peeked) = connection_mode peeked
mode_of (err e) = Mode.jsonl

bytes_peeked-mode :
    (peek : Result String (List ℕ)) → connection_mode (bytes_peeked peek) ≡ mode_of peek
unfolding connection_mode
bytes_peeked-mode (ok peeked) = refl
bytes_peeked-mode (err e) = refl

-- The `n` numbers from `next`.
abbrev pub consecutive : ℕ → ℕ → List ℕ
consecutive next zero = []
consecutive next (suc n) = next ∷ consecutive (suc next) n

numbers_wrapped :
    (next n : ℕ) → next + suc n ≤ 2 ^ 64 → consecutive (fetch_add next) n ≡ consecutive (suc next) n
numbers_wrapped next zero h = refl
numbers_wrapped next (suc n) h = ap (λ k. consecutive k (suc n)) (omega arith)

accept_loop-numbers :
    (next : ℕ) (accepts : List (Result String (Result String (List ℕ))))
    → next + length (before_error accepts) ≤ 2 ^ 64
    → map (λ s. s.conn_id) (accept_loop next accepts).0
      ≡ consecutive next (length (before_error accepts))
unfolding accept_loop
accept_loop-numbers next [] h = refl
accept_loop-numbers next (err e ∷ accepts) h = refl
accept_loop-numbers next (ok peek ∷ accepts) h =
    let n = length (before_error accepts) in
    ap (λ l. next ∷ l)
      (accept_loop-numbers (fetch_add next) accepts (omega (arith, h)) ∙ numbers_wrapped next n h)

accept_loop-modes :
    (next : ℕ) (accepts : List (Result String (Result String (List ℕ))))
    → map (λ s. s.mode) (accept_loop next accepts).0 ≡ map mode_of (before_error accepts)
unfolding accept_loop
accept_loop-modes next [] = refl
accept_loop-modes next (err e ∷ accepts) = refl
accept_loop-modes next (ok peek ∷ accepts) =
    ap₂ ◌∷◌ (bytes_peeked-mode peek) (accept_loop-modes (fetch_add next) accepts)

accept_loop-end :
    (next : ℕ) (accepts : List (Result String (Result String (List ℕ))))
    → (accept_loop next accepts).1 ≡ first_error accepts
unfolding accept_loop
accept_loop-end next [] = refl
accept_loop-end next (err e ∷ accepts) = refl
accept_loop-end next (ok peek ∷ accepts) = accept_loop-end (fetch_add next) accepts

-- While the numbers do not wrap: the connections that the server handles are those before the first `accept()` that
-- fails, in their order, each in the mode of its peek (JSON where the peek fails), under
-- consecutive numbers; and that first failure, if there is one, is what `run` returns with.
pub run-accepts :
    (addr : String) (next : ℕ) (accepts : List (Result String (Result String (List ℕ))))
    → next + length (before_error accepts) ≤ 2 ^ 64
    → (map (λ s. s.conn_id) (run addr (ok tt) next accepts).0
        ≡ consecutive next (length (before_error accepts)))
      × (map (λ s. s.mode) (run addr (ok tt) next accepts).0 ≡ map mode_of (before_error accepts))
      × ((run addr (ok tt) next accepts).1 ≡ first_error accepts)
unfolding run
run-accepts addr next accepts h = (
  accept_loop-numbers next accepts h,
  accept_loop-modes next accepts,
  accept_loop-end next accepts,
)
