-- ===== src/Listener/Requests.antt =====
-- The requests of clients on their way through the listener into the queue.
use simple_kv_svr.Base.{
  ℕ, zero, suc, ◌+◌, ◌-◌, ◌≤◌, ◌<◌, true, some, List, [], ◌∷◌, ◌++◌, length, length-append, take,
  map, replicate, Bytes, Dict, codes, ◌≡◌, refl, ap, ◌∙◌, arith,
}
use simple_kv_svr.SlotIndex.{c_string}
use simple_kv_svr.Worker.{space}
use simple_kv_svr.Worker.Session.{Request, line_of, IsFair, AreFair, after}
use simple_kv_svr.Listener.{
  Round, Effect, Visit, Accept, End, ListenIo, buffer_size, buffer, text_of, connection, accept_all,
  run,
}

-- A connection: rounds in which nothing comes, then a request, and what comes later; and which worker takes the request.
pub record Client : Type 0 where
  pub fd : ℕ
  pub waits : ℕ
  pub request : Request
  pub later : List Round
  pub worker : ℕ

abbrev pub visit : Client → Accept
visit c =
    Accept.accepted c.fd
      (replicate c.waits Round.idle ++ (Round.received (line_of c.request) ∷ c.later))

abbrev pub task : Client → Effect
task c = Effect.push (line_of c.request) c.fd

c_string-append : (u v : Bytes) → c_string u ≡ u → c_string v ≡ v → c_string (u ++ v) ≡ u ++ v
unfolding c_string
c_string-append [] v h k = k
c_string-append (c ∷ u) v h k = ground (arith, c_string-append u v)

text_of-c_string :
    (w : Bytes) (n : ℕ) → c_string w ≡ w → 0 < n → text_of (w ++ replicate n 0) ≡ some w
unfolding text_of c_string
text_of-c_string [] zero h pos = absurd (omega arith)
text_of-c_string [] (suc n) h pos = refl
text_of-c_string (c ∷ w) n h pos = ground (arith, text_of-c_string w n)

take_all : (n : ℕ) (w : Bytes) → length w ≤ n → take n w ≡ w
take_all zero [] h = refl
take_all (suc n) [] h = refl
take_all zero (c ∷ w) h = absurd (omega arith)
take_all (suc n) (c ∷ w) h = ap (λ xs. c ∷ xs) (take_all n w (omega arith))

-- A text that leaves room for a 0 comes out of the buffer as it is.
text_of-buffer : (w : Bytes) → c_string w ≡ w → length w < buffer_size → text_of (buffer w) ≡ some w
text_of-buffer w plain short =
    ap (λ xs. text_of (xs ++ replicate (buffer_size - length w) 0))
      (take_all buffer_size w (omega arith))
    ∙ text_of-c_string w (buffer_size - length w) plain (omega arith)

-- A text that the buffer holds as it is.
pub record Fits (w : Bytes) : Type 0 where
  pub plain : c_string w ≡ w
  pub short : length w < buffer_size

append-Fits :
    (u v : Bytes)
    → c_string u ≡ u
    → c_string v ≡ v
    → length u + length v < buffer_size
    → Fits (u ++ v)
append-Fits u v h k short = record {
  plain = c_string-append u v h k;
  short = omega (arith, length-append u v);
}

spaced-plain : (w : Bytes) → c_string w ≡ w → c_string (space ∷ w) ≡ space ∷ w
unfolding c_string
spaced-plain w h = ground arith

-- The text of a fair request.
pub line_of-Fits : (r : Request) (d : Dict Bytes) → IsFair r d → Fits (line_of r)
unfolding c_string
line_of-Fits (Request.get key) d fair =
    append-Fits (codes "get" ++ (space ∷ key)) (10 ∷ [])
      (c_string-append (codes "get") (space ∷ key) refl (spaced-plain key fair.text.plain)) refl
      (omega (arith, length-append (codes "get") (space ∷ key), fair.text.short))
line_of-Fits (Request.delete key) d (fair, here) =
    append-Fits (codes "delete" ++ (space ∷ key)) (10 ∷ [])
      (c_string-append (codes "delete") (space ∷ key) refl (spaced-plain key fair.text.plain)) refl
      (omega (arith, length-append (codes "delete") (space ∷ key), fair.text.short))
line_of-Fits (Request.set key value) d (fair, fair') =
    append-Fits (codes "set" ++ (space ∷ key ++ (space ∷ value))) (10 ∷ [])
      (c_string-append (codes "set") (space ∷ key ++ (space ∷ value)) refl (
        spaced-plain (key ++ (space ∷ value)) (
          c_string-append key (space ∷ value) fair.text.plain
            (spaced-plain value fair'.text.plain))))
      refl
      (omega (
        arith,
        length-append (codes "set") (space ∷ key ++ (space ∷ value)),
        length-append key (space ∷ value),
        fair.text.short,
        fair'.text.short,
      ))

pub connection-task :
    (fd waits : ℕ) (w : Bytes) (later : List Round)
    → Fits w
    → connection fd (replicate waits Round.idle ++ (Round.received w ∷ later))
      ≡ Visit.left (Effect.push w fd ∷ [])
unfolding connection
connection-task fd zero w later fits = ground (arith, text_of-buffer w fits.plain fits.short)
connection-task fd (suc waits) w later fits = connection-task fd waits w later fits

accept_all-tasks :
    (clients : List Client) (d : Dict Bytes)
    → AreFair (map (λ c. c.request) clients) d
    → accept_all (map visit clients) ≡ (map task clients, End.accepting)
unfolding accept_all
accept_all-tasks [] d fair = refl
accept_all-tasks (c ∷ clients) d (fair, others) = ground (
  arith,
  connection-task c.fd c.waits (line_of c.request) c.later (line_of-Fits c.request d fair),
  accept_all-tasks clients (after c.request d) others,
)

pub run-visits :
    (io : ListenIo) (clients : List Client) (d : Dict Bytes)
    → io.makes ≡ true
    → io.binds ≡ true
    → io.listens ≡ true
    → AreFair (map (λ c. c.request) clients) d
    → run io (map visit clients) ≡ (map task clients, End.accepting)
unfolding run
run-visits io clients d makes binds listens fair = ground (arith, accept_all-tasks clients d fair)
