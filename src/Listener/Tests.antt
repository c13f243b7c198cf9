-- ===== src/Listener/Tests.antt =====
-- Runs of the listener, and its theorem for three connections.
use simple_kv_svr.Base.{
  ℕ, true, none, some, List, [], ◌∷◌, replicate, map, codes, lookup, assign, key_eq, ◌≡◌, refl,
  arith, length-replicate,
}
use simple_kv_svr.SlotIndex.{Slot, cache_size, zero_slot, c_string}
use simple_kv_svr.SlotIndex.Disk.{start}
use simple_kv_svr.Worker.{Machine}
use simple_kv_svr.Worker.Session.{Request, IsToken}
use simple_kv_svr.Worker.Words.{has_no_space}
use simple_kv_svr.Listener.Serving.{turns_of, run_answers}
use simple_kv_svr.Listener.Requests.{Client, visit}
use simple_kv_svr.Listener.Pool.{Server, Turn, open_server, take_turn, take_turns}
use simple_kv_svr.Listener.{
  Round, Effect, Accept, End, ListenIo, text_of, connection, accept_all, run,
}

abbrev all_open : ListenIo
all_open = record { makes = true; binds = true; listens = true }

-- A connection on which `recv` fails is closed; one that ends at once gives an empty text; then `accept` fails.
run_three :
    run all_open (
      Accept.accepted 4 (Round.idle ∷ Round.lost ∷ [])
      ∷ Accept.accepted 5 (Round.received [] ∷ [])
      ∷ Accept.refused
      ∷ [])
    ≡ (Effect.close 4 ∷ Effect.push [] 5 ∷ [], End.returned 4)
unfolding run accept_all connection text_of
run_three = refl

-- A text that fills the buffer.
run_long :
    run all_open (Accept.accepted 4 (Round.received (replicate 1024 97) ∷ []) ∷ [])
    ≡ ([], End.undefined)
unfolding run accept_all connection text_of
run_long = refl

abbrev machine : Machine
machine = record { works = true; iterator_size = 8; node_size = 61 }

abbrev copies : List Slot
copies = replicate cache_size zero_slot

k-IsToken : IsToken (codes "k")
unfolding has_no_space c_string
k-IsToken = record {
  word = record { nonempty = omega arith; solid = refl };
  text = record { plain = refl; short = omega arith };
}

v-IsToken : IsToken (codes "v")
unfolding has_no_space c_string
v-IsToken = record {
  word = record { nonempty = omega arith; solid = refl };
  text = record { plain = refl; short = omega arith };
}

-- The second request of the first client is never read.
abbrev clients : List Client
clients =
    record {
      fd = 4;
      waits = 2;
      request = Request.set (codes "k") (codes "v");
      later = Round.received (codes "quit\n") ∷ [];
      worker = 3;
    }
    ∷ record { fd = 5; waits = 0; request = Request.get (codes "k"); later = []; worker = 0 }
    ∷ []

abbrev visit_of : ℕ → Accept
visit_of fd = Accept.accepted fd (Round.received (codes "get k\n") ∷ [])

run_answers_example :
    (run all_open (map visit clients)
      ≡ (Effect.push (codes "set k v\n") 4 ∷ Effect.push (codes "get k\n") 5 ∷ [], End.accepting))
    × ((s : Server) × (take_turns machine (turns_of clients) (open_server (start copies none))
          ≡ some s)
        × (s.sent ≡ (codes "OK\n", 4) ∷ (codes "v\n", 5) ∷ []))
unfolding lookup assign key_eq
run_answers_example =
    run_answers machine all_open copies clients refl refl refl refl
      (length-replicate cache_size zero_slot) (omega arith)
      ((k-IsToken, v-IsToken), (k-IsToken, tt)) refl

-- A round while another worker has a task is not one step.
both_busy :
    take_turns machine
      (Turn.listen (visit_of 4)
        ∷ Turn.listen (visit_of 5)
        ∷ Turn.pop 0
        ∷ Turn.pop 1
        ∷ Turn.answer 0
        ∷ [])
      (open_server (start copies none))
    ≡ none
unfolding take_turns take_turn accept_all connection text_of
both_busy = refl
