-- ===== src/Listener/Serving.antt =====
-- The way of requests through the listener and the worker of the first server.
use simple_kv_svr.Base.{
  Bool, sym, ltb, ◌&&◌, Option, get_elem?, set as set_elem, append_assoc, append-nil, Option-cases,
  inl, inr, ℕ, zero, suc, ◌≤◌, ◌<◌, true, none, some, List, [], ◌∷◌, ◌++◌, length, map, replicate,
  Bytes, Dict, ◌≡◌, refl, ap, ◌∙◌, arith,
}
use simple_kv_svr.SlotIndex.{Slot, KvIndex, cache_size}
use simple_kv_svr.SlotIndex.Disk.{start}
use simple_kv_svr.Worker.{Machine, process, process_all}
use simple_kv_svr.Listener.Pool.{
  pushed, Task, Server, Turn, worker_count, open_server, take_turn, take_turns,
}
use simple_kv_svr.Worker.Session.{line_of, AreFair, gets, answers, after, session_survives}
use simple_kv_svr.Listener.{End, ListenIo, accept_all, run}
use simple_kv_svr.Listener.Requests.{
  Client, visit, task, Fits, line_of-Fits, connection-task, run-visits,
}

-- The turns for one client after the other: a client connects when the one before has its answer.
abbrev pub turns_of : List Client → List Turn
turns_of [] = []
turns_of (c ∷ clients) =
    Turn.listen (visit c) ∷ Turn.pop c.worker ∷ Turn.answer c.worker ∷ turns_of clients

-- The clients' workers are threads of the pool.
abbrev pub in_pool : List Client → Bool
in_pool [] = true
in_pool (c ∷ clients) = ltb c.worker worker_count && in_pool clients

-- What is sent to the clients.
abbrev pub sent_to : List Client → List Bytes → List (Bytes × ℕ)
sent_to (c ∷ clients) (ret ∷ rets) = (ret, c.fd) ∷ sent_to clients rets
sent_to _ _ = []

abbrev idle : KvIndex → List (Bytes × ℕ) → Server
idle kv sent = record { queue = []; workers = replicate worker_count none; kv = kv; sent = sent }

-- A worker of the pool is free, and when it has put its task away all are free again.
worker-free :
    (i : ℕ) (t : Task)
    → i < worker_count
    → (get_elem? {A = Option Task} (replicate worker_count none) i ≡ some none)
      × (get_elem? {A = Option Task} (set_elem (replicate worker_count none) i (some t)) i
          ≡ some (some t))
      × (set_elem {A = Option Task} (set_elem (replicate worker_count none) i (some t)) i none
          ≡ replicate worker_count none)
worker-free zero t h = (refl, refl, refl)
worker-free (suc zero) t h = (refl, refl, refl)
worker-free (suc (suc zero)) t h = (refl, refl, refl)
worker-free (suc (suc (suc zero))) t h = (refl, refl, refl)
worker-free (suc (suc (suc (suc zero)))) t h = (refl, refl, refl)
worker-free (suc (suc (suc (suc (suc i))))) t h = absurd (omega arith)

accept_all-visit :
    (c : Client)
    → Fits (line_of c.request)
    → accept_all (visit c ∷ []) ≡ (task c ∷ [], End.accepting)
unfolding accept_all
accept_all-visit c fits =
    ground (arith, connection-task c.fd c.waits (line_of c.request) c.later fits)

turn-listen :
    (m : Machine) (c : Client) (kv : KvIndex) (sent : List (Bytes × ℕ))
    → Fits (line_of c.request)
    → take_turn m (Turn.listen (visit c)) (idle kv sent)
      ≡ some (record (idle kv sent) { queue = (line_of c.request, c.fd) ∷ [] })
unfolding take_turn
turn-listen m c kv sent fits =
    rw (take_turn, accept_all-visit c fits)
      (ap (λ r. some (record (idle kv sent) { queue = pushed r.0 })) (accept_all-visit c fits))

turn-pop :
    (m : Machine) (i : ℕ) (t : Task) (kv : KvIndex) (sent : List (Bytes × ℕ))
    → i < worker_count
    → take_turn m (Turn.pop i) (record (idle kv sent) { queue = t ∷ [] })
      ≡ some (record (idle kv sent) { workers = set_elem (replicate worker_count none) i (some t) })
unfolding take_turn
turn-pop m i t kv sent inside = let (free, busy, back) = worker-free i t inside in rw free refl

turn-answer :
    (m : Machine) (i fd : ℕ) (text ret : Bytes) (kv kv' : KvIndex) (sent : List (Bytes × ℕ))
    → i < worker_count
    → process m text kv ≡ some (ret, kv')
    → take_turn m (Turn.answer i) (record (idle kv sent) {
      workers = set_elem (replicate worker_count none) i (some (text, fd));
    })
      ≡ some (idle kv' (sent ++ ((ret, fd) ∷ [])))
unfolding take_turn
turn-answer m i fd text ret kv kv' sent inside ran =
    let (free, busy, back) = worker-free i (text, fd) inside in
    rw (busy, back, ran)
      (ap (λ ws. some (record (idle kv' (sent ++ ((ret, fd) ∷ []))) { workers = ws })) back)

take_turns-cons :
    (m : Machine) (t : Turn) (turns : List Turn) (s s' : Server)
    → take_turn m t s ≡ some s'
    → take_turns m (t ∷ turns) s ≡ take_turns m turns s'
unfolding take_turns
take_turns-cons m t turns s s' h = rw (take_turns, h) refl

-- The turns of one client.
turns-client :
    (m : Machine) (c : Client) (turns : List Turn) (kv kv' : KvIndex) (ret : Bytes)
    (sent : List (Bytes × ℕ))
    → Fits (line_of c.request)
    → c.worker < worker_count
    → process m (line_of c.request) kv ≡ some (ret, kv')
    → take_turns m
        (Turn.listen (visit c) ∷ Turn.pop c.worker ∷ Turn.answer c.worker ∷ turns)
        (idle kv sent)
      ≡ take_turns m turns (idle kv' (sent ++ ((ret, c.fd) ∷ [])))
turns-client m c turns kv kv' ret sent fits inside ran =
    take_turns-cons m _ _ _ _ (turn-listen m c kv sent fits)
    ∙ take_turns-cons m _ _ _ _ (turn-pop m c.worker (line_of c.request, c.fd) kv sent inside)
    ∙ take_turns-cons m _ _ _ _
        (turn-answer m c.worker c.fd (line_of c.request) ret kv kv' sent inside ran)

process_all-cons :
    (m : Machine) (text : Bytes) (texts rets : List Bytes) (kv last : KvIndex)
    → process_all m (text ∷ texts) kv ≡ some (rets, last)
    → (ret : Bytes) × (more : List Bytes) × (kv' : KvIndex) × (rets ≡ ret ∷ more)
      × (process m text kv ≡ some (ret, kv'))
      × (process_all m texts kv' ≡ some (more, last))
unfolding process_all
process_all-cons m text texts rets kv last h = elim (Option-cases (process m text kv)) [
  | inl bad ↦ absurd (ground arith)
  | inr ((ret, kv'), ran) ↦ elim (Option-cases (process_all m texts kv')) [
    | inl bad ↦ absurd (ground arith)
    | inr ((more, last'), rest) ↦ (ret, more, kv', ground arith, ran, ground arith)
  ]
]

turns-clients :
    (m : Machine) (clients : List Client) (d : Dict Bytes) (kv last : KvIndex) (rets : List Bytes)
    (sent : List (Bytes × ℕ))
    → AreFair (map (λ c. c.request) clients) d
    → in_pool clients ≡ true
    → process_all m (map line_of (map (λ c. c.request) clients)) kv ≡ some (rets, last)
    → take_turns m (turns_of clients) (idle kv sent)
      ≡ some (idle last (sent ++ sent_to clients rets))
unfolding take_turns process_all
turns-clients m [] d kv last rets sent fair pool ran =
    let same : kv ≡ last = cc in rw (append-nil sent) (ap (λ k. some (idle k sent)) same)
turns-clients m (c ∷ clients) d kv last rets sent (fair, others) pool ran =
    let (ret, more, kv', split, first, rest) =
      process_all-cons m (line_of c.request) (map line_of (map (λ c. c.request) clients)) rets kv
        last ran in
    turns-client m c (turns_of clients) kv kv' ret sent (line_of-Fits c.request d fair)
      (ground arith) first
    ∙ turns-clients m clients (after c.request d) kv' last more (sent ++ ((ret, c.fd) ∷ [])) others
        (ground arith) rest
    ∙ ap (λ xs. some (idle last xs))
        (append_assoc sent ((ret, c.fd) ∷ []) (sent_to clients more)
          ∙ ap (λ rs. sent ++ sent_to (c ∷ clients) rs) (sym split))

-- Clients of a server that starts with no file, where `socket`, `bind` and `listen` succeed: each sends one request at
-- some time, with a word for a key and for a value that fit the slots, deletes only keys that are there, there is room
-- on the disk and no more reads than the cache has places. The listener hands the first text of each connection
-- to the queue, in order, and reads no more of it. Where each client connects when the one before has its answer, so that
-- at most one of the five workers has a task, it does not matter which worker takes which request: the answers
-- that go to the connections are the dictionary's, in order.
pub run_answers :
    (m : Machine) (io : ListenIo) (cache : List Slot) (clients : List Client)
    → m.works ≡ true
    → io.makes ≡ true
    → io.binds ≡ true
    → io.listens ≡ true
    → length cache ≡ cache_size
    → gets (map (λ c. c.request) clients) ≤ cache_size
    → AreFair (map (λ c. c.request) clients) []
    → in_pool clients ≡ true
    → (run io (map visit clients) ≡ (map task clients, End.accepting))
      × ((s : Server) × (take_turns m (turns_of clients) (open_server (start cache none)) ≡ some s)
          × (s.sent ≡ sent_to clients (answers (map (λ c. c.request) clients) [])))
run_answers m io cache clients works makes binds listens len few fair pool =
    let (kv, answered, holds) =
      session_survives m cache cache (map (λ c. c.request) clients) works len len few fair in
    (
      run-visits io clients [] makes binds listens fair,
      (
        idle kv (sent_to clients (answers (map (λ c. c.request) clients) [])),
        turns-clients m clients [] (start cache none) kv (answers (map (λ c. c.request) clients) [])
            [] fair pool answered,
        refl,
      ),
    )
