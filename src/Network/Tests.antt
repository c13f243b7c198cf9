-- ===== src/Network/Tests.antt =====
-- A socket that holds the bytes that have arrived, and runs of the network layer over it.
use simple_kv_svr.Base.{
  true, false, ℕ, ◌+◌, none, some, List, [], ◌∷◌, ◌++◌, take, drop, Bytes, ◌≡◌, refl, arith, map,
  replicate, if◌then◌else◌,
}
use simple_kv_svr.Network.{
  Recv, Action, Sent, find_newline, readline, input_action, input_tasks, sendn, Received, readn,
  output_task,
}
use simple_kv_svr.Network.Lines.{IsStream, readline-line, readline-no_line, input_action-line}
use simple_kv_svr.Network.Sending.{sendn-prefixes}

-- The state of the socket is what has arrived.
abbrev arrived : Recv Bytes
arrived peek n s = (some (take n s), if peek then s else drop n s)

arrived-IsStream : IsStream arrived (λ s. s)
arrived-IsStream = record { peeks = λ n s h. refl; gives = λ n s h. refl; takes = λ n s h. refl }

-- "get\r\n", an empty line, "quit\n", and half a line
abbrev stream : Bytes
stream = 103 ∷ 101 ∷ 116 ∷ 13 ∷ 10 ∷ 10 ∷ 113 ∷ 117 ∷ 105 ∷ 116 ∷ 10 ∷ 104 ∷ []

abbrev counts : List (Bytes × ℕ) → List Bytes
counts [] = []
counts ((buf, n) ∷ tasks) = take n buf ∷ counts tasks

input_tasks-stream :
    (counts (input_tasks arrived (replicate 16 0) 8 stream).0
      ≡ (103 ∷ 101 ∷ 116 ∷ 10 ∷ []) ∷ (113 ∷ 117 ∷ 105 ∷ 116 ∷ 10 ∷ []) ∷ [])
    × ((input_tasks arrived (replicate 16 0) 8 stream).1 ≡ 104 ∷ [])
unfolding input_tasks
input_tasks-stream = (refl, refl)

readline-line_example :
    ((readline arrived (replicate 16 0) 16 stream).result ≡ some (4 + 1))
    × (take (4 + 1) (readline arrived (replicate 16 0) 16 stream).buf
        ≡ (103 ∷ 101 ∷ 116 ∷ 13 ∷ []) ++ (10 ∷ []))
    × ((readline arrived (replicate 16 0) 16 stream).socket ≡ drop 5 stream)
unfolding find_newline
readline-line_example =
    readline-line arrived (λ s. s) (replicate 16 0) (103 ∷ 101 ∷ 116 ∷ 13 ∷ []) (drop 5 stream) 16
      stream arrived-IsStream refl (omega arith) refl

readline-no_line_example :
    ((readline arrived (replicate 16 0) 3 stream).result ≡ none)
    × ((readline arrived (replicate 16 0) 3 stream).socket ≡ stream)
unfolding find_newline
readline-no_line_example =
    readline-no_line arrived (λ s. s) (replicate 16 0) 3 stream arrived-IsStream (omega arith)
      (omega arith) refl

input_action-line_example :
    input_action (some 4) (103 ∷ 101 ∷ 13 ∷ 10 ∷ 0 ∷ [])
    ≡ Action.submit (103 ∷ 101 ∷ 10 ∷ 10 ∷ 0 ∷ []) 3
unfolding find_newline
input_action-line_example = input_action-line (103 ∷ 101 ∷ []) (0 ∷ []) 13 refl

-- A socket that takes two bytes and then one: the first bytes go out twice.
sendn-prefixes_example :
    sendn (map (λ n. Sent.accepted n) (2 ∷ 1 ∷ [])) (1 ∷ 2 ∷ 3 ∷ []) 3 ≡ some (1 ∷ 2 ∷ 1 ∷ [])
sendn-prefixes_example = sendn-prefixes (2 ∷ 1 ∷ []) (1 ∷ 2 ∷ 3 ∷ []) 3 refl

readn_two_pieces :
    readn (map (λ piece. Received.bytes piece) ((1 ∷ 2 ∷ []) ∷ (3 ∷ []) ∷ [])) 3
    ≡ some (1 ∷ 2 ∷ 3 ∷ [], false)
unfolding readn
readn_two_pieces = refl

-- The answer to a QUIT, sent in two calls: the second starts at `buf` again.
output_quit :
    output_task (Sent.accepted 2 ∷ Sent.accepted 1 ∷ []) (1 ∷ 2 ∷ 3 ∷ []) 3 true false
    ≡ some (record { sent = 1 ∷ 2 ∷ 1 ∷ []; shut = true; deleted = true })
unfolding output_task sendn
output_quit = refl
