-- ===== src/Network/Lines.antt =====
-- `readline` on a stream socket.
use simple_kv_svr.Base.{
  ℕ, zero, suc, ◌+◌, ◌-◌, ◌<◌, ◌≤◌, true, false, none, some, [], ◌∷◌, ◌++◌, length, take, drop,
  Bytes, ◌≡◌, refl, ap, sym, ◌∙◌, arith, if◌then◌else◌, get_elem?, set, ◌==◌, length-append,
  take-append_length, drop-append_length, append_assoc, length-take,
}
use simple_kv_svr.Network.{
  Action, input_action, cut_return, Recv, find_newline, overlay, read_bytes, after_peek, readline,
}

-- The documented behaviour of `recv` on a connected stream socket with bytes that have arrived, where the
-- bytes asked for are there: MSG_PEEK leaves them, and another call takes them out.
pub record IsStream {S : Type 0} (recv : Recv S) (pending : S → Bytes) : Type 0 where
  pub peeks :
      (n : ℕ) (s : S) → 0 < length (pending s) → recv true n s ≡ (some (take n (pending s)), s)
  pub gives :
      (n : ℕ) (s : S) → n ≤ length (pending s) → (recv false n s).0 ≡ some (take n (pending s))
  pub takes :
      (n : ℕ) (s : S) → n ≤ length (pending s) → pending (recv false n s).1 ≡ drop n (pending s)

-- No byte of a line is a newline.
abbrev pub IsLine : Bytes → Type 0
IsLine line = find_newline line ≡ length line

find_newline-line :
    (line rest : Bytes) → IsLine line → find_newline (line ++ (10 ∷ rest)) ≡ length line
unfolding find_newline
find_newline-line [] rest h = refl
find_newline-line (c ∷ line) rest h = ground (arith, find_newline-line line rest)

take-append_past :
    (n : ℕ) (xs ys : Bytes) → length xs ≤ n → take n (xs ++ ys) ≡ xs ++ take (n - length xs) ys
take-append_past n [] ys h = ap (λ k. take k ys) (omega arith)
take-append_past zero (x ∷ xs) ys h = absurd (omega arith)
take-append_past (suc n) (x ∷ xs) ys h =
    ap (λ l. x ∷ l) (take-append_past n xs ys (omega arith))
    ∙ ap (λ k. x ∷ (xs ++ take k ys)) (omega arith)

module _ {S : Type 0} (recv : Recv S) where
  read_bytes-some :
      (buf : Bytes) (n : ℕ) (s : S) (bs : Bytes)
      → (recv false n s).0 ≡ some bs
      → read_bytes recv buf n s
        ≡ record { result = some (length bs); buf = overlay bs buf; socket = (recv false n s).1 }
  read_bytes-some buf n s bs e =
      ap
        (λ got. elim got [
          | none ↦ record { result = none; buf = buf; socket = (recv false n s).1 }
          | some bytes ↦ record {
            result = some (length bytes);
            buf = overlay bytes buf;
            socket = (recv false n s).1;
          }
        ])
        e

  after_peek-newline :
      (bytes buf : Bytes) (s : S)
      → find_newline bytes < length bytes
      → after_peek recv (some bytes) buf s
        ≡ read_bytes recv (overlay bytes buf) (find_newline bytes + 1) s
  unfolding after_peek
  after_peek-newline [] buf s h = absurd (omega arith)
  after_peek-newline (c ∷ bytes) buf s h =
      let differs : (find_newline (c ∷ bytes) == length (c ∷ bytes)) ≡ false = ground arith in
      ap
        (λ b.
          if b
          then record { result = none; buf = overlay (c ∷ bytes) buf; socket = s }
          else read_bytes recv (overlay (c ∷ bytes) buf) (find_newline (c ∷ bytes) + 1) s)
        differs

  after_peek-no_newline :
      (bytes buf : Bytes) (s : S)
      → 0 < length bytes
      → IsLine bytes
      → after_peek recv (some bytes) buf s
        ≡ record { result = none; buf = overlay bytes buf; socket = s }
  unfolding after_peek
  after_peek-no_newline [] buf s pos h = absurd (omega arith)
  after_peek-no_newline (c ∷ bytes) buf s pos h =
      let same : (find_newline (c ∷ bytes) == length (c ∷ bytes)) ≡ true = ground arith in
      ap
        (λ b.
          if b
          then record { result = none; buf = overlay (c ∷ bytes) buf; socket = s }
          else read_bytes recv (overlay (c ∷ bytes) buf) (find_newline (c ∷ bytes) + 1) s)
        same

  readline-peek :
      (buf : Bytes) (nbytes : ℕ) (s : S) (bytes : Bytes)
      → recv true nbytes s ≡ (some bytes, s)
      → readline recv buf nbytes s ≡ after_peek recv (some bytes) buf s
  unfolding readline
  readline-peek buf nbytes s bytes e = ap (λ p. after_peek recv p.0 buf p.1) e

-- What a buffer holds at its start after a write.
take-overlay-length : (bs buf : Bytes) (n : ℕ) → n ≡ length bs → take n (overlay bs buf) ≡ bs
take-overlay-length bs buf n e = take-append_length n bs (drop (length bs) buf) e

-- A line that ends in a newline within the bytes asked for: `readline` returns its length with the
-- newline, has it at the start of the buffer, and takes it and no more out of the stream.
pub readline-line :
    {S : Type 0} (recv : Recv S) (pending : S → Bytes) (buf line rest : Bytes) (nbytes : ℕ) (s : S)
    → IsStream recv pending
    → IsLine line
    → length line < nbytes
    → pending s ≡ line ++ (10 ∷ rest)
    → ((readline recv buf nbytes s).result ≡ some (length line + 1))
      × (take (length line + 1) (readline recv buf nbytes s).buf ≡ line ++ (10 ∷ []))
      × (pending (readline recv buf nbytes s).socket ≡ rest)
unfolding readline
readline-line recv pending buf line rest nbytes s v h room e = (
  ap (λ l. l.result) whole ∙ ap some line_size,
  ap (λ l. take (length line + 1) l.buf) whole
      ∙ take-overlay-length (line ++ (10 ∷ [])) (overlay (take nbytes (pending s)) buf)
          (length line + 1) (sym line_size),
  ap (λ l. pending l.socket) whole
      ∙ v.takes (length line + 1) s enough
      ∙ ap (drop (length line + 1)) all
      ∙ drop-append_length (length line + 1) (line ++ (10 ∷ [])) rest (sym line_size),
)
  where
    line_size : length (line ++ (10 ∷ [])) ≡ length line + 1
    line_size = length-append line (10 ∷ [])

    all : pending s ≡ (line ++ (10 ∷ [])) ++ rest
    all = e ∙ sym (append_assoc line (10 ∷ []) rest)

    enough : length line + 1 ≤ length (pending s)
    enough = omega (arith, ap length e, length-append line (10 ∷ rest))

    cut : take nbytes (pending s) ≡ line ++ (10 ∷ take (nbytes - length line - 1) rest)
    cut =
        ap (take nbytes) e
        ∙ take-append_past nbytes line (10 ∷ rest) (omega arith)
        ∙ ap (λ k. line ++ take k (10 ∷ rest)) split
      where
        split : nbytes - length line ≡ suc (nbytes - length line - 1)
        split = omega arith

    at : find_newline (take nbytes (pending s)) ≡ length line
    at = ap find_newline cut ∙ find_newline-line line (take (nbytes - length line - 1) rest) h

    found : find_newline (take nbytes (pending s)) < length (take nbytes (pending s))
    found = omega (arith, at, length-take nbytes (pending s), enough)

    got : (recv false (length line + 1) s).0 ≡ some (line ++ (10 ∷ []))
    got =
        v.gives (length line + 1) s enough
        ∙ ap (λ bs. some (take (length line + 1) bs)) all
        ∙ ap some (take-append_length (length line + 1) (line ++ (10 ∷ [])) rest (sym line_size))

    whole : readline recv buf nbytes s ≡ record {
      result = some (length (line ++ (10 ∷ [])));
      buf = overlay (line ++ (10 ∷ [])) (overlay (take nbytes (pending s)) buf);
      socket = (recv false (length line + 1) s).1;
    }
    whole =
        readline-peek recv buf nbytes s (take nbytes (pending s))
          (v.peeks nbytes s (omega (arith, enough)))
        ∙ after_peek-newline recv (take nbytes (pending s)) buf s found
        ∙ ap (λ k. read_bytes recv (overlay (take nbytes (pending s)) buf) (k + 1) s) at
        ∙ read_bytes-some recv (overlay (take nbytes (pending s)) buf) (length line + 1) s
            (line ++ (10 ∷ [])) got

-- No newline among the bytes asked for: `readline` returns -1 and leaves the stream as it was, so
-- that a line longer than the buffer is never taken out of it.
pub readline-no_line :
    {S : Type 0} (recv : Recv S) (pending : S → Bytes) (buf : Bytes) (nbytes : ℕ) (s : S)
    → IsStream recv pending
    → 0 < nbytes
    → 0 < length (pending s)
    → IsLine (take nbytes (pending s))
    → ((readline recv buf nbytes s).result ≡ none) × ((readline recv buf nbytes s).socket ≡ s)
unfolding readline
readline-no_line recv pending buf nbytes s v pos some_bytes h =
    let bytes = take nbytes (pending s) in
    let whole =
      readline-peek recv buf nbytes s bytes (v.peeks nbytes s some_bytes)
      ∙ after_peek-no_newline recv bytes buf s (omega (arith, length-take nbytes (pending s))) h in
    (ap (λ l. l.result) whole, ap (λ l. l.socket) whole)

get_elem?-append_at : (xs ys : Bytes) (c : ℕ) → get_elem? (xs ++ (c ∷ ys)) (length xs) ≡ some c
get_elem?-append_at [] ys c = refl
get_elem?-append_at (x ∷ xs) ys c = get_elem?-append_at xs ys c

set-append_at : (xs ys : Bytes) (c d : ℕ) → set (xs ++ (c ∷ ys)) (length xs) d ≡ xs ++ (d ∷ ys)
set-append_at [] ys c d = refl
set-append_at (x ∷ xs) ys c d = ap (λ l. x ∷ l) (set-append_at xs ys c d)

cut_return-line :
    (body tail : Bytes) (c n : ℕ)
    → cut_return (body ++ (c ∷ tail)) n (length body) ≡ (
        if c == 13
        then Action.submit (body ++ (10 ∷ tail)) (n - 1)
        else Action.submit (body ++ (c ∷ tail)) n)
cut_return-line body tail c n =
    ap
      (λ o. elim o [
        | none ↦ Action.underrun
        | some c' ↦
            if c' == 13
            then Action.submit (set (body ++ (c ∷ tail)) (length body) 10) (n - 1)
            else Action.submit (body ++ (c ∷ tail)) n
      ])
      (get_elem?-append_at body tail c)
    ∙ ap (λ l. if c == 13 then Action.submit l (n - 1) else Action.submit (body ++ (c ∷ tail)) n)
        (set-append_at body tail c 10)

input_action-nonempty :
    (b : ℕ) (rest : Bytes) (n : ℕ)
    → (b == 10) ≡ false
    → input_action (some (suc (suc n))) (b ∷ rest) ≡ cut_return (b ∷ rest) (n + 2) n
unfolding input_action
input_action-nonempty b rest n h =
    ap (λ t. if t then Action.skip else cut_return (b ∷ rest) (n + 2) n) h

-- A line of at least one byte, with its newline, at the start of the buffer: `inputThread` makes a
-- task of it, and a '\r' before the newline becomes the newline.
pub input_action-line :
    (body tail : Bytes) (c : ℕ)
    → IsLine (body ++ (c ∷ []))
    → input_action (some (suc (suc (length body)))) (body ++ (c ∷ 10 ∷ tail)) ≡ (
        if c == 13
        then Action.submit (body ++ (10 ∷ 10 ∷ tail)) (length body + 2 - 1)
        else Action.submit (body ++ (c ∷ 10 ∷ tail)) (length body + 2))
unfolding find_newline
input_action-line [] tail c h =
    input_action-nonempty c (10 ∷ tail) 0 (ground arith) ∙ cut_return-line [] (10 ∷ tail) c 2
input_action-line (b ∷ body) tail c h =
    input_action-nonempty b (body ++ (c ∷ 10 ∷ tail)) (suc (length body)) (ground arith)
    ∙ cut_return-line (b ∷ body) (10 ∷ tail) c (suc (length body) + 2)
