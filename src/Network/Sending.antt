-- ===== src/Network/Sending.antt =====
-- What `sendn` puts on the wire.
use simple_kv_svr.Base.{
  ℕ, zero, suc, ◌+◌, ◌-◌, none, some, List, [], ◌∷◌, ◌++◌, take, Bytes, ◌≡◌, refl, sym, ap, arith,
  map, ◌∙◌,
}
use simple_kv_svr.Network.{Sent, sendn}

abbrev pub sum : List ℕ → ℕ
sum [] = 0
sum (n ∷ ns) = n + sum ns

-- The first bytes of `buf`, over and over: `ns` says how many of them each time.
abbrev pub prefixes : List ℕ → Bytes → Bytes
prefixes [] buf = []
prefixes (n ∷ ns) buf = take n buf ++ prefixes ns buf

sendn_nothing : (calls : List Sent) (buf : Bytes) → sendn calls buf 0 ≡ some []
unfolding sendn
sendn_nothing [] buf = refl
sendn_nothing (Sent.accepted n ∷ calls) buf = refl
sendn_nothing (Sent.again ∷ calls) buf = refl
sendn_nothing (Sent.failed ∷ calls) buf = refl

prefixes_nothing : (ns : List ℕ) (buf : Bytes) → sum ns ≡ 0 → prefixes ns buf ≡ []
prefixes_nothing [] buf e = refl
prefixes_nothing (zero ∷ ns) buf e = prefixes_nothing ns buf (omega arith)
prefixes_nothing (suc n ∷ ns) buf e = absurd (omega arith)

-- Calls of `send` that take `bytes` bytes in all: `sendn` ends, and each call has sent bytes from the
-- start of the buffer again.
pub sendn-prefixes :
    (ns : List ℕ) (buf : Bytes) (bytes : ℕ)
    → sum ns ≡ bytes
    → sendn (map (λ n. Sent.accepted n) ns) buf bytes ≡ some (prefixes ns buf)
unfolding sendn
sendn-prefixes ns buf zero e =
    sendn_nothing (map (λ n. Sent.accepted n) ns) buf ∙ ap some (sym (prefixes_nothing ns buf e))
sendn-prefixes [] buf (suc bytes) e = absurd (omega arith)
sendn-prefixes (n ∷ ns) buf (suc bytes) e =
    ap (λ o. elim o [ none ↦ none | some more ↦ some (take n buf ++ more) ])
      (sendn-prefixes ns buf (suc bytes - n) (omega arith))
