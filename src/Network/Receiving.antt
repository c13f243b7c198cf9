-- ===== src/Network/Receiving.antt =====
-- What `readn` collects.
use simple_kv_svr.Base.{
  ℕ, zero, suc, ◌-◌, false, none, some, List, [], ◌∷◌, ◌++◌, length, Bytes, ◌≡◌, refl, ap, sym, ◌∙◌,
  arith, map, length-append,
}
use simple_kv_svr.Network.{Received, readn}

-- The pieces that arrive, one behind the other.
abbrev pub joined : List Bytes → Bytes
joined [] = []
joined (piece ∷ pieces) = piece ++ joined pieces

readn_nothing : (calls : List Received) → readn calls 0 ≡ some ([], false)
unfolding readn
readn_nothing [] = refl
readn_nothing (Received.bytes got ∷ calls) = refl
readn_nothing (Received.end ∷ calls) = refl
readn_nothing (Received.interrupted ∷ calls) = refl
readn_nothing (Received.broken ∷ calls) = refl

joined_nothing : (pieces : List Bytes) → length (joined pieces) ≡ 0 → joined pieces ≡ []
joined_nothing [] h = refl
joined_nothing ([] ∷ pieces) h = joined_nothing pieces h
joined_nothing ((c ∷ piece) ∷ pieces) h = absurd (omega arith)

-- Whatever pieces `recv` hands the bytes out in: `readn` joins them when they make up all the bytes
-- asked for, and does not set `*isEOF`.
pub readn-joined :
    (pieces : List Bytes) (nbytes : ℕ)
    → length (joined pieces) ≡ nbytes
    → readn (map (λ piece. Received.bytes piece) pieces) nbytes ≡ some (joined pieces, false)
unfolding readn
readn-joined pieces zero h =
    readn_nothing (map (λ piece. Received.bytes piece) pieces)
    ∙ ap (λ bs. some (bs, false)) (sym (joined_nothing pieces h))
readn-joined [] (suc left) h = absurd (omega arith)
readn-joined (piece ∷ pieces) (suc left) h =
    ap (λ o. elim o [ none ↦ none | some (more, eof) ↦ some (piece ++ more, eof) ])
      (readn-joined pieces (suc left - length piece)
        (omega (arith, length-append piece (joined pieces))))
