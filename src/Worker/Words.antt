-- ===== src/Worker/Words.antt =====
-- `strtok_r` on a request that is words with a space between them.
use simple_kv_svr.Base.{
  ◌<◌, Bool, true, not, ◌&&◌, some, [], ◌∷◌, ◌++◌, length, ◌==◌, Bytes, ◌≡◌, refl, arith,
}
use simple_kv_svr.Worker.{space, cut, token, chop}

-- No space is in the word.
unfoldable pub has_no_space : Bytes → Bool
has_no_space [] = true
has_no_space (c ∷ word) = not (c == space) && has_no_space word

pub record IsWord (word : Bytes) : Type 0 where
  pub nonempty : 0 < length word
  pub solid : has_no_space word ≡ true

cut-word :
    (word rest : Bytes) → has_no_space word ≡ true → cut (word ++ (space ∷ rest)) ≡ (word, rest)
unfolding cut has_no_space
cut-word [] rest h = refl
cut-word (c ∷ word) rest h = ground (arith, cut-word word rest)

cut-last : (word : Bytes) → has_no_space word ≡ true → cut word ≡ (word, [])
unfolding cut has_no_space
cut-last [] h = refl
cut-last (c ∷ word) h = ground (arith, cut-last word)

pub token-word :
    (word rest : Bytes) → IsWord word → token (word ++ (space ∷ rest)) ≡ some (word, rest)
unfolding token has_no_space
token-word [] rest v = absurd (omega (arith, v.nonempty))
token-word (c ∷ word) rest v = ground (arith, cut-word (c ∷ word) rest)

pub token-last : (word : Bytes) → IsWord word → token word ≡ some (word, [])
unfolding token has_no_space
token-last [] v = absurd (omega (arith, v.nonempty))
token-last (c ∷ word) v = ground (arith, cut-last (c ∷ word))

pub chop-line : (text : Bytes) → chop (text ++ (10 ∷ [])) ≡ some text
unfolding chop
chop-line [] = refl
chop-line (c ∷ []) = refl
chop-line (c ∷ c' ∷ text) = ground (arith, chop-line (c' ∷ text))
