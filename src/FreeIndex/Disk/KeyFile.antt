-- ===== src/FreeIndex/Disk/KeyFile.antt =====
-- What `Quit` writes to the file "key" is what `Start` reads.
use simple_kv_svr.Base.{
  ℕ, zero, suc, ◌≤◌, Bool, true, false, not, ◌&&◌, some, List, [], ◌∷◌, ◌++◌, length, length-append,
  Bytes, Dict, codes, decimal, read_digits, read_digits-decimal, starts_digit, ◌≡◌, refl, ap, ◌∙◌,
  arith, append_assoc,
}
use simple_kv_svr.SlotIndex.{Entry}
use simple_kv_svr.FreeIndex.{KvIndex}
use simple_kv_svr.FreeIndex.Disk.{
  by_key, key_lines, quit, is_space, skip_space, cut_word, read_word, read_number, read_pairs,
  read_key_file,
}

unfoldable pub has_no_space : Bytes → Bool
has_no_space [] = true
has_no_space (c ∷ word) = not (is_space c) && has_no_space word

-- A key that `cin >> key` reads whole.
abbrev pub is_word : Bytes → Bool
is_word [] = false
is_word (c ∷ word) = has_no_space (c ∷ word)

unfoldable pub are_words : Dict Entry → Bool
are_words [] = true
are_words ((k, e) ∷ kv) = is_word k && are_words kv

-- The pairs of keys and offsets.
unfoldable pub pairs_of : Dict Entry → List (Bytes × ℕ)
pairs_of [] = []
pairs_of ((k, e) ∷ kv) = (k, e.slot) ∷ pairs_of kv

cut_word-space :
    (word rest : Bytes)
    → has_no_space word ≡ true
    → cut_word (word ++ (32 ∷ rest)) ≡ (word, 32 ∷ rest)
unfolding cut_word has_no_space
cut_word-space [] rest h = refl
cut_word-space (c ∷ word) rest h = ground (arith, cut_word-space word rest)

read_word-line :
    (word rest : Bytes)
    → is_word word ≡ true
    → read_word (10 ∷ (word ++ (32 ∷ rest))) ≡ some (word, 32 ∷ rest)
unfolding read_word skip_space has_no_space
read_word-line [] rest h = absurd (cc)
read_word-line (c ∷ word) rest h = ground (arith, cut_word-space (c ∷ word) rest)

skip_space-digit : (text : Bytes) → starts_digit text ≡ true → skip_space text ≡ text
unfolding skip_space
skip_space-digit [] h = absurd (cc)
skip_space-digit (c ∷ text) h = ground arith

read_digits-line :
    (n : ℕ) (rest : Bytes) → read_digits 0 (decimal n ++ (10 ∷ rest)) ≡ (n, 10 ∷ rest)
unfolding read_digits
read_digits-line n rest = (read_digits-decimal n (10 ∷ rest)).0

read_number-line :
    (n : ℕ) (rest : Bytes) → read_number (decimal n ++ (10 ∷ rest)) ≡ some (n, 10 ∷ rest)
unfolding read_number
read_number-line n rest =
    let digit = (read_digits-decimal n (10 ∷ rest)).1 in
    ground (arith, skip_space-digit (decimal n ++ (10 ∷ rest)), read_digits-line n rest)

read_number-space : (text : Bytes) → read_number (32 ∷ text) ≡ read_number text
unfolding read_number skip_space
read_number-space text = refl

-- The end of the file: a word and no number.
read_pairs-end : (rounds : ℕ) → read_pairs rounds (10 ∷ codes "here\n") ≡ []
unfolding read_pairs read_word read_number skip_space cut_word
read_pairs-end zero = refl
read_pairs-end (suc rounds) = refl

read_pairs-step :
    (rounds offset : ℕ) (key text text₁ text₂ : Bytes)
    → read_word text ≡ some (key, text₁)
    → read_number text₁ ≡ some (offset, text₂)
    → read_pairs (suc rounds) text ≡ (key, offset) ∷ read_pairs rounds text₂
unfolding read_pairs
read_pairs-step rounds offset key text text₁ text₂ e e₁ = ground arith

line_append :
    (key more rest : Bytes) (n : ℕ)
    → (key ++ (32 ∷ (decimal n ++ (10 ∷ more)))) ++ rest
      ≡ key ++ (32 ∷ (decimal n ++ (10 ∷ (more ++ rest))))
line_append key more rest n =
    append_assoc key (32 ∷ (decimal n ++ (10 ∷ more))) rest
    ∙ ap (λ xs. key ++ (32 ∷ xs)) (append_assoc (decimal n) (10 ∷ more) rest)

read_pairs-key_lines :
    (kv : Dict Entry) (rounds : ℕ)
    → are_words kv ≡ true
    → length (pairs_of kv) ≤ rounds
    → read_pairs rounds (10 ∷ (key_lines kv ++ codes "here\n")) ≡ pairs_of kv
unfolding key_lines are_words pairs_of
read_pairs-key_lines [] rounds words h = read_pairs-end rounds
read_pairs-key_lines ((k, e) ∷ kv) zero words h = absurd (omega arith)
read_pairs-key_lines ((k, e) ∷ kv) (suc rounds) words h =
    let rest = key_lines kv ++ codes "here\n" in
    ap (λ xs. read_pairs (suc rounds) (10 ∷ xs))
      (line_append k (key_lines kv) (codes "here\n") e.slot)
    ∙ read_pairs-step rounds e.slot k _ (32 ∷ (decimal e.slot ++ (10 ∷ rest))) (10 ∷ rest)
        (read_word-line k (decimal e.slot ++ (10 ∷ rest)) (ground arith))
        (read_number-space (decimal e.slot ++ (10 ∷ rest)) ∙ read_number-line e.slot rest)
    ∙ ap (λ xs. (k, e.slot) ∷ xs) (read_pairs-key_lines kv rounds (ground arith) (omega arith))

-- Every line has more than one byte.
length-key_lines : (kv : Dict Entry) → length (pairs_of kv) ≤ length (key_lines kv)
unfolding key_lines pairs_of
length-key_lines [] = omega arith
length-key_lines ((k, e) ∷ kv) = omega (
  arith,
  length-append k (32 ∷ (decimal e.slot ++ (10 ∷ key_lines kv))),
  length-append (decimal e.slot) (10 ∷ key_lines kv),
  length-key_lines kv,
)

-- `Start` reads the size and the offsets that `Quit` wrote.
pub read_key_file-quit :
    (s : KvIndex)
    → are_words (by_key s.kv) ≡ true
    → read_key_file (quit s) ≡ some (length s.store, pairs_of (by_key s.kv))
unfolding read_key_file quit
read_key_file-quit s words =
    let lines = key_lines (by_key s.kv) in
    let text =
      read_pairs-key_lines (by_key s.kv) (length (10 ∷ (lines ++ codes "here\n"))) words
        (omega (arith, length-key_lines (by_key s.kv), length-append lines (codes "here\n"))) in
    ground (arith, read_number-line (length s.store) (lines ++ codes "here\n"), text)
