-- ===== src/Server/Disk/UserFile.antt =====
-- A user's file: what is written is read back.
use inf.Base.{
  All, List, Str, [], ap, append_assoc, arith, drop, drop-append, eq_str, eq_ℕ, length,
  length-append, refl, replicate, some, subst, suc, sym, take, take-append, zero, ℕ, ◌*◌, ◌++◌, ◌+◌,
  ◌<◌, ◌∙◌, ◌∷◌, ◌≡◌,
}
use inf.Server.Connections.{eq_address}
use inf.Server.Disk.{decode_user, encode_user, put_words, read_words}
use inf.Server.Persistence.{UserPersistentData}
use inf.Shared.Ids.{word_values}
use inf.Shared.Memory.{length-to_bytes, of_bytes, of_bytes-to_bytes, to_bytes, write_at}

-- The words one after the other.
abbrev pub bytes_of_words : List ℕ → List ℕ
bytes_of_words [] = []
bytes_of_words (w ∷ ws) = to_bytes 4 w ++ bytes_of_words ws

replicate_add : (m n : ℕ) (x : ℕ) → replicate (m + n) x ≡ replicate m x ++ replicate n x
replicate_add zero n x = ap (λ (k : ℕ). replicate k x) (omega arith)
replicate_add (suc m) n x =
    ap (λ (k : ℕ). replicate k x) {x = suc m + n} {y = suc (m + n)} (omega arith)
    ∙ ap (◌∷◌ x) (replicate_add m n x)

write_at-append :
    (xs old rest new : List ℕ)
    → length old ≡ length new
    → write_at (xs ++ (old ++ rest)) (length xs) new ≡ xs ++ (new ++ rest)
write_at-append xs old rest new e = rw (take-append xs (old ++ rest) (length xs) refl) (
    ap (λ (l : List ℕ). xs ++ (new ++ l))
      (ap (drop (length xs + length new)) (sym (append_assoc xs old rest))
        ∙ drop-append (xs ++ old) rest (length xs + length new)
            (omega (arith, length-append xs old))))

put_words_lem :
    (xs ws : List ℕ)
    → put_words (xs ++ replicate (4 * length ws) 0) (length xs) ws ≡ xs ++ bytes_of_words ws
unfolding put_words
put_words_lem xs [] = refl
put_words_lem xs (w ∷ ws) =
    let rest : List ℕ = replicate (4 * length ws) 0 in
    let zeros : replicate (4 * length (w ∷ ws)) 0 ≡ replicate 4 0 ++ rest =
      subst (λ (k : ℕ). replicate k 0 ≡ replicate 4 0 ++ rest) (omega arith)
        (replicate_add 4 (4 * length ws) 0) in
    let written : write_at (xs ++ replicate (4 * length (w ∷ ws)) 0) (length xs) (to_bytes 4 w)
        ≡ (xs ++ to_bytes 4 w) ++ rest =
      ap (λ (l : List ℕ). write_at (xs ++ l) (length xs) (to_bytes 4 w)) zeros
      ∙ write_at-append xs (replicate 4 0) rest (to_bytes 4 w) (sym (length-to_bytes 4 w))
      ∙ sym (append_assoc xs (to_bytes 4 w) rest) in
    ap (λ (l : List ℕ). put_words l (length xs + 4) ws) written
    ∙ ap (λ (k : ℕ). put_words ((xs ++ to_bytes 4 w) ++ rest) k ws)
        (omega (arith, length-append xs (to_bytes 4 w), length-to_bytes 4 w))
    ∙ put_words_lem (xs ++ to_bytes 4 w) ws
    ∙ append_assoc xs (to_bytes 4 w) (bytes_of_words ws)

read_words_lem :
    (p : ℕ) (ws : List ℕ)
    → All (λ w. w < word_values) ws
    → read_words p (length ws) (bytes_of_words ws) ≡ ws
unfolding read_words to_bytes
read_words_lem p [] h = refl
read_words_lem p (w ∷ ws) h =
    let first : of_bytes (to_bytes 4 w) ≡ w = of_bytes-to_bytes 4 w (omega (arith, h.0)) in
    rw first (ap (◌∷◌ w) (read_words_lem w ws h.1))

length-bytes_of_words : (ws : List ℕ) → length (bytes_of_words ws) ≡ 4 * length ws
length-bytes_of_words [] = omega arith
length-bytes_of_words (w ∷ ws) = omega (
  arith,
  length-append (to_bytes 4 w) (bytes_of_words ws),
  length-to_bytes 4 w,
  length-bytes_of_words ws,
)

-- User data whose words fit their 4 bytes.
pub record IsStorable (d : UserPersistentData) : Type 0 where
  pub id_fits : d.user_id < word_values
  pub followers_fit : All (λ w. w < word_values) d.followed_by
  pub few_followers : 8 + 4 * length d.followed_by < word_values

encode_words :
    (id : ℕ) (ws : List ℕ) (m k : ℕ)
    → m ≡ length ws
    → k ≡ 4 * length (id ∷ m ∷ ws)
    → put_words (replicate k 0) 0 (id ∷ m ∷ ws) ≡ bytes_of_words (id ∷ length ws ∷ ws)
encode_words id ws m k em ek = rw ek (rw em (put_words_lem [] (id ∷ length ws ∷ ws)))

encode_user_lem :
    (d : UserPersistentData)
    → IsStorable d
    → encode_user d ≡ bytes_of_words (d.user_id ∷ length d.followed_by ∷ d.followed_by)
unfolding encode_user
encode_user_lem d h =
    encode_words d.user_id d.followed_by _ _ (omega (arith, h.few_followers))
      (omega (arith, h.few_followers))

decode_words :
    (name : Str) (bytes : List ℕ) (id : ℕ) (ws : List ℕ)
    → of_bytes (take 4 bytes) ≡ id
    → of_bytes (take 4 (drop 4 bytes)) ≡ length ws
    → read_words (length ws) (length ws) (drop 8 bytes) ≡ ws
    → length bytes ≡ 8 + 4 * length ws
    → 8 + 4 * length ws < word_values
    → decode_user name bytes ≡ some (record { user_id = id; username = name; followed_by = ws })
unfolding decode_user
decode_words name bytes id ws first second words size small =
    rw second (rw first (rw words (ground arith)))

-- User data whose ids fit 4 bytes, with so few followers that the file is shorter than 2^32 bytes,
-- is read back from its file as it was.
pub decode_user-encode_user :
    (d : UserPersistentData) → IsStorable d → decode_user d.username (encode_user d) ≡ some d
unfolding to_bytes
decode_user-encode_user d h =
    let ws = d.followed_by in
    let id_bytes = of_bytes-to_bytes 4 d.user_id (omega (arith, h.id_fits)) in
    let number_bytes = of_bytes-to_bytes 4 (length ws) (omega (arith, h.few_followers)) in
    rw (encode_user_lem d h) (
      decode_words d.username (bytes_of_words (d.user_id ∷ length ws ∷ ws)) d.user_id ws id_bytes
        number_bytes (read_words_lem (length ws) ws h.followers_fit)
        (length-bytes_of_words (d.user_id ∷ length ws ∷ ws) ∙ omega arith) h.few_followers)
