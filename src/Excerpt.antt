-- ===== src/Excerpt.antt =====
-- The reading of text up to a limit of bytes, as src/fs.rs and src/user_files.rs both do it: one byte
-- more than the limit is read, and a character that the limit cuts is left out.
use tux_bridge.Prelude.{
  ℕ, zero, suc, ◌⊎◌, ◌+◌, ◌≤◌, ◌<◌, ◌≡◌, refl, sym, ◌∙◌, ap, inl, inr, Str, Bytes, as_bytes,
  Decoded, valid, cut, broken, decode, Bool, true, false, ◌++◌, [], ◌∷◌, arith, Bool-cases, length,
  length-append, length-take, take, drop, take-append-drop, take_all, ltb, ltb→lt, ltb→le,
  if◌then◌else◌, append_assoc, append-nil,
}
use tux_bridge.Prelude.Utf8.Prefix.{IsPrefixOf, decode-IsPrefixOf}
use tux_bridge.Error.{ApiResult, ok, err, unsupported, says}

-- The text of what was read; a character that the limit cuts is left out.
unfoldable pub text_up_to : Bool → Decoded → ApiResult Str
text_up_to truncated (valid s) = ok s
text_up_to true (cut s) = ok s
text_up_to false (cut s) = err (unsupported (says "file is not valid UTF-8 text"))
text_up_to truncated broken = err (unsupported (says "file is not valid UTF-8 text"))

-- `content` is the whole file, which is within the limit; or all of the file's first `limit` bytes but
-- for at most three that begin a character, and there is more.
pub IsExcerpt : ℕ → Bytes → Str → Bool → Type 0
IsExcerpt limit file content truncated =
    (truncated ≡ false) × (length file ≤ limit) × (file ≡ as_bytes content)
    ⊎ (truncated ≡ true)
      × (limit < length file)
      × (length (as_bytes content) ≤ limit)
      × (limit ≤ length (as_bytes content) + 3)
      × ((rest : Bytes) × (file ≡ as_bytes content ++ rest))

text_up_to_ok :
    (truncated : Bool) (bs : Bytes) (d : Decoded) (s : Str)
    → IsPrefixOf d bs
    → text_up_to truncated d ≡ ok s
    → (rest : Bytes) × (bs ≡ as_bytes s ++ rest)
      × (length rest ≤ 3)
      × (truncated ≡ false → rest ≡ [])
unfolding text_up_to
text_up_to_ok truncated bs (valid t) s p h =
    let same : t ≡ s = cc in
    ([], rw same at (p ∙ sym (append-nil (as_bytes t))), omega arith, λ f. refl)
text_up_to_ok true bs (cut t) s (rest, p, k) h =
    let same : t ≡ s = cc in (rest, rw same at p, k, λ f. cc)
text_up_to_ok false bs (cut t) s p h = cc
text_up_to_ok truncated bs broken s p h = cc

take-take : (n : ℕ) (xs : Bytes) → take n (take (n + 1) xs) ≡ take n xs
take-take zero xs = refl
take-take (suc n) [] = ground arith
take-take (suc n) (x ∷ xs) = ground (arith, take-take n xs)

-- The reading of a file up to a limit, as `read_file` does it.
abbrev pub excerpt : ℕ → Bytes → ApiResult Str
excerpt limit file =
    let bytes = take (limit + 1) file in
    let truncated = ltb limit (length bytes) in
    text_up_to truncated (decode (if truncated then take limit bytes else bytes))

pub excerpt-IsExcerpt :
    (limit : ℕ) (file : Bytes) (content : Str)
    → excerpt limit file ≡ ok content
    → IsExcerpt limit file content (ltb limit (length (take (limit + 1) file)))
unfolding IsExcerpt
excerpt-IsExcerpt limit file content h =
    let long = length-take (limit + 1) file in
    elim (Bool-cases (ltb limit (length (take (limit + 1) file)))) [
      | inr f ↦
          let short : length file ≤ limit =
            omega (arith, ltb→le limit (length (take (limit + 1) file)) f) in
          let all : take (limit + 1) file ≡ file = take_all (limit + 1) file (omega arith) in
          let (rest, whole, few, none_left) =
            text_up_to_ok false (take (limit + 1) file) (decode (take (limit + 1) file)) content
              (decode-IsPrefixOf _) (rw f at h) in
          inl (
            f,
            short,
            sym all ∙ whole ∙ ap (λ r. as_bytes content ++ r) (none_left refl) ∙ append-nil _,
          )
      | inl t ↦
          let more : limit < length file =
            omega (arith, ltb→lt limit (length (take (limit + 1) file)) t) in
          let (rest, whole, few, none_left) =
            text_up_to_ok true (take limit (take (limit + 1) file))
              (decode (take limit (take (limit + 1) file))) content (decode-IsPrefixOf _)
              (rw t at h) in
          let first : take limit file ≡ as_bytes content ++ rest =
            sym (take-take limit file) ∙ whole in
          let size = ap (λ (b : Bytes). length b) first in
          let parts = length-append (as_bytes content) rest in
          let cut_at = length-take limit file in
          inr (
            t,
            more,
            omega arith,
            omega arith,
            (
              rest ++ drop limit file,
              sym (take-append-drop limit file)
                  ∙ ap (λ b. b ++ drop limit file) first
                  ∙ append_assoc (as_bytes content) rest (drop limit file),
            ),
          )
    ]
