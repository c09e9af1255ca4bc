-- ===== src/Content/Transfer/Chunks.antt =====
-- The chunks of a text are the text.
use Prim.Native.String.{◌++◌ as text_append, count}
use text.Mathlib.TextLemmas.{nil-append, append-nil, append_assoc}
use oink_judge.Prelude.{
  ℕ, zero, suc, ◌≤◌, ◌<◌, String, Bool, true, false, ◌≡◌, refl, sym, ap, ◌∙◌, Option, none, some,
  some_inj, List, [], ◌∷◌, map, ltb, ltb→lt, All, arith,
}
use oink_judge.Prelude.Texts.{
  is_empty, split_at, append-split_at, count-split_at-le, split_at-end, split_at-is_empty,
  count-split_at-lt,
}
use oink_judge.Content.Server.{file_chunk, collect}
use oink_judge.Content.Transfer.{chunk_size, chunk_turn, read_chunks, chunks_of, join_chunks}

-- A message that the loops send: not empty, and no larger than the buffer.
abbrev pub IsChunk : ℕ → String → Type 0
IsChunk size chunk = (is_empty chunk ≡ false) × (count chunk ≤ size)

-- The loop ends, and its chunks put together give the text.
abbrev pub Sends : ℕ → String → Option (List String) → Type 0
Sends size content sent =
    (chunks : List String) × (sent ≡ some chunks)
    × (join_chunks "" chunks ≡ content)
    × All (IsChunk size) chunks

join_chunks-append :
    (content : String) (chunks : List String)
    → join_chunks content chunks ≡ text_append content (join_chunks "" chunks)
unfolding join_chunks
join_chunks-append content [] = sym (append-nil content)
join_chunks-append content (chunk ∷ chunks) =
    join_chunks-append (text_append content chunk) chunks
    ∙ append_assoc content chunk (join_chunks "" chunks)
    ∙ ap (text_append content) (
        sym (join_chunks-append chunk chunks)
        ∙ ap (λ r. join_chunks r chunks) (sym (nil-append chunk)))

pub collect-join_chunks :
    (content : String) (chunks : List String)
    → collect content (map file_chunk chunks) ≡ some (join_chunks content chunks)
unfolding collect join_chunks
collect-join_chunks content [] = refl
collect-join_chunks content (chunk ∷ chunks) =
    collect-join_chunks (text_append content chunk) chunks

last_chunk :
    (size : ℕ) (stream : String)
    → count (split_at size stream).0 < size
    → text_append "" (split_at size stream).0 ≡ stream
last_chunk size stream h =
    let front = (split_at size stream).0 in
    nil-append front
    ∙ sym (append-nil front)
    ∙ ap (text_append front) (sym (split_at-end size stream h))
    ∙ append-split_at size stream

chunk_turn-Sends :
    (empty at_end : Bool) (size : ℕ) (stream : String) (written : Option (List String))
    → is_empty (split_at size stream).0 ≡ empty
    → ltb (count (split_at size stream).0) size ≡ at_end
    → 0 < size
    → (is_empty (split_at size stream).0 ≡ false → Sends size (split_at size stream).1 written)
    → Sends size stream (chunk_turn empty at_end (split_at size stream).0 written)
unfolding join_chunks
chunk_turn-Sends true at_end size stream written e l h ih =
    ([], refl, sym (split_at-is_empty size stream h e), tt)
chunk_turn-Sends false true size stream written e l h ih = (
  (split_at size stream).0 ∷ [],
  refl,
  last_chunk size stream (ltb→lt (count (split_at size stream).0) size l),
  ((e, count-split_at-le size stream), tt),
)
chunk_turn-Sends false false size stream none e l h ih = cc ((ih e).1)
chunk_turn-Sends false false size stream (some rest) e l h ih =
    let (chunks, same, joined, fine) = ih e in
    let front = (split_at size stream).0 in
    (
      front ∷ chunks,
      ap (λ r. some (front ∷ r)) (some_inj same),
      ap (λ r. join_chunks r chunks) (nil-append front)
          ∙ join_chunks-append front chunks
          ∙ ap (text_append front) joined
          ∙ append-split_at size stream,
      ((e, count-split_at-le size stream), fine),
    )

read_chunks-Sends :
    (fuel size : ℕ) (stream : String)
    → 0 < size
    → count stream < fuel
    → Sends size stream (read_chunks fuel size stream)
unfolding read_chunks
read_chunks-Sends zero size stream h k = absurd (omega arith)
read_chunks-Sends (suc fuel) size stream h k =
    chunk_turn-Sends (is_empty (split_at size stream).0) (ltb (count (split_at size stream).0) size)
      size stream (read_chunks fuel size (split_at size stream).1) refl refl h
      (λ e.
        read_chunks-Sends fuel size (split_at size stream).1 h
          (omega (arith, count-split_at-lt size stream e)))

-- The loop over a stream always ends. Its chunks put together are the content, none of them is
-- empty, and none is larger than the buffer.
pub chunks_of-Sends : (content : String) → Sends chunk_size content (chunks_of content)
unfolding chunks_of
chunks_of-Sends content =
    read_chunks-Sends (suc (count content)) chunk_size content (omega arith) (omega arith)
