-- ===== src/Tokenizer/Tests.antt =====
-- The tokenizer on concrete texts.
use llm_cpp.Prelude.{
  pos, ℕ, ◌≡◌, refl, ◌≢◌, List, [], ◌∷◌, ◌++◌, arith, concat, All, nat_eq, list_beq, list_eq, find,
  insert, ℤ, int_eq,
}
use llm_cpp.Tokenizer.{
  apply_merges, token_id, merge_pass, merge_at, frequencies, count_pairs, bump, max_element, cut_at,
  Tokenizer, Bytes, init, init_bytes, assign, learn, encode, decode, train, train_loop, singles,
  segment,
}
use llm_cpp.Tokenizer.Training.{segment-train}
use llm_cpp.Tokenizer.RoundTrip.{decode-encode_trained, IsRow, encode-IsRow}
use llm_cpp.Tokenizer.Stream.{stream, concat-stream}
use llm_cpp.Tokenizer.Pretokenize.{split_pretokenize}
use llm_cpp.Tokenizer.Pretokenize.Pieces.{IsPiece, split_pretokenize-IsPiece}
use llm_cpp.Tokenizer.MergesFile.{save, load, contains}
use llm_cpp.Tokenizer.MergesFile.Lines.{IsLine}
use llm_cpp.Tokenizer.MergesFile.Files.{load-save, load-save-blank}

abbrev abab : Bytes
abab = b'a' ∷ b'b' ∷ b'a' ∷ b'b' ∷ b'c' ∷ []

abbrev in_order : List (Bytes × ℕ) → List (Bytes × ℕ)
in_order entries = entries

-- Room for two merges: the pairs take one id each, and then both together.
abbrev small : Bytes
small = 1 ∷ 2 ∷ 1 ∷ 2 ∷ 4 ∷ []

abbrev small_tokenizer : Tokenizer
small_tokenizer = train in_order (init 258) small 3

encoded_small : encode small_tokenizer small ≡ pos 257 ∷ pos 4 ∷ []
unfolding encode train train_loop init segment apply_merges init_bytes assign insert list_beq
    token_id find learn merge_pass merge_at frequencies count_pairs bump max_element cut_at
encoded_small = refl

decode-encode_trained_example :
    let t = train in_order (init 300) abab 2 in decode t (encode t abab) ≡ abab
decode-encode_trained_example =
    decode-encode_trained in_order 300 abab 2 abab (omega arith)
      (omega arith, (omega arith, (omega arith, (omega arith, (omega arith, tt)))))

segment-train_example :
    segment (train in_order (init 258) small 3) small
    ≡ (train_loop in_order 3 (init 258) (singles small)).1
unfolding init init_bytes assign
segment-train_example = segment-train in_order (init 258) small 3 refl

encode-IsRow_example :
    let t = train in_order (init 258) small 3 in All (IsRow t 258) (encode t small)
encode-IsRow_example =
    encode-IsRow in_order 258 small 3 small (omega arith)
      (omega arith, (omega arith, (omega arith, (omega arith, (omega arith, tt)))))

abbrev chunks : List (List ℤ)
chunks = (pos 0xE2 ∷ []) ∷ (pos 0x82 ∷ []) ∷ (pos 0xAC ∷ pos 0x41 ∷ []) ∷ []

concat-stream_example :
    concat (stream (init 256) [] chunks).0 ++ (stream (init 256) [] chunks).1
    ≡ [] ++ decode (init 256) (concat chunks)
concat-stream_example = concat-stream (init 256) [] chunks

abbrev words : Bytes
words = b'a' ∷ 0x20 ∷ 0x20 ∷ b'b' ∷ 0x27 ∷ b's' ∷ b'1' ∷ []

split_pretokenize-IsPiece_example : All IsPiece (split_pretokenize words)
split_pretokenize-IsPiece_example = split_pretokenize-IsPiece words

abbrev two_merges : List (Bytes × Bytes)
two_merges = (b'a' ∷ [], b'b' ∷ []) ∷ (b'a' ∷ b'b' ∷ [], b'c' ∷ []) ∷ []

two_merges-IsLine : All IsLine two_merges
unfolding contains
two_merges-IsLine = (ab, (abc, tt))
  where
    ab : IsLine (b'a' ∷ [], b'b' ∷ [])
    ab = record {
      head = (b'a', [], refl, (λ e. omega arith));
      no_blank = refl;
      one_line = (refl, refl);
    }

    abc : IsLine (b'a' ∷ b'b' ∷ [], b'c' ∷ [])
    abc = record {
      head = (b'a', b'b' ∷ [], refl, (λ e. omega arith));
      no_blank = refl;
      one_line = (refl, refl);
    }

load-save_example : (load (init 300) (save two_merges)).merges ≡ (init 300).merges ++ two_merges
load-save_example = load-save (init 300) two_merges two_merges-IsLine

abbrev blank_merge : Bytes × Bytes
blank_merge = (0x20 ∷ [], b't' ∷ [])

load-save-blank_example :
    (load (init 300) (save (blank_merge ∷ []))).merges ≢ (init 300).merges ++ blank_merge ∷ []
unfolding contains
load-save-blank_example = load-save-blank (init 300) blank_merge refl refl refl
