-- ===== src/Tests/Digests.antt =====
-- The theorem on ngxpp/NgxDigest.hpp, with a digest that keeps its input and hashes it to its length.
use ngx_cpp_dev.Base.{ℕ, ◌+◌, ◌≡◌, refl, ap, List, [], ◌∷◌, ◌++◌, length, map}
use ngx_cpp_dev.NgxDigest.{Meta, Digest, call}
use ngx_cpp_dev.NgxDigest.Streaming.{Computes, Answers, streamed, streamed-call}

abbrev counting : Meta (List ℕ)
counting = record {
  len = 1;
  init_func = λ c. [];
  update_func = λ c bytes. c ++ bytes;
  final_func = λ c. (length c ∷ [], c);
}

abbrev hash : List ℕ → List ℕ
hash bytes = length bytes ∷ []

abbrev Kept : List ℕ → List ℕ → Type 0
Kept c bytes = c ≡ bytes

counting-Computes : Computes counting hash Kept
counting-Computes = record {
  starts = λ c. refl;
  absorbs = λ c bytes more e. ap (λ x. x ++ more) e;
  writes = λ c bytes e. ap hash e;
}

abbrev hex_dump : List ℕ → List ℕ
hex_dump = map (λ byte. byte + 48)

-- Two digests, one of which was used before.
abbrev unused : Digest (List ℕ)
unused = record { m_ctx = []; m_buf = []; m_hex = [] }

abbrev used : Digest (List ℕ)
used = record { m_ctx = 7 ∷ []; m_buf = 1 ∷ []; m_hex = 49 ∷ [] }

streamed-call_example :
    Answers counting hex_dump 4000
      (51 ∷ [])
      (streamed counting hex_dump 4000 ((1 ∷ 2 ∷ []) ∷ (3 ∷ []) ∷ []))
      used
    × Answers counting hex_dump 4000 (51 ∷ []) (call counting hex_dump 4000 (1 ∷ 2 ∷ 3 ∷ [])) unused
streamed-call_example =
    streamed-call counting hash Kept counting-Computes hex_dump 4000 ((1 ∷ 2 ∷ []) ∷ (3 ∷ []) ∷ [])
      used unused
