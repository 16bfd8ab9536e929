-- ===== src/StreamDiscard/Reading.antt =====
-- How stream/discard/NdgStreamDiscardHandler.hpp reads until the client has no more for now.
use mathlib.Core.Path.{subst}
use ngx_cpp_dev.Base.{sym, ap, ◌∙◌, ℕ, zero, suc, ◌+◌, ◌<◌, ◌≡◌, Bool, true, false, refl, arith}
use ngx_cpp_dev.Base.Int.{ℤ, pos, ltb_ℤ}
use ngx_cpp_dev.Base.Run.{ok}
use ngx_cpp_dev.StreamDiscard.{Session, read_loop}

-- Marking the connection as in use changes nothing that the handler reads.
abbrev pub Spares : (Bool → Session → Session) → Type 0
Spares reusable = (b : Bool) (s : Session) → reusable b s ≡ s

-- From call `i` on the client sends `n` pieces, and then `recv` has no more.
pub record Incoming (answers : ℕ → ℤ) (i n : ℕ) : Type 0 where
  pub pieces : (j : ℕ) → j < n → ltb_ℤ (pos 0) (answers (i + j)) ≡ true
  pub last : ltb_ℤ (pos 0) (answers (i + n)) ≡ false

module _ (answers : ℕ → ℤ) (reusable : Bool → Session → Session) (spares : Spares reusable) where
  abbrev pub reads : ℕ → Session → Session
  reads n s = record s { received = s.received + n }

  Incoming-next : (i n : ℕ) → Incoming answers i (suc n) → Incoming answers (i + 1) n
  Incoming-next i n inc = record {
    pieces = λ j lt.
        subst (λ m. ltb_ℤ (pos 0) (answers m) ≡ true) (omega arith)
          (inc.pieces (suc j) (omega arith));
    last = subst (λ m. ltb_ℤ (pos 0) (answers m) ≡ false) (omega arith) inc.last;
  }

  read-stop :
      (k : ℕ) (s : Session)
      → ltb_ℤ (pos 0) (answers s.received) ≡ false
      → read_loop answers reusable (suc k) s ≡ ok (answers s.received) (reads 1 s)
  unfolding read_loop
  read-stop k s stop = rw stop refl

  read-more :
      (k : ℕ) (s : Session)
      → ltb_ℤ (pos 0) (answers s.received) ≡ true
      → read_loop answers reusable (suc k) s ≡ read_loop answers reusable k (reads 1 s)
  unfolding read_loop
  read-more k s more = rw more (ap (read_loop answers reusable k) (spares false (reads 1 s)))

  -- With a round of fuel for each piece and one more the loop returns the last answer.
  pub read_loop-last :
      (k n : ℕ) (s : Session)
      → Incoming answers s.received n
      → n < k
      → read_loop answers reusable k s ≡ ok (answers (s.received + n)) (reads (n + 1) s)
  read_loop-last zero n s inc fuel = absurd (omega arith)
  read_loop-last (suc k) zero s inc fuel =
      let here : s.received + 0 ≡ s.received = omega arith in
      read-stop k s (subst (λ m. ltb_ℤ (pos 0) (answers m) ≡ false) here inc.last)
      ∙ ap (λ m. ok (answers m) (reads 1 s)) (sym here)
  read_loop-last (suc k) (suc n) s inc fuel =
      let here : s.received + 0 ≡ s.received = omega arith in
      let there : s.received + 1 + n ≡ s.received + suc n = omega arith in
      let count : s.received + 1 + (n + 1) ≡ s.received + (suc n + 1) = omega arith in
      read-more k s
        (subst (λ m. ltb_ℤ (pos 0) (answers m) ≡ true) here (inc.pieces 0 (omega arith)))
      ∙ read_loop-last k n (reads 1 s) (Incoming-next s.received n inc) (omega arith)
      ∙ ap (λ m. ok (answers m) (reads (n + 1) (reads 1 s))) there
      ∙ ap (λ c. ok (answers (s.received + suc n)) (record s { received = c })) count
