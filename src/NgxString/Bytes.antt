-- ===== src/NgxString/Bytes.antt =====
-- The members of ngxpp/NgxString.hpp that read the bytes of a string. `bytes_at` is the memory.
use ngx_cpp_dev.Base.{
  ℕ, zero, suc, ◌+◌, ◌-◌, ◌%◌, ◌^◌, ◌≡◌, ◌↔◌, refl, sym, ap, ◌∙◌, Bool, true, false, ◌&&◌, ◌==◌,
  List, [], ◌∷◌, All, arith, if◌then◌else◌, length,
}
use ngx_cpp_dev.Base.Int.{ℤ, pos, eqb_ℤ}
use ngx_cpp_dev.Nginx.{Ptr, NgxStr}

-- `begin()` and `end()`
unfoldable pub begin : NgxStr → Ptr
begin s = s.data_ptr

unfoldable pub end : NgxStr → Ptr
end s = (s.data_ptr + s.len) % 2 ^ 64

-- `front()` and `back()`, as the addresses that they refer to.
unfoldable pub front : NgxStr → Ptr
unfolding begin
front s = begin s

unfoldable pub back : NgxStr → Ptr
unfolding end
back s = (end s + 2 ^ 64 - 1) % 2 ^ 64

-- The conversion to a number; `ngx_atoi` is nginx's, and negative for what is none.
unfoldable pub to_int : (ngx_atoi : Ptr → ℕ → ℤ) → NgxStr → ℤ
to_int ngx_atoi s = ngx_atoi s.data_ptr s.len

-- `operator==`; `ngx_strncmp` is C's `strncmp`.
unfoldable pub str_equal : (ngx_strncmp : Ptr → Ptr → ℕ → ℤ) → NgxStr → NgxStr → Bool
str_equal ngx_strncmp l r =
    l.len == r.len && eqb_ℤ (ngx_strncmp l.data_ptr r.data_ptr l.len) (pos 0)

module _ (bytes_at : Ptr → ℕ) where
  -- The `n` bytes from `p` on.
  abbrev pub bytes_from : Ptr → ℕ → List ℕ
  bytes_from p zero = []
  bytes_from p (suc n) = bytes_at p ∷ bytes_from (suc p) n

  -- The bytes from `p` on that come before a zero byte, `n` at most.
  abbrev pub text_from : Ptr → ℕ → List ℕ
  text_from p zero = []
  text_from p (suc n) = if bytes_at p == 0 then [] else bytes_at p ∷ text_from (suc p) n

  -- C's `strncmp` compares what comes before a zero byte.
  abbrev pub ComparesText : (Ptr → Ptr → ℕ → ℤ) → Type 0
  ComparesText ngx_strncmp =
      (p q : Ptr) (n : ℕ)
      → (eqb_ℤ (ngx_strncmp p q n) (pos 0) ≡ true) ↔ (text_from p n ≡ text_from q n)

  abbrev pub contents : NgxStr → List ℕ
  contents s = bytes_from s.data_ptr s.len

  -- No byte of the string is zero.
  abbrev pub HasNoZero : NgxStr → Type 0
  HasNoZero s = All (λ b. (b == 0) ≡ false) (contents s)

  text-bytes :
      (p : Ptr) (n : ℕ)
      → All (λ b. (b == 0) ≡ false) (bytes_from p n)
      → text_from p n ≡ bytes_from p n
  text-bytes p zero h = refl
  text-bytes p (suc n) (here, rest) =
      rw here (ap (λ xs. bytes_at p ∷ xs) (text-bytes (suc p) n rest))

  length-bytes : (p : Ptr) (n : ℕ) → length (bytes_from p n) ≡ n
  length-bytes p zero = refl
  length-bytes p (suc n) = ap suc (length-bytes (suc p) n)

  -- Two strings of one length that agree up to a zero byte compare as equal, whatever comes behind.
  pub str_equal-zero :
      (ngx_strncmp : Ptr → Ptr → ℕ → ℤ) (l r : NgxStr)
      → ComparesText ngx_strncmp
      → l.len ≡ r.len
      → text_from l.data_ptr l.len ≡ text_from r.data_ptr r.len
      → str_equal ngx_strncmp l r ≡ true
  unfolding str_equal
  str_equal-zero ngx_strncmp l r law same text =
      let compared =
        (law l.data_ptr r.data_ptr l.len).1 (text ∙ ap (text_from r.data_ptr) (sym same)) in
      ground (arith, same, compared)

  str_equal-parts :
      (ngx_strncmp : Ptr → Ptr → ℕ → ℤ) (l r : NgxStr)
      → ComparesText ngx_strncmp
      → str_equal ngx_strncmp l r ≡ true
      → (l.len ≡ r.len) × (text_from l.data_ptr l.len ≡ text_from r.data_ptr r.len)
  unfolding str_equal
  str_equal-parts ngx_strncmp l r law e =
      let same : l.len ≡ r.len = ground arith in
      let compared : eqb_ℤ (ngx_strncmp l.data_ptr r.data_ptr l.len) (pos 0) ≡ true =
        ground arith in
      (same, (law l.data_ptr r.data_ptr l.len).0 compared ∙ ap (text_from r.data_ptr) same)

  -- Two strings with no zero byte compare as equal exactly if they have the same bytes.
  -- `ngx_strncmp` compares what comes before a zero byte.
  pub str_equal-contents :
      (ngx_strncmp : Ptr → Ptr → ℕ → ℤ) (l r : NgxStr)
      → ComparesText ngx_strncmp
      → HasNoZero l
      → HasNoZero r
      → (str_equal ngx_strncmp l r ≡ true) ↔ (contents l ≡ contents r)
  str_equal-contents ngx_strncmp l r law hl hr = (
    λ e.
        let (same, text) = str_equal-parts ngx_strncmp l r law e in
        sym (text-bytes l.data_ptr l.len hl) ∙ text ∙ text-bytes r.data_ptr r.len hr,
    λ e.
        str_equal-zero ngx_strncmp l r law
          (sym (length-bytes l.data_ptr l.len) ∙ ap length e ∙ length-bytes r.data_ptr r.len)
          (text-bytes l.data_ptr l.len hl ∙ e ∙ sym (text-bytes r.data_ptr r.len hr)),
  )
