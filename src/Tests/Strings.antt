-- ===== src/Tests/Strings.antt =====
-- The theorem on the comparison of ngxpp/NgxString.hpp, in a memory where every byte tells its address.
use ngx_cpp_dev.Base.{
  ℕ, ◌+◌, ◌%◌, ◌≡◌, ◌↔◌, refl, Bool, true, false, ◌&&◌, ◌==◌, List, [], ◌∷◌, arith, if◌then◌else◌,
}
use ngx_cpp_dev.Base.Int.{ℤ, pos}
use ngx_cpp_dev.Nginx.{Ptr}
use ngx_cpp_dev.NgxString.Bytes.{str_equal, text_from, ComparesText, contents, str_equal-contents}
use ngx_cpp_dev.Tests.Data.{str}

abbrev bytes_at : Ptr → ℕ
bytes_at p = 97 + p % 10

abbrev same_list : List ℕ → List ℕ → Bool
same_list [] [] = true
same_list [] (y ∷ ys) = false
same_list (x ∷ xs) [] = false
same_list (x ∷ xs) (y ∷ ys) = x == y && same_list xs ys

same_list-eq : (xs ys : List ℕ) → same_list xs ys ≡ true → xs ≡ ys
same_list-eq [] [] h = refl
same_list-eq [] (y ∷ ys) h = cc
same_list-eq (x ∷ xs) [] h = cc
same_list-eq (x ∷ xs) (y ∷ ys) h = ground (arith, same_list-eq xs ys)

same_list_refl : (xs : List ℕ) → same_list xs xs ≡ true
same_list_refl [] = refl
same_list_refl (x ∷ xs) = ground (arith, same_list_refl xs)

abbrev strncmp : Ptr → Ptr → ℕ → ℤ
strncmp p q n = if same_list (text_from bytes_at p n) (text_from bytes_at q n) then pos 0 else pos 1

strncmp-ComparesText : ComparesText bytes_at strncmp
strncmp-ComparesText p q n = (
  λ e. same_list-eq _ _ (ground arith),
  λ e. rw (e, same_list_refl (text_from bytes_at q n)) refl,
)

str_equal-contents_example :
    (str_equal strncmp (str 600 3) (str 610 3) ≡ true)
    ↔ (contents bytes_at (str 600 3) ≡ contents bytes_at (str 610 3))
str_equal-contents_example =
    str_equal-contents bytes_at strncmp (str 600 3) (str 610 3) strncmp-ComparesText
      (refl, (refl, (refl, tt))) (refl, (refl, (refl, tt)))
