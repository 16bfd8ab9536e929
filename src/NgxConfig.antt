-- ===== src/NgxConfig.antt =====
-- ngxpp/NgxConfig.hpp: the bits that say how many arguments a command takes.
pub mod Arguments
use Prim.Native.Nat.{bit_or}
use ngx_cpp_dev.Base.{
  ℕ, zero, suc, ◌-◌, ◌+◌, Option, none, some, Bool, ◌||◌, ltb, leb, ◌==◌, if◌then◌else◌, List, [],
  ◌∷◌, get_elem?,
}
use ngx_cpp_dev.Base.Int.{ℤ, pos, pos_part, ltb_ℤ, eqb_ℤ}

-- nginx's `NGX_CONF_NOARGS`, `NGX_CONF_TAKE1` and so on to `NGX_CONF_TAKE7`, the array `takes`.
abbrev pub takes : List ℕ
takes = 1 ∷ 2 ∷ 4 ∷ 8 ∷ 16 ∷ 32 ∷ 64 ∷ 128 ∷ []

-- `NGX_CONF_MAX_ARGS`, `NGX_CONF_1MORE` and `NGX_CONF_2MORE`
abbrev pub max_args : ℕ
max_args = 8

abbrev pub one_more : ℕ
one_more = 2048

abbrev pub two_more : ℕ
two_more = 4096

-- `takes[i]`: a read out of the array has no value.
abbrev pub take_at : ℤ → Option ℕ
take_at i = if ltb_ℤ i (pos 0) then none else get_elem? takes (pos_part i)

-- The loop that joins `count` entries from index `i` on into `tmp`.
unfoldable pub join_takes : (count i tmp : ℕ) → Option ℕ
join_takes zero i tmp = some tmp
join_takes (suc count) i tmp =
    let rest = join_takes count (i + 1) in
    elim (get_elem? takes i) [ none ↦ none | some bits ↦ rest (bit_or tmp bits) ]

-- `take(m, n)`
unfoldable pub take : (m n : ℤ) → Option ℕ
unfolding join_takes
take m n =
    if ltb_ℤ n (pos 0) || ltb_ℤ n m
    then take_at m
    else if leb max_args (pos_part n)
    then some (if eqb_ℤ m (pos 1) then one_more else two_more)
    else if ltb_ℤ m (pos 0)
    then none
    else join_takes (pos_part n + 1 - pos_part m) (pos_part m) 0

-- `NgxTake(conf, m, n)`, as the number it converts to.
unfoldable pub ngx_take : (conf : ℕ) → (m n : ℤ) → Option ℕ
unfolding take
ngx_take conf m n = elim (take m n) [ none ↦ none | some bits ↦ some (bit_or conf bits) ]
