-- ===== src/Tests/Data.antt =====
-- Small inputs for the examples: a chain of two nodes in memory, and two headers.
use mathlib.Core.Path.{subst}
use ngx_cpp_dev.Base.{
  length-eq-zero, length, ◌≡◌, inr, inl, ap, ◌∙◌, sym, append_assoc, Bool-cases, List, Bool, ℕ, ◌-◌,
  ◌==◌, refl, true, if◌then◌else◌, none, some, [], ◌∷◌, ◌++◌, Option, arith,
}
use ngx_cpp_dev.Nginx.{is_null, null, NgxStr, Buf, zero_buf, BufSize, TableElt}
use ngx_cpp_dev.Memory.{Memory}
use ngx_cpp_dev.Memory.Chains.{Cell, Holds, end, node}
use ngx_cpp_dev.NgxList.{items, Filled, items_of, Part, PushesBack, NgxList, IsValid}

-- A buffer in memory is as long as its readable range.
abbrev pub plain : BufSize
plain = record {
  size = λ b. b.last_ptr - b.pos_ptr;
  size_in_memory = λ b e. refl;
  size_of_flags = λ b x y. refl;
}

abbrev pub first_buf : Buf
first_buf = record zero_buf {
  pos_ptr = 1000;
  last_ptr = 1003;
  start_ptr = 1000;
  end_ptr = 1008;
  memory = true;
}

abbrev pub last_buf_of_body : Buf
last_buf_of_body = record zero_buf {
  pos_ptr = 2000;
  last_ptr = 2004;
  start_ptr = 2000;
  end_ptr = 2004;
  memory = true;
  last_buf = true;
  last_in_chain = true;
}

abbrev pub first_cell : Cell
first_cell = record { node_at = 100; buf_at = 10; buf = first_buf }

abbrev pub last_cell : Cell
last_cell = record { node_at = 200; buf_at = 20; buf = last_buf_of_body }

abbrev pub lone_cell : Cell
lone_cell = record { node_at = 300; buf_at = 30; buf = first_buf }

-- Nodes 100 and 200 are a chain, and so is node 300.
abbrev pub memory : Memory
memory = record {
  links = λ a.
      if a == 100
      then some (record { buf = 10; next = 200 })
      else if a == 200
      then some (record { buf = 20; next = null })
      else if a == 300
      then some (record { buf = 30; next = null })
      else none;
  bufs = λ a.
      if a == 10
      then some first_buf
      else if a == 20
      then some last_buf_of_body
      else if a == 30
      then some first_buf
      else none;
}

pub body-Holds : Holds memory 100 (first_cell ∷ last_cell ∷ [])
body-Holds =
    node (record { node_ne_null = omega arith; buf_ne_null = omega arith; link = refl; buf = refl })
      (node
        (record { node_ne_null = omega arith; buf_ne_null = omega arith; link = refl; buf = refl })
        end)

pub lone-Holds : Holds memory 300 (lone_cell ∷ [])
lone-Holds =
    node (record { node_ne_null = omega arith; buf_ne_null = omega arith; link = refl; buf = refl })
      end

abbrev pub str : ℕ → ℕ → NgxStr
str p n = record { len = n; data_ptr = p }

abbrev pub host : TableElt
host = record { hash = 1; key = str 500 4; value = str 510 3 }

abbrev pub agent : TableElt
agent = record { hash = 1; key = str 520 5; value = str 530 2 }

-- A list of two parts.
abbrev pub header_list : NgxList TableElt
header_list = record {
  part = record { elts = host ∷ []; has_elts = true };
  rest = record { elts = agent ∷ []; has_elts = true } ∷ [];
}

pub header_list-IsValid : IsValid header_list
header_list-IsValid = record { first = refl; rest_empty = ground arith; filled = (refl, refl, tt) }

-- Keys are equal when they lie at one address.
abbrev pub same_key : NgxStr → NgxStr → Bool
same_key a b = a.data_ptr == b.data_ptr

abbrev pub pushed : {A : Type 0} → A → NgxList A → NgxList A
pushed x l =
    if is_null (length l.part.elts)
    then record { part = record { elts = x ∷ []; has_elts = true }; rest = [] }
    else record l { rest = l.rest ++ record { elts = x ∷ []; has_elts = true } ∷ [] }

-- A push that gives every element but the first a part of its own, behind the others.
abbrev pub push_part : {A : Type 0} → A → NgxList A → Option (NgxList A)
push_part x l = some (pushed x l)

module _ {A : Type 0} (x : A) where
  Filled-snoc :
      (ps : List (Part A))
      → Filled ps
      → Filled (ps ++ record { elts = x ∷ []; has_elts = true } ∷ [])
  Filled-snoc [] f = (refl, refl, tt)
  Filled-snoc (p ∷ ps) f = (f.0, f.1, Filled-snoc ps f.2)

  items_of-snoc :
      (ps : List (Part A))
      → items_of (ps ++ record { elts = x ∷ []; has_elts = true } ∷ []) ≡ items_of ps ++ x ∷ []
  items_of-snoc [] = refl
  items_of-snoc (p ∷ ps) =
      ap (λ xs. p.elts ++ xs) (items_of-snoc ps) ∙ sym (append_assoc p.elts (items_of ps) (x ∷ []))

pushed-back :
    {A : Type 0} (x : A) (l : NgxList A)
    → IsValid l
    → IsValid (pushed x l) × (items (pushed x l) ≡ items l ++ x ∷ [])
pushed-back x l v = elim (Bool-cases (is_null (length l.part.elts))) [
  | inl bare ↦
      let hollow = length-eq-zero l.part.elts bare in
      let alone = v.rest_empty bare in
      rw (bare, hollow, alone)
        (record { first = refl; rest_empty = ground arith; filled = tt }, refl)
  | inr some_elts ↦
      let back = items_of-snoc x l.rest in
      rw some_elts (
        record {
          first = v.first;
          rest_empty = ground arith;
          filled = Filled-snoc x l.rest v.filled;
        },
        ap (λ xs. l.part.elts ++ xs) back
            ∙ sym (append_assoc l.part.elts (items_of l.rest) (x ∷ [])),
      )
]

pub push_part-PushesBack : {A : Type 0} → PushesBack (push_part {A = A})
push_part-PushesBack x l l' v e =
    subst (λ r. IsValid r × (items r ≡ items l ++ x ∷ [])) (cc) (pushed-back x l v)
