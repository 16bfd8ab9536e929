-- ===== src/Tests/Lists.antt =====
-- The theorems on ngxpp/NgxList.hpp, ngxpp/NgxHeaders.hpp and ngxpp/NgxArray.hpp.
use ngx_cpp_dev.Base.{refl, ◌⊎◌, true}
use ngx_cpp_dev.Base.Int.{ℤ, pos}
use ngx_cpp_dev.HttpTest.Containers.{Trial, list}
use ngx_cpp_dev.HttpTest.Containers.Checked.{Printed, Unfilled, list-Printed}
use ngx_cpp_dev.Base.{◌≡◌, [], ◌∷◌, arith}
use ngx_cpp_dev.Base.Run.{ok}
use ngx_cpp_dev.Nginx.{TableElt}
use ngx_cpp_dev.NgxList.{NgxList, IsValid, items, merge}
use ngx_cpp_dev.NgxList.Growth.{Pushed, merge-Pushed}
use ngx_cpp_dev.Headers.{remove}
use ngx_cpp_dev.Headers.Remove.{mark_first, remove-mark_first, has-remove, StillFound}
use ngx_cpp_dev.Tests.Data.{
  str, host, agent, header_list, header_list-IsValid, same_key, push_part, push_part-PushesBack,
}

merge-Pushed_example :
    Pushed push_part header_list (host ∷ agent ∷ []) (merge 3 push_part header_list header_list)
merge-Pushed_example =
    merge-Pushed push_part 3 header_list header_list push_part-PushesBack header_list-IsValid
      header_list-IsValid (omega arith)

remove-mark_first_example :
    (l' : NgxList TableElt) × (remove same_key 3 (str 520 5) header_list ≡ ok tt l')
    × IsValid l'
    × (items l' ≡ mark_first same_key (str 520 5) (host ∷ agent ∷ []))
remove-mark_first_example =
    remove-mark_first same_key 3 (str 520 5) header_list header_list-IsValid (omega arith)

has-remove_example :
    (l' : NgxList TableElt) × (remove same_key 3 (str 520 5) header_list ≡ ok tt l')
    × StillFound same_key 3 (str 520 5) header_list l'
has-remove_example = has-remove same_key 3 (str 520 5) header_list header_list-IsValid (omega arith)

abbrev empty_list : NgxList ℤ
empty_list = record { part = record { elts = []; has_elts = true }; rest = [] }

empty_list-IsValid : IsValid empty_list
empty_list-IsValid = record { filled = tt; rest_empty = λ e. refl; first = refl }

abbrev trial : Trial (NgxList ℤ)
trial = record { container = empty_list; out = pos 1 ∷ [] }

list-Printed_example :
    Printed (pos 1 ∷ []) (list push_part 4 true empty_list trial)
    ⊎ Unfilled push_part true (pos 1 ∷ []) (list push_part 4 true empty_list trial)
list-Printed_example =
    list-Printed push_part 4 true empty_list trial push_part-PushesBack empty_list-IsValid refl
      (omega arith)
