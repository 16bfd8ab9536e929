-- ===== src/Directives/Accepted.antt =====
-- How many arguments nginx lets the commands of the modules through with.
use Prim.Native.Nat.{bit_or, bit_and}
use ngx_cpp_dev.Base.{ℕ, ◌<◌, ◌≡◌, refl, ◌^◌, not, some, All, ◌==◌, arith, ◌∙◌, ap}
use ngx_cpp_dev.NgxConfig.{take, ngx_take}
use ngx_cpp_dev.NgxConfig.Arguments.{accepts, all_below, all_below-at, agree, agree-eq}
use ngx_cpp_dev.Directives.{
  Places, Setter, set_keyval_slot, set_load_balance, set_discard, set_time,
}
use ngx_cpp_dev.Directives.Tables.{
  NdgModule, module_of, echo, filter, test, variables, legacy_echo, legacy_footer, load_balance,
  shmem, subrequest, upstream, data_hook, discard, time,
}

-- How many arguments a setter reads.
abbrev pub arity : Setter → ℕ
arity set_keyval_slot = 2
arity set_load_balance = 0
arity set_discard = 0
arity set_time = 0
arity s = 1

-- nginx keeps the number of arguments in the low bits, which this number has none of.
abbrev pub SparesLow : ℕ → Type 0
SparesLow p =
    (bits k : ℕ) → bits < 256 → k < 8 → bit_and (bit_or p bits) (2 ^ k) ≡ bit_and bits (2 ^ k)

-- The numbers of places that the tables join to the number of arguments.
pub record SparesArguments (at : Places) : Type 0 where
  pub http_main : SparesLow at.http_main
  pub http_loc : SparesLow at.http_loc
  pub http_ups : SparesLow at.http_ups
  pub stream_srv : SparesLow at.stream_srv
  pub srv_loc : SparesLow (bit_or at.http_srv at.http_loc)
  pub srv_loc_flag : SparesLow (bit_or (bit_or at.http_srv at.http_loc) at.conf_flag)

takes_bit : (n k : ℕ) → n < 3 → k < 8 → accepts (some (2 ^ n)) k ≡ (k == n)
takes_bit n k n3 k8 = agree-eq (accepts (some (2 ^ n)) k) (k == n) (
    all_below-at 8 (λ k. agree (accepts (some (2 ^ n)) k) (k == n))
      (all_below-at 3 (λ n. all_below 8 λ k. agree (accepts (some (2 ^ n)) k) (k == n)) refl n n3) k
      k8)

accepts-place :
    (p bits k : ℕ)
    → SparesLow p
    → bits < 256
    → k < 8
    → accepts (some (bit_or p bits)) k ≡ accepts (some bits) k
accepts-place p bits k spares b8 k8 = ap (λ (x : ℕ). not (x == 0)) (spares bits k b8 k8)

one : (p k : ℕ) → SparesLow p → k < 8 → accepts (some (bit_or p 2)) k ≡ (k == 1)
one p k spares k8 = accepts-place p 2 k spares (omega arith) k8 ∙ takes_bit 1 k (omega arith) k8

two : (p k : ℕ) → SparesLow p → k < 8 → accepts (some (bit_or p 4)) k ≡ (k == 2)
two p k spares k8 = accepts-place p 4 k spares (omega arith) k8 ∙ takes_bit 2 k (omega arith) k8

none_at_all : (p k : ℕ) → SparesLow p → k < 8 → accepts (some (bit_or p 1)) k ≡ (k == 0)
none_at_all p k spares k8 =
    accepts-place p 1 k spares (omega arith) k8 ∙ takes_bit 0 k (omega arith) k8

-- nginx lets every command of the repository through with as many arguments as its setter reads, and
-- with no other number of them below eight. nginx's numbers for the places spare the low bits.
pub module_of-accepts :
    (at : Places) (m : NdgModule) (k : ℕ)
    → SparesArguments at
    → k < 8
    → All (λ c. accepts c.type k ≡ (k == arity c.setter)) (module_of at m).cmds
unfolding ngx_take take
module_of-accepts at echo k h k8 = (one at.http_loc k h.http_loc k8, tt)
module_of-accepts at filter k h k8 =
    (two at.http_loc k h.http_loc k8, (one at.http_loc k h.http_loc k8, tt))
module_of-accepts at test k h k8 =
    (one (bit_or (bit_or at.http_srv at.http_loc) at.conf_flag) k h.srv_loc_flag k8, tt)
module_of-accepts at variables k h k8 = tt
module_of-accepts at legacy_echo k h k8 = (one at.http_loc k h.http_loc k8, tt)
module_of-accepts at legacy_footer k h k8 =
    (two at.http_loc k h.http_loc k8, (one at.http_loc k h.http_loc k8, tt))
module_of-accepts at load_balance k h k8 = (none_at_all at.http_ups k h.http_ups k8, tt)
module_of-accepts at shmem k h k8 = (one at.http_main k h.http_main k8, tt)
module_of-accepts at subrequest k h k8 =
    (one at.http_loc k h.http_loc k8, (one (bit_or at.http_srv at.http_loc) k h.srv_loc k8, tt))
module_of-accepts at upstream k h k8 = (one at.http_loc k h.http_loc k8, tt)
module_of-accepts at data_hook k h k8 = tt
module_of-accepts at discard k h k8 =
    (one at.stream_srv k h.stream_srv k8, (none_at_all at.stream_srv k h.stream_srv k8, tt))
module_of-accepts at time k h k8 = (none_at_all at.stream_srv k h.stream_srv k8, tt)
