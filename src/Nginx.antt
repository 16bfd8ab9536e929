-- ===== src/Nginx.antt =====
-- nginx's structures, with the fields that the repository's code names, and nginx's public
-- constants. nginx's functions are not here: they are arguments of the definitions that call them.
use ngx_cpp_dev.Base.{ℕ, ◌-◌, ◌==◌, Bool, true, false, ◌||◌, ◌≡◌}
use ngx_cpp_dev.Base.Int.{ℤ, pos, negsuc}

abbrev pub Ptr : Type 0
Ptr = ℕ

abbrev pub null : Ptr
null = 0

-- `!p` for a pointer and for an unsigned number.
abbrev pub is_null : ℕ → Bool
is_null p = p == 0

-- `ngx_str_t`
pub record NgxStr : Type 0 where
  pub len : ℕ
  pub data_ptr : Ptr

-- `ngx_null_string`
abbrev pub ngx_null_string : NgxStr
ngx_null_string = record { len = 0; data_ptr = null }

-- `ngx_buf_t`
pub record Buf : Type 0 where
  pub pos_ptr : Ptr
  pub last_ptr : Ptr
  pub start_ptr : Ptr
  pub end_ptr : Ptr
  pub memory : Bool
  pub temporary : Bool
  pub last_buf : Bool
  pub last_in_chain : Bool
  pub file_pos : ℕ
  pub file_last : ℕ

-- What `ngx_pcalloc` gives for a buffer: every field zero.
abbrev pub zero_buf : Buf
zero_buf = record {
  pos_ptr = null;
  last_ptr = null;
  start_ptr = null;
  end_ptr = null;
  memory = false;
  temporary = false;
  last_buf = false;
  last_in_chain = false;
  file_pos = 0;
  file_last = 0;
}

-- The macro `ngx_buf_size`, with what nginx documents of it: a buffer in memory is as long as its
-- readable range, and the flags that end a stream do not count.
pub record BufSize : Type 0 where
  pub size : Buf → ℕ
  pub size_in_memory :
      (b : Buf) → (b.memory || b.temporary) ≡ true → size b ≡ b.last_ptr - b.pos_ptr
  pub size_of_flags :
      (b : Buf) (x y : Bool) → size (record b { last_buf = x; last_in_chain = y }) ≡ size b

-- `ngx_chain_t`
pub record Link : Type 0 where
  pub buf : Ptr
  pub next : Ptr

-- `ngx_keyval_t`
pub record KeyVal : Type 0 where
  pub key : NgxStr
  pub value : NgxStr

-- `ngx_table_elt_t`
pub record TableElt : Type 0 where
  pub hash : ℕ
  pub key : NgxStr
  pub value : NgxStr

abbrev pub ngx_ok : ℤ
ngx_ok = pos 0

abbrev pub ngx_error : ℤ
ngx_error = negsuc 0

abbrev pub ngx_again : ℤ
ngx_again = negsuc 1

abbrev pub ngx_done : ℤ
ngx_done = negsuc 3

abbrev pub ngx_http_ok : ℤ
ngx_http_ok = pos 200

abbrev pub ngx_http_special_response : ℤ
ngx_http_special_response = pos 300

abbrev pub ngx_http_not_allowed : ℤ
ngx_http_not_allowed = pos 405

abbrev pub ngx_http_internal_server_error : ℤ
ngx_http_internal_server_error = pos 500
