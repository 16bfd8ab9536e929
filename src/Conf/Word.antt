-- ===== src/Conf/Word.antt =====
-- The unsigned words of a configuration: `ngx_msec_t` and `size_t` have 64 bits.
use ngx_cpp_dev.Base.{ℕ}
use ngx_cpp_dev.Value.{Settable, word_settable}

abbrev pub word : Settable ℕ
unfolding word_settable
word = word_settable 64
