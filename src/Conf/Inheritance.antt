-- ===== src/Conf/Inheritance.antt =====
-- What a configuration holds once nginx has merged or initialised it.
use ngx_cpp_dev.Base.{◌≡◌, ◌≢◌, false, arith}
use ngx_cpp_dev.Nginx.{Ptr, null}
use ngx_cpp_dev.Value.{word_settable, str_invalid}
use ngx_cpp_dev.Conf.Word.{word}
use ngx_cpp_dev.Conf.Discard
use ngx_cpp_dev.Conf.Shmem
use ngx_cpp_dev.Conf.Subrequest

-- After merging or initialising, whatever was set before, the timeout of a discard server, the size
-- of the shared memory and the location of a subrequest are set; the default location's literal is
-- not at the null address.
pub settings_set :
    (timeout timeout' : Discard.NdgStreamDiscardConf) (size : Shmem.NdgShmemConf)
    (loc loc' : Subrequest.NdgSubrequestConf) (echo_path : Ptr)
    → echo_path ≢ null
    → (word.invalid (Discard.merge_conf timeout timeout').timeout ≡ false)
      × (word.invalid (Shmem.init_conf size).size ≡ false)
      × (str_invalid (Subrequest.merge_conf echo_path loc loc').loc ≡ false)
unfolding Discard.merge_conf Shmem.init_conf Subrequest.merge_conf word_settable
settings_set timeout timeout' size loc loc' echo_path h = (ground arith, ground arith, ground arith)
