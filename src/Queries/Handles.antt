-- ===== src/Queries/Handles.antt =====
-- src/req.c, src/tty.c, and the questions of src/handle.c, fs.c and fs_poll.c
use uv_mbt.Base.{ℕ, ℤ, [], ◌∷◌}
use uv_mbt.Memory.{Ptr, M, ◌>>=◌, ◌>>◌, pure, decref, make}
use uv_mbt.Queries.Shapes.{called, sized, value}

unfoldable pub cancel : (uv_cancel : Ptr → M ℤ) → (req : Ptr) → M ℤ
unfolding called
cancel uv_cancel req = called (uv_cancel req) (req ∷ [])

unfoldable pub req_get_type : (uv_req_get_type : Ptr → M ℤ) → (req : Ptr) → M ℤ
unfolding called
req_get_type uv_req_get_type req = called (uv_req_get_type req) (req ∷ [])

unfoldable pub send_buffer_size :
    (uv_send_buffer_size : Ptr → Ptr → M ℤ) → (handle size : Ptr) → M ℤ
unfolding called
send_buffer_size uv_send_buffer_size handle size =
    called (uv_send_buffer_size handle size) (handle ∷ size ∷ [])

unfoldable pub recv_buffer_size :
    (uv_recv_buffer_size : Ptr → Ptr → M ℤ) → (handle size : Ptr) → M ℤ
unfolding called
recv_buffer_size uv_recv_buffer_size handle size =
    called (uv_recv_buffer_size handle size) (handle ∷ size ∷ [])

-- libuv answers a number and a descriptor, which is stored in `sock` whatever the number is
unfoldable pub handle_os_sock : (uv_fileno : Ptr → M (ℤ × ℤ)) → (handle sock : Ptr) → M (ℤ × ℤ)
unfolding called
handle_os_sock uv_fileno handle sock = called (uv_fileno handle) (handle ∷ sock ∷ [])

unfoldable pub fs_scandir_next : (uv_fs_scandir_next : Ptr → M ℤ) → (fs : Ptr) → M ℤ
unfolding called
fs_scandir_next uv_fs_scandir_next fs = called (uv_fs_scandir_next fs) (fs ∷ [])

unfoldable pub tty_init : (uv_tty_init : Ptr → Ptr → ℤ → M ℤ) → (l handle : Ptr) → (fd : ℤ) → M ℤ
unfolding called
tty_init uv_tty_init l handle fd = called (uv_tty_init l handle fd) (l ∷ handle ∷ [])

unfoldable pub tty_set_mode : (uv_tty_set_mode : Ptr → ℤ → M ℤ) → (handle : Ptr) → (mode : ℤ) → M ℤ
unfolding called
tty_set_mode uv_tty_set_mode handle mode = called (uv_tty_set_mode handle mode) (handle ∷ [])

unfoldable pub tty_get_winsize :
    (uv_tty_get_winsize : Ptr → Ptr → Ptr → M ℤ) → (handle width height : Ptr) → M ℤ
unfolding called
tty_get_winsize uv_tty_get_winsize handle width height =
    called (uv_tty_get_winsize handle width height) (handle ∷ width ∷ height ∷ [])

unfoldable pub fs_poll_getpath :
    (uv_fs_poll_getpath : ℕ → M (ℤ × ℕ)) → (handle buffer length : Ptr) → (capacity : ℕ) → M (ℤ × ℕ)
unfolding sized
fs_poll_getpath uv_fs_poll_getpath handle buffer length capacity =
    sized uv_fs_poll_getpath (handle ∷ buffer ∷ length ∷ []) capacity

-- `fs->fs.ptr`, which is libuv's
unfoldable pub fs_get_ptr : (p : Ptr) → (fs : Ptr) → M Ptr
unfolding value
fs_get_ptr p fs = value p fs

-- `fresh` is the address of a new object, into which libuv's struct is copied
unfoldable pub fs_get_statbuf : (fresh : Ptr) → (fs : Ptr) → M Ptr
fs_get_statbuf fresh fs = do statbuf ← make fresh []; decref fs; pure statbuf

unfoldable pub fs_get_statfs : (fresh : Ptr) → (fs : Ptr) → M Ptr
fs_get_statfs fresh fs = do statfs ← make fresh []; decref fs; pure statfs
