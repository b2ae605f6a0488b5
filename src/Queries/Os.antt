-- ===== src/Queries/Os.antt =====
-- src/os.c and src/cpu_info.c
use uv_mbt.Base.{ℕ, ℤ, [], ◌∷◌}
use uv_mbt.Memory.{Ptr, M}
use uv_mbt.Queries.Shapes.{called, sized}

unfoldable pub os_uname : (uv_os_uname : Ptr → M ℤ) → (buffer : Ptr) → M ℤ
unfolding called
os_uname uv_os_uname buffer = called (uv_os_uname buffer) (buffer ∷ [])

unfoldable pub chdir : (uv_chdir : Ptr → M ℤ) → (path : Ptr) → M ℤ
unfolding called
chdir uv_chdir path = called (uv_chdir path) (path ∷ [])

unfoldable pub cpu_info : (uv_cpu_info : Ptr → Ptr → M ℤ) → (cpu_infos count : Ptr) → M ℤ
unfolding called
cpu_info uv_cpu_info cpu_infos count = called (uv_cpu_info cpu_infos count) (cpu_infos ∷ count ∷ [])

unfoldable pub exepath :
    (uv_exepath : ℕ → M (ℤ × ℕ)) → (buffer size : Ptr) → (capacity : ℕ) → M (ℤ × ℕ)
unfolding sized
exepath uv_exepath buffer size capacity = sized uv_exepath (buffer ∷ size ∷ []) capacity

unfoldable pub os_homedir :
    (uv_os_homedir : ℕ → M (ℤ × ℕ)) → (buffer size : Ptr) → (capacity : ℕ) → M (ℤ × ℕ)
unfolding sized
os_homedir uv_os_homedir buffer size capacity = sized uv_os_homedir (buffer ∷ size ∷ []) capacity

unfoldable pub os_tmpdir :
    (uv_os_tmpdir : ℕ → M (ℤ × ℕ)) → (buffer size : Ptr) → (capacity : ℕ) → M (ℤ × ℕ)
unfolding sized
os_tmpdir uv_os_tmpdir buffer size capacity = sized uv_os_tmpdir (buffer ∷ size ∷ []) capacity

unfoldable pub cwd : (uv_cwd : ℕ → M (ℤ × ℕ)) → (buffer length : Ptr) → (capacity : ℕ) → M (ℤ × ℕ)
unfolding sized
cwd uv_cwd buffer length capacity = sized uv_cwd (buffer ∷ length ∷ []) capacity

unfoldable pub os_gethostname :
    (uv_os_gethostname : ℕ → M (ℤ × ℕ)) → (name size : Ptr) → (capacity : ℕ) → M (ℤ × ℕ)
unfolding sized
os_gethostname uv_os_gethostname name size capacity =
    sized uv_os_gethostname (name ∷ size ∷ []) capacity
