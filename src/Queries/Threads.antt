-- ===== src/Queries/Threads.antt =====
-- src/key.c, barrier.c, once.c and dl.c
use uv_mbt.Base.{ℤ, [], ◌∷◌}
use uv_mbt.Memory.{Ptr, M}
use uv_mbt.Queries.Shapes.{called}

unfoldable pub key_create : (uv_key_create : Ptr → M ℤ) → (key : Ptr) → M ℤ
unfolding called
key_create uv_key_create key = called (uv_key_create key) (key ∷ [])

unfoldable pub barrier_init :
    (uv_barrier_init : Ptr → ℤ → M ℤ) → (barrier : Ptr) → (count : ℤ) → M ℤ
unfolding called
barrier_init uv_barrier_init barrier count = called (uv_barrier_init barrier count) (barrier ∷ [])

unfoldable pub barrier_wait : (uv_barrier_wait : Ptr → M ℤ) → (barrier : Ptr) → M ℤ
unfolding called
barrier_wait uv_barrier_wait barrier = called (uv_barrier_wait barrier) (barrier ∷ [])

unfoldable pub dlopen : (uv_dlopen : Ptr → Ptr → M ℤ) → (filename lib : Ptr) → M ℤ
unfolding called
dlopen uv_dlopen filename lib = called (uv_dlopen filename lib) (filename ∷ lib ∷ [])

unfoldable pub dlsym : (uv_dlsym : Ptr → Ptr → Ptr → M ℤ) → (lib name ptr : Ptr) → M ℤ
unfolding called
dlsym uv_dlsym lib name ptr = called (uv_dlsym lib name ptr) (lib ∷ name ∷ ptr ∷ [])

unfoldable pub key_get : (uv_key_get : Ptr → M Ptr) → (key : Ptr) → M Ptr
unfolding called
key_get uv_key_get key = called (uv_key_get key) (key ∷ [])

-- the value is a plain pointer
unfoldable pub key_set : (uv_key_set : Ptr → Ptr → M (Unit {0})) → (key v : Ptr) → M (Unit {0})
unfolding called
key_set uv_key_set key v = called (uv_key_set key v) (key ∷ [])

-- the error is libuv's, and may end with the object
unfoldable pub dlerror : (uv_dlerror : Ptr → M Ptr) → (lib : Ptr) → M Ptr
unfolding called
dlerror uv_dlerror lib = called (uv_dlerror lib) (lib ∷ [])

unfoldable pub once : (uv_once : Ptr → M (Unit {0})) → (once_object : Ptr) → M (Unit {0})
unfolding called
once uv_once once_object = called (uv_once once_object) (once_object ∷ [])
