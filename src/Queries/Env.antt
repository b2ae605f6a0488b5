-- ===== src/Queries/Env.antt =====
-- src/env.c
pub mod Freed
use uv_mbt.Base.{
  ℕ, ℤ, pos, negsuc, ◌+◌, ◌%◌, ◌^◌, ◌*◌, ◌==◌, ltb, Bool, true, false, if◌then◌else◌, Option, none,
  some, List, [], ◌∷◌, zero, suc,
}
use uv_mbt.Memory.{Ptr, null, State, M, ◌>>=◌, ◌>>◌, pure, decref, make}
use uv_mbt.Queries.Shapes.{called, sized, value}

unfoldable pub os_setenv : (uv_os_setenv : Ptr → Ptr → M ℤ) → (name value : Ptr) → M ℤ
unfolding called
os_setenv uv_os_setenv name value = called (uv_os_setenv name value) (name ∷ value ∷ [])

unfoldable pub os_unsetenv : (uv_os_unsetenv : Ptr → M ℤ) → (name : Ptr) → M ℤ
unfolding called
os_unsetenv uv_os_unsetenv name = called (uv_os_unsetenv name) (name ∷ [])

unfoldable pub os_getenv :
    (uv_os_getenv : ℕ → M (ℤ × ℕ)) → (name bytes size : Ptr) → (capacity : ℕ) → M (ℤ × ℕ)
unfolding sized
os_getenv uv_os_getenv name bytes size capacity =
    sized uv_os_getenv (name ∷ bytes ∷ size ∷ []) capacity

-- `items` and `count` of the object; the array is libuv's, NULL where there is none
pub record Environ : Type 0 where
  pub items : Ptr
  pub count : ℤ

unfoldable pub environ_make : Environ
environ_make = record { items = null; count = pos 0 }

-- the object after it, and what `uv_os_free_environ` was given
unfoldable pub environ_finalize : Environ → Environ × List Ptr
environ_finalize env =
    if env.items == null then (env, []) else (record env { items = null }, env.items ∷ [])

-- the first half of `os_environ`: an array that is there already is freed
unfoldable pub environ_reset : Environ → Environ × List Ptr
unfolding environ_finalize
environ_reset env = if env.items == null then (env, []) else environ_finalize env

-- `uv_os_environ` answers a number and fills in the array and its length
unfoldable pub os_environ :
    (uv_os_environ : M (ℤ × Ptr × ℤ)) → (e : Environ) → (env : Ptr) → M (ℤ × Environ × List Ptr)
unfolding environ_reset
os_environ uv_os_environ e env = do
  (status, items, count) ← uv_os_environ
  decref env
  pure (status, record { items = items; count = count }, (environ_reset e).1)
