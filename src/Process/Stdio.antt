-- ===== src/Process/Stdio.antt =====
-- src/process.c: the containers of stdio, the array of the options that takes over what they hold,
-- and the end of the options.
pub mod Containers
use uv_mbt.Base.{
  ℕ, ◌+◌, ◌/◌, ◌%◌, Bool, true, false, ◌||◌, ◌==◌, if◌then◌else◌, some, List, [], ◌∷◌,
}
use uv_mbt.Memory.{
  Ptr, null, exit_cb, file, args, env, cwd, stream, M, ◌>>=◌, ◌>>◌, pure, get, put, decref, make,
  discard,
}
use uv_mbt.Memory.Idioms.{clear}

-- `uv_stdio_container_t`, in an object of its own or in the array of the options: where it stands,
-- and its flags. Its field `stream` is a union of a stream and the number of a file.
pub record Container : Type 0 where
  pub address : Ptr
  pub flags : ℕ

-- libuv's values
abbrev pub uv_create_pipe : ℕ
uv_create_pipe = 1

abbrev pub uv_inherit_fd : ℕ
uv_inherit_fd = 2

abbrev pub uv_inherit_stream : ℕ
uv_inherit_stream = 4

unfoldable pub stdio_container_finalize : Ptr → M (Unit {0})
stdio_container_finalize container = clear container stream

-- `fresh` is the address of the new object, here and below
unfoldable pub stdio_container_make : (fresh : Ptr) → M Ptr
stdio_container_make fresh = make fresh (stream ∷ [])

unfoldable pub stdio_container_ignore : (fresh : Ptr) → M Container
unfolding stdio_container_make
stdio_container_ignore fresh = do
  container ← stdio_container_make fresh
  pure (record { address = container; flags = 0 })

-- the flags of the pipe: each is a bit of its own, so that `|=` adds it
unfoldable pub pipe_flags : (readable writable non_block : Bool) → ℕ
pipe_flags readable writable non_block =
    uv_create_pipe
    + (if readable then 16 else 0)
    + (if writable then 32 else 0)
    + (if non_block then 64 else 0)

unfoldable pub stdio_container_create_pipe :
    (fresh pipe : Ptr) → (readable writable non_block : Bool) → M Container
unfolding stdio_container_make
stdio_container_create_pipe fresh pipe readable writable non_block = do
  container ← stdio_container_make fresh
  put container stream pipe
  pure (record { address = container; flags = pipe_flags readable writable non_block })

-- the number of the file stands where a stream would
unfoldable pub stdio_container_inherit_fd : (fresh : Ptr) → (fd : ℕ) → M Container
unfolding stdio_container_make
stdio_container_inherit_fd fresh fd = do
  container ← stdio_container_make fresh
  put container stream fd
  pure (record { address = container; flags = uv_inherit_fd })

unfoldable pub stdio_container_inherit_stream : (fresh inherited : Ptr) → M Container
unfolding stdio_container_make
stdio_container_inherit_stream fresh inherited = do
  container ← stdio_container_make fresh
  put container stream inherited
  pure (record { address = container; flags = uv_inherit_stream })

-- `flags & (UV_INHERIT_STREAM | UV_CREATE_PIPE)`
unfoldable pub has_stream : ℕ → Bool
has_stream flags = flags % 2 == 1 || flags / 4 % 2 == 1

-- an element of a new C array, with what it holds
unfoldable pub place : (slot v : Ptr) → M (Unit {0})
place slot v s =
    some (tt, record s { cells = record { object = slot; field = stream; value = v } ∷ s.cells })

-- `stdio[i] = container; memset(&container, 0, ...)`, for each; every container comes with the place
-- of its element in the new array
unfoldable pub move_containers : List (Ptr × Container) → M (List Container)
unfolding place
move_containers [] = pure []
move_containers ((slot, c) ∷ rest) = do
  v ← get c.address stream
  place slot v
  put c.address stream null
  moved ← move_containers rest
  pure (record { address = slot; flags = c.flags } ∷ moved)

-- `free` of the array, which releases nothing
unfoldable pub free_stdio : List Container → M (Unit {0})
free_stdio [] = pure tt
free_stdio (c ∷ cs) = discard c.address >> free_stdio cs

-- `old` is the array of the options, and the result is the new one
unfoldable pub process_options_set_stdio :
    (old : List Container) → (options stdio : Ptr) → List (Ptr × Container) → M (List Container)
unfolding free_stdio move_containers
process_options_set_stdio old options stdio containers = do
  free_stdio old
  moved ← move_containers containers
  decref stdio
  decref options
  pure moved

-- the loop of the options' end over the array
unfoldable pub release_stdio : List Container → M (Unit {0})
release_stdio [] = pure tt
release_stdio (c ∷ cs) =
    if has_stream c.flags
    then (get c.address stream >>= decref) >> release_stdio cs
    else release_stdio cs

unfoldable pub process_options_finalize : (stdio : List Container) → (options : Ptr) → M (Unit {0})
unfolding release_stdio free_stdio
process_options_finalize stdio options = do
  clear options exit_cb
  clear options file
  clear options args
  clear options env
  clear options cwd
  release_stdio stdio
  free_stdio stdio
