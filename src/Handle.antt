-- ===== src/Handle.antt =====
-- handle.h and handle.c: what every uv_handle_t has in common. `dat` is its field `data`.
use uv_mbt.Base.{◌∙◌, ℤ, ◌≡◌, refl, ◌≢◌, [], ◌∷◌, arith}
use uv_mbt.Memory.{
  Ptr, null, loop, dat, State, M, ◌>>=◌, ◌>>◌, pure, get, put, incref, decref, write,
}
use uv_mbt.Memory.Idioms.{put-Wrote, replace, replace-Wrote, get-at, IsQuiet, Consumes}
use uv_mbt.Memory.Ledger.{Ends, Moves}
use uv_mbt.Memory.Rules.{
  same-null, weaken, Has, Reads, seq, settle, pure-Ends, incref-Same, decref-Same,
}

unfoldable pub handle_set_data : (handle cb : Ptr) → M (Unit {0})
handle_set_data handle cb = replace handle dat cb

-- the callback of `uv_close`; `code` is the MoonBit code of the closure
unfoldable pub close_cb : (code : Ptr → M (Unit {0})) → (handle : Ptr) → M (Unit {0})
close_cb code handle = do cb ← get handle dat; put handle dat null; decref handle; code cb

unfoldable pub close : (uv_close : Ptr → M (Unit {0})) → (handle on_close : Ptr) → M (Unit {0})
unfolding handle_set_data
close uv_close handle on_close = do handle_set_data handle on_close; uv_close handle; decref handle

unfoldable pub is_closing : (uv_is_closing : Ptr → M ℤ) → (handle : Ptr) → M ℤ
is_closing uv_is_closing handle = do closing ← uv_is_closing handle; decref handle; pure closing

unfoldable pub handle_loop : (handle : Ptr) → M Ptr
handle_loop handle = do l ← get handle loop; incref l; decref handle; pure l

-- Closing a handle stores the close callback, releases what was stored and the parameter, and
-- writes no other field, where `uv_close` touches neither fields nor counts.
pub close-Ends :
    (uv_close : Ptr → M (Unit {0})) (handle on_close : Ptr) (s : State)
    → IsQuiet (uv_close handle)
    → handle ≢ null
    → Has handle dat s
    → Ends
        (λ _ t. t.cells ≡ write handle dat on_close s.cells)
        (on_close ∷ handle ∷ [])
        []
        s
        (close uv_close handle on_close s)
unfolding close
close-Ends uv_close handle on_close s closes hn h =
    seq (replace-Wrote handle dat on_close s h)
      λ _ t w _. seq (closes t) λ _ u k _. weaken (decref-Same handle u hn) λ _ v k'. k' ∙ (k ∙ w)

-- When libuv has closed a handle, its own reference to the handle is released and the stored
-- callback is moved into the MoonBit code: nothing is lost and nothing is released twice.
pub close_cb-Moves :
    (code : Ptr → M (Unit {0})) (handle cb : Ptr) (s : State)
    → Consumes (cb ∷ []) [] (code cb)
    → handle ≢ null
    → Reads handle dat cb s
    → Moves (handle ∷ []) [] s (close_cb code handle s)
unfolding close_cb
close_cb-Moves code handle cb s consumes hn e = get-at handle dat _ e (
    settle
      (seq (put-Wrote handle dat null e)
        λ _ t _ _. seq (decref-Same handle t hn) λ _ u _ _. consumes u)
      (λ p i. omega (arith, same-null p i)))

-- The event loop of a handle is returned with a reference of its own, and the parameter released.
handle_loop-Ends :
    (handle l : Ptr) (s : State)
    → handle ≢ null
    → l ≢ null
    → Reads handle loop l s
    → Ends (λ x t. (x ≡ l) × (t.cells ≡ s.cells)) (handle ∷ []) (l ∷ []) s (handle_loop handle s)
unfolding handle_loop
handle_loop-Ends handle l s hn hl e = get-at handle loop _ e (
    settle
      (seq (incref-Same l s hl)
        λ _ t k _. seq (decref-Same handle t hn) λ _ u k' _. pure-Ends l u (refl, k' ∙ k))
      (λ p i. omega arith))
