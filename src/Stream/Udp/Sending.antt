-- ===== src/Stream/Udp/Sending.antt =====
-- src/udp.c: the ownership of a request that sends a datagram.
use uv_mbt.Base.{ℤ, ◌≡◌, refl, ◌∙◌, none, List, [], ◌∷◌, arith}
use uv_mbt.Memory.{Ptr, null, dat, cb, bufs, State, M, write, make, put, decref}
use uv_mbt.Memory.Cells.{read-has}
use uv_mbt.Memory.Idioms.{Answers, Consumes, Leaves, replace}
use uv_mbt.Memory.Ledger.{Ends, Moves}
use uv_mbt.Memory.Rules.{Reads, seq, settle, decref-Same, release-Same, and_then-none}
use uv_mbt.Memory.Shapes.{NotNull, decrefs-Ends}
use uv_mbt.Stream.Arrays.{RefArray, IntArray, Covers, zip_bufs, init_bufs, init_bufs-then}
use uv_mbt.Stream.Reading.{Buf}
use uv_mbt.Stream.Requests.{filled, request-Ends, request_cb-Moves}
use uv_mbt.Stream.Udp.{udp_send, udp_send_cb, udp_try_send}

-- Where the arrays of offsets and lengths are long enough, and `uv_udp_send` answers `r` and touches
-- neither fields nor counts: sending to an address makes one record, which owns the callback and the
-- buffers and which the request owns, releases what the request owned before, the two arrays, the
-- address and the handle, writes nothing else, and returns libuv's answer; the reference to the
-- request stays with libuv, and the callback moves it, with the closure, into the MoonBit code.
pub udp_send_ownership :
    (uv_udp_send : Ptr → Ptr → List Buf → Ptr → M ℤ) (code : Ptr → Ptr → ℤ → M (Unit {0}))
    (fresh req udp addr on_send d c : Ptr) (arrays : RefArray) (offsets lengths : IntArray)
    (r status : ℤ) (s : State)
    → Covers arrays.items offsets.items lengths.items
    → Answers r (uv_udp_send req udp (zip_bufs arrays.items offsets.items lengths.items) addr)
    → Consumes (c ∷ req ∷ []) [] (code c req status)
    → NotNull (offsets.address ∷ lengths.address ∷ addr ∷ udp ∷ [])
    → Reads req dat d s
    → Reads d cb c s
    → Ends
        (λ x t. (x ≡ r) × (t.cells ≡ write req dat fresh (filled fresh arrays.address on_send s)))
        (arrays.address ∷ on_send ∷ offsets.address ∷ lengths.address ∷ addr ∷ udp ∷ req ∷ [])
        (req ∷ [])
        s
        (udp_send uv_udp_send fresh req udp arrays offsets lengths addr on_send s)
      × Moves (req ∷ []) [] s (udp_send_cb code req status s)
unfolding udp_send udp_send_cb
udp_send_ownership uv_udp_send code fresh req udp addr on_send d c arrays offsets lengths r status s
      long answers consumes nn ed ec =
    (
      settle
          (init_bufs-then arrays offsets lengths _ long (
            request-Ends
              (uv_udp_send req udp (zip_bufs arrays.items offsets.items lengths.items) addr) fresh
              req arrays.address on_send r (offsets.address ∷ lengths.address ∷ addr ∷ udp ∷ []) s
              answers nn (read-has req dat d s.cells ed)))
          (λ p i. omega arith),
      request_cb-Moves code req d c status s consumes ed ec,
    )

-- Sending with no address, as on a connected socket, faults in every state, whatever libuv does.
udp_send-none :
    (uv_udp_send : Ptr → Ptr → List Buf → Ptr → M ℤ) (fresh req udp on_send : Ptr)
    (arrays : RefArray) (offsets lengths : IntArray) (s : State)
    → udp_send uv_udp_send fresh req udp arrays offsets lengths null on_send s ≡ none
unfolding udp_send decref
udp_send-none uv_udp_send fresh req udp on_send arrays offsets lengths s =
    and_then-none (init_bufs arrays offsets lengths s) _ λ bs t.
      and_then-none (make fresh (cb ∷ bufs ∷ []) t) _ λ d u.
        and_then-none (put d bufs arrays.address u) _ λ _ v.
          and_then-none (put d cb on_send v) _ λ _ w. and_then-none (replace req dat d w) _ λ _ x.
            and_then-none (uv_udp_send req udp bs null x) _ λ r y.
              and_then-none (decref offsets.address y) _
                λ _ z. and_then-none (decref lengths.address z) _ λ _ s'. refl

-- Trying to send, with an address or without one, makes no record: it releases the buffers, the two
-- arrays, the address and the handle, and returns libuv's answer.
udp_try_send-Ends :
    (uv_udp_try_send : Ptr → List Buf → Ptr → M ℤ) (udp addr : Ptr) (arrays : RefArray)
    (offsets lengths : IntArray) (r : ℤ) (s : State)
    → Covers arrays.items offsets.items lengths.items
    → Answers r (uv_udp_try_send udp (zip_bufs arrays.items offsets.items lengths.items) addr)
    → NotNull (arrays.address ∷ offsets.address ∷ lengths.address ∷ udp ∷ [])
    → Ends
        (Leaves r s)
        (arrays.address ∷ offsets.address ∷ lengths.address ∷ addr ∷ udp ∷ [])
        []
        s
        (udp_try_send uv_udp_try_send udp arrays offsets lengths addr s)
unfolding udp_try_send
udp_try_send-Ends uv_udp_try_send udp addr arrays offsets lengths r s long answers
      (ha, (ho, (hl, nn))) =
    init_bufs-then arrays offsets lengths _ long (
      seq (answers s) λ x t (e, k) _. seq (decref-Same arrays.address t ha) λ _ u k2 _.
        seq (decref-Same offsets.address u ho) λ _ v k3 _.
          seq (decref-Same lengths.address v hl) λ _ w k4 _. seq (release-Same addr w) λ _ y k5 _.
            decrefs-Ends (udp ∷ []) x y nn λ z k6. (e, k6 ∙ (k5 ∙ (k4 ∙ (k3 ∙ (k2 ∙ k))))))
