-- ===== src/System/Lawful.antt =====
-- The functions of the five kinds of handles owe what a system needs of them.
use uv_mbt.Memory.Rules.{weaken}
use uv_mbt.System.{IsLawful}
use uv_mbt.Watcher.Idle.{idle_make, idle_init, idle_start, idle_cb, idle_stop, idle_finalize}
use uv_mbt.Watcher.Check.{check_make, check_init, check_start, check_cb, check_stop, check_finalize}
use uv_mbt.Watcher.Prepare.{
  prepare_make, prepare_init, prepare_start, prepare_cb, prepare_stop, prepare_finalize,
}
use uv_mbt.Watcher.Timer.{timer_make, timer_init, timer_start, timer_cb, timer_stop, timer_finalize}
use uv_mbt.Watcher.Poll.{poll_make, poll_init, poll_start, poll_cb, poll_stop, poll_finalize}
use uv_mbt.System.Kinds.{Kind, idle, check, prepare, timer, poll, Uv, binding, IsDocumented}
use uv_mbt.System.Bodies.{made-Ends, share-Ends, cleared, dropped, start-Wrote, stop-Wrote}

-- Of each of the five kinds: a new handle has two fields that hold NULL; the initialisation stores the loop,
-- the start the callback and the stop NULL, and they release what they replace and the parameters that they own; the C
-- callback shares the closure and the handle; and the finalizer releases what the handle holds, once each.
pub binding-IsLawful : (uv : Uv) → IsDocumented uv → (k : Kind) → IsLawful (binding uv k)
unfolding binding idle_make idle_init idle_start idle_cb idle_stop idle_finalize check_make
    check_init check_start check_cb check_stop check_finalize prepare_make prepare_init
    prepare_start prepare_cb prepare_stop prepare_finalize timer_make timer_init timer_start
    timer_cb timer_stop timer_finalize poll_make poll_init poll_start poll_cb poll_stop
    poll_finalize
binding-IsLawful uv doc idle = record {
  make_law = λ h s. made-Ends h s;
  init_law = λ l h s e. weaken (doc.idle_init_law l h s e) (λ x t q. q.1);
  start_law = λ h cb s hn hd.
      start-Wrote h cb (uv.uv_idle_start h) doc.answer s hn hd (doc.idle_start_law h);
  fire_law = λ h cb s hn cn e. share-Ends h cb s hn cn e;
  stop_law = λ h s hn hd. stop-Wrote h (uv.uv_idle_stop h) doc.answer s hn hd (doc.idle_stop_law h);
  finalize_law = λ h l d s ln shape el ed. cleared h s shape;
}
binding-IsLawful uv doc check = record {
  make_law = λ h s. made-Ends h s;
  init_law = λ l h s e. weaken (doc.check_init_law l h s e) (λ x t q. q.1);
  start_law = λ h cb s hn hd.
      start-Wrote h cb (uv.uv_check_start h) doc.answer s hn hd (doc.check_start_law h);
  fire_law = λ h cb s hn cn e. share-Ends h cb s hn cn e;
  stop_law =
      λ h s hn hd. stop-Wrote h (uv.uv_check_stop h) doc.answer s hn hd (doc.check_stop_law h);
  finalize_law = λ h l d s ln shape el ed. cleared h s shape;
}
binding-IsLawful uv doc prepare = record {
  make_law = λ h s. made-Ends h s;
  init_law = λ l h s e. weaken (doc.prepare_init_law l h s e) (λ x t q. q.1);
  start_law = λ h cb s hn hd.
      start-Wrote h cb (uv.uv_prepare_start h) doc.answer s hn hd (doc.prepare_start_law h);
  fire_law = λ h cb s hn cn e. share-Ends h cb s hn cn e;
  stop_law =
      λ h s hn hd. stop-Wrote h (uv.uv_prepare_stop h) doc.answer s hn hd (doc.prepare_stop_law h);
  finalize_law = λ h l d s ln shape el ed. cleared h s shape;
}
binding-IsLawful uv doc (timer timeout repeat) = record {
  make_law = λ h s. made-Ends h s;
  init_law = λ l h s e. weaken (doc.timer_init_law l h s e) (λ x t q. q.1);
  start_law = λ h cb s hn hd.
      start-Wrote h cb (uv.uv_timer_start h timeout repeat) doc.answer s hn hd
        (doc.timer_start_law h timeout repeat);
  fire_law = λ h cb s hn cn e. share-Ends h cb s hn cn e;
  stop_law =
      λ h s hn hd. stop-Wrote h (uv.uv_timer_stop h) doc.answer s hn hd (doc.timer_stop_law h);
  finalize_law = λ h l d s ln shape el ed. dropped h l d s ln shape el ed;
}
binding-IsLawful uv doc (poll fd events status) = record {
  make_law = λ h s. made-Ends h s;
  init_law = λ l h s e. weaken (doc.poll_init_law l h fd s e) (λ x t q. q.1);
  start_law = λ h cb s hn hd.
      start-Wrote h cb (uv.uv_poll_start h events) doc.answer s hn hd (doc.poll_start_law h events);
  fire_law = λ h cb s hn cn e. share-Ends h cb s hn cn e;
  stop_law = λ h s hn hd. stop-Wrote h (uv.uv_poll_stop h) doc.answer s hn hd (doc.poll_stop_law h);
  finalize_law = λ h l d s ln shape el ed. cleared h s shape;
}
