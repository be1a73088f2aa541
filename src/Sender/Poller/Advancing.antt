-- ===== src/Sender/Poller/Advancing.antt =====
-- internal/sender/poller.go, pollOnce and pollSliced: the cursor moves over a window only when each of
-- its points is in a frame of the log or was forwarded before, or is too large for a frame alone.
use influx_sync.Base.{
  ℕ, ◌+◌, ◌-◌, ◌*◌, ◌^◌, ◌≤◌, ◌<◌, ◌≡◌, refl, sym, ap, ◌∙◌, Bool, Option, none, some, List, [], ◌∷◌,
  ◌++◌, ltb, leb, ◌==◌, if◌then◌else◌, length, arith, All, if_both, inl, inr, append_assoc,
  append-nil,
}
use mathlib.Core.Path.{subst}
use influx_sync.Protocol.{Compression}
use influx_sync.Wal
use influx_sync.Wal.{Wal}
use influx_sync.Wal.Queue.{Queue, Represents}
use influx_sync.Wal.Appending.{stamped}
use influx_sync.Model.Rendering.{Point}
use influx_sync.Sender.Dedup.Evicting.{Added}
use influx_sync.Sender.FastPath.Skipping.{IsCovered}
use influx_sync.Sender.Framing.Holding.{Framed, no_points, stamped-append}
use influx_sync.Sender.Queries.{query_parallel}
use influx_sync.Sender.Poller.{
  Poller, PollerConfig, Env, Slot, window_size, window_target, filter_window, told, cursor_saved,
  save_points, next_slot, launch_prefetch, window_saved, with_points, consume, slice_saved,
  dense_saved, empty_saved, with_slice,
}
use influx_sync.Sender.Poller.Window.{
  Fast, AreTimed, filter_window-IsCovered, told-Fast, Moved, Stuck, cursor_saved-cases,
  save_points-cases,
}

-- `answers s e ps` says that the source answered a query from `s` to `e` with `ps`.
module _ (c : Compression) (typ : ℕ) (answers : ℕ → ℕ → List Point → Type 0) (added : Added) where
  -- From `s` to `e` in windows that join: each was queried, each point of the answer is in a frame, was
  -- forwarded, or is too large alone, and the frames are those of the windows in their order.
  pub data Advances : ℕ → ℕ → List (List ℕ) → Type 0 where
    stop : (s : ℕ) → Advances s s []
    window :
        (s e e' : ℕ) (ps out : List Point) (fs more : List (List ℕ))
        → answers s e ps
        → All (IsCovered added out) ps
        → Framed c typ out fs
        → Advances e e' more
        → Advances s e' (fs ++ more)

  -- What a poll has done: the frames of the windows that the cursor has passed are at the end of the
  -- log's queue, and behind them may be frames of a window that it has not passed.
  pub record Progress (w w' : Wal) (q : Queue) : Type 0 where
    pub frames : List (List ℕ)
    pub extra : List (List ℕ)
    pub advanced : Advances w.cp.cursor_ns w'.cp.cursor_ns frames
    pub queue : Represents w' (q ++ stamped w.cp.next_seq (frames ++ extra))

  pub none-Progress : (w : Wal) (q : Queue) → Represents w q → Progress w w q
  none-Progress w q r = record {
    frames = [];
    extra = [];
    advanced = stop w.cp.cursor_ns;
    queue = subst (λ t. Represents w t) (sym (append-nil q)) r;
  }

  stay-Progress : (w w' : Wal) (q : Queue) → Stuck w w' q → Progress w w' q
  stay-Progress w w' q s = record {
    frames = [];
    extra = s.extra;
    advanced = subst (λ e. Advances w.cp.cursor_ns e []) (sym s.stays) (stop w.cp.cursor_ns);
    queue = s.queue;
  }

  -- One window, and what follows it.
  Progress-window :
      (w v w' : Wal) (q : Queue) (s e : ℕ) (ps out : List Point)
      → w.cp.cursor_ns ≡ s
      → answers s e ps
      → All (IsCovered added out) ps
      → (m : Moved c typ w v q e out) → Progress v w' (q ++ stamped w.cp.next_seq m.frames)
      → Progress w w' q
  Progress-window w v w' q s e ps out at_s answered covered m h =
      let onward : Advances e w'.cp.cursor_ns h.frames =
        subst (λ t. Advances t w'.cp.cursor_ns h.frames) m.at_end h.advanced in
      let joined : (q ++ stamped w.cp.next_seq m.frames)
            ++ stamped v.cp.next_seq (h.frames ++ h.extra)
          ≡ q ++ stamped w.cp.next_seq ((m.frames ++ h.frames) ++ h.extra) =
        ap (λ (n : ℕ). (q ++ stamped w.cp.next_seq m.frames) ++ stamped n (h.frames ++ h.extra))
          m.next
        ∙ append_assoc q _ _
        ∙ ap (λ t. q ++ t) (sym (stamped-append w.cp.next_seq m.frames (h.frames ++ h.extra)))
        ∙ ap (λ t. q ++ stamped w.cp.next_seq t) (sym (append_assoc m.frames h.frames h.extra)) in
      record {
        frames = m.frames ++ h.frames;
        extra = h.extra;
        advanced =
            subst (λ t. Advances t w'.cp.cursor_ns (m.frames ++ h.frames)) (sym at_s)
              (window s e w'.cp.cursor_ns ps out m.frames h.frames answered covered m.of_points
                onward);
        queue = subst (λ t. Represents w' t) joined h.queue;
      }

  done_window :
      (w v : Wal) (q : Queue) (e : ℕ) (ps out : List Point) (typ' : ℕ)
      → typ' ≡ typ
      → answers w.cp.cursor_ns e ps
      → All (IsCovered added out) ps
      → Moved c typ' w v q e out
      → Progress w v q
  done_window w v q e ps out typ' t answered covered m =
      let m' : Moved c typ w v q e out = subst (λ n. Moved c n w v q e out) t m in
      Progress-window w v v q w.cp.cursor_ns e ps out refl answered covered m'
        (none-Progress v (q ++ stamped w.cp.next_seq m'.frames) m'.queue)

  abbrev pub Slotted : Option Slot → Type 0
  Slotted none = Unit {0}
  Slotted (some slot) = (ps : List Point) → slot.points ≡ some ps → answers slot.cursor slot.end ps

  -- The progress of the log, and what the next poll starts with.
  pub record Polled (w : Wal) (p' : Poller) (q : Queue) : Type 0 where
    pub progress : Progress w p'.wal q
    pub fast : Fast added p'.fast_path
    pub slot : Slotted p'.prefetch

  module _ (env : Env) (most : ℕ)
      (honest : (n s e : ℕ) (ps : List Point)
        → query_parallel env.query n s e ≡ some ps
        → answers s e ps)
      (timed : (s e : ℕ) (ps : List Point)
        → answers s e ps
        → AreTimed ps × (length ps ≤ most)) where
    next_slot-Slotted :
        (p : Poller) (cursor : ℕ) → Slotted p.prefetch → Slotted (next_slot c env p cursor)
    unfolding next_slot
    next_slot-Slotted p cursor h =
        let size = window_size p.cfg.window p.underfill_streak in
        let max_end = env.later - p.cfg.watermark in
        let end = if ltb max_end (cursor + size) then max_end else cursor + size in
        if_both Slotted (ltb p.cfg.max_window size) _ _ (λ wide. h)
          (λ narrow.
            if_both Slotted (leb end cursor) _ _ (λ ended. h)
              (λ open_window. λ ps e. honest p.cfg.parallel_queries cursor end ps e))

    -- A window of points that are there.
    with_points-Polled :
        (p : Poller) (q : Queue) (end : ℕ) (blocked : Bool) (o : Option (List Point))
        → p.cfg.compression ≡ typ
        → Represents p.wal q
        → p.wal.cp.next_seq + most < 2 ^ 64
        → Fast added p.fast_path
        → Slotted p.prefetch
        → ((ps : List Point) → o ≡ some ps → answers p.wal.cp.cursor_ns end ps)
        → Polled p.wal (with_points c env p p.wal.cp.cursor_ns end blocked o).0 q
    unfolding with_points window_saved launch_prefetch
    with_points-Polled p q end blocked none t r room fast slot a = record {
      progress = none-Progress p.wal q r;
      fast = fast;
      slot = slot;
    }
    with_points-Polled p q end blocked (some ps) t r room fast slot a =
        let cursor = p.wal.cp.cursor_ns in
        let answered = a ps refl in
        let (small, short) = timed cursor end ps answered in
        let (kept, covered, few) = filter_window-IsCovered added p.fast_path cursor ps fast small in
        let fp = (filter_window p.fast_path cursor ps).0 in
        let rest = (filter_window p.fast_path cursor ps).1 in
        let streak = if ltb (length ps) (window_target p.cfg) then p.underfill_streak + 1 else 0 in
        let p2 : Poller = record p {
          underfill_streak = streak;
          fast_path = fp;
          prefetch = next_slot c env p end;
        } in
        let out = save_points c env p2 end rest in
        elim (save_points-cases c env p2 end rest q r (omega (arith, room, few, short))) [
          | inl (done, m) ↦ simp (done) (record {
            progress = done_window p.wal out.0 q end ps rest p.cfg.compression t answered covered m;
            fast = kept;
            slot = next_slot-Slotted p end slot;
          })
          | inr (failed, s) ↦
              simp (failed)
                (record { progress = stay-Progress p.wal out.0 q s; fast = kept; slot = tt })
        ]

    -- A prefetched answer is the answer for its window.
    pub consume-Polled :
        (p : Poller) (q : Queue) (end : ℕ) (blocked : Bool) (o : Option Slot)
        → p.cfg.compression ≡ typ
        → Represents p.wal q
        → p.wal.cp.next_seq + most < 2 ^ 64
        → Fast added p.fast_path
        → Slotted p.prefetch
        → Slotted o
        → Polled p.wal (consume c env p p.wal.cp.cursor_ns end blocked o).0 q
    unfolding consume
    consume-Polled p q end blocked none t r room fast slot held =
        with_points-Polled p q end blocked _ t r room fast slot
          (λ ps e. honest p.cfg.parallel_queries p.wal.cp.cursor_ns end ps e)
    consume-Polled p q end blocked (some s) t r room fast slot held =
        if_both (λ (x : Poller × Bool). Polled p.wal x.0 q) (s.cursor == p.wal.cp.cursor_ns) _ _
          (λ same.
            with_points-Polled p q s.end s.blocked s.points t r room fast slot
              (λ ps e. subst (λ n. answers n s.end ps) (ground (arith, same)) (held ps e)))
          (λ other.
            with_points-Polled p q end blocked _ t r room fast slot
              (λ ps e. honest p.cfg.parallel_queries p.wal.cp.cursor_ns end ps e))

    -- What the rest of the slices does from `e` on, with room for `k` of them.
    abbrev pub Continues : (Poller → Poller × Bool) → PollerConfig → ℕ → ℕ → Type 0
    Continues next cfg e k =
        (p : Poller) (q : Queue)
        → p.cfg ≡ cfg
        → p.wal.cp.cursor_ns ≡ e
        → Represents p.wal q
        → p.wal.cp.next_seq + most * k < 2 ^ 64
        → Fast added p.fast_path
        → Slotted p.prefetch
        → Polled p.wal (next p).0 q

    one_more : (k : ℕ) → most * (k + 1) ≡ most * k + most
    one_more k = omega arith

    empty-Moved :
        (w v : Wal) (q : Queue) (e : ℕ)
        → Represents v q
        → v.cp.next_seq ≡ w.cp.next_seq
        → v.cp.cursor_ns ≡ e
        → Moved c typ w v q e []
    empty-Moved w v q e r n at_end = record {
      frames = [];
      of_points = no_points;
      queue = subst (λ t. Represents v t) (sym (append-nil q)) r;
      next = omega (arith, n);
      few = omega arith;
      at_end = at_end;
    }

    pub with_slice-Polled :
        (next : Poller → Poller × Bool) (e k : ℕ) (p : Poller) (q : Queue) (blocked : Bool)
        (o : Option (List Point))
        → Continues next p.cfg e k
        → p.cfg.compression ≡ typ
        → Represents p.wal q
        → p.wal.cp.next_seq + most * (k + 1) < 2 ^ 64
        → Fast added p.fast_path
        → Slotted p.prefetch
        → ((ps : List Point) → o ≡ some ps → answers p.wal.cp.cursor_ns e ps)
        → Polled p.wal (with_slice c env next p p.wal.cp.cursor_ns e blocked o).0 q
    unfolding with_slice slice_saved dense_saved empty_saved
    with_slice-Polled next e k p q blocked none go t r room fast slot a = record {
      progress = none-Progress p.wal q r;
      fast = fast;
      slot = slot;
    }
    with_slice-Polled next e k p q blocked (some []) go t r room fast slot a =
        let out : Wal × Bool = cursor_saved (Wal.set_cursor p.wal env.saved_at e) in
        let (kept, same_next, moved) = cursor_saved-cases p.wal env.saved_at e q r in
        let fp = told c env p.fast_path p.wal.cp.cursor_ns in
        let told_fast = told-Fast c env added p.fast_path p.wal.cp.cursor_ns fast in
        let p1 : Poller = record p {
          wal = out.0;
          underfill_streak = p.underfill_streak + 1;
          fast_path = fp;
        } in
        elim moved [
          | inl (done, at_end) ↦
              let m = empty-Moved p.wal out.0 q e kept same_next at_end in
              let h =
                go p1 (q ++ stamped p.wal.cp.next_seq m.frames) refl at_end m.queue
                  (omega (arith, m.next, m.few, room, one_more k)) told_fast slot in
              simp (done) (record {
                progress =
                    Progress-window p.wal out.0 (next p1).0.wal q p.wal.cp.cursor_ns e [] [] refl
                      (a [] refl) tt m h.progress;
                fast = h.fast;
                slot = h.slot;
              })
          | inr (failed, stays) ↦ simp (failed) (record {
            progress = stay-Progress p.wal out.0 q (record {
              extra = [];
              queue = subst (λ t. Represents out.0 t) (sym (append-nil q)) kept;
              stays = stays;
            });
            fast = told_fast;
            slot = slot;
          })
        ]
    with_slice-Polled next e k p q blocked (some (x ∷ xs)) go t r room fast slot a =
        let cursor = p.wal.cp.cursor_ns in
        let answered = a (x ∷ xs) refl in
        let (small, short) = timed cursor e (x ∷ xs) answered in
        let (kept, covered, few) =
          filter_window-IsCovered added p.fast_path cursor (x ∷ xs) fast small in
        let rest = (filter_window p.fast_path cursor (x ∷ xs)).1 in
        let p1 : Poller = record p { fast_path = (filter_window p.fast_path cursor (x ∷ xs)).0 } in
        let p2 : Poller = record p1 { underfill_streak = 0 } in
        let fits : p.wal.cp.next_seq + length rest < 2 ^ 64 =
          omega (arith, room, few, short, one_more k) in
        let out = save_points c env p1 e rest in
        let out' = save_points c env p2 e rest in
        if_both (λ (y : Poller × Bool). Polled p.wal y.0 q)
          (ltb (length rest) (window_target p.cfg)) _ _
          (λ sparse. elim (save_points-cases c env p1 e rest q r fits) [
            | inl (done, m) ↦
                let m' : Moved c typ p.wal out.0 q e rest =
                  subst (λ n. Moved c n p.wal out.0 q e rest) t m in
                let p3 : Poller = record p1 {
                  wal = out.0;
                  underfill_streak = p.underfill_streak + 1;
                } in
                let h =
                  go p3 (q ++ stamped p.wal.cp.next_seq m'.frames) refl m'.at_end m'.queue
                    (omega (arith, m'.next, m'.few, room, few, short, one_more k)) kept slot in
                simp (done) (record {
                  progress =
                      Progress-window p.wal out.0 (next p3).0.wal q cursor e (x ∷ xs) rest refl
                        answered covered m' h.progress;
                  fast = h.fast;
                  slot = h.slot;
                })
            | inr (failed, s) ↦
                simp (failed)
                  (record { progress = stay-Progress p.wal out.0 q s; fast = kept; slot = slot })
          ])
          (λ dense. elim (save_points-cases c env p2 e rest q r fits) [
            | inl (done, m) ↦ simp (done) (record {
              progress =
                  done_window p.wal out'.0 q e (x ∷ xs) rest p.cfg.compression t answered covered m;
              fast = kept;
              slot = slot;
            })
            | inr (failed, s) ↦
                simp (failed)
                  (record { progress = stay-Progress p.wal out'.0 q s; fast = kept; slot = slot })
          ])
